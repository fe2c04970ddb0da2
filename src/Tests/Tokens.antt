-- ===== src/Tests/Tokens.antt =====
-- The identifiers in bob's permission token.
use dauth.Base.{◌≡◌, ◌≢◌, ◌⊎◌, refl, pos, [], ◌∷◌, All, bit, ok}
use dauth.Exchange.Models.{get_contract_address, get_token_id, is_account_level}
use dauth.Exchange.Claims.{privilege_id_to_name, id_of}
use dauth.Exchange.Access.{priv_map, permissions_on_chain}
use dauth.Exchange.Access.Laws.{GrantedOnChain}
use dauth.Exchange.Proxy.{get_permissions, get_vehicle_sacd}
use dauth.Exchange.Signer.{PrivilegeTokenDto, TokenSigner, payload}
use dauth.Exchange.Signer.Laws.{payload_privilege_ids}
use dauth.Tests.Accesses.{access, want, mask_of_location}
use dauth.Tests.Samples.{bob, eth, lib, json}

on_chain : GrantedOnChain eth lib json access want bob
unfolding priv_map permissions_on_chain get_contract_address get_token_id is_account_level
    get_permissions get_vehicle_sacd privilege_id_to_name id_of bit
on_chain = record {
  ids = pos 3 ∷ [];
  mask = 0xc0;
  ret = 0xc0;
  named = (refl, tt);
  masked = mask_of_location;
  returned = refl;
  has = ((refl, refl), tt);
}

abbrev signer : TokenSigner
signer = record { keys = λ t. ok t.subject; issuer = "dauth"; ttl = pos 1000 }

abbrev dto : PrivilegeTokenDto
dto = record { access_request = want; audience = "dimo.zone" ∷ []; response_subject = "0xb" }

payload_privilege_ids_example :
    ((get_contract_address want.asset ≢ access.contract_address_manufacturer)
      × ((payload lib signer dto 60 "jti").custom.privilege_ids ≡ on_chain.ids))
    ⊎ ((get_contract_address want.asset ≡ access.contract_address_manufacturer)
        × All (λ i. i ≡ pos 0) (payload lib signer dto 60 "jti").custom.privilege_ids)
payload_privilege_ids_example =
    payload_privilege_ids eth lib json access signer dto 60 "jti" bob on_chain
