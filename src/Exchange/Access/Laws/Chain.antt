-- ===== src/Exchange/Access/Laws/Chain.antt =====
-- What the access service asks of the chain, by the kind of the asset.
use dauth.Base.{ℕ, ◌≡◌, ◌≢◌, ◌⊎◌, ◌↔◌, inl, inr, refl, ◌∙◌, sym, subst, ℤ, List, some, All, ok}
use dauth.Ethereum.{Ethereum, Address}
use dauth.Exchange.Models.{
  Library, Json, AssetDid, erc721, ethr, get_contract_address, get_token_id, is_account_level,
}
use dauth.Exchange.Autheval.Masks.{int_array_to_2bit_array}
use dauth.Exchange.Autheval.Masks.Laws.{HasBits}
use dauth.Exchange.Claims.{IdTable, privilege_id_to_name, manufacturer_privilege_id_to_name}
use dauth.Exchange.Proxy.{PermissionRecord}
use dauth.Exchange.Access.{
  AccessRequest, Service, priv_map, permission_record, permissions_on_chain,
}
use dauth.Exchange.Access.Laws.{Named, GrantedOnChain, priv_map_cases}

-- The contract of an asset.
abbrev pub contract_of : AssetDid → Address
contract_of (erc721 d) = d.contract_address
contract_of (ethr d) = d.contract_address

contract_of_lem : (asset : AssetDid) → get_contract_address asset ≡ contract_of asset
unfolding get_contract_address
contract_of_lem (erc721 d) = refl
contract_of_lem (ethr d) = refl

module _ (eth : Ethereum) (lib : Library) (json : Json) {S : Type 0} (s : Service S) where
  -- The record of a token, or of an account, on the chain.
  abbrev pub Recorded : AssetDid → Address → PermissionRecord → Type 0
  Recorded (erc721 d) addr r =
      s.sacd_contract.current_permission_record d.contract_address (some d.token_id) addr ≡ ok r
  Recorded (ethr d) addr r =
      s.sacd_contract.account_permission_records d.contract_address addr ≡ ok r

  pub Recorded-iff :
      (asset : AssetDid) (addr : Address) (r : PermissionRecord)
      → (permission_record eth lib json s asset addr ≡ ok r) ↔ Recorded asset addr r
  unfolding permission_record get_contract_address get_token_id is_account_level
  Recorded-iff (erc721 d) addr r = ((λ h. h), λ h. h)
  Recorded-iff (ethr d) addr r = ((λ h. h), λ h. h)

  -- The bits of a token, or of an account, under a mask.
  abbrev pub Returned : AssetDid → Address → ℕ → ℕ → Type 0
  Returned (erc721 d) addr mask ret =
      s.sacd_contract.get_permissions d.contract_address (some d.token_id) addr mask ≡ ok ret
  Returned (ethr d) addr mask ret =
      s.sacd_contract.get_account_permissions d.contract_address addr mask ≡ ok ret

  Returned-iff :
      (asset : AssetDid) (addr : Address) (mask ret : ℕ)
      → (permissions_on_chain eth lib json s asset addr mask ≡ ok ret)
        ↔ Returned asset addr mask ret
  unfolding permissions_on_chain get_contract_address get_token_id is_account_level
  Returned-iff (erc721 d) addr mask ret = ((λ h. h), λ h. h)
  Returned-iff (ethr d) addr mask ret = ((λ h. h), λ h. h)

  -- The table of privileges of an asset.
  abbrev pub TableOf : AssetDid → IdTable → Type 0
  TableOf asset table =
      ((contract_of asset ≡ s.contract_address_manufacturer)
        × (table ≡ manufacturer_privilege_id_to_name))
      ⊎ ((contract_of asset ≢ s.contract_address_manufacturer) × (table ≡ privilege_id_to_name))

  priv_map-TableOf : (asset : AssetDid) → TableOf asset (priv_map eth lib json s asset)
  priv_map-TableOf asset = rw (← contract_of_lem asset) (priv_map_cases eth lib json s asset)

  TableOf-unique :
      (asset : AssetDid) (table : IdTable)
      → TableOf asset table
      → table ≡ priv_map eth lib json s asset
  TableOf-unique asset table h = elim h [
    | inl (is, e) ↦ elim (priv_map-TableOf asset) [
      | inl (_, f) ↦ e ∙ sym f
      | inr (other, _) ↦ absurd (other is)
    ]
    | inr (other, e) ↦ elim (priv_map-TableOf asset) [
      | inl (is, _) ↦ absurd (other is)
      | inr (_, f) ↦ e ∙ sym f
    ]
  ]

  -- The chain has both bits of every permission of the request, each looked up in the table of the
  -- contract.
  pub record ChainGrants (req : AccessRequest) (addr : Address) : Type 0 where
    pub table : IdTable
    pub ids : List ℤ
    pub mask : ℕ
    pub ret : ℕ
    pub table_of : TableOf req.asset table
    pub named : Named table req.permissions ids
    pub masked : int_array_to_2bit_array ids 128 ≡ ok mask
    pub returned : Returned req.asset addr mask ret
    pub has : All (HasBits ret) ids

  pub ChainGrants-iff :
      (req : AccessRequest) (addr : Address)
      → GrantedOnChain eth lib json s req addr ↔ ChainGrants req addr
  ChainGrants-iff req addr = (
    λ g. record {
      table = priv_map eth lib json s req.asset;
      ids = g.ids;
      mask = g.mask;
      ret = g.ret;
      table_of = priv_map-TableOf req.asset;
      named = g.named;
      masked = g.masked;
      returned = (Returned-iff req.asset addr g.mask g.ret).0 g.returned;
      has = g.has;
    },
    λ c. record {
      ids = c.ids;
      mask = c.mask;
      ret = c.ret;
      named =
          subst (λ t. Named t req.permissions c.ids) (TableOf-unique req.asset c.table c.table_of)
            c.named;
      masked = c.masked;
      returned = (Returned-iff req.asset addr c.mask c.ret).1 c.returned;
      has = c.has;
    },
  )
