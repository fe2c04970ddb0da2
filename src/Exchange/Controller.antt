-- ===== src/Exchange/Controller.antt =====
-- internal/exchange/controllers/httpcontroller: POST /tokens/exchange. The decoded body is an
-- argument, and St is the state of the access service. A format's %q and %v of an error are left
-- out of the texts.
pub mod Laws
pub mod Defaults
pub mod Fills
pub mod Reads
pub mod Tokens
use mathlib.Core.List.{map}
use dauth.Base.{
  ℕ, ℤ, String, List, [], ◌∷◌, Option, none, some, not, ◌&&◌, ◌==◌, is_nil, if◌then◌else◌, str_eq,
  show_int, show_slice, ◌⧺◌, Time, as_rich, Error, plain, wrap, rich_of, Result, ok, err,
}
use dauth.Ethereum.{Ethereum, Address}
use dauth.Exchange.Models.{
  Library, AssetDid, erc721, EventFilter, decode_asset_did, get_contract_address,
}
use dauth.Exchange.Autheval.{or_global, text_or_global}
use dauth.Exchange.Claims.{
  IdTable, name_of, privilege_id_to_name, manufacturer_privilege_id_to_name,
}
use dauth.Exchange.Access.{AccessRequest}
use dauth.Exchange.Signer.{PrivilegeTokenDto}
use dauth.Exchange.Middleware.{Context, get_response_subject, get_user_eth_addr}

pub record TokenRequest : Type 0 where
  pub asset : String
  pub cloud_events : List EventFilter
  pub permissions : List String
  pub audience : List String
  pub token_id : ℤ
  pub privileges : List ℤ
  pub nft_contract_address : String

-- The collaborators: SignPrivilegePayload and ValidateAccess, whose panic is `none`.
pub record ExchangeController (St : Type 0) : Type 0 where
  pub chain_id : ℕ
  pub contract_address_manufacturer : Address
  pub sign_privilege_payload : PrivilegeTokenDto → Time → String → Result String
  pub validate_access : AccessRequest → Address → (ℕ → Time) → St → Option (Result (Unit {0})) × St

-- A token with status 200, or a code and a message.
pub data Response : Type 0 where
  token : String → Response
  failed : ℕ → String → Response

abbrev pub default_audience : List String
default_audience = "dimo.zone" ∷ []

bad_request : String → Error
bad_request msg = rich_of 400 msg (plain msg)

-- writeError
unfoldable pub write_error : Error → Response
write_error e = elim (as_rich e) [
  | none ↦ failed 500 "Internal error."
  | some (code, message) ↦ failed (if code == 0 then 500 else code) message
]

pub add_default : EventFilter → EventFilter
add_default e = record {
  event_type = text_or_global e.event_type;
  source = text_or_global e.source;
  ids = or_global e.ids;
  tags = or_global e.tags;
}

unfoldable pub add_default_identifiers : AccessRequest → AccessRequest
unfolding add_default
add_default_identifiers req = record {
  asset = req.asset;
  permissions = req.permissions;
  event_filters = map add_default req.event_filters;
}

-- The loop of getPermissionsFromPrivileges: the names, and the identifiers that have none.
names_of : IdTable → List ℤ → List String × List ℤ
names_of t [] = ([], [])
names_of t (i ∷ is) =
    let (found, unknown) = names_of t is in
    elim (name_of t i) [ none ↦ ("" ∷ found, i ∷ unknown) | some n ↦ (n ∷ found, unknown) ]

unknown_privileges : List ℤ → Error
unknown_privileges is =
    let m = "unknown privileges " ⧺ show_slice (map show_int is) in rich_of 400 m (plain m)

module _ (eth : Ethereum) (lib : Library) {St : Type 0} (t : ExchangeController St) where
  pub get_permissions_from_privileges : List ℤ → Address → Result (List String)
  unfolding names_of unknown_privileges
  get_permissions_from_privileges privileges contract =
      let table =
        if contract == t.contract_address_manufacturer
        then manufacturer_privilege_id_to_name
        else privilege_id_to_name in
      let (found, unknown) = names_of table privileges in
      if not (is_nil unknown) then err (unknown_privileges unknown) else ok found

  pub asset_did_from_token_req : TokenRequest → Result AssetDid
  unfolding bad_request
  asset_did_from_token_req req =
      if not (str_eq req.asset "")
      then elim (decode_asset_did lib req.asset) [
        | err _ ↦ err (bad_request ("Invalid asset DID " ⧺ req.asset))
        | ok d ↦ ok d
      ]
      else if not (eth.is_hex_address req.nft_contract_address)
      then err (bad_request ("Invalid NFT contract address " ⧺ req.nft_contract_address))
      else ok (
          erc721 (record {
            chain_id = t.chain_id;
            contract_address = eth.hex_to_address req.nft_contract_address;
            token_id = req.token_id;
          }))

  pub token_req_to_access_req : TokenRequest → Result AccessRequest
  unfolding asset_did_from_token_req get_permissions_from_privileges
  token_req_to_access_req req = elim (asset_did_from_token_req req) [
    | err e ↦ err e
    | ok asset ↦
        elim (if is_nil req.permissions
          then get_permissions_from_privileges req.privileges (get_contract_address asset)
          else ok req.permissions) [
            | err e ↦ err e
            | ok permissions ↦ ok (record {
              asset = asset;
              permissions = permissions;
              event_filters = req.cloud_events;
            })
          ]
  ]

  pub create_and_return_token : Context → List String → AccessRequest → Time → String → Response
  create_and_return_token ctx aud req now jti = elim (get_response_subject ctx) [
    | err e ↦ write_error e
    | ok subject ↦
        let dto : PrivilegeTokenDto = record {
          access_request = req;
          audience = if is_nil aud then default_audience else aud;
          response_subject = subject;
        } in
        elim (t.sign_privilege_payload dto now jti) [
          | err e ↦ write_error (wrap "failed to sign privilege payload" e)
          | ok tk ↦ token tk
        ]
  ]

  -- ExchangeToken; `none` is a panic of the access check. `clock` is what the rounds of the access
  -- check read, and `now` and `jti` are what the signer takes.
  unfoldable pub exchange_token :
      Result TokenRequest → Context → (ℕ → Time) → Time → String → St → Option Response × St
  unfolding token_req_to_access_req create_and_return_token add_default_identifiers bad_request
  exchange_token body ctx clock now jti st = elim body [
    | err _ ↦ (some (write_error (bad_request "Couldn't parse request body.")), st)
    | ok req ↦ elim (token_req_to_access_req req) [
      | err e ↦ (some (write_error e), st)
      | ok bare ↦
          if is_nil bare.permissions && is_nil bare.event_filters
          then (
            some (write_error (bad_request "Please provide at least one privilege or cloudevent")),
            st,
          )
          else (let access_req = add_default_identifiers bare in
              elim (get_user_eth_addr eth ctx) [
                | err e ↦ (some (write_error (rich_of 401 "no valid ethereum_address claim" e)), st)
                | ok addr ↦
                    let (verdict, st') = t.validate_access access_req addr clock st in
                    elim verdict [
                      | none ↦ (none, st')
                      | some (err e) ↦
                          (some (write_error (wrap "failed to validate access" e)), st')
                      | some (ok _) ↦
                          (some (create_and_return_token ctx req.audience access_req now jti), st')
                    ]
              ])
    ]
  ]
