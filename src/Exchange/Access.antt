-- ===== src/Exchange/Access.antt =====
-- internal/exchange/services/access: whether a developer licence may have a token for an asset. The
-- signed document decides, and for a request without event filters the record on the chain decides
-- where the document does not grant it. The state S is that of the template service.
pub mod Laws
use dauth.Base.{
  ℕ, ℤ, pos, String, List, [], ◌∷◌, Option, none, some, Bool, true, false, not, ◌==◌, is_nil,
  if◌then◌else◌, str_eq, show_slice, show_int, ◌⧺◌, Time, as_rich, Error, wrap, rich, rich_of,
  Result, ok, err,
}
use mathlib.Core.List.{map}
use dauth.Ethereum.{Ethereum, Address}
use dauth.Exchange.Models.{
  Library, AssetDid, is_account_level, get_contract_address, get_token_id, did_string, EventFilter,
  RawEvent, Json, SacdData,
}
use dauth.Exchange.Autheval.{evaluate_cloud_events}
use dauth.Exchange.Autheval.Grants.{TemplateService, evaluate_permissions, user_grant_map}
use dauth.Exchange.Autheval.Masks.{evaluate_permissions_bits, int_array_to_2bit_array}
use dauth.Exchange.Claims.{IdTable, id_of, privilege_id_to_name, manufacturer_privilege_id_to_name}
use dauth.Exchange.Proxy.{PermissionRecord, SacdInterface}

pub record AccessRequest : Type 0 where
  pub asset : AssetDid
  pub permissions : List String
  pub event_filters : List EventFilter

pub record Service (S : Type 0) : Type 0 where
  pub sacd_contract : SacdInterface
  pub get_valid_sacd_doc : String → Result RawEvent
  pub template_service : TemplateService S
  pub validate_signature : List ℕ → String → Address → Result Bool
  pub contract_address_manufacturer : Address

-- The first loop of ValidateAccessViaRecord: the identifiers, and the names that have none.
look_up : IdTable → List String → List ℤ × List String
look_up t [] = ([], [])
look_up t (p ∷ ps) =
    let (ids, missing) = look_up t ps in
    elim (id_of t p) [ none ↦ (pos 0 ∷ ids, p ∷ missing) | some i ↦ (i ∷ ids, missing) ]

module _ (eth : Ethereum) (lib : Library) (json : Json) {S : Type 0} (s : Service S) where
  missing_permissions_error : Address → AssetDid → List String → Error
  missing_permissions_error addr asset lack = rich 403 (
      "Address "
      ⧺ eth.hex addr
      ⧺ " lacks permissions "
      ⧺ show_slice lack
      ⧺ " for asset "
      ⧺ did_string lib asset
      ⧺ ".")

  -- What becomes of an error of ValidateSignature.
  signature_error : Error → Error
  signature_error e = elim (as_rich e) [
    | some _ ↦ wrap "failed to validate grant signature" e
    | none ↦ rich_of 500 "failed to validate grant signature" e
  ]

  -- evaluateSacdDoc, from the grants on.
  evaluate_grants : SacdData → AccessRequest → Address → (ℕ → Time) → S → Result (Unit {0}) × S
  unfolding missing_permissions_error
  evaluate_grants d req grantee clock st =
      let (grants, st') = user_grant_map lib s.template_service d req.asset clock st in
      elim grants [
        | err e ↦ (err (rich_of 500 "failed to generate user grant map" e), st')
        | ok (permissions, agreements) ↦
            elim (evaluate_cloud_events lib agreements req.event_filters) [
              | some e ↦ (err (rich_of 403 "failed to evaluate cloudevents" e), st')
              | none ↦ elim (evaluate_permissions permissions req.permissions) [
                | [] ↦ (ok tt, st')
                | p ∷ ps ↦ (err (missing_permissions_error grantee req.asset (p ∷ ps)), st')
              ]
            ]
      ]

  pub evaluate_sacd_doc :
      RawEvent → AccessRequest → Address → (ℕ → Time) → S → Result (Unit {0}) × S
  unfolding evaluate_grants signature_error
  evaluate_sacd_doc doc req grantee clock st = elim (json.sacd doc.raw) [
    | err e ↦ (err (rich_of 400 "failed to parse agreement data" e), st)
    | ok d ↦
        if not (str_eq d.grantee (eth.hex grantee))
        then (err (rich 403 "Grantee address in permission record doesn't match requester"), st)
        else elim (s.validate_signature doc.raw doc.signature (eth.hex_to_address d.grantor)) [
          | err e ↦ (err (signature_error e), st)
          | ok false ↦ (err (rich 403 "invalid grant signature"), st)
          | ok true ↦ evaluate_grants d req grantee clock st
        ]
  ]

  pub permission_record : AssetDid → Address → Result PermissionRecord
  permission_record asset addr =
      if is_account_level asset
      then s.sacd_contract.account_permission_records (get_contract_address asset) addr
      else s.sacd_contract.current_permission_record (get_contract_address asset)
          (get_token_id asset) addr

  pub validate_access_via_source_doc :
      AccessRequest → Address → (ℕ → Time) → S → Result (Unit {0}) × S
  unfolding evaluate_sacd_doc permission_record
  validate_access_via_source_doc req addr clock st = elim (permission_record req.asset addr) [
    | err e ↦ (err (rich_of 500 "Failed to get permission record" e), st)
    | ok r ↦ elim (s.get_valid_sacd_doc r.source) [
      | err e ↦ (err e, st)
      | ok doc ↦ evaluate_sacd_doc doc req addr clock st
    ]
  ]

  unfoldable pub permissions_on_chain : AssetDid → Address → ℕ → Result ℕ
  permissions_on_chain asset addr mask =
      if is_account_level asset
      then s.sacd_contract.get_account_permissions (get_contract_address asset) addr mask
      else s.sacd_contract.get_permissions (get_contract_address asset) (get_token_id asset) addr
          mask

  -- `none` is a panic of the test of the bits.
  pub check_bits : AssetDid → List ℤ → Address → Option (Result (Unit {0}))
  unfolding permissions_on_chain missing_permissions_error
  check_bits asset permissions addr = elim (int_array_to_2bit_array permissions 128) [
    | err e ↦ some (err (rich_of 400 "Failed to convert privileges to 2-bit array" e))
    | ok mask ↦ elim (permissions_on_chain asset addr mask) [
      | err e ↦ some (err (rich_of 500 "Failed to get permissions" e))
      | ok ret ↦ elim (evaluate_permissions_bits permissions ret) [
        | none ↦ none
        | some [] ↦ some (ok tt)
        | some (p ∷ ps) ↦ some (err (missing_permissions_error addr asset (map show_int (p ∷ ps))))
      ]
    ]
  ]

  -- The table of the asset's contract.
  unfoldable pub priv_map : AssetDid → IdTable
  priv_map asset =
      if get_contract_address asset == s.contract_address_manufacturer
      then manufacturer_privilege_id_to_name
      else privilege_id_to_name

  pub validate_access_via_record : AccessRequest → Address → Option (Result (Unit {0}))
  unfolding check_bits priv_map look_up missing_permissions_error
  validate_access_via_record req addr =
      let (ids, missing) = look_up (priv_map req.asset) req.permissions in
      elim missing [
        | p ∷ ps ↦ some (err (missing_permissions_error addr req.asset (p ∷ ps)))
        | [] ↦ check_bits req.asset ids addr
      ]

  unfoldable pub validate_access :
      AccessRequest → Address → (ℕ → Time) → S → Option (Result (Unit {0})) × S
  unfolding validate_access_via_source_doc validate_access_via_record
  validate_access req addr clock st =
      let (by_doc, st') = validate_access_via_source_doc req addr clock st in
      elim by_doc [
        | ok u ↦ (some (ok u), st')
        | err e ↦
            if not (is_nil req.event_filters)
            then (some (err e), st')
            else (validate_access_via_record req addr, st')
      ]
