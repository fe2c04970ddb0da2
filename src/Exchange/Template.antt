-- ===== src/Exchange/Template.antt =====
-- internal/exchange/services/template: the permissions of a template, with the cache of the agreements
-- of verified templates. The cache is an explicit state; the mutex guards its single accesses.
pub mod Laws
use dauth.Base.{
  ℕ, ℤ, String, List, [], ◌∷◌, Option, none, some, Bool, true, false, not, if◌then◌else◌, str_eq,
  show, parse_int, is_nil, length, ◌⧺◌, lookup, insert, Error, plain, wrap, rich, rich_of, Result,
  ok, err,
}
use dauth.Ethereum.{Ethereum, Address}
use dauth.Exchange.Models.{
  Json, RawEvent, AssetDid, get_chain_id, get_contract_address, TemplateAgreement,
}
use dauth.Exchange.Autheval.Grants.{
  Permissions, add_permissions, PermissionsResult, TemplateService,
}

-- The contract of the templates on the chain: the source of a template, and whether it is active.
pub record TemplateContract : Type 0 where
  pub templates : ℤ → Result String
  pub is_template_active : ℤ → Result Bool

-- What the service is made of: GetValidSacdDoc of the IPFS client, and ValidateSignature.
pub record Service : Type 0 where
  pub contract : TemplateContract
  pub get_valid_sacd_doc : String → Result RawEvent
  pub validate_signature : List ℕ → String → Address → Result Bool

-- The agreements by template identifier.
abbrev pub Cache : Type 0
Cache = List (String × List TemplateAgreement)

not_a_number : Error
not_a_number = plain "could not convert template ID string to big.Int"

module _ (eth : Ethereum) (json : Json) (s : Service) where
  -- The DID of the asset's contract, without a token.
  asset_ethr_did : AssetDid → String
  asset_ethr_did asset =
      "did:ethr:" ⧺ show (get_chain_id asset) ⧺ ":" ⧺ eth.hex (get_contract_address asset)

  -- The loop of extractPermissionsFromAgreements.
  extract_from : String → List TemplateAgreement → Permissions → Permissions
  extract_from did [] m = m
  extract_from did (a ∷ as') m = extract_from did as' (
      if not (str_eq a.asset did)
      then m
      else if str_eq a.type "permission"
      then add_permissions m a.permissions
      else m)

  unfoldable pub extract_permissions_from_agreements :
      List TemplateAgreement → AssetDid → Permissions
  unfolding extract_from asset_ethr_did
  extract_permissions_from_agreements as' asset = extract_from (asset_ethr_did asset) as' []

  -- getTemplatePermissionsAndStatus
  unfoldable pub get_permissions_and_status :
      String → List TemplateAgreement → AssetDid → Result (Option PermissionsResult)
  unfolding not_a_number
  get_permissions_and_status template_id as' asset =
      let permissions = extract_permissions_from_agreements as' asset in
      if is_nil permissions
      then ok (some (record { permissions = []; is_active = false }))
      else elim (parse_int template_id) [
        | none ↦ err not_a_number
        | some id ↦ elim (s.contract.is_template_active id) [
          | err e ↦
              err (
                rich_of 500 "Failed to get template status"
                  (wrap "failed to get template status" e))
          | ok active ↦ ok (some (record { permissions = permissions; is_active = active }))
        ]
      ]

  -- The part of GetTemplatePermissions that checks the document.
  verify_document : RawEvent → Result (List TemplateAgreement)
  verify_document raw = elim (json.template raw.raw) [
    | err e ↦ err (rich_of 400 "failed to parse template data" e)
    | ok d ↦ elim (s.validate_signature raw.raw raw.signature (eth.hex_to_address d.owner)) [
      | err e ↦ err (rich_of 400 "failed to validate template owner signature" e)
      | ok false ↦ err (rich 403 "invalid template owner signature")
      | ok true ↦ ok d.agreements
    ]
  ]

  -- The part of GetTemplatePermissions that runs when the cache has no entry, up to the agreements.
  unfoldable pub fetch_agreements : String → Result (List TemplateAgreement)
  unfolding verify_document not_a_number
  fetch_agreements template_id = elim (parse_int template_id) [
    | none ↦ err not_a_number
    | some id ↦ elim (s.contract.templates id) [
      | err e ↦ err (rich_of 500 "Failed to get template data" e)
      | ok source ↦ elim (s.get_valid_sacd_doc source) [
        | err e ↦ err e
        | ok raw ↦ verify_document raw
      ]
    ]
  ]

  unfoldable pub get_template_permissions :
      String → AssetDid → Cache → Result (Option PermissionsResult) × Cache
  unfolding get_permissions_and_status fetch_agreements
  get_template_permissions template_id asset cache = elim (lookup template_id cache) [
    | some cached ↦ (get_permissions_and_status template_id cached asset, cache)
    | none ↦ elim (fetch_agreements template_id) [
      | err e ↦ (err e, cache)
      | ok as' ↦ (get_permissions_and_status template_id as' asset, insert template_id as' cache)
    ]
  ]

  -- The service as UserGrantMap sees it.
  abbrev pub service : TemplateService Cache
  service = record { get_template_permissions = get_template_permissions }

-- ClearCache and GetCacheSize
pub clear_cache : Cache → Cache
clear_cache cache = []

pub get_cache_size : Cache → ℕ
get_cache_size cache = length cache
