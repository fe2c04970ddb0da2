-- ===== src/Exchange/Models.antt =====
-- internal/exchange/models: assets, permission records and event filters, and what the program takes
-- from the libraries cloudevent and shared/pkg/set: parameters.
use dauth.Base.{
  ℕ, ℤ, String, List, Option, none, some, Bool, true, false, Time, wrap, Result, ok, err, ◌⧺◌,
}
use dauth.Ethereum.{Address}

-- cloudevent.ERC721DID and cloudevent.EthrDID
pub record Erc721Did : Type 0 where
  pub chain_id : ℕ
  pub contract_address : Address
  pub token_id : ℤ

pub record EthrDid : Type 0 where
  pub chain_id : ℕ
  pub contract_address : Address

-- The two implementations of AssetDID.
pub data AssetDid : Type 0 where
  erc721 : Erc721Did → AssetDid
  ethr : EthrDid → AssetDid

unfoldable pub is_account_level : AssetDid → Bool
is_account_level (erc721 d) = false
is_account_level (ethr d) = true

unfoldable pub get_chain_id : AssetDid → ℕ
get_chain_id (erc721 d) = d.chain_id
get_chain_id (ethr d) = d.chain_id

unfoldable pub get_contract_address : AssetDid → Address
get_contract_address (erc721 d) = d.contract_address
get_contract_address (ethr d) = d.contract_address

-- A nil *big.Int is `none`.
unfoldable pub get_token_id : AssetDid → Option ℤ
get_token_id (erc721 d) = some d.token_id
get_token_id (ethr d) = none

-- cloudevent's decoders and printers of DIDs and the two types of a SACD document, and
-- `set_contains xs x`, which is set.New(xs...).Contains(x).
pub record Library : Type 0 where
  pub decode_erc721_did : String → Result Erc721Did
  pub decode_ethr_did : String → Result EthrDid
  pub erc721_string : Erc721Did → String
  pub ethr_string : EthrDid → String
  pub type_sacd : String
  pub type_sacd_template : String
  pub set_contains : List String → String → Bool

-- AssetDID.String
unfoldable pub did_string : Library → AssetDid → String
did_string lib (erc721 d) = lib.erc721_string d
did_string lib (ethr d) = lib.ethr_string d

unfoldable pub decode_asset_did : Library → String → Result AssetDid
decode_asset_did lib asset = elim (lib.decode_erc721_did asset) [
  | ok d ↦ ok (erc721 d)
  | err _ ↦ elim (lib.decode_ethr_did asset) [
    | ok d ↦ ok (ethr d)
    | err e ↦ err (wrap ("invalid asset DID " ⧺ asset) e)
  ]
]

pub record Permission : Type 0 where
  pub name : String

pub record TemplateAgreement : Type 0 where
  pub type : String
  pub asset : String
  pub permissions : List Permission

-- Address of a model: the text in the document.
pub record TemplateData : Type 0 where
  pub owner : String
  pub agreements : List TemplateAgreement

pub record SacdAgreement : Type 0 where
  pub type : String
  pub event_type : String
  pub ids : List String
  pub tags : List String
  pub effective_at : Time
  pub expires_at : Time
  pub source : String
  pub asset : String
  pub permissions : List Permission

pub record SacdData : Type 0 where
  pub grantor : String
  pub grantee : String
  pub effective_at : Time
  pub expires_at : Time
  pub asset : String
  pub permission_template_id : String
  pub agreements : List SacdAgreement

pub record EventFilter : Type 0 where
  pub event_type : String
  pub source : String
  pub ids : List String
  pub tags : List String

abbrev pub type_cloud_event : String
type_cloud_event = "cloudevent"

abbrev pub type_permission : String
type_permission = "permission"

abbrev pub global_identifier : String
global_identifier = "*"

-- cloudevent.RawEvent: the type, the raw JSON of the data and the signature.
pub record RawEvent : Type 0 where
  pub type : String
  pub raw : List ℕ
  pub signature : String

-- The decoders of encoding/json at the types of documents.
pub record Json : Type 0 where
  pub event : List ℕ → Result RawEvent
  pub sacd : List ℕ → Result SacdData
  pub template : List ℕ → Result TemplateData
