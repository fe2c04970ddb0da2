-- ===== src/Exchange/Claims.antt =====
-- pkg/tokenclaims: the tables of privileges and the claims of a permission token.
pub mod Tables
use dauth.Base.{
  ℤ, pos, int_eq, String, List, [], ◌∷◌, Option, none, some, str_eq, if◌then◌else◌, Time,
}
use dauth.Ethereum.{Address}

-- map[int64]string
abbrev pub IdTable : Type 0
IdTable = List (ℤ × String)

unfoldable pub privilege_id_to_name : IdTable
privilege_id_to_name =
    (pos 1, "privilege:GetNonLocationHistory")
    ∷ (pos 2, "privilege:ExecuteCommands")
    ∷ (pos 3, "privilege:GetCurrentLocation")
    ∷ (pos 4, "privilege:GetLocationHistory")
    ∷ (pos 5, "privilege:GetVINCredential")
    ∷ (pos 6, "privilege:GetLiveData")
    ∷ (pos 7, "privilege:GetRawData")
    ∷ (pos 8, "privilege:GetApproximateLocation")
    ∷ []

unfoldable pub manufacturer_privilege_id_to_name : IdTable
manufacturer_privilege_id_to_name =
    (pos 1, "privilege:ManufacturerMintDevice")
    ∷ (pos 2, "privilege:ManufacturerDistributeDevice")
    ∷ (pos 3, "privilege:ManufacturerFactoryReset")
    ∷ (pos 4, "privilege:ManufacturerDeviceReprovision")
    ∷ (pos 5, "privilege:ManufacturerDeviceDefinitionInsert")
    ∷ (pos 6, "privilege:ManufacturerDeviceLastSeen")
    ∷ []

-- A look-up in a table by identifier.
unfoldable pub name_of : IdTable → ℤ → Option String
name_of [] id = none
name_of ((i, n) ∷ t) id = if int_eq i id then some n else name_of t id

-- The inverted tables, PrivilegeNameToID and ManufacturerPrivilegeNameToID: their entries are
-- written in the iteration order of a map, so a name that stood twice would take either identifier;
-- here it takes the first.
unfoldable pub id_of : IdTable → String → Option ℤ
id_of [] name = none
id_of ((i, n) ∷ t) name = if str_eq n name then some i else id_of t name

pub record Event : Type 0 where
  pub event_type : String
  pub source : String
  pub ids : List String
  pub tags : List String

-- CustomClaims
pub record CustomClaims : Type 0 where
  pub asset : String
  pub permissions : List String
  pub cloud_events : List Event
  pub contract_address : Address
  pub token_id : String
  pub privilege_ids : List ℤ

-- Token: the registered claims and the custom ones.
pub record Token : Type 0 where
  pub issuer : String
  pub subject : String
  pub audience : List String
  pub issued_at : Time
  pub not_before : Time
  pub expires_at : Time
  pub id : String
  pub custom : CustomClaims
