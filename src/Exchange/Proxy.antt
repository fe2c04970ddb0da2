-- ===== src/Exchange/Proxy.antt =====
-- internal/exchange/services/sacdproxy: the SACD contract, with the records of vehicles read from the
-- Identity API in place of the chain. The counter of chain calls is left out.
pub mod Laws
use Prim.Native.Nat.{bit_and}
use dauth.Base.{
  ℕ, zero, suc, ◌^◌, ℤ, pos, negsuc, String, List, [], ◌∷◌, Option, none, some, Bool, false, not,
  ◌&&◌, ltb, ◌==◌, if◌then◌else◌, str_eq, show, ◌⧺◌, Time, unix, Error, plain, sentinel, wrap,
  Result, ok, err, errors_is, length,
}
use dauth.Ethereum.{Ethereum, Address}

-- sacd.ISacdPermissionRecord; a *big.Int that may be nil is an Option.
pub record PermissionRecord : Type 0 where
  pub permissions : ℕ
  pub expiration : ℤ
  pub source : String
  pub template_id : Option ℤ

-- SACDInterface of the access service. Token identifiers are *big.Int.
pub record SacdInterface : Type 0 where
  pub account_permission_records : Address → Address → Result PermissionRecord
  pub current_permission_record : Address → Option ℤ → Address → Result PermissionRecord
  pub get_account_permissions : Address → Address → ℕ → Result ℕ
  pub get_permissions : Address → Option ℤ → Address → ℕ → Result ℕ

pub record SacdTemplate : Type 0 where
  pub token_id : Option ℤ

pub record VehicleSacd : Type 0 where
  pub permissions : String
  pub source : String
  pub expires_at : Time
  pub template : Option SacdTemplate

pub record Vehicle : Type 0 where
  pub owner : Address
  pub sacd : Option VehicleSacd

pub record GqlError : Type 0 where
  pub message : String
  pub path : List String
  pub code : String

pub record QueryResponse : Type 0 where
  pub vehicle : Vehicle
  pub errors : List GqlError

-- encoding/json and net/http, for a client of the query endpoint: the marshalled query, the
-- construction of the request and the request itself, whose body may fail to be read, and the
-- decoder of the response.
pub record Client : Type 0 where
  pub marshal : ℕ → Address → Result (List ℕ)
  pub new_request : List ℕ → Result (Unit {0})
  pub send : List ℕ → Result (ℕ × Result (List ℕ))
  pub unmarshal : List ℕ → Result QueryResponse

-- `contract` is the generated binding of the contract on the chain.
pub record Proxy : Type 0 where
  pub contract : SacdInterface
  pub contract_address_vehicle : Address
  pub client : Client

pub err_vehicle_not_found : Error
err_vehicle_not_found = sentinel "no vehicle with that token id"

-- big.Int.IsInt64 of a positive number, and the bound of an int32.
pub convert_token_id : Option ℤ → Result ℕ
convert_token_id none = err (plain "nil pointer")
convert_token_id (some (negsuc n)) = err (plain "value not positive")
convert_token_id (some (pos zero)) = err (plain "value not positive")
convert_token_id (some (pos (suc n))) =
    if not (ltb (suc n) (2 ^ 63))
    then err (plain "outside of int64 range")
    else if ltb 2147483647 (suc n)
    then err (plain "outside of int32 range")
    else ok (suc n)

-- `slices.Equal(gqlErr.Path, []string{"vehicle"})`
is_vehicle_path : List String → Bool
is_vehicle_path (p ∷ []) = str_eq p "vehicle"
is_vehicle_path _ = false

-- What becomes of a decoded response.
read_vehicle : QueryResponse → Result Vehicle
unfolding is_vehicle_path err_vehicle_not_found
read_vehicle raw = elim raw.errors [
  | [] ↦ ok raw.vehicle
  | e ∷ es ↦
      if is_vehicle_path e.path && str_eq e.code "NOT_FOUND"
      then err err_vehicle_not_found
      else err
          (plain ("returned " ⧺ show (suc (length es)) ⧺ " GraphQL errors, first is " ⧺ e.message))
]

-- The exchange with the query endpoint.
query_vehicle : Client → List ℕ → Result Vehicle
unfolding read_vehicle
query_vehicle c b = elim (c.new_request b) [
  | err e ↦ err (wrap "couldn't create HTTP request" e)
  | ok _ ↦ elim (c.send b) [
    | err e ↦ err (wrap "request failed" e)
    | ok (status, body) ↦ elim body [
      | err e ↦ err (wrap "request failed" e)
      | ok bb ↦
          if not (status == 200)
          then err (plain ("unexpected status code " ⧺ show status))
          else elim (c.unmarshal bb) [
            | err e ↦ err (wrap "couldn't unmarshal GraphQL response" e)
            | ok raw ↦ read_vehicle raw
          ]
    ]
  ]
]

unfoldable pub get_vehicle_sacd : Proxy → Option ℤ → Address → Result Vehicle
unfolding convert_token_id query_vehicle
get_vehicle_sacd p token_id grantee = elim (convert_token_id token_id) [
  | err e ↦ err e
  | ok id ↦ elim (p.client.marshal id grantee) [
    | err e ↦ err (wrap "couldn't marshal GraphQL request" e)
    | ok b ↦ query_vehicle p.client b
  ]
]

pub blank_resp : PermissionRecord
blank_resp = record { permissions = 0; expiration = pos 0; source = ""; template_id = some (pos 0) }

module _ (eth : Ethereum) (p : Proxy) where
  -- CurrentPermissionRecord on the SACD of a vehicle.
  record_of : VehicleSacd → Result PermissionRecord
  record_of v = elim (eth.decode_big v.permissions) [
    | err e ↦ err (wrap "couldn't parse permissions hex" e)
    | ok perms ↦ ok (record {
      permissions = perms;
      expiration = unix v.expires_at;
      source = v.source;
      template_id = elim v.template [ none ↦ some (pos 0) | some t ↦ t.token_id ];
    })
  ]

  unfoldable pub current_permission_record : Address → Option ℤ → Address → Result PermissionRecord
  unfolding record_of blank_resp err_vehicle_not_found
  current_permission_record asset token_id grantee =
      if asset == p.contract_address_vehicle
      then elim (get_vehicle_sacd p token_id grantee) [
        | err e ↦ if errors_is "no vehicle with that token id" e then ok blank_resp else err e
        | ok v ↦ elim v.sacd [ none ↦ ok blank_resp | some s ↦ record_of s ]
      ]
      else p.contract.current_permission_record asset token_id grantee

  -- GetPermissions on a vehicle.
  permissions_of : Vehicle → Address → ℕ → Result ℕ
  permissions_of v grantee permissions =
      if v.owner == grantee then ok permissions else elim v.sacd [
        | none ↦ ok 0
        | some s ↦ elim (eth.decode_big s.permissions) [
          | err e ↦ err (wrap "couldn't parse permissions hex" e)
          | ok perms ↦ ok (bit_and perms permissions)
        ]
      ]

  unfoldable pub get_permissions : Address → Option ℤ → Address → ℕ → Result ℕ
  unfolding permissions_of
  get_permissions asset token_id grantee permissions =
      if asset == p.contract_address_vehicle
      then elim (get_vehicle_sacd p token_id grantee) [
        | err e ↦ if errors_is "no vehicle with that token id" e then ok 0 else err e
        | ok v ↦ permissions_of v grantee permissions
      ]
      else p.contract.get_permissions asset token_id grantee permissions

  -- The proxy as the access service sees it.
  abbrev pub proxied : SacdInterface
  proxied = record {
    account_permission_records = p.contract.account_permission_records;
    current_permission_record = current_permission_record;
    get_account_permissions = p.contract.get_account_permissions;
    get_permissions = get_permissions;
  }
