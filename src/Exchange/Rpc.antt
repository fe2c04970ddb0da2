-- ===== src/Exchange/Rpc.antt =====
-- internal/exchange/controllers/rpc: the access check over gRPC. Where the response has the text of an
-- error it has the error itself here; a `none` at the front is a panic of the access check.
pub mod Laws
use mathlib.Core.List.{map}
use dauth.Base.{
  ℕ, ◌-◌, ◌%◌, ◌^◌, ℤ, pos, negsuc, String, List, [], Option, none, some, Bool, true, false, ltb,
  if◌then◌else◌, str_eq, Time, as_rich, Error, plain, sentinel, wrap, joined, rich, rich_of, Result,
  ok, err,
}
use dauth.Ethereum.{Ethereum, Address}
use dauth.Exchange.Models.{Library, AssetDid, EventFilter, decode_asset_did}
use dauth.Exchange.Access.{AccessRequest}

-- The messages of the service.
pub record RpcEvent : Type 0 where
  pub event_type : String
  pub source : String
  pub ids : List String

pub record AccessCheckRequest : Type 0 where
  pub asset : String
  pub privileges : List String
  pub events : List RpcEvent
  pub grantee : String

pub record RichError : Type 0 where
  pub code : ℤ
  pub external_msg : String
  pub err : Option Error

pub record AccessCheckResponse : Type 0 where
  pub has_access : Bool
  pub reason : Option Error
  pub rich_error : Option RichError

-- `int32(code)`
to_int32 : ℕ → ℤ
to_int32 n = let w = n % 2 ^ 32 in if ltb w (2 ^ 31) then pos w else negsuc (2 ^ 32 - 1 - w)

-- A filter of the request has no tags.
filter_of : RpcEvent → EventFilter
filter_of e = record { event_type = e.event_type; source = e.source; ids = e.ids; tags = [] }

-- Err of the richerrors.Error that errors.As finds; it is nil where there is none.
cause : Error → Option Error
cause (plain m) = none
cause (sentinel m) = none
cause (wrap m e) = cause e
cause (joined e f) = elim (as_rich e) [ none ↦ cause f | some _ ↦ cause e ]
cause (rich code m) = none
cause (rich_of code m e) = some e

-- The response to an error of the access check.
denial : Error → AccessCheckResponse
unfolding to_int32 cause
denial e = elim (as_rich e) [
  | none ↦ record {
    has_access = false;
    reason = some e;
    rich_error = some (record { code = pos 500; external_msg = ""; err = some e });
  }
  | some (code, message) ↦ record {
    has_access = false;
    reason = some e;
    rich_error = some (record { code = to_int32 code; external_msg = message; err = cause e });
  }
]

pub request_of : AssetDid → AccessCheckRequest → AccessRequest
unfolding filter_of
request_of asset req = record {
  asset = asset;
  permissions = req.privileges;
  event_filters = map filter_of req.events;
}

-- The service's ValidateAccess.
abbrev pub Validate : Type 0 → Type 0
Validate St = AccessRequest → Address → (ℕ → Time) → St → Option (Result (Unit {0})) × St

pub access_check :
    {St : Type 0}
    → Ethereum
    → Library
    → Validate St
    → AccessCheckRequest
    → (ℕ → Time)
    → St
    → Option (Result AccessCheckResponse) × St
unfolding request_of denial
access_check eth lib validate_access req clock st = elim (decode_asset_did lib req.asset) [
  | err e ↦ (some (err (wrap "failed to decode asset DID" e)), st)
  | ok asset ↦
      if str_eq req.grantee ""
      then (some (err (plain "grantee is required")), st)
      else (let (verdict, st') =
            validate_access (request_of asset req) (eth.hex_to_address req.grantee) clock st in
          elim verdict [
            | none ↦ (none, st')
            | some (err e) ↦ (some (ok (denial e)), st')
            | some (ok _) ↦
                (some (ok (record { has_access = true; reason = none; rich_error = none })), st')
          ])
]
