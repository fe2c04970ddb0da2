-- ===== src/Exchange/Signer.antt =====
-- internal/exchange/services/signer.go: the permission tokens of the exchange. The method Sign of the
-- key set is a field, and the clock's reading and the fresh identifier are arguments.
pub mod Laws
use mathlib.Core.List.{map}
use dauth.Base.{
  ℤ, pos, String, List, Option, none, some, show_int, Time, Duration, add, wrap, Result, ok, err,
}
use dauth.Exchange.Models.{Library, did_string, get_contract_address, get_token_id, EventFilter}
use dauth.Exchange.Claims.{Event, Token, privilege_id_to_name, id_of}
use dauth.Exchange.Access.{AccessRequest}

pub record PrivilegeTokenDto : Type 0 where
  pub access_request : AccessRequest
  pub audience : List String
  pub response_subject : String

pub record TokenSigner : Type 0 where
  pub keys : Token → Result String
  pub issuer : String
  pub ttl : Duration

-- NewTokenSigner
unfoldable pub new_token_signer : (Token → Result String) → String → Duration → TokenSigner
new_token_signer keys issuer ttl = record { keys = keys; issuer = issuer; ttl = ttl }

-- The look-up in PrivilegeNameToID, 0 where it has no entry.
unfoldable pub privilege_of : String → ℤ
privilege_of name = elim (id_of privilege_id_to_name name) [ none ↦ pos 0 | some i ↦ i ]

-- `(*big.Int).String`, of a nil pointer too.
unfoldable pub token_id_text : Option ℤ → String
token_id_text none = "<nil>"
token_id_text (some i) = show_int i

unfoldable pub event_of : EventFilter → Event
event_of e = record { event_type = e.event_type; source = e.source; ids = e.ids; tags = e.tags }

-- The token that SignPrivilegePayload hands to the key set.
unfoldable pub payload : Library → TokenSigner → PrivilegeTokenDto → Time → String → Token
payload lib s req now jti =
    let asset = req.access_request.asset in
    record {
      issuer = s.issuer;
      subject = req.response_subject;
      audience = req.audience;
      issued_at = now;
      not_before = now;
      expires_at = add now s.ttl;
      id = jti;
      custom = record {
        asset = did_string lib asset;
        permissions = req.access_request.permissions;
        cloud_events = map event_of req.access_request.event_filters;
        contract_address = get_contract_address asset;
        token_id = token_id_text (get_token_id asset);
        privilege_ids = map privilege_of req.access_request.permissions;
      };
    }

unfoldable pub sign_privilege_payload :
    Library → TokenSigner → PrivilegeTokenDto → Time → String → Result String
unfolding payload
sign_privilege_payload lib s req now jti = elim (s.keys (payload lib s req now jti)) [
  | err e ↦ err (wrap "failed to sign permission token" e)
  | ok signed ↦ ok signed
]
