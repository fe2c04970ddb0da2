-- ===== src/Tests/Accesses.antt =====
-- Bob asks for the location of the sample vehicle.
use dauth.Base.{
  ℕ, ◌+◌, ◌≡◌, ◌≢◌, ◌⊎◌, ◌↔◌, inr, refl, arith, pos, [], ◌∷◌, none, some, true, All, Time, ok,
  str_eq, get_or, zero_time, set_bit, ◌==◌, if◌then◌else◌, false, contains, is_zero, lookup,
  parse_int, bytes, show, insert,
}
use dauth.Siwe.Verifier.{verify_eoa}
use dauth.Exchange.Template.{
  Cache, service, get_template_permissions, extract_permissions_from_agreements,
}
use dauth.Exchange.Autheval.Masks.{int_array_to_2bit_array}
use dauth.Exchange.Autheval.Masks.Laws.{HasBits}
use dauth.Exchange.Access.{AccessRequest, Service, validate_access}
use dauth.Exchange.Access.Laws.Chain.{ChainGrants}
use dauth.Exchange.Access.Laws.Decision.{GrantedByDoc, validate_access_iff}
use dauth.Exchange.Proxy.{
  SacdInterface, Vehicle, VehicleSacd, Proxy, blank_resp, get_vehicle_sacd, get_permissions,
  proxied, current_permission_record,
}
use dauth.Exchange.Proxy.Laws.{get_permissions_decides}
use dauth.Exchange.Signature.{valid_eoa_signature}
use dauth.Exchange.Signature.Laws.{valid_eoa_signature_iff}
use dauth.Exchange.Middleware.{
  Context, passed, dev_license_validator, get_user_eth_addr, get_response_subject,
}
use dauth.Exchange.Controller.{
  add_default_identifiers, TokenRequest, ExchangeController, token, exchange_token,
}
use dauth.Exchange.Controller.Tokens.{TokenFor, exchange_token-TokenFor}
use dauth.Exchange.Identity.{
  IdentityResponse, IdentityClient, execute_query, is_dev_license, not_found, is_dev_license_iff,
}
use dauth.Exchange.Rpc.{AccessCheckRequest, access_check}
use dauth.Exchange.Rpc.Laws.{Granted, access_check_iff}
use dauth.Exchange.Autheval.{
  Agreements, evaluate_cloud_events, or_global, add_agreement, grants, text_or_global,
}
use dauth.Exchange.Controller.Defaults.{evaluate_cloud_events-add_default}
use dauth.Exchange.Models.{
  decode_asset_did, is_account_level, get_contract_address, get_token_id, get_chain_id, did_string,
}
use dauth.Exchange.Autheval.Grants.{user_grant_map, granted, evaluate_permissions}
use dauth.Tests.Samples.{
  alice, bob, signature_of, eth, lib, lib-set, json, event, template_service, vehicle, location,
}

valid_eoa_signature_iff_example :
    (valid_eoa_signature eth (1 ∷ []) (signature_of 11) bob ≡ ok tt) ↔ (
      (verify_eoa eth (signature_of 11) (1 ∷ []) bob ≡ true)
      × ((get_or (signature_of 11) 64 0 ≡ 27) ⊎ (get_or (signature_of 11) 64 0 ≡ 28)))
valid_eoa_signature_iff_example =
    valid_eoa_signature_iff eth (1 ∷ []) (signature_of 11) bob (omega arith)

-- The vehicle is alice's, and its record has the permissions 1 and 3.
abbrev pub sacd : VehicleSacd
sacd = record {
  permissions = "0xcc";
  source = "ipfs://grant";
  expires_at = zero_time;
  template = none;
}

abbrev car : Vehicle
car = record { owner = alice; sacd = some sacd }

abbrev pub chain : SacdInterface
chain = record {
  account_permission_records = λ grantor grantee. ok blank_resp;
  current_permission_record = λ asset id grantee. ok blank_resp;
  get_account_permissions = λ grantor grantee mask. ok 0;
  get_permissions = λ asset id grantee mask. ok 0;
}

abbrev pub proxy : Proxy
proxy = record {
  contract = chain;
  contract_address_vehicle = 100;
  client = record {
    marshal = λ id grantee. ok [];
    new_request = λ b. ok tt;
    send = λ b. ok (200, ok []);
    unmarshal = λ b. ok (record { vehicle = car; errors = [] });
  };
}

car_found : get_vehicle_sacd proxy (some (pos 7)) bob ≡ ok car
unfolding get_vehicle_sacd
car_found = refl

pub mask_of_location : int_array_to_2bit_array (pos 3 ∷ []) 128 ≡ ok 0xc0
unfolding int_array_to_2bit_array set_bit
mask_of_location = refl

get_permissions_decides_example :
    (r : ℕ) × (get_permissions eth proxy 100 (some (pos 7)) bob 0xc0 ≡ ok r)
    × (All (HasBits r) (pos 3 ∷ []) ↔ ((alice ≡ bob) ⊎ All (HasBits 0xcc) (pos 3 ∷ [])))
get_permissions_decides_example =
    get_permissions_decides eth proxy (pos 3 ∷ []) 0xc0 100 (some (pos 7)) bob car 0xcc
      mask_of_location refl car_found (inr (inr (sacd, refl, refl)))

abbrev pub access : Service Cache
access = record {
  sacd_contract = proxied eth proxy;
  get_valid_sacd_doc = λ source. ok event;
  template_service = service eth json template_service;
  validate_signature = λ payload signature addr. ok (str_eq signature "by alice");
  contract_address_manufacturer = 200;
}

abbrev pub clock : ℕ → Time
clock i = 50 + i

abbrev pub want : AccessRequest
want = record {
  asset = vehicle;
  permissions = location ∷ [];
  event_filters = record { event_type = "dimo.status"; source = ""; ids = []; tags = [] } ∷ [];
}

validate_access_iff_example :
    ((validate_access eth lib json access want bob clock []).0 ≢ none)
    × (((validate_access eth lib json access want bob clock []).0 ≡ some (ok tt)) ↔ (
        GrantedByDoc eth lib lib-set json access want bob clock []
        ⊎ ((want.event_filters ≡ []) × ChainGrants eth lib json access want bob)))
validate_access_iff_example = validate_access_iff eth lib lib-set json access want bob clock []

abbrev ctx : Context
ctx = record {
  token = some (record {
    claims = some (λ name. if str_eq name "ethereum_address" then some "0xb" else none);
  });
  response_subject = none;
}

abbrev ctx' : Context
ctx' = record ctx { response_subject = some "0xb" }

licence_passed : dev_license_validator eth (λ a. ok (a == 11)) ctx ≡ passed ctx'
unfolding dev_license_validator
licence_passed = refl

abbrev pub controller : ExchangeController Cache
controller = record {
  chain_id = 137;
  contract_address_manufacturer = 200;
  sign_privilege_payload = λ dto now jti. ok dto.response_subject;
  validate_access = validate_access eth lib json access;
}

abbrev pub body : TokenRequest
body = record {
  asset = "did:7";
  cloud_events = want.event_filters;
  permissions = location ∷ [];
  audience = [];
  token_id = pos 0;
  privileges = [];
  nft_contract_address = "";
}

exchange_token-TokenFor_example :
    ((exchange_token eth lib controller (ok body) ctx' clock 60 "jti" []).0 ≡ some (token "0xb"))
    ↔ TokenFor eth lib controller body ctx' clock 60 "jti" [] "0xb"
exchange_token-TokenFor_example =
    exchange_token-TokenFor eth lib controller body ctx' clock 60 "jti" [] "0xb"

abbrev question : AccessCheckRequest
question = record {
  asset = "did:7";
  privileges = location ∷ [];
  events = record { event_type = "dimo.status"; source = "*"; ids = [] } ∷ [];
  grantee = "0xb";
}

access_check_iff_example :
    ((access_check eth lib (validate_access eth lib json access) question clock []).0
      ≡ some (ok (record { has_access = true; reason = none; rich_error = none })))
    ↔ Granted eth lib (validate_access eth lib json access) question clock []
access_check_iff_example =
    access_check_iff eth lib (validate_access eth lib json access) question clock []

abbrev shared : Agreements
shared = record { event_type = "dimo.status"; source = "*"; ids = "*" ∷ []; tags = "*" ∷ [] } ∷ []

evaluate_cloud_events-add_default_example :
    (evaluate_cloud_events lib shared (add_default_identifiers want).event_filters ≡ none)
    ↔ (evaluate_cloud_events lib shared want.event_filters ≡ none)
evaluate_cloud_events-add_default_example =
    evaluate_cloud_events-add_default lib lib-set want shared

abbrev unknown : IdentityResponse
unknown = record {
  owner = none;
  errors = record { message = "no such licence"; path = []; code = "NOT_FOUND" } ∷ [];
}

abbrev pub identity : IdentityClient
identity = record {
  marshal = λ client_id. ok [];
  new_request = λ b. ok tt;
  send = λ b. ok (record { status_code = 200; body = ok [] });
  unmarshal = λ b. ok unknown;
}

query_answered : execute_query identity (eth.hex bob) ≡ ok unknown
unfolding execute_query
query_answered = refl

is_dev_license_iff_example :
    ((is_dev_license eth identity bob ≡ ok true) ↔ (unknown.errors ≡ []))
    × ((is_dev_license eth identity bob ≡ ok false)
        ↔ ((unknown.errors ≢ []) × All (λ e. e.code ≡ not_found) unknown.errors))
is_dev_license_iff_example = is_dev_license_iff eth identity bob unknown query_answered

-- The request is in fact granted.
bob_allowed : (validate_access eth lib json access want bob clock []).0 ≡ some (ok tt)
unfolding validate_access is_account_level current_permission_record get_contract_address
    get_vehicle_sacd get_token_id user_grant_map is_zero did_string get_template_permissions lookup
    parse_int bytes extract_permissions_from_agreements show get_chain_id insert granted
    add_agreement evaluate_cloud_events evaluate_permissions grants contains text_or_global
bob_allowed = refl

-- The exchange hands out a token, whose text is here the subject.
bob_exchanged :
    (exchange_token eth lib controller (ok body) ctx' clock 60 "jti" []).0 ≡ some (token "0xb")
unfolding exchange_token decode_asset_did get_user_eth_addr get_response_subject or_global
    validate_access is_account_level current_permission_record get_contract_address get_vehicle_sacd
    get_token_id user_grant_map is_zero did_string get_template_permissions lookup parse_int bytes
    extract_permissions_from_agreements show get_chain_id insert granted add_agreement
    evaluate_cloud_events evaluate_permissions grants contains text_or_global
bob_exchanged = refl
