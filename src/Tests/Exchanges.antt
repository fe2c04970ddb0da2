-- ===== src/Tests/Exchanges.antt =====
-- Bob's request along the whole route of the exchange.
use dauth.Base.{
  ◌≡◌, ◌↔◌, refl, [], ◌∷◌, none, some, true, String, ok, err, plain, str_eq, ◌==◌, if◌then◌else◌,
  contains, is_zero, lookup, parse_int, bytes, show, insert,
}
use dauth.Env.{trim_space, trim_left, trim_right, is_space}
use dauth.Httpmw.{max_bytes, recover}
use dauth.Exchange.Middleware.{
  Jwt, passed, dev_license_validator, get_user_eth_addr, get_response_subject,
}
use dauth.Exchange.Auth.{JwtParser, auth_middleware, cut_prefix, with_token}
use dauth.Exchange.Auth.Laws.{Bears, auth_middleware_iff}
use dauth.Exchange.Routes.{
  Request, Exchange, Clock, exchanged, background, serve_exchange, tokens_exchange,
}
use dauth.Exchange.Controller.{token, exchange_token}
use dauth.Exchange.Access.{validate_access}
use dauth.Exchange.Proxy.{current_permission_record, get_vehicle_sacd}
use dauth.Exchange.Template.{get_template_permissions, extract_permissions_from_agreements}
use dauth.Exchange.Autheval.{
  evaluate_cloud_events, or_global, add_agreement, grants, text_or_global,
}
use dauth.Exchange.Models.{
  decode_asset_did, is_account_level, get_contract_address, get_token_id, get_chain_id, did_string,
}
use dauth.Exchange.Autheval.Grants.{user_grant_map, granted, evaluate_permissions}
use dauth.Exchange.Template.{Cache}
use dauth.Tests.Accesses.{clock, controller, body}
use dauth.Tests.Samples.{eth, lib}

abbrev bob_token : Jwt
bob_token = record {
  claims = some (λ name. if str_eq name "ethereum_address" then some "0xb" else none);
}

-- The parser knows one token.
abbrev parser : JwtParser (Unit {0})
parser = record {
  new_jwk_set = λ json. ok tt;
  parse = λ jwks now s.
      if str_eq s "bob.token"
      then ok (record { token = bob_token; valid = true })
      else err (plain "token is malformed");
}

abbrev pub header : String
header = "Bearer bob.token "

auth_middleware_iff_example :
    (auth_middleware parser tt 50 header background ≡ passed (with_token background bob_token))
    ↔ Bears parser tt 50 header background (with_token background bob_token)
auth_middleware_iff_example =
    auth_middleware_iff parser tt 50 header background (with_token background bob_token)

abbrev pub exchange : Exchange (Unit {0}) Cache
exchange = record {
  parser = parser;
  jwks = tt;
  is_dev_license = λ a. ok (a == 11);
  decode = λ b. if b.too_large then err (plain "http: request body too large") else ok body;
  controller = controller;
}

abbrev pub request : Request
request = record { authorization = header; body = 0x7b ∷ 0x7d ∷ [] }

abbrev pub instants : Clock
instants = record { auth = 50; access = clock; signer = 60 }

bob_served : (serve_exchange eth lib exchange request instants "jti" []).0 ≡ exchanged (token "0xb")
unfolding serve_exchange recover max_bytes auth_middleware cut_prefix trim_space trim_left
    trim_right is_space dev_license_validator exchange_token decode_asset_did get_user_eth_addr
    get_response_subject or_global validate_access is_account_level current_permission_record
    get_contract_address get_vehicle_sacd get_token_id user_grant_map is_zero did_string
    get_template_permissions lookup parse_int bytes extract_permissions_from_agreements show
    get_chain_id insert granted add_agreement evaluate_cloud_events evaluate_permissions grants
    contains text_or_global tokens_exchange
bob_served = refl
