-- ===== src/Tests/Routes.antt =====
-- The public handler on concrete requests, over a small mux.
use dauth.Base.{
  ℕ, ◌≡◌, refl, String, List, [], ◌∷◌, Option, none, some, ok, is_zero, lookup, parse_int, bytes,
  show, insert, contains,
}
use dauth.Httpmw.{max_bytes, recover}
use dauth.Env.{trim_space, trim_left, trim_right, is_space}
use dauth.Nonce.Memory.{Memory, memory_store, new_memory}
use dauth.Exchange.Auth.{auth_middleware, cut_prefix}
use dauth.Exchange.Access.{validate_access}
use dauth.Exchange.Autheval.{
  evaluate_cloud_events, or_global, add_agreement, grants, text_or_global,
}
use dauth.Exchange.Autheval.Grants.{user_grant_map, granted, evaluate_permissions}
use dauth.Exchange.Controller.{token, exchange_token}
use dauth.Exchange.Middleware.{dev_license_validator, get_user_eth_addr, get_response_subject}
use dauth.Exchange.Models.{
  decode_asset_did, is_account_level, get_contract_address, get_token_id, get_chain_id, did_string,
}
use dauth.Exchange.Proxy.{current_permission_record, get_vehicle_sacd}
use dauth.Exchange.Routes.{tokens_exchange}
use dauth.Exchange.Routes
use dauth.Exchange.Routes.Laws.{Permitted}
use dauth.Exchange.Template.{Cache, get_template_permissions, extract_permissions_from_agreements}
use dauth.App.{Externals, Process}
use dauth.App.Mux.{Mux, matching, matches, method_matches}
use dauth.App.Routes.{
  Request, Draws, Answer, healthy, unrouted, docs, exchanged, Decoders, nth, handler_at, route,
  serve_exchange_route, serve_exchange_mux, serve_siwe, serve_siwe_route, serve_public_route, serve,
}
use dauth.App.Published.{Published}
use dauth.App.Guarded.{exchange_part, serve-Permitted}
use dauth.Tests.Exchanges as Exchanges
use dauth.Tests.Processes as Processes
use dauth.Tests.Samples as Samples
use dauth.Tests.Tables.{Table}

-- The first pattern that matches.
abbrev first : List ℕ → Option ℕ
first [] = none
first (i ∷ is) = some i

abbrev mux : Mux
mux = record {
  choose = λ ps m path. first (matching 0 ps m path);
  strip_prefix = λ prefix path. cut_prefix path prefix;
}

abbrev decode : Decoders
decode = record {
  challenge = λ b. ok (record { address = "10"; audience = [] });
  token = λ b. ok (record { nonce = "ab"; signature = "by alice" });
}

abbrev get_at : String → Request
get_at path = record { method = "GET"; path = path; authorization = ""; body = [] }

abbrev draws : Draws
draws = record {
  random = ok (0xab ∷ []);
  jti = "jti";
  now = 40;
  later = 41;
  clock = Exchanges.instants;
}

abbrev state : Memory × Cache
state = (new_memory 640, [])

abbrev answer_at : Request → Answer
answer_at req = (serve Processes.x mux memory_store decode Processes.p req draws state).0

root_answers :
    answer_at (get_at "/") ≡ healthy "application/json" "{\"data\":\"Server is up and running\"}"
unfolding serve route handler_at nth matching matches method_matches serve_public_route recover
root_answers = refl

docs_answer : answer_at (get_at "/siwe/swagger/index.html") ≡ docs
unfolding serve route handler_at nth matching matches method_matches serve_public_route recover
    serve_siwe serve_siwe_route cut_prefix
docs_answer = refl

posted_keys : answer_at (record (get_at "/siwe/keys") { method = "POST" }) ≡ unrouted
unfolding serve route handler_at nth matching matches method_matches serve_public_route recover
    serve_siwe serve_siwe_route cut_prefix
posted_keys = refl

-- Bob's process, and his request for a permission token.
abbrev x : Externals Table (Unit {0})
x = record Processes.x { eth = Samples.eth; lib = Samples.lib }

abbrev p : Process Table (Unit {0})
p = record Processes.p {
  exchange = record {
    exchange = Exchanges.exchange;
    well_known = record { discovery = "bob"; jwks = "keys" };
  };
}

abbrev request : Request
request = record {
  method = "POST";
  path = "/exchange/tokens/exchange";
  authorization = Exchanges.header;
  body = 0x7b ∷ 0x7d ∷ [];
}

bob_answered :
    (serve x mux memory_store decode p request draws state).0
    ≡ exchanged (Routes.exchanged (token "0xb"))
unfolding serve route handler_at nth matching matches method_matches serve_public_route recover
    serve_exchange_mux serve_exchange_route max_bytes auth_middleware cut_prefix trim_space
    trim_left trim_right is_space dev_license_validator exchange_token decode_asset_did
    get_user_eth_addr get_response_subject or_global validate_access is_account_level
    current_permission_record get_contract_address get_vehicle_sacd get_token_id user_grant_map
    is_zero did_string get_template_permissions lookup parse_int bytes
    extract_permissions_from_agreements show get_chain_id insert granted add_agreement
    evaluate_cloud_events evaluate_permissions grants contains text_or_global tokens_exchange
bob_answered = refl

serve-Permitted_example :
    Permitted Samples.eth Samples.lib Exchanges.exchange
      (exchange_part request)
      Exchanges.instants
      "jti"
      []
      "0xb"
serve-Permitted_example =
    serve-Permitted x mux memory_store decode p request draws (new_memory 640) [] "0xb" refl
      bob_answered
