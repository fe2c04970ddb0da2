-- ===== src/Tests/Processes.antt =====
-- A process that starts, and alice's session in it: she signs in and goes to the exchange.
use dauth.Base.{
  ◌+◌, ◌*◌, ◌/◌, ◌%◌, ◌^◌, Option-cases, ◌<◌, ◌≡◌, inl, inr, refl, ap, sym, ◌∙◌, Bool, Bool-cases,
  arith, [], ◌∷◌, none, some, true, false, String, bytes, show, parse_digits, parse_digits-show,
  pos, Time, second, ok, err, plain, str_eq, eq_iff, if◌then◌else◌, ◌⧺◌, add, seconds, contains,
  encode_hex, lookup, insert,
}
use dauth.Env.{
  getenv, string_or, numbered, list, split_commas, on_first, is_comma, keep_trimmed, trim_space,
  trim_left, trim_right, is_space, int, uint, duration,
}
use dauth.Ethereum.{Ethereum, AddressLaws}
use dauth.Siwe.Server.Width.{AllWide}
use dauth.Keyset.{RsaKey}
use dauth.Keyset
use dauth.Oidc.{new_well_known, jwks_json, discovery_doc}
use dauth.Siwe.Token.{Claims}
use dauth.Exchange.Middleware.{Jwt, Context, passed, get_user_eth_addr}
use dauth.Exchange.Auth.{bearer, auth_middleware, new_jwt_auth_from_jwks}
use dauth.Exchange.Routes.{background}
use dauth.App.{
  Externals, Node, Process, start, siwe_oidc, exchange_oidc, handlers_of, exchange_of, in_memory,
  sign_with, siwe_backend, new_store, build_siwe, token_ttl, create_servers,
}
use dauth.Nonce.Memory.{new_memory}
use dauth.Siwe.Config as SiweConfig
use dauth.Exchange.Config as ExchangeConfig
use dauth.Exchange.Config.Laws as ExchangeLaws
use dauth.Exchange.Ipfs.{new_ipfs_client}
use dauth.Exchange.Signer.{new_token_signer}
use dauth.App.Session.{JwtLaws, granted-accepted}
use dauth.Nonce.Memory.{Memory, memory_store, put, consume, shard, per_shard}
use dauth.Nonce.Memory.Promises.{memory_laws, new_memory-IsEmpty}
use dauth.Siwe.Verifier.{verify, verify_eoa}
use dauth.Siwe.Token.{new_issuer, claims_for, issue}
use dauth.Siwe.Server.{
  Handlers, ChallengeRequest, TokenRequest, TokenResponse, granted, challenge_at, challenge, token,
  audience_allowed,
}
use dauth.Siwe.Server.Soundness.{Sound, asked}
use dauth.Siwe.Server.Soundness
use dauth.Siwe.Server.SignIn.{SignedIn}
use dauth.Tests.Samples.{eth, lib, json, backend, template_service}
use dauth.Tests.Keys.{crypto, keys}
use dauth.Tests.Tables.{Table, db, empty}
use dauth.Tests.Accesses.{body, chain, proxy, identity}
use dauth.Tests.Environments.{env, parsers, url, cfg, swapped}

-- Addresses are written in decimal, and cropped to 20 bytes.
abbrev decimal : Ethereum
decimal = record eth {
  is_hex_address = λ s. elim (parse_digits (bytes s)) [ none ↦ false | some n ↦ true ];
  hex_to_address = λ s. elim (parse_digits (bytes s)) [ none ↦ 0 | some n ↦ n % 2 ^ 160 ];
  hex = show;
}

decimal_addresses : AddressLaws decimal
decimal_addresses = record {
  width = λ t. elim (Option-cases (parse_digits (bytes t))) [
    | inl e ↦ rw (decimal, e) (ground arith)
    | inr (n, e) ↦ rw (decimal, e) (omega arith)
  ];
  is_hex = λ a w. rw (decimal, parse_digits-show a) refl;
  back = λ a w. rw (decimal, parse_digits-show a) (omega arith);
}

abbrev alice_token : Jwt
alice_token = record {
  claims = some (λ name. if str_eq name "ethereum_address" then some "10" else none);
}

abbrev node : Node
node = record {
  backend = backend;
  new_sacd = λ a. ok chain;
  new_template = λ a. ok template_service.contract;
}

abbrev pub x : Externals Table (Unit {0})
x = record {
  eth = decimal;
  lib = lib;
  json = json;
  parsers = parsers;
  crypto = crypto;
  marshal = record { discovery = λ d. ok d.issuer; jwks = λ ks. ok "keys" };
  sign_claims = λ kid c k.
      if str_eq c.ethereum_address "10" then ok "alice.token" else err (plain "not alice");
  sign_token = λ kid t k. ok t.subject;
  jwt = record {
    new_jwk_set = λ json. ok tt;
    parse = λ jwks now s.
        if str_eq s "alice.token"
        then ok (record { token = alice_token; valid = true })
        else err (plain "token is malformed");
  };
  dial = λ u. ok node;
  open_pool = λ u. ok empty;
  ping = λ d. (ok tt, d);
  db = db;
  ipfs = λ u d. record {
    join_path = λ cid. cid;
    new_request = λ u. ok tt;
    send = λ u. ok (record { status_code = 200; body = ok [] });
  };
  identity = λ u. proxy.client;
  licences = λ u. identity;
  decode = λ b. ok body;
}

abbrev is_alice : Claims → Bool
is_alice c = str_eq c.ethereum_address "10"

jwt_laws : JwtLaws x
unfolding trim_space trim_left trim_right is_space
jwt_laws = record {
  verifies = λ ks k json jwks c s now published trusted member distinct signed from until.
      let (is, text) = signed_text k.kid c k.priv s signed in
      (
        alice_token,
        (λ name. if str_eq name "ethereum_address" then some "10" else none),
        ap (λ t. x.jwt.parse jwks now t) text,
        refl,
        ap some (sym is),
      );
  one_word = λ k c s signed.
      let (is, text) = signed_text k.kid c k.priv s signed in ap trim_space text ∙ sym text;
}
  where
    signed_text :
        (kid : String) (c : Claims) (k : RsaKey) (s : String)
        → x.sign_claims kid c k ≡ ok s
        → (c.ethereum_address ≡ "10") × (s ≡ "alice.token")
    signed_text kid c k s h = elim (Bool-cases (is_alice c)) [
      | inl e ↦ ((eq_iff c.ethereum_address "10").0 e, ground arith)
      | inr e ↦ absurd (ground arith)
    ]

abbrev exchange_cfg : ExchangeConfig.Config
exchange_cfg = ExchangeLaws.settled decimal env (pos 8086) 137

abbrev pub p : Process Table (Unit {0})
p = record {
  siwe = record {
    handlers = handlers_of x cfg keys none;
    store = in_memory (new_memory 100_000);
    well_known = record { discovery = cfg.issuer; jwks = "keys" };
  };
  exchange = record {
    exchange =
        exchange_of x exchange_cfg tt node chain template_service.contract
          (x.ipfs url (pos 1_000_000_000))
          (new_token_signer (sign_with x.sign_token keys) exchange_cfg.issuer (pos 1_000_000_000));
    well_known = record { discovery = exchange_cfg.issuer; jwks = "keys" };
  };
}

pub starts : start x swapped env ≡ ok p
unfolding start SiweConfig.load SiweConfig.initial getenv lookup list split_commas on_first is_comma
    keep_trimmed trim_space trim_left trim_right is_space SiweConfig.issuer_url
    SiweConfig.public_url SiweConfig.absolute_url SiweConfig.check_database SiweConfig.use_postgres
    numbered show uint duration SiweConfig.trim_slashes string_or ExchangeConfig.load int
    ExchangeConfig.check_required ExchangeConfig.required ExchangeConfig.initial
    ExchangeConfig.signing_keys Keyset.load Keyset.bit_len Keyset.thumbprint contains build_siwe
    siwe_backend new_store new_well_known jwks_json new_jwt_auth_from_jwks create_servers token_ttl
    new_ipfs_client discovery_doc siwe_oidc exchange_oidc
starts = refl

abbrev h : Handlers
h = p.siwe.handlers

-- An instant of the year 1.
abbrev noon : Time
noon = 63_158_400_000_000_000 + 5

abbrev ask : ChallengeRequest
ask = record { address = "10"; audience = "app" ∷ [] }

abbrev asked_state : Memory
asked_state =
    (challenge decimal memory_store h (ok ask) (ok (0xab ∷ [])) noon (noon + 1) (new_memory 640)).1

abbrev redemption : TokenRequest
redemption = record { nonce = "ab"; signature = "by alice" }

abbrev reply : TokenResponse
reply = record { token = "alice.token"; token_type = "Bearer"; expires_in = pos 3600 }

sound : Sound decimal h memory_store memory_laws (new_memory 640)
sound = ((new_memory-IsEmpty 640).0, λ id c held. absurd ((new_memory-IsEmpty 640).1 id c held))

wide : AllWide decimal decimal_addresses h memory_store memory_laws (new_memory 640)
wide id c held = absurd ((new_memory-IsEmpty 640).1 id c held)

alice_granted :
    (token decimal memory_store h (ok redemption) "jti" (noon + 2) (noon + 3) asked_state).0
    ≡ granted reply
unfolding token challenge audience_allowed contains put consume shard verify verify_eoa challenge_at
    encode_hex new_memory per_shard lookup insert issue seconds handlers_of new_issuer claims_for
    parse_digits bytes show list split_commas on_first is_comma keep_trimmed trim_space trim_left
    trim_right is_space getenv SiweConfig.initial Keyset.sign
alice_granted = refl

in_time : noon + 4 < add (noon + 3) h.issuer.ttl / second * second
unfolding handlers_of new_issuer
in_time = ground arith

granted-accepted_example :
    (w : SignedIn decimal h memory_store memory_laws asked_state redemption "jti"
      (noon + 2)
      (noon + 3)
      "alice.token")
    × (ctx : Context) × (auth_middleware p.exchange.exchange.parser p.exchange.exchange.jwks
          (noon + 4)
          (bearer ⧺ "alice.token")
          background
        ≡ passed ctx)
    × (get_user_eth_addr decimal ctx ≡ ok w.ch.address)
granted-accepted_example =
    granted-accepted x jwt_laws memory_store memory_laws swapped env p redemption "jti" (noon + 2)
      (noon + 3) (noon + 4) reply starts decimal_addresses sound wide
      (asked (ok ask) (ok (0xab ∷ [])) noon (noon + 1) Soundness.start) alice_granted (ground arith)
      in_time
