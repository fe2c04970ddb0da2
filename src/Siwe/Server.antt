-- ===== src/Siwe/Server.antt =====
-- internal/siwe/server/handlers.go: the two handlers of the sign-in surface, over any store.
-- A handler takes the decoded body, or the decoder's error, and the readings of the clock and of the
-- random source that it makes, in order; it returns the response and the store's next state.
pub mod Soundness
pub mod SignIn
pub mod Width
use dauth.Base.{
  ℕ, String, List, Option, Bool, true, false, not, ◌==◌, all, if◌then◌else◌, bytes, str_eq,
  contains, encode_hex, Time, Duration, add, seconds, format_rfc3339, ℤ, Result, ok, err, errors_is,
}
use dauth.Ethereum.{Ethereum, Address, Backend}
use dauth.Nonce.{Challenge, Store}
use dauth.Siwe.Message.{Message, to_string}
use dauth.Siwe.Verifier.{verify}
use dauth.Siwe.Token.{Issuer, issue}

pub record Handlers : Type 0 where
  pub verifier : Option Backend
  pub issuer : Issuer
  pub domain : String
  pub uri : String
  pub statement : String
  pub chain_id : ℕ
  pub challenge_ttl : Duration
  pub allowed_audiences : List String

pub record ChallengeRequest : Type 0 where
  pub address : String
  pub audience : List String

pub record ChallengeResponse : Type 0 where
  pub challenge : String
  pub nonce : String
  pub expires_at : String

pub record TokenRequest : Type 0 where
  pub nonce : String
  pub signature : String

pub record TokenResponse : Type 0 where
  pub token : String
  pub token_type : String
  pub expires_in : ℤ

-- `failed` is writeError: the status, the code and the description; the others have status 200.
pub data Response : Type 0 where
  challenged : ChallengeResponse → Response
  granted : TokenResponse → Response
  failed : ℕ → String → String → Response

-- Every requested audience is on the list.
unfoldable pub audience_allowed : Handlers → List String → Bool
audience_allowed h requested = all (contains h.allowed_audiences) requested

-- nonce.New: 32 random bytes in hex, or the random source's error.
pub new_nonce : Result (List ℕ) → Result String
new_nonce (ok b) = ok (encode_hex b)
new_nonce (err e) = err e

-- The message and the challenge of a request at an instant.
pub message_at : Handlers → Time → Address → String → Message
message_at h now addr id = record {
  domain = h.domain;
  address = addr;
  statement = h.statement;
  uri = h.uri;
  chain_id = h.chain_id;
  nonce = id;
  issued_at = now;
  expiration_time = add now h.challenge_ttl;
}

unfoldable pub challenge_at :
    Ethereum → Handlers → Time → Address → String → List String → Challenge
unfolding message_at
challenge_at eth h now addr id audience = record {
  message = to_string eth (message_at h now addr id);
  address = addr;
  expires_at = add now h.challenge_ttl;
  audience = audience;
}

module _ {S : Type 0} (eth : Ethereum) (store : Store S) (h : Handlers) where
  -- Challenge, from the fresh nonce on.
  pub store_challenge : Time → Time → Address → List String → String → S → Response × S
  store_challenge now later addr audience id s =
      let ch = challenge_at eth h now addr id audience in
      let (r, s') = store.put id ch later s in
      elim r [
        | err e ↦ (failed 503 "server_error" "challenge store unavailable, retry shortly", s')
        | ok _ ↦ (
          challenged (record {
            challenge = ch.message;
            nonce = id;
            expires_at = format_rfc3339 ch.expires_at;
          }),
          s',
        )
      ]

  -- `now` is the handler's reading of the clock, and `later` the store's.
  unfoldable pub challenge :
      Result ChallengeRequest → Result (List ℕ) → Time → Time → S → Response × S
  unfolding store_challenge new_nonce
  challenge (err e) random now later s =
      (failed 400 "invalid_request" "could not parse request body", s)
  challenge (ok req) random now later s =
      if not (eth.is_hex_address req.address)
      then (failed 400 "invalid_request" "address is not a valid Ethereum address", s)
      else if eth.hex_to_address req.address == 0
      then (failed 400 "invalid_request" "address must not be the zero address", s)
      else if not (audience_allowed h req.audience)
      then (failed 400 "invalid_request" "requested audience is not allowed", s)
      else elim (new_nonce random) [
        | err e ↦ (failed 500 "server_error" "could not generate challenge", s)
        | ok id ↦ store_challenge now later (eth.hex_to_address req.address) req.audience id s
      ]

  -- Token, from the consumed challenge on.
  redeem : Time → String → Challenge → List ℕ → Response
  redeem now jti ch sig = elim (verify eth h.verifier ch.address (bytes ch.message) sig) [
    | err e ↦
        if errors_is "signature verification backend unavailable" e
        then failed 503 "server_error" "could not verify signature, retry shortly"
        else failed 500 "server_error" "could not verify signature"
    | ok false ↦ failed 401 "invalid_grant" "signature does not match address"
    | ok true ↦ elim (issue eth h.issuer now jti ch.address ch.audience) [
      | err e ↦ failed 500 "server_error" "could not issue token"
      | ok (tok, _) ↦
          granted (record { token = tok; token_type = "Bearer"; expires_in = seconds h.issuer.ttl })
    ]
  ]

  -- `now` is the store's reading of the clock, and `later` the issuer's.
  unfoldable pub token : Result TokenRequest → String → Time → Time → S → Response × S
  unfolding redeem
  token (err e) jti now later s = (failed 400 "invalid_request" "could not parse request body", s)
  token (ok req) jti now later s =
      if str_eq req.nonce ""
      then (failed 400 "invalid_request" "nonce is required", s)
      else elim (eth.decode_hex req.signature) [
        | err e ↦ (failed 400 "invalid_request" "signature must be 0x-prefixed hex", s)
        | ok sig ↦
            let (r, s') = store.consume req.nonce now s in
            elim r [
              | err e ↦
                  (failed 401 "invalid_grant" "challenge not found, already used, or expired", s')
              | ok ch ↦ (redeem later jti ch sig, s')
            ]
      ]
