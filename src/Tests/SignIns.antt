-- ===== src/Tests/SignIns.antt =====
-- A sign-in of alice over the in-memory store: she asks for a challenge, redeems it, and the same
-- nonce is presented again.
use dauth.Base.{
  ◌+◌, ◌≤◌, ◌≡◌, ◌⊎◌, ◌↔◌, refl, subst, arith, pos, [], ◌∷◌, none, some, true, bytes, Time, plain,
  ok, err, seconds, eq_iff, lookup, insert, encode_hex, contains, format_rfc3339,
}
use dauth.Ethereum.{Backend}
use dauth.Nonce.{Challenge}
use dauth.Nonce.Memory.{Memory, new_memory, memory_store, put, consume, shard, per_shard}
use dauth.Nonce.Memory.Promises.{memory_laws, memory_kept, new_memory-IsEmpty, consume-Answers}
use dauth.Siwe.Verifier.{verify, verify_eoa}
use dauth.Siwe.Verifier.Laws.{ApprovedBy, verify-true_iff}
use dauth.Siwe.Token.{claims_for, issue}
use dauth.Siwe.Server.{
  Handlers, ChallengeRequest, ChallengeResponse, TokenRequest, TokenResponse, Response, challenged,
  granted, challenge_at, challenge, token, audience_allowed,
}
use dauth.Siwe.Server.Soundness.{Sound, Reach-Sound, start, asked}
use dauth.Siwe.Server.SignIn.{
  SignedIn, not_found, token-SignedIn, token_replay, challenge-Challenged, token_complete,
}
use dauth.Tests.Samples.{alice, bob, signature_of, eth, backend}

verify-true_iff_example : (verify eth (some backend) bob (1 ∷ []) (signature_of 12) ≡ ok true) ↔ (
    (verify_eoa eth (signature_of 12) (1 ∷ []) bob ≡ true)
    ⊎ ApprovedBy (some backend) bob (1 ∷ []) (signature_of 12))
verify-true_iff_example = verify-true_iff eth (some backend) bob (1 ∷ []) (signature_of 12)

abbrev cut_off : Backend
cut_off = record backend { code_at = λ a. err (plain "no route to host") }

abbrev h : Handlers
h = record {
  verifier = none;
  issuer = record {
    keys = λ c. ok c.subject;
    issuer = "dauth";
    audience = "app" ∷ [];
    ttl = pos 3_000_000_000;
  };
  domain = "example.org";
  uri = "https://example.org";
  statement = "hello";
  chain_id = 137;
  challenge_ttl = pos 60_000_000_000;
  allowed_audiences = "app" ∷ [];
}

-- An instant of the year 1.
abbrev now : Time
now = 63_158_400_000_000_000 + 5

abbrev ask : ChallengeRequest
ask = record { address = "0xa"; audience = "app" ∷ [] }

abbrev asks : Response × Memory
asks = challenge eth memory_store h (ok ask) (ok (0xab ∷ [])) now (now + 1) (new_memory 640)

abbrev held : Challenge
held = challenge_at eth h now alice "ab" ("app" ∷ [])

abbrev answer : ChallengeResponse
answer = record {
  challenge = held.message;
  nonce = "ab";
  expires_at = format_rfc3339 held.expires_at;
}

asks_answered : asks.0 ≡ challenged answer
unfolding challenge audience_allowed contains put shard encode_hex new_memory per_shard
asks_answered = refl

abbrev redeem_by_alice : TokenRequest
redeem_by_alice = record { nonce = "ab"; signature = "by alice" }

abbrev reply : TokenResponse
reply = record { token = "0xa"; token_type = "Bearer"; expires_in = pos 3 }

token_granted :
    (token eth memory_store h (ok redeem_by_alice) "jti" (now + 2) (now + 3) asks.1).0
    ≡ granted reply
unfolding token challenge audience_allowed contains put consume shard verify verify_eoa challenge_at
    encode_hex new_memory per_shard lookup insert issue seconds
token_granted = refl

sound : Sound eth h memory_store memory_laws (new_memory 640)
sound = ((new_memory-IsEmpty 640).0, λ id c held. absurd ((new_memory-IsEmpty 640).1 id c held))

token-SignedIn_example :
    SignedIn eth h memory_store memory_laws asks.1 redeem_by_alice "jti" (now + 2) (now + 3) "0xa"
token-SignedIn_example =
    token-SignedIn eth h memory_store memory_laws redeem_by_alice "jti" (now + 2) (now + 3) reply
      sound (asked (ok ask) (ok (0xab ∷ [])) now (now + 1) start) token_granted

token_replay_example :
    (token eth memory_store h
      (ok redeem_by_alice)
      "jti 2"
      (now + 4)
      (now + 5)
      (token eth memory_store h
        (ok redeem_by_alice)
        "jti"
        (now + 2)
        (now + 3)
        (new_memory 640)).1).0
    ≡ not_found eth h memory_store memory_laws
token_replay_example =
    token_replay eth h memory_store memory_laws redeem_by_alice redeem_by_alice "jti" "jti 2"
      (now + 2) (now + 3) (now + 4) (now + 5) (new_memory 640) (signature_of alice)
      (signature_of alice) (new_memory-IsEmpty 640).0 (λ e. ground (arith, eq_iff "ab" "")) refl
      refl refl (consume-Answers "ab" (now + 2) (new_memory 640))

outstanding : memory_laws.Holds asks.1 "ab" held
outstanding =
    let shown =
      challenge-Challenged eth h memory_store memory_laws ask (ok (0xab ∷ [])) now (now + 1)
        (new_memory 640) answer (new_memory-IsEmpty 640).0 asks_answered in
    subst (λ c. memory_laws.Holds asks.1 "ab" c) (memory_kept held) shown.held

held_verified : verify eth none held.address (bytes held.message) (signature_of alice) ≡ ok true
unfolding verify verify_eoa challenge_at
held_verified = refl

signed :
    h.issuer.keys (claims_for eth h.issuer (now + 3) "jti" held.address held.audience) ≡ ok "0xa"
unfolding claims_for challenge_at
signed = refl

in_time : now + 2 ≤ held.expires_at
unfolding challenge_at
in_time = omega arith

asks-IsValid : memory_laws.IsValid asks.1
asks-IsValid =
    (Reach-Sound eth h memory_store memory_laws sound
      (asked (ok ask) (ok (0xab ∷ [])) now (now + 1) start)).0

token_complete_example :
    (token eth memory_store h (ok redeem_by_alice) "jti" (now + 2) (now + 3) asks.1).0
    ≡ granted
        (record { token = "0xa"; token_type = "Bearer"; expires_in = seconds (pos 3_000_000_000) })
token_complete_example =
    token_complete eth h memory_store memory_laws redeem_by_alice "jti" (now + 2) (now + 3) asks.1
      held (signature_of alice) "0xa" asks-IsValid outstanding in_time
      (consume-Answers "ab" (now + 2) asks.1) (λ e. ground (arith, eq_iff "ab" "")) refl
      held_verified signed
