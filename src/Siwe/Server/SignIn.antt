-- ===== src/Siwe/Server/SignIn.antt =====
-- The theorems of the sign-in surface: who gets a token, and what becomes of a nonce.
use dauth.Base.{
  ℕ, ◌≤◌, ◌≡◌, ◌≢◌, inl, inr, ap, subst, ◌∙◌, String, List, true, ◌==◌, Bool-cases, Result-cases,
  bytes, str_eq, eq_iff, Time, seconds, arith, Error, Result, ok, err,
}
use dauth.Ethereum.{Ethereum, Address}
use dauth.Nonce.{Challenge, Store, StoreLaws, Answers}
use dauth.Siwe.Message.{to_string}
use dauth.Siwe.Verifier.{verify}
use dauth.Siwe.Token.{claims_for, issue}
use dauth.Siwe.Server.{
  Handlers, ChallengeRequest, ChallengeResponse, TokenRequest, TokenResponse, Response, challenged,
  granted, failed, audience_allowed, new_nonce, message_at, challenge_at, store_challenge,
  challenge, redeem, token,
}
use dauth.Siwe.Server.Soundness.{store_challenge_state, Issued, Reach, Sound, Reach-Sound}

-- What a granted token rests on.
pub record SignedIn {S : Type 0} (eth : Ethereum) (h : Handlers) (store : Store S)
    (laws : StoreLaws S store) (s : S) (req : TokenRequest) (jti : String) (now later : Time)
    (token : String) : Type 0 where
  pub signature : List ℕ
  pub ch : Challenge
  pub outstanding : laws.Holds s req.nonce ch
  pub in_time : now ≤ ch.expires_at
  pub issued : Issued eth h laws.kept req.nonce ch
  pub decoded : eth.decode_hex req.signature ≡ ok signature
  pub verified : verify eth h.verifier ch.address (bytes ch.message) signature ≡ ok true
  pub signed : h.issuer.keys (claims_for eth h.issuer later jti ch.address ch.audience) ≡ ok token

module _ (eth : Ethereum) (h : Handlers) {S : Type 0} (store : Store S)
    (laws : StoreLaws S store) where
  open laws use {
    IsValid, Holds, kept, consume_IsValid, consume_Holds, consume_gone, consume_ok, put_ok,
    consume_live,
  }

  redeem-granted :
      (later : Time) (jti : String) (ch : Challenge) (sig : List ℕ) (resp : TokenResponse)
      → redeem eth store h later jti ch sig ≡ granted resp
      → (verify eth h.verifier ch.address (bytes ch.message) sig ≡ ok true)
        × (h.issuer.keys (claims_for eth h.issuer later jti ch.address ch.audience) ≡ ok resp.token)
  unfolding redeem issue
  redeem-granted later jti ch sig resp g = ground arith

  -- Soundness of sign-in: in every state that the requests and the store's upkeep reach from a
  -- sound one, a token is granted only for a nonce under which a challenge is outstanding and not
  -- expired; the challenge was issued under that very nonce, for an address that is not zero, with
  -- audiences of the allow-list and the canonical message; the signature verifies that message for
  -- that address; and the token is the signature of the key set on the claims for them.
  pub token-SignedIn :
      {first s : S} (req : TokenRequest) (jti : String) (now later : Time) (resp : TokenResponse)
      → Sound eth h store laws first
      → Reach eth h store laws first s
      → (token eth store h (ok req) jti now later s).0 ≡ granted resp
      → SignedIn eth h store laws s req jti now later resp.token
  unfolding token
  token-SignedIn {s} req jti now later resp w r g = elim (Bool-cases (str_eq req.nonce "")) [
    | inl e ↦ ground arith
    | inr e ↦ elim (Result-cases (eth.decode_hex req.signature)) [
      | inr (x, d) ↦ ground arith
      | inl (sig, d) ↦ elim (Result-cases (store.consume req.nonce now s).0) [
        | inr (x, c) ↦ ground arith
        | inl (ch, c) ↦
            let sound = Reach-Sound eth h store laws w r in
            let (held, live) = consume_ok req.nonce ch now s sound.0 c in
            let (verified, signed) = redeem-granted later jti ch sig resp (ground arith) in
            record {
              signature = sig;
              ch = ch;
              outstanding = held;
              in_time = live;
              issued = sound.1 req.nonce ch held;
              decoded = d;
              verified = verified;
              signed = signed;
            }
      ]
    ]
  ]

  abbrev pub not_found : Response
  not_found = failed 401 "invalid_grant" "challenge not found, already used, or expired"

  token_state :
      (req : TokenRequest) (jti : String) (now later : Time) (s : S) (sig : List ℕ)
      → req.nonce ≢ ""
      → eth.decode_hex req.signature ≡ ok sig
      → (token eth store h (ok req) jti now later s).1 ≡ (store.consume req.nonce now s).1
  unfolding token
  token_state req jti now later s sig ne d = ground (arith, eq_iff req.nonce "")

  token-not_found :
      (req : TokenRequest) (jti : String) (now later : Time) (s : S) (sig : List ℕ) (e : Error)
      → req.nonce ≢ ""
      → eth.decode_hex req.signature ≡ ok sig
      → (store.consume req.nonce now s).0 ≡ err e
      → (token eth store h (ok req) jti now later s).0 ≡ not_found
  unfolding token
  token-not_found req jti now later s sig e ne d c = ground (arith, eq_iff req.nonce "")

  -- No replay: once a token request with a nonce that is not empty and a decodable signature was served
  -- in a valid state of the store, and the store did not fail on it, the next request with the same
  -- nonce and a decodable signature is answered by 401 invalid_grant, whatever the first answer was.
  pub token_replay :
      (req again : TokenRequest) (jti jti' : String) (now later now' later' : Time) (s : S)
      (sig sig' : List ℕ)
      → IsValid s
      → req.nonce ≢ ""
      → again.nonce ≡ req.nonce
      → eth.decode_hex req.signature ≡ ok sig
      → eth.decode_hex again.signature ≡ ok sig'
      → Answers (store.consume req.nonce now s).0
      → (token eth store h
          (ok again)
          jti'
          now'
          later'
          (token eth store h (ok req) jti now later s).1).0
        ≡ not_found
  token_replay req again jti jti' now later now' later' s sig sig' v ne same d d' a =
      rw (token_state req jti now later s sig ne d)
        (elim (Result-cases (store.consume again.nonce now' s').0) [
          | inr (e, c) ↦ token-not_found again jti' now' later' s' sig' e (ground arith) d' c
          | inl (ch, c) ↦
              let held =
                (consume_ok again.nonce ch now' s' (consume_IsValid req.nonce now s v) c).0 in
              absurd (consume_gone req.nonce ch now s v a (subst (λ k. Holds s' k ch) same held))
        ])
    where
      s' : S
      s' = (store.consume req.nonce now s).1

  -- What the challenge handler answers when it does not refuse.
  pub record Challenged (req : ChallengeRequest) (random : Result (List ℕ)) (now : Time) (s' : S)
      (resp : ChallengeResponse) : Type 0 where
    pub valid : eth.is_hex_address req.address ≡ true
    pub nonzero : eth.hex_to_address req.address ≢ 0
    pub allowed : audience_allowed h req.audience ≡ true
    pub fresh : new_nonce random ≡ ok resp.nonce
    pub held :
        Holds s' resp.nonce
          (kept (challenge_at eth h now (eth.hex_to_address req.address) resp.nonce req.audience))
    pub shown :
        resp.challenge
        ≡ to_string eth (message_at h now (eth.hex_to_address req.address) resp.nonce)

  store_challenged :
      (now later : Time) (addr : Address) (audience : List String) (id : String) (s : S)
      (resp : ChallengeResponse)
      → (store_challenge eth store h now later addr audience id s).0 ≡ challenged resp
      → (id ≡ resp.nonce)
        × (resp.challenge ≡ to_string eth (message_at h now addr id))
        × ((store.put id (challenge_at eth h now addr id audience) later s).0 ≡ ok tt)
  unfolding store_challenge challenge_at
  store_challenged now later addr audience id s resp g = ground arith

  challenge_stored :
      (req : ChallengeRequest) (random : Result (List ℕ)) (now later : Time) (s : S) (id : String)
      (resp : ChallengeResponse)
      → IsValid s
      → eth.is_hex_address req.address ≡ true
      → eth.hex_to_address req.address ≢ 0
      → audience_allowed h req.audience ≡ true
      → new_nonce random ≡ ok id
      → let r =
          store_challenge eth store h now later
            (eth.hex_to_address req.address)
            req.audience
            id
            s in
        r.0 ≡ challenged resp → Challenged req random now r.1 resp
  challenge_stored req random now later s id resp v hex nz al n g =
      let addr = eth.hex_to_address req.address in
      let (same, text, put) = store_challenged now later addr req.audience id s resp g in
      let ch = challenge_at eth h now addr id req.audience in
      let stored = put_ok id ch later s v put in
      record {
        valid = hex;
        nonzero = nz;
        allowed = al;
        fresh = n ∙ ap ok same;
        held = rw (store_challenge_state eth store h now later addr req.audience id s) (
            subst
              (λ k.
                Holds (store.put id ch later s).1 k
                  (kept (challenge_at eth h now addr k req.audience)))
              same stored);
        shown = text ∙ ap (λ k. to_string eth (message_at h now addr k)) same;
      }

  pub challenge-Challenged :
      (req : ChallengeRequest) (random : Result (List ℕ)) (now later : Time) (s : S)
      (resp : ChallengeResponse)
      → IsValid s
      → (challenge eth store h (ok req) random now later s).0 ≡ challenged resp
      → Challenged req random now (challenge eth store h (ok req) random now later s).1 resp
  unfolding challenge
  challenge-Challenged req random now later s resp v =
      elim (Bool-cases (eth.is_hex_address req.address)) [
        | inr e ↦ rw e (λ g. cc)
        | inl hex ↦ rw hex (elim (Bool-cases (eth.hex_to_address req.address == 0)) [
          | inl e ↦ rw e (λ g. cc)
          | inr nz ↦ rw nz (elim (Bool-cases (audience_allowed h req.audience)) [
            | inr e ↦ rw e (λ g. cc)
            | inl al ↦ rw al (elim (Result-cases (new_nonce random)) [
              | inr (x, n) ↦ rw n (λ g. cc)
              | inl (id, n) ↦
                  rw n (challenge_stored req random now later s id resp v hex (ground arith) al n)
            ])
          ])
        ])
      ]

  -- Completeness of sign-in: in a valid state of the store, while a challenge is outstanding and not
  -- expired and the store does not fail, a request with its nonce, which is not empty, and a signature
  -- that decodes and verifies gets the token that the key set signs for its address and audience, as a Bearer token with the
  -- configured lifetime.
  pub token_complete :
      (req : TokenRequest) (jti : String) (now later : Time) (s : S) (ch : Challenge) (sig : List ℕ)
      (tok : String)
      → IsValid s
      → Holds s req.nonce ch
      → now ≤ ch.expires_at
      → Answers (store.consume req.nonce now s).0
      → req.nonce ≢ ""
      → eth.decode_hex req.signature ≡ ok sig
      → verify eth h.verifier ch.address (bytes ch.message) sig ≡ ok true
      → h.issuer.keys (claims_for eth h.issuer later jti ch.address ch.audience) ≡ ok tok
      → (token eth store h (ok req) jti now later s).0
        ≡ granted (record { token = tok; token_type = "Bearer"; expires_in = seconds h.issuer.ttl })
  unfolding token redeem issue
  token_complete req jti now later s ch sig tok v held live a ne d ver signed =
      ground (arith, eq_iff req.nonce "", consume_live req.nonce ch now s v held live a)
