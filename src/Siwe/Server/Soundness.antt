-- ===== src/Siwe/Server/Soundness.antt =====
-- What the sign-in surface guarantees over any store that keeps the promises of the interface.
use dauth.Base.{
  ℕ, ◌≡◌, ◌≢◌, inl, inr, sym, subst, String, List, [], ◌∷◌, true, ◌==◌, Bool-cases, Result-cases,
  str_eq, Time, arith, Result, ok, err, In, All, contains, contains_iff, all,
}
use dauth.Ethereum.{Ethereum, Address}
use dauth.Nonce.{Challenge, Store, StoreLaws}
use dauth.Siwe.Server.{
  Handlers, ChallengeRequest, TokenRequest, audience_allowed, new_nonce, challenge_at,
  store_challenge, challenge, token,
}

all_contained :
    (allowed xs : List String) → all (contains allowed) xs ≡ true → All (λ a. In a allowed) xs
all_contained allowed [] h = tt
all_contained allowed (x ∷ xs) h =
    let (to, _) = contains_iff allowed x in
    (to (ground arith), all_contained allowed xs (ground arith))

pub store_challenge_state :
    {S : Type 0} (eth : Ethereum) (store : Store S) (h : Handlers) (now later : Time)
    (addr : Address) (audience : List String) (id : String) (s : S)
    → (store_challenge eth store h now later addr audience id s).1
      ≡ (store.put id (challenge_at eth h now addr id audience) later s).1
unfolding store_challenge
store_challenge_state eth store h now later addr audience id s = ground arith

module _ (eth : Ethereum) (h : Handlers) where
  -- A challenge that the handler issued under the nonce: for an address that is not zero, with
  -- audiences of the allow-list, and with the canonical message of an instant.
  pub record Issued (kept : Challenge → Challenge) (id : String) (ch : Challenge) : Type 0 where
    pub address : Address
    pub audience : List String
    pub issued_at : Time
    pub nonzero : address ≢ 0
    pub allowed : All (λ a. In a h.allowed_audiences) audience
    pub made : ch ≡ kept (challenge_at eth h issued_at address id audience)

  allowed_audiences :
      (requested : List String)
      → audience_allowed h requested ≡ true
      → All (λ a. In a h.allowed_audiences) requested
  unfolding audience_allowed
  allowed_audiences requested good = all_contained h.allowed_audiences requested good

  module _ {S : Type 0} (store : Store S) (laws : StoreLaws S store) where
    open laws use {
      IsValid, Holds, kept, put_IsValid, consume_IsValid, put_Holds, consume_Holds, consume_ok,
    }

    abbrev pub OnlyIssued : S → Type 0
    OnlyIssued s = (id : String) (ch : Challenge) → Holds s id ch → Issued kept id ch

    store_challenge-OnlyIssued :
        (now later : Time) (addr : Address) (audience : List String) (id : String) (s : S)
        → IsValid s
        → OnlyIssued s
        → addr ≢ 0
        → All (λ a. In a h.allowed_audiences) audience
        → OnlyIssued (store_challenge eth store h now later addr audience id s).1
    store_challenge-OnlyIssued now later addr audience id s v o nz al j c held =
        let stored =
          subst (λ t. Holds t j c) (store_challenge_state eth store h now later addr audience id s)
            held in
        elim (put_Holds id j (challenge_at eth h now addr id audience) c later s v stored) [
          | inl (same, is) ↦
              subst (λ k. Issued kept k c) same
                (record {
                  address = addr;
                  audience = audience;
                  issued_at = now;
                  nonzero = nz;
                  allowed = al;
                  made = sym is;
                })
          | inr old ↦ o j c old
        ]

    -- The states that requests and the store's own upkeep reach from `first`; upkeep drops
    -- challenges and adds none.
    pub data Reach (first : S) : S → Type 0 where
      start : Reach first first
      asked :
          {s : S} (req : Result ChallengeRequest) (random : Result (List ℕ)) (now later : Time)
          → Reach first s
          → Reach first (challenge eth store h req random now later s).1
      redeemed :
          {s : S} (req : Result TokenRequest) (jti : String) (now later : Time)
          → Reach first s
          → Reach first (token eth store h req jti now later s).1
      upkept :
          {s : S} (s' : S)
          → Reach first s
          → IsValid s'
          → ((id : String) (ch : Challenge) → Holds s' id ch → Holds s id ch)
          → Reach first s'

    abbrev pub Sound : S → Type 0
    Sound s = IsValid s × OnlyIssued s

    challenge-Sound :
        (req : Result ChallengeRequest) (random : Result (List ℕ)) (now later : Time) (s : S)
        → Sound s
        → Sound (challenge eth store h req random now later s).1
    unfolding challenge
    challenge-Sound (err e) random now later s w = w
    challenge-Sound (ok req) random now later s w =
        elim (Bool-cases (eth.is_hex_address req.address)) [
          | inr e ↦ rw e w
          | inl e ↦ rw e (elim (Bool-cases (eth.hex_to_address req.address == 0)) [
            | inl z ↦ rw z w
            | inr nz ↦ rw nz (elim (Bool-cases (audience_allowed h req.audience)) [
              | inr bad ↦ rw bad w
              | inl good ↦ rw good (elim (Result-cases (new_nonce random)) [
                | inr (x, r) ↦ rw r w
                | inl (id, r) ↦ rw r (fresh id (ground arith) good)
              ])
            ])
          ])
        ]
      where
        fresh :
            (id : String)
            → eth.hex_to_address req.address ≢ 0
            → audience_allowed h req.audience ≡ true
            → Sound
                (store_challenge eth store h now later
                  (eth.hex_to_address req.address)
                  req.audience
                  id
                  s).1
        fresh id nz good = (
          subst IsValid (sym (store_challenge_state eth store h now later _ req.audience id s))
              (put_IsValid id _ later s w.0),
          store_challenge-OnlyIssued now later _ req.audience id s w.0 w.1 nz
              (allowed_audiences req.audience good),
        )

    token-Sound :
        (req : Result TokenRequest) (jti : String) (now later : Time) (s : S)
        → Sound s
        → Sound (token eth store h req jti now later s).1
    unfolding token
    token-Sound (err e) jti now later s w = w
    token-Sound (ok req) jti now later s w =
        let consumed : Sound (store.consume req.nonce now s).1 = (
          consume_IsValid req.nonce now s w.0,
          λ j c held. w.1 j c (consume_Holds req.nonce j c now s w.0 held),
        ) in
        elim (Bool-cases (str_eq req.nonce "")) [
          | inl e ↦ rw e w
          | inr e ↦ rw e (elim (Result-cases (eth.decode_hex req.signature)) [
            | inr (x, d) ↦ rw d w
            | inl (sig, d) ↦ rw d (elim (Result-cases (store.consume req.nonce now s).0) [
              | inr (x, r) ↦ rw r consumed
              | inl (ch, r) ↦ rw r consumed
            ])
          ])
        ]

    pub Reach-Sound : {first s : S} → Sound first → Reach first s → Sound s
    Reach-Sound w start = w
    Reach-Sound w (asked req random now later r) =
        challenge-Sound req random now later _ (Reach-Sound w r)
    Reach-Sound w (redeemed req jti now later r) = token-Sound req jti now later _ (Reach-Sound w r)
    Reach-Sound w (upkept s' r v sub) = (v, λ j c held. (Reach-Sound w r).1 j c (sub j c held))
