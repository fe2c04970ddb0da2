-- ===== src/Siwe/Server/Width.antt =====
-- The addresses of outstanding challenges are 20 bytes, as common.Address has them.
use dauth.Base.{
  ℕ, ◌^◌, ◌<◌, ◌≡◌, inl, inr, sym, subst, ◌∙◌, ap, String, List, ◌==◌, Bool-cases, Result-cases,
  str_eq, Time, Result, ok, err,
}
use dauth.Ethereum.{Ethereum, AddressLaws}
use dauth.Nonce.{Challenge, Store, StoreLaws}
use dauth.Siwe.Server.{
  Handlers, ChallengeRequest, TokenRequest, audience_allowed, new_nonce, challenge_at,
  store_challenge, challenge, token,
}
use dauth.Siwe.Server.Soundness.{
  store_challenge_state, Reach, start, asked, redeemed, upkept, Sound, Reach-Sound,
}

module _ (eth : Ethereum) (addresses : AddressLaws eth) (h : Handlers) {S : Type 0}
    (store : Store S) (laws : StoreLaws S store) where
  open laws use {IsValid, Holds, kept, kept_address, put_Holds, consume_Holds}

  -- Every outstanding challenge is for 20 bytes.
  abbrev pub AllWide : S → Type 0
  AllWide s = (id : String) (ch : Challenge) → Holds s id ch → ch.address < 2 ^ 160

  store_challenge-AllWide :
      (now later : Time) (text : String) (audience : List String) (id : String) (s : S)
      → IsValid s
      → AllWide s
      → AllWide (store_challenge eth store h now later (eth.hex_to_address text) audience id s).1
  unfolding challenge_at
  store_challenge-AllWide now later text audience id s v w j c held =
      let addr = eth.hex_to_address text in
      let ch = challenge_at eth h now addr id audience in
      let stored =
        subst (λ t. Holds t j c) (store_challenge_state eth store h now later addr audience id s)
          held in
      elim (put_Holds id j ch c later s v stored) [
        | inl (same, is) ↦
            let own : c.address ≡ addr =
              sym (ap (λ (k : Challenge). k.address) is) ∙ kept_address ch in
            subst (λ a. a < 2 ^ 160) (sym own) (addresses.width text)
        | inr old ↦ w j c old
      ]

  challenge-AllWide :
      (req : Result ChallengeRequest) (random : Result (List ℕ)) (now later : Time) (s : S)
      → IsValid s
      → AllWide s
      → AllWide (challenge eth store h req random now later s).1
  unfolding challenge
  challenge-AllWide (err e) random now later s v w = w
  challenge-AllWide (ok req) random now later s v w =
      elim (Bool-cases (eth.is_hex_address req.address)) [
        | inr e ↦ rw e w
        | inl e ↦ rw e (elim (Bool-cases (eth.hex_to_address req.address == 0)) [
          | inl z ↦ rw z w
          | inr nz ↦ rw nz (elim (Bool-cases (audience_allowed h req.audience)) [
            | inr bad ↦ rw bad w
            | inl good ↦ rw good (elim (Result-cases (new_nonce random)) [
              | inr (x, r) ↦ rw r w
              | inl (id, r) ↦
                  rw r (store_challenge-AllWide now later req.address req.audience id s v w)
            ])
          ])
        ])
      ]

  token-AllWide :
      (req : Result TokenRequest) (jti : String) (now later : Time) (s : S)
      → IsValid s
      → AllWide s
      → AllWide (token eth store h req jti now later s).1
  unfolding token
  token-AllWide (err e) jti now later s v w = w
  token-AllWide (ok req) jti now later s v w =
      let consumed : AllWide (store.consume req.nonce now s).1 =
        λ j c held. w j c (consume_Holds req.nonce j c now s v held) in
      elim (Bool-cases (str_eq req.nonce "")) [
        | inl e ↦ rw e w
        | inr e ↦ rw e (elim (Result-cases (eth.decode_hex req.signature)) [
          | inr (x, d) ↦ rw d w
          | inl (sig, d) ↦ rw d (elim (Result-cases (store.consume req.nonce now s).0) [
            | inr (x, r) ↦ rw r consumed
            | inl (ch, r) ↦ rw r consumed
          ])
        ])
      ]

  -- Requests and upkeep keep it.
  pub Reach-AllWide :
      {first s : S}
      → Sound eth h store laws first
      → AllWide first
      → Reach eth h store laws first s
      → AllWide s
  Reach-AllWide v w start = w
  Reach-AllWide v w (asked req random now later r) =
      challenge-AllWide req random now later _ (Reach-Sound eth h store laws v r).0
        (Reach-AllWide v w r)
  Reach-AllWide v w (redeemed req jti now later r) =
      token-AllWide req jti now later _ (Reach-Sound eth h store laws v r).0 (Reach-AllWide v w r)
  Reach-AllWide v w (upkept s' r valid sub) = λ j c held. Reach-AllWide v w r j c (sub j c held)
