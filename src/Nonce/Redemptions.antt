-- ===== src/Nonce/Redemptions.antt =====
-- internal/siwe/nonce: how often a nonce is redeemed along the calls of any store that keeps the
-- promises of the interface, whoever makes them: the goroutines of one process or many replicas.
use dauth.Base.{
  ℕ, ◌+◌, ◌≤◌, ◌≡◌, inl, inr, subst, String, List, [], ◌∷◌, false, Bool-cases, Result-cases,
  if◌then◌else◌, Time, Result, ok, err, arith, eq_iff, str_eq,
}
use dauth.Nonce.{Challenge, Store, StoreLaws}

-- A call of the store, or a step of its own upkeep.
pub data Call (U : Type 0) : Type 0 where
  puts : String → Challenge → Call U
  consumes : String → Call U
  upkeeps : U → Call U

-- A redemption counts when the caller gets the challenge.
abbrev redeemed : Result Challenge → ℕ
redeemed (ok c) = 1
redeemed (err e) = 0

-- The attempts to put a challenge under the nonce.
pub attempts : {U : Type 0} → String → List (Time × Call U) → ℕ
attempts id [] = 0
attempts id ((now, puts j ch) ∷ calls) = (if str_eq j id then 1 else 0) + attempts id calls
attempts id ((now, consumes j) ∷ calls) = attempts id calls
attempts id ((now, upkeeps u) ∷ calls) = attempts id calls

module _ {S U : Type 0} (store : Store S) (upkeep : U → Time → S → S) where
  -- The redemptions of the nonce along the calls from a state.
  unfoldable pub redemptions : String → List (Time × Call U) → S → ℕ
  redemptions id [] s = 0
  redemptions id ((now, puts j ch) ∷ calls) s = redemptions id calls (store.put j ch now s).1
  redemptions id ((now, consumes j) ∷ calls) s =
      let (r, s') = store.consume j now s in
      (if str_eq j id then redeemed r else 0) + redemptions id calls s'
  redemptions id ((now, upkeeps u) ∷ calls) s = redemptions id calls (upkeep u now s)

  -- Upkeep drops challenges and adds none.
  abbrev pub Drops : StoreLaws S store → Type 0
  Drops laws =
      (u : U) (now : Time) (s : S)
      → laws.IsValid s
      → laws.IsValid (upkeep u now s)
        × ((id : String) (c : Challenge) → laws.Holds (upkeep u now s) id c → laws.Holds s id c)

  module _ (laws : StoreLaws S store) (drops : Drops laws) (id : String) where
    open laws use {
      IsValid, Holds, put_IsValid, consume_IsValid, put_Holds, consume_Holds, consume_gone,
      consume_ok,
    }

    abbrev Absent : S → Type 0
    Absent s = (c : Challenge) → ¬ Holds s id c

    put-Absent :
        (j : String) (ch : Challenge) (now : Time) (s : S)
        → IsValid s
        → str_eq j id ≡ false
        → Absent s
        → Absent (store.put j ch now s).1
    put-Absent j ch now s v other gone c held = elim (put_Holds j id ch c now s v held) [
      | inl (same, _) ↦ ground (arith, eq_iff j id)
      | inr old ↦ gone c old
    ]

    consume-taken :
        (j : String) (c : Challenge) (now : Time) (s : S)
        → IsValid s
        → j ≡ id
        → (store.consume j now s).0 ≡ ok c
        → Holds s id c × Absent (store.consume j now s).1
    consume-taken j c now s v same r = (
      subst (λ k. Holds s k c) same (consume_ok j c now s v r).0,
      subst (λ k. (c' : Challenge) → ¬ Holds (store.consume j now s).1 k c') same
          (λ c'. consume_gone j c' now s v (inl (c, r))),
    )

    -- One more than the attempts, and no more than them where the nonce is absent at first.
    pub redemptions-le :
        (calls : List (Time × Call U)) (s : S)
        → IsValid s
        → (redemptions id calls s ≤ attempts id calls + 1)
          × (Absent s → redemptions id calls s ≤ attempts id calls)
    unfolding redemptions attempts
    redemptions-le [] s v = (omega arith, λ gone. omega arith)
    redemptions-le ((now, puts j ch) ∷ calls) s v =
        let (any, absent) =
          redemptions-le calls (store.put j ch now s).1 (put_IsValid j ch now s v) in
        elim (Bool-cases (str_eq j id)) [
          | inl same ↦ (ground arith, λ gone. ground arith)
          | inr other ↦
              (ground arith, λ gone. ground (arith, absent (put-Absent j ch now s v other gone)))
        ]
    redemptions-le ((now, consumes j) ∷ calls) s v =
        let (any, absent) =
          redemptions-le calls (store.consume j now s).1 (consume_IsValid j now s v) in
        let still : Absent s → Absent (store.consume j now s).1 =
          λ gone c held. gone c (consume_Holds j id c now s v held) in
        elim (Bool-cases (str_eq j id)) [
          | inr other ↦ (ground arith, λ gone. ground (arith, absent (still gone)))
          | inl same ↦ elim (Result-cases (store.consume j now s).0) [
            | inr (e, r) ↦ (ground arith, λ gone. ground (arith, absent (still gone)))
            | inl (c, r) ↦
                let (held, gone_after) = consume-taken j c now s v ((eq_iff j id).0 same) r in
                (ground (arith, absent gone_after), λ gone. absurd (gone c held))
          ]
        ]
    redemptions-le ((now, upkeeps u) ∷ calls) s v =
        let (v', sub) = drops u now s v in
        let (any, absent) = redemptions-le calls (upkeep u now s) v' in
        (any, λ gone. absent (λ c held. gone c (sub id c held)))
