-- ===== src/Base/Text/Decimal.antt =====
-- Decimal printing and reading undo one another: `%d`, strconv.Itoa and the readers of strconv.
use Prim.Native.Nat.{ℕ, zero, suc, ◌+◌, ◌-◌, ◌*◌, ◌/◌, ◌%◌, ◌<◌}
use Prim.Native.String.{String}
use mathlib.Core.Path.{◌≡◌, refl, ap}
use mathlib.Core.Logic.{◌⊎◌, ◌≢◌, inl, inr}
use mathlib.Core.Option.{some}
use mathlib.Core.List.{List, [], ◌∷◌, ◌++◌, append_assoc}
use text.Mathlib.TextLemmas.{nil-append, cons-append}
use native.Mathlib.Omega.{arith}
use package.dauth.Base.Tests.{ltb, Bool-cases}
use package.dauth.Base.Text.{◌⧺◌, digit, show_from, show, bytes, utf8, parse_from, parse_digits}

pub bytes-append : (s t : String) → bytes (s ⧺ t) ≡ bytes s ++ bytes t
unfolding bytes
bytes-append String.[] t = ap bytes (nil-append t)
bytes-append (String.◌∷◌ c s) t = rw (cons-append c s t, bytes-append s t, append_assoc) refl

below_ten :
    (n : ℕ)
    → n < 10
    → ((n ≡ 0) ⊎ ((n ≡ 1) ⊎ ((n ≡ 2) ⊎ ((n ≡ 3) ⊎ (n ≡ 4)))))
      ⊎ ((n ≡ 5) ⊎ ((n ≡ 6) ⊎ ((n ≡ 7) ⊎ ((n ≡ 8) ⊎ (n ≡ 9)))))
below_ten n h = omega arith

digit_bytes : (n : ℕ) → n < 10 → bytes (digit n) ≡ (48 + n) ∷ []
unfolding digit bytes utf8
digit_bytes n h = elim (below_ten n h) [
  | inl small ↦ elim small [
    | inl e ↦ rw e refl
    | inr s ↦ elim s [
      | inl e ↦ rw e refl
      | inr s ↦ elim s [
        | inl e ↦ rw e refl
        | inr s ↦ elim s [ inl e ↦ rw e refl | inr e ↦ rw e refl ]
      ]
    ]
  ]
  | inr large ↦ elim large [
    | inl e ↦ rw e refl
    | inr s ↦ elim s [
      | inl e ↦ rw e refl
      | inr s ↦ elim s [
        | inl e ↦ rw e refl
        | inr s ↦ elim s [ inl e ↦ rw e refl | inr e ↦ rw e refl ]
      ]
    ]
  ]
]

parse_from-snoc :
    (n m k : ℕ) (cs : List ℕ)
    → parse_from n cs ≡ some m
    → k < 10
    → parse_from n (cs ++ ((48 + k) ∷ [])) ≡ some (m * 10 + k)
unfolding parse_from
parse_from-snoc n m k [] h lt = ground arith
parse_from-snoc n m k (c ∷ cs) h lt = ground (arith, parse_from-snoc (n * 10 + (c - 48)) m k cs)

parse-show_from : (fuel n : ℕ) → n < fuel → parse_from 0 (bytes (show_from fuel n)) ≡ some n
unfolding show_from parse_from
parse-show_from zero n h = absurd (ground arith)
parse-show_from (suc f) n h = elim (Bool-cases (ltb n 10)) [
  | inl small ↦ rw (small, digit_bytes n (ground arith)) (ground arith)
  | inr large ↦
      let first = parse-show_from f (n / 10) (ground arith) in
      rw
        (
          large,
          bytes-append (show_from f (n / 10)) (digit (n % 10)),
          digit_bytes (n % 10) (omega arith),
          parse_from-snoc 0 (n / 10) (n % 10) (bytes (show_from f (n / 10))) first (omega arith),
        )
        (ap some (omega arith))
]

parse_digits-parse_from :
    (cs : List ℕ) (n : ℕ) → parse_from 0 cs ≡ some n → cs ≢ [] → parse_digits cs ≡ some n
unfolding parse_digits
parse_digits-parse_from [] n h ne = absurd (ne refl)
parse_digits-parse_from (c ∷ cs) n h ne = h

snoc-ne : (cs : List ℕ) (c : ℕ) → cs ++ (c ∷ []) ≢ []
snoc-ne [] c h = cc
snoc-ne (b ∷ cs) c h = cc

show_from_nonempty : (f n : ℕ) → bytes (show_from (suc f) n) ≢ []
unfolding show_from
show_from_nonempty f n = elim (Bool-cases (ltb n 10)) [
  | inl small ↦ rw (small, digit_bytes n (ground arith)) (λ h. cc)
  | inr large ↦
      rw
        (
          large,
          bytes-append (show_from f (n / 10)) (digit (n % 10)),
          digit_bytes (n % 10) (omega arith),
        )
        (snoc-ne (bytes (show_from f (n / 10))) (48 + n % 10))
]

-- Reading what was printed gives the number back.
pub parse_digits-show : (n : ℕ) → parse_digits (bytes (show n)) ≡ some n
unfolding show
parse_digits-show n =
    parse_digits-parse_from _ n (parse-show_from (suc n) n (omega arith)) (show_from_nonempty n n)

pub show_inj : (n m : ℕ) → show n ≡ show m → n ≡ m
show_inj n m e =
    ground (arith, parse_digits-show n, parse_digits-show m, ap (λ s. parse_digits (bytes s)) e)
