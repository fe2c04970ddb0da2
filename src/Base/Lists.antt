-- ===== src/Base/Lists.antt =====
-- Lists over the native numbers: length, membership by recursion, and a predicate on every entry.
use Prim.Native.Nat.{ℕ, zero, suc}
use mathlib.Core.Path.{◌≡◌, refl, subst}
use mathlib.Core.Logic.{◌⊎◌, ◌↔◌, inl, inr}
use mathlib.Core.Bool.{Bool, true, false, ◌&&◌, ◌||◌}
use mathlib.Core.List.{List, [], ◌∷◌, ◌++◌}

module _ {ℓ} {A : Type ℓ} where
  abbrev pub length : List A → ℕ
  length [] = 0
  length (x ∷ xs) = suc (length xs)

  -- `len(xs) == 0`
  abbrev pub is_nil : List A → Bool
  is_nil [] = true
  is_nil (x ∷ xs) = false

  abbrev pub get_or : List A → ℕ → A → A
  get_or [] i d = d
  get_or (x ∷ xs) zero d = x
  get_or (x ∷ xs) (suc i) d = get_or xs i d

  abbrev pub set : List A → ℕ → A → List A
  set [] i v = []
  set (x ∷ xs) zero v = v ∷ xs
  set (x ∷ xs) (suc i) v = x ∷ set xs i v

  abbrev pub all : (A → Bool) → List A → Bool
  all p [] = true
  all p (x ∷ xs) = p x && all p xs

  abbrev pub any : (A → Bool) → List A → Bool
  any p [] = false
  any p (x ∷ xs) = p x || any p xs

module _ {ℓ} {A : Type ℓ} where
  pub List-cases : (l : List A) → (l ≡ []) ⊎ ((x : A) × (xs : List A) × (l ≡ x ∷ xs))
  List-cases [] = inl refl
  List-cases (x ∷ xs) = inr (x, xs, refl)

pub is_nil_iff {ℓ} : {A : Type ℓ} (l : List A) → (is_nil l ≡ true) ↔ (l ≡ [])
is_nil_iff [] = (λ _. refl, λ _. refl)
is_nil_iff (x ∷ xs) = (λ h. cc, λ h. cc)

-- Membership, with the place kept.
abbrev pub In : {A : Type 0} → A → List A → Type 0
In a [] = ⊥
In a (x ∷ xs) = (x ≡ a) ⊎ In a xs

module _ {κ} {A : Type 0} (P : A → Type κ) where
  abbrev pub All : List A → Type κ
  All [] = Unit
  All (x ∷ xs) = P x × All xs

  pub All-append : (xs ys : List A) → All xs → All ys → All (xs ++ ys)
  All-append [] ys _ k = k
  All-append (x ∷ xs) ys (p, h) k = (p, All-append xs ys h k)

  pub All-In : (xs : List A) {a : A} → All xs → In a xs → P a
  All-In [] h m = absurd m
  All-In (x ∷ xs) h (inl e) = subst P e h.0
  All-In (x ∷ xs) h (inr m) = All-In xs h.1 m

pub All_iff :
    {A : Type 0} {P Q : A → Type 0} (h : (a : A) → P a ↔ Q a) (xs : List A) → All P xs ↔ All Q xs
All_iff h [] = ((λ _. tt), λ _. tt)
All_iff h (x ∷ xs) =
    let later = All_iff h xs in (λ a. ((h x).0 a.0, later.0 a.1), λ a. ((h x).1 a.0, later.1 a.1))
