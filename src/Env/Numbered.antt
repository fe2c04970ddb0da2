-- ===== src/Env/Numbered.antt =====
-- The loop of Numbered ends, at the first gap of the numbers.
use dauth.Base.{
  ℕ, zero, suc, ◌+◌, ◌≤◌, ◌<◌, ◌≡◌, ◌≢◌, ◌⊎◌, ◌↔◌, subst, sym, ◌∙◌, inl, inr, refl, String, List,
  [], ◌∷◌, some, Bool-cases, Option-cases, length, lookup, delete, lookup-delete, length-delete-le,
  show, ◌⧺◌, show_inj, eq_iff, str_eq, arith,
}
use text.Mathlib.TextLemmas.{append_cancel_left}
use dauth.Env.{Environment, getenv, numbered_from, numbered}

-- The variable of a number.
abbrev pub name : String → ℕ → String
name prefix i = prefix ⧺ show i

name_inj : (prefix : String) (i j : ℕ) → name prefix i ≡ name prefix j → i ≡ j
name_inj prefix i j e = show_inj i j (append_cancel_left prefix (show i) (show j) e)

length-delete-lt :
    (key v : String) (env : Environment)
    → lookup key env ≡ some v
    → length (delete key env) < length env
unfolding lookup delete
length-delete-lt key v [] h = cc
length-delete-lt key v ((k, w) ∷ env) h =
    ground (arith, length-delete-lt key v env, length-delete-le key env)

getenv-set :
    (env : Environment) (key : String)
    → getenv env key ≢ ""
    → (v : String) × (lookup key env ≡ some v)
unfolding getenv
getenv-set env key h = elim (Option-cases (lookup key env)) [
  | inl e ↦ absurd (h (rw (getenv, e) refl))
  | inr found ↦ found
]

getenv-delete :
    (key j : String) (env : Environment) → key ≢ j → getenv (delete key env) j ≡ getenv env j
unfolding getenv
getenv-delete key j env other = rw (getenv, lookup-delete key j env) (ground (arith, eq_iff key j))

-- Variables of different numbers are different entries: no more numbers in a row are set than the
-- environment has entries.
set_run-le :
    (n i : ℕ) (env : Environment) (prefix : String)
    → ((k : ℕ) → k < n → getenv env (name prefix (i + k)) ≢ "")
    → n ≤ length env
set_run-le zero i env prefix h = omega arith
set_run-le (suc n) i env prefix h =
    let key = name prefix i in
    let first : i + 0 ≡ i = omega arith in
    let (v, found) : (v : String) × (lookup key env ≡ some v) =
      getenv-set env key (subst (λ m. getenv env (name prefix m) ≢ "") first (h 0 (omega arith))) in
    let shorter = length-delete-lt key v env found in
    let rest : n ≤ length (delete key env) =
      set_run-le n (suc i) (delete key env) prefix (others h) in
    omega (arith, shorter, rest)
  where
    others :
        ((k : ℕ) → k < suc n → getenv env (name prefix (i + k)) ≢ "")
        → (k : ℕ) → k < n
        → getenv (delete (name prefix i) env) (name prefix (suc i + k)) ≢ ""
    others h k lt =
        let next : i + suc k ≡ suc i + k = omega arith in
        rw
          (getenv-delete (name prefix i) (name prefix (suc i + k)) env
            (λ e. absurd (ground (arith, name_inj prefix i (suc i + k) e))))
          (subst (λ m. getenv env (name prefix m) ≢ "") next (h (suc k) (ground arith)))

-- The values of the variables from the number i on, up to the first that is empty or unset.
pub Numbers : Environment → String → ℕ → List String → Type 0
Numbers env prefix i [] = getenv env (name prefix i) ≡ ""
Numbers env prefix i (v ∷ vs) =
    (getenv env (name prefix i) ≡ v) × (v ≢ "") × Numbers env prefix (suc i) vs

one_more :
    (n i : ℕ) (env : Environment) (prefix : String)
    → getenv env (name prefix i) ≢ ""
    → ((k : ℕ) → k < n → getenv env (name prefix (suc i + k)) ≢ "")
    → (k : ℕ) → k < suc n
    → getenv env (name prefix (i + k)) ≢ ""
one_more n i env prefix first all zero lt =
    let same : i ≡ i + 0 = omega arith in subst (λ m. getenv env (name prefix m) ≢ "") same first
one_more n i env prefix first all (suc k) lt =
    let same : suc i + k ≡ i + suc k = omega arith in
    subst (λ m. getenv env (name prefix m) ≢ "") same (all k (ground arith))

numbered_from-Numbers :
    (fuel i : ℕ) (env : Environment) (prefix : String)
    → Numbers env prefix i (numbered_from fuel i env prefix)
      ⊎ ((k : ℕ) → k < fuel → getenv env (name prefix (i + k)) ≢ "")
unfolding numbered_from Numbers
numbered_from-Numbers zero i env prefix = inr (λ k lt. absurd (ground arith))
numbered_from-Numbers (suc fuel) i env prefix =
    elim (Bool-cases (str_eq (getenv env (name prefix i)) "")) [
      | inl e ↦ inl (rw e ((eq_iff _ "").0 e))
      | inr e ↦ elim (numbered_from-Numbers fuel (suc i) env prefix) [
        | inl rest ↦ inl (rw e (refl, (λ h. absurd (ground (arith, (eq_iff _ "").1 h))), rest))
        | inr all ↦ inr (λ k lt.
            one_more fuel i env prefix
              (λ h. absurd (ground (arith, (eq_iff (getenv env (name prefix i)) "").1 h))) all k lt)
      ]
    ]

Numbers-unique :
    (i : ℕ) (env : Environment) (prefix : String) (vs ws : List String)
    → Numbers env prefix i vs
    → Numbers env prefix i ws
    → vs ≡ ws
unfolding Numbers
Numbers-unique i env prefix [] [] a b = refl
Numbers-unique i env prefix [] (w ∷ ws) a (is, ne, b) = absurd (ne (sym is ∙ a))
Numbers-unique i env prefix (v ∷ vs) [] (is, ne, a) b = absurd (ne (sym is ∙ b))
Numbers-unique i env prefix (v ∷ vs) (w ∷ ws) (is, ne, a) (is', ne', b) =
    ground (arith, Numbers-unique (suc i) env prefix vs ws a b)

-- Numbered ends, and returns the values of prefix1, prefix2 and so on, in this order, up to the first
-- number whose variable is unset or empty: these and no other.
pub numbered_is :
    (env : Environment) (prefix : String) (vs : List String)
    → (numbered env prefix ≡ vs) ↔ Numbers env prefix 1 vs
unfolding numbered
numbered_is env prefix vs = elim (numbered_from-Numbers (suc (length env)) 1 env prefix) [
  | inr all ↦ absurd (ground (arith, set_run-le (suc (length env)) 1 env prefix all))
  | inl are ↦ (
    λ e. subst (λ ws. Numbers env prefix 1 ws) e are,
    λ w. Numbers-unique 1 env prefix _ vs are w,
  )
]
