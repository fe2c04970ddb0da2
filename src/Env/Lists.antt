-- ===== src/Env/Lists.antt =====
-- The comma-separated values of List.
use Prim.Native.Char.{Char}
use text.Mathlib.TextLemmas.{nil-append, cons-append}
use dauth.Base.{
  ◌≡◌, ◌≢◌, inl, inr, refl, ap, ◌∙◌, String, List, [], ◌∷◌, Option, none, some, Option-cases, Bool,
  false, Bool-cases, ◌&&◌, All, join, ◌⧺◌, eq_iff, str_eq, arith,
}
use dauth.Env.{
  is_space, is_comma, on_first, split_commas, trim_left, trim_right, trim_space, keep_trimmed, list,
}

-- The text is empty, or its first character fails the test.
pub StartsWithout : (Char → Bool) → String → Type 0
StartsWithout p String.[] = Unit
StartsWithout p (String.◌∷◌ c s) = p c ≡ false

-- The last character.
unfoldable pub last : String → Option Char
last String.[] = none
last (String.◌∷◌ c s) = elim (last s) [ none ↦ some c | some d ↦ some d ]

-- The text is empty, or its last character fails the test.
unfoldable pub EndsWithout : (Char → Bool) → String → Type 0
EndsWithout p s = elim (last s) [ none ↦ Unit | some c ↦ p c ≡ false ]

unfoldable pub HasNone : (Char → Bool) → String → Type 0
HasNone p String.[] = Unit
HasNone p (String.◌∷◌ c s) = (p c ≡ false) × HasNone p s

-- A value that List can give: not empty, with no space at its ends and no comma.
pub record IsItem (s : String) : Type 0 where
  pub not_empty : s ≢ ""
  pub trimmed : trim_space s ≡ s
  pub no_comma : HasNone is_comma s

-- No space at the ends.
pub record IsTrimmed (s : String) : Type 0 where
  pub starts : StartsWithout is_space s
  pub ends : EndsWithout is_space s

last-none : (s : String) → last s ≡ none → s ≡ ""
unfolding last
last-none String.[] h = refl
last-none (String.◌∷◌ c s) h = elim (Option-cases (last s)) [
  | inl e ↦ absurd (ground arith)
  | inr (d, e) ↦ absurd (ground arith)
]

module _ (p : Char → Bool) where
  pub trim_right-EndsWithout : (s : String) → EndsWithout p (trim_right p s)
  unfolding trim_right EndsWithout last
  trim_right-EndsWithout String.[] = tt
  trim_right-EndsWithout (String.◌∷◌ c s) =
      let later = trim_right-EndsWithout s in
      elim (Bool-cases (p c && str_eq (trim_right p s) "")) [
        | inl e ↦ rw e tt
        | inr e ↦ rw e (elim (Option-cases (last (trim_right p s))) [
          | inl f ↦
              let empty = (eq_iff (trim_right p s) "").1 (last-none (trim_right p s) f) in
              rw f (ground arith)
          | inr (d, f) ↦ rw f (rw (EndsWithout, f) at later)
        ])
      ]

  trim_left-StartsWithout : (s : String) → StartsWithout p (trim_left p s)
  unfolding trim_left StartsWithout
  trim_left-StartsWithout String.[] = tt
  trim_left-StartsWithout (String.◌∷◌ c s) = elim (Bool-cases (p c)) [
    | inl e ↦ rw e (trim_left-StartsWithout s)
    | inr e ↦ rw e e
  ]

  trim_left_id : (s : String) → StartsWithout p s → trim_left p s ≡ s
  unfolding trim_left StartsWithout
  trim_left_id String.[] h = refl
  trim_left_id (String.◌∷◌ c s) h = rw h refl

  trim_right-StartsWithout : (s : String) → StartsWithout p s → StartsWithout p (trim_right p s)
  unfolding trim_right StartsWithout
  trim_right-StartsWithout String.[] h = tt
  trim_right-StartsWithout (String.◌∷◌ c s) h = rw h h

  pub trim_right-trim_right : (s : String) → trim_right p (trim_right p s) ≡ trim_right p s
  unfolding trim_right
  trim_right-trim_right String.[] = refl
  trim_right-trim_right (String.◌∷◌ c s) =
      let again = trim_right-trim_right s in
      elim (Bool-cases (p c && str_eq (trim_right p s) "")) [
        | inl e ↦ rw e refl
        | inr e ↦ rw (e, again, e) refl
      ]

  module _ (q : Char → Bool) where
    trim_left-HasNone : (s : String) → HasNone q s → HasNone q (trim_left p s)
    unfolding trim_left HasNone
    trim_left-HasNone String.[] h = tt
    trim_left-HasNone (String.◌∷◌ c s) h = elim (Bool-cases (p c)) [
      | inl e ↦ rw e (trim_left-HasNone s h.1)
      | inr e ↦ rw e h
    ]

    trim_right-HasNone : (s : String) → HasNone q s → HasNone q (trim_right p s)
    unfolding trim_right HasNone
    trim_right-HasNone String.[] h = tt
    trim_right-HasNone (String.◌∷◌ c s) h = elim (Bool-cases (p c && str_eq (trim_right p s) "")) [
      | inl e ↦ rw e tt
      | inr e ↦ rw e (h.0, trim_right-HasNone s h.1)
    ]

trim_space-trim_space : (s : String) → trim_space (trim_space s) ≡ trim_space s
unfolding trim_space
trim_space-trim_space s =
    let starts =
      trim_right-StartsWithout is_space (trim_left is_space s)
        (trim_left-StartsWithout is_space s) in
    rw (trim_left_id is_space _ starts) (trim_right-trim_right is_space (trim_left is_space s))

trim_space-HasNone : (s : String) → HasNone is_comma s → HasNone is_comma (trim_space s)
unfolding trim_space
trim_space-HasNone s h =
    trim_right-HasNone is_space is_comma _ (trim_left-HasNone is_space is_comma s h)

on_first-HasNone :
    (c : Char) (ss : List String)
    → is_comma c ≡ false
    → All (HasNone is_comma) ss
    → All (HasNone is_comma) (on_first c ss)
unfolding on_first HasNone
on_first-HasNone c [] e h = tt
on_first-HasNone c (s ∷ ss) e h = ((e, h.0), h.1)

split_commas-HasNone : (v : String) → All (HasNone is_comma) (split_commas v)
unfolding split_commas HasNone
split_commas-HasNone String.[] = (tt, tt)
split_commas-HasNone (String.◌∷◌ c s) = elim (Bool-cases (is_comma c)) [
  | inl e ↦ rw e (tt, split_commas-HasNone s)
  | inr e ↦ rw e (on_first-HasNone c _ e (split_commas-HasNone s))
]

keep_trimmed-IsItem : (ps : List String) → All (HasNone is_comma) ps → All IsItem (keep_trimmed ps)
unfolding keep_trimmed
keep_trimmed-IsItem [] h = tt
keep_trimmed-IsItem (p ∷ ps) h = elim (Bool-cases (str_eq (trim_space p) "")) [
  | inl e ↦ rw e (keep_trimmed-IsItem ps h.1)
  | inr e ↦ rw e (
    record {
      not_empty = λ is. absurd (ground (arith, (eq_iff (trim_space p) "").1 is));
      trimmed = trim_space-trim_space p;
      no_comma = trim_space-HasNone p h.0;
    },
    keep_trimmed-IsItem ps h.1,
  )
]

-- Reading an empty value gives no items either way.
list_lem : (v : String) → list v ≡ keep_trimmed (split_commas v)
unfolding list split_commas keep_trimmed
list_lem v = elim (Bool-cases (str_eq v "")) [
  | inl e ↦ rw (e, (eq_iff v "").0 e) refl
  | inr e ↦ rw e refl
]

keep_trimmed-IsTrimmed : (ps : List String) → All IsTrimmed (keep_trimmed ps)
unfolding keep_trimmed trim_space
keep_trimmed-IsTrimmed [] = tt
keep_trimmed-IsTrimmed (p ∷ ps) = elim (Bool-cases (str_eq (trim_space p) "")) [
  | inl e ↦ rw e (keep_trimmed-IsTrimmed ps)
  | inr e ↦ rw e (
    record {
      starts =
          trim_right-StartsWithout is_space (trim_left is_space p)
            (trim_left-StartsWithout is_space p);
      ends = trim_right-EndsWithout is_space (trim_left is_space p);
    },
    keep_trimmed-IsTrimmed ps,
  )
]

pub list-IsTrimmed : (v : String) → All IsTrimmed (list v)
list-IsTrimmed v = rw (list_lem v) (keep_trimmed-IsTrimmed (split_commas v))

-- Every value that List reads is an item: it is not empty, has no comma, and no space at its ends.
pub list-IsItem : (v : String) → All IsItem (list v)
list-IsItem v = rw (list_lem v) (keep_trimmed-IsItem _ (split_commas-HasNone v))

split_commas-one : (s : String) → HasNone is_comma s → split_commas s ≡ s ∷ []
unfolding split_commas HasNone on_first
split_commas-one String.[] h = refl
split_commas-one (String.◌∷◌ c s) h = rw (h.0, split_commas-one s h.1) refl

comma-append : (t : String) → "," ⧺ t ≡ String.◌∷◌ "," t
comma-append t = cons-append "," "" t ∙ ap (λ s. String.◌∷◌ "," s) (nil-append t)

split_commas-append :
    (s t : String) → HasNone is_comma s → split_commas (s ⧺ "," ⧺ t) ≡ s ∷ split_commas t
unfolding split_commas HasNone on_first is_comma
split_commas-append String.[] t h = rw (nil-append ("," ⧺ t), comma-append t) refl
split_commas-append (String.◌∷◌ c s) t h =
    rw (cons-append c s ("," ⧺ t), h.0, split_commas-append s t h.1) refl

split_commas-join :
    (s : String) (ss : List String)
    → All IsItem (s ∷ ss)
    → split_commas (join "," (s ∷ ss)) ≡ s ∷ ss
unfolding join
split_commas-join s [] (h, _) = split_commas-one s h.no_comma
split_commas-join s (t ∷ ts) (h, k) =
    split_commas-append s (join "," (t ∷ ts)) h.no_comma
    ∙ ap (λ l. s ∷ l) (split_commas-join t ts k)

keep_trimmed_id : (ss : List String) → All IsItem ss → keep_trimmed ss ≡ ss
unfolding keep_trimmed
keep_trimmed_id [] h = refl
keep_trimmed_id (s ∷ ss) (h, k) =
    rw (h.trimmed, keep_trimmed_id ss k) (ground (arith, h.not_empty, eq_iff s ""))

-- Items that are joined by commas are read back, in their order.
pub list-join : (ss : List String) → All IsItem ss → list (join "," ss) ≡ ss
unfolding join list
list-join [] h = refl
list-join (s ∷ ss) h =
    rw (list_lem (join "," (s ∷ ss)), split_commas-join s ss h) (keep_trimmed_id (s ∷ ss) h)
