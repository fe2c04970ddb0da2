-- ===== src/Base/Assoc.antt =====
-- Go's maps with text keys, as association lists with distinct keys.
use Prim.Native.Nat.{◌+◌, ◌≤◌}
use Prim.Native.String.{String}
use mathlib.Core.Path.{◌≡◌, refl}
use mathlib.Core.Bool.{Bool}
use mathlib.Core.Option.{Option, none, some}
use mathlib.Core.List.{List, [], ◌∷◌}
use native.Mathlib.Omega.{arith}
use text.Mathlib.Text.{◌==◌ as str_eq}
use text.Mathlib.TextEquality.{eq_iff}
use package.dauth.Base.Tests.{if◌then◌else◌}
use package.dauth.Base.Lists.{length}

module _ {ℓ} {V : Type ℓ} where
  -- `v, ok := m[k]`
  unfoldable pub lookup : String → List (String × V) → Option V
  lookup key [] = none
  lookup key ((first, value) ∷ rest) = if str_eq first key then some value else lookup key rest

  -- `m[k] = v`
  unfoldable pub insert : String → V → List (String × V) → List (String × V)
  insert key value [] = (key, value) ∷ []
  insert key value ((first, old) ∷ rest) =
      if str_eq first key then (key, value) ∷ rest else (first, old) ∷ insert key value rest

  -- `delete(m, k)`
  unfoldable pub delete : String → List (String × V) → List (String × V)
  delete k [] = []
  delete k ((j, v) ∷ m) = if str_eq j k then delete k m else (j, v) ∷ delete k m

  -- The entries whose value passes the test.
  unfoldable pub retain : (V → Bool) → List (String × V) → List (String × V)
  retain p [] = []
  retain p ((j, v) ∷ m) = if p v then (j, v) ∷ retain p m else retain p m

  -- No key stands twice.
  abbrev pub IsMap : List (String × V) → Type ℓ
  IsMap [] = Unit
  IsMap ((k, v) ∷ m) = (lookup k m ≡ none) × IsMap m

  pub lookup-insert :
      (key asked : String) (value : V) (map : List (String × V))
      → lookup asked (insert key value map)
        ≡ (if str_eq key asked then some value else lookup asked map)
  unfolding insert lookup
  lookup-insert key asked value ((first, old) ∷ rest) = ground (
    arith,
    lookup-insert key asked value rest,
    eq_iff first asked,
    eq_iff first key,
    eq_iff key asked,
  )
  lookup-insert key asked value [] = refl

  pub lookup-delete :
      (key asked : String) (map : List (String × V))
      → lookup asked (delete key map) ≡ (if str_eq key asked then none else lookup asked map)
  unfolding delete lookup
  lookup-delete key asked ((first, old) ∷ rest) =
      ground (
        arith,
        lookup-delete key asked rest,
        eq_iff first asked,
        eq_iff first key,
        eq_iff key asked,
      )
  lookup-delete key asked [] = ground arith

  pub lookup-retain-none :
      (p : V → Bool) (j : String) (m : List (String × V))
      → lookup j m ≡ none
      → lookup j (retain p m) ≡ none
  unfolding lookup retain
  lookup-retain-none p j [] h = refl
  lookup-retain-none p j ((i, w) ∷ m) h = ground (arith, lookup-retain-none p j m, eq_iff i j)

  pub lookup-retain :
      (p : V → Bool) (j : String) (m : List (String × V))
      → IsMap m
      → lookup j (retain p m)
        ≡ elim (lookup j m) [ none ↦ none | some v ↦ if p v then some v else none ]
  unfolding lookup retain
  lookup-retain p j [] h = refl
  lookup-retain p j ((i, w) ∷ m) h =
      ground (arith, lookup-retain p j m h.1, lookup-retain-none p i m h.0, eq_iff i j)

  pub retain-IsMap : (p : V → Bool) (m : List (String × V)) → IsMap m → IsMap (retain p m)
  unfolding retain
  retain-IsMap p [] h = tt
  retain-IsMap p ((i, w) ∷ m) h = ground (arith, retain-IsMap p m h.1, lookup-retain-none p i m h.0)

  pub insert-IsMap : (k : String) (v : V) (m : List (String × V)) → IsMap m → IsMap (insert k v m)
  unfolding insert lookup
  insert-IsMap k v [] h = (refl, tt)
  insert-IsMap k v ((i, w) ∷ m) h =
      ground (arith, insert-IsMap k v m h.1, lookup-insert k i v m, eq_iff i k, eq_iff k i)

  pub delete-IsMap : (k : String) (m : List (String × V)) → IsMap m → IsMap (delete k m)
  unfolding delete
  delete-IsMap k [] h = tt
  delete-IsMap k ((i, w) ∷ m) h =
      ground (arith, delete-IsMap k m h.1, lookup-delete k i m, eq_iff i k, eq_iff k i)

  pub length-retain-le : (p : V → Bool) (m : List (String × V)) → length (retain p m) ≤ length m
  unfolding retain
  length-retain-le p [] = omega arith
  length-retain-le p ((i, w) ∷ m) = ground (arith, length-retain-le p m)

  pub length-delete-le : (k : String) (m : List (String × V)) → length (delete k m) ≤ length m
  unfolding delete
  length-delete-le k [] = omega arith
  length-delete-le k ((i, w) ∷ m) = ground (arith, length-delete-le k m)

  pub length-insert-le :
      (k : String) (v : V) (m : List (String × V)) → length (insert k v m) ≤ length m + 1
  unfolding insert
  length-insert-le k v [] = omega arith
  length-insert-le k v ((i, w) ∷ m) = ground (arith, length-insert-le k v m)
