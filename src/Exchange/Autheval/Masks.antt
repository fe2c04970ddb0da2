-- ===== src/Exchange/Autheval/Masks.antt =====
-- The 2-bit masks of permissions: EvaluatePermissionsBits and IntArrayTo2BitArray. Permission p has
-- the bits 2p and 2p + 1.
pub mod Laws
use dauth.Base.{
  ℕ, ◌+◌, ◌-◌, ◌*◌, ◌^◌, ℤ, pos, negsuc, List, [], ◌∷◌, Option, none, some, Bool, ◌&&◌, ltb, ◌==◌,
  if◌then◌else◌, show, show_int, ◌⧺◌, bit, set_bit, Error, plain, Result, ok, err,
}

-- `2*int(p)` of an int64, which wraps.
double : ℤ → ℤ
double (pos n) = if ltb n (2 ^ 62) then pos (2 * n) else negsuc (2 ^ 64 - 2 * n - 1)
double (negsuc n) = if ltb n (2 ^ 62) then negsuc (2 * n + 1) else pos (2 ^ 64 - (2 * n + 2))

-- Whether both bits are set; `none` is the panic of big.Int.Bit at a negative index.
has_bits : ℤ → ℕ → Option Bool
has_bits (pos i) b = some (bit b i == 1 && bit b (i + 1) == 1)
has_bits (negsuc i) b = none

pub evaluate_permissions_bits : List ℤ → ℕ → Option (List ℤ)
unfolding has_bits double
evaluate_permissions_bits [] b = some []
evaluate_permissions_bits (p ∷ ps) b =
    let rest = evaluate_permissions_bits ps b in
    elim (has_bits (double p) b) [
      | none ↦ none
      | some has ↦ elim rest [ none ↦ none | some lack ↦ some (if has then lack else p ∷ lack) ]
    ]

invalid_index : ℤ → ℕ → Error
invalid_index i length =
    plain
      ("invalid index " ⧺ show_int i ⧺ ". These must be non-negative and less than " ⧺ show length)

-- The loop of IntArrayTo2BitArray, for a length of at most 2^62.
set_masks : ℕ → List ℤ → ℕ → Result ℕ
unfolding invalid_index
set_masks length [] mask = ok mask
set_masks length (negsuc i ∷ is) mask = err (invalid_index (negsuc i) length)
set_masks length (pos i ∷ is) mask =
    let rest = set_masks length is (set_bit (set_bit mask (i * 2)) (i * 2 + 1)) in
    if ltb i length then rest else err (invalid_index (pos i) length)

unfoldable pub int_array_to_2bit_array : List ℤ → ℕ → Result ℕ
unfolding set_masks
int_array_to_2bit_array indices length = set_masks length indices 0
