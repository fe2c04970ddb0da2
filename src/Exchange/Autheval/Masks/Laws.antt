-- ===== src/Exchange/Autheval/Masks/Laws.antt =====
-- The mask of the requested permissions has exactly their bits, so what the chain cuts down to the
-- mask decides the same permissions as the whole record.
use Prim.Native.Nat.{bit_and}
use dauth.Base.{
  In, ◌/◌, ℕ, ◌+◌, ◌*◌, ◌^◌, ◌≤◌, ◌<◌, min, ◌≡◌, ◌⊎◌, ◌↔◌, inl, inr, refl, ap, ℤ, pos, negsuc, List,
  [], ◌∷◌, Option, none, some, Bool, ◌&&◌, ltb, ◌==◌, ==_iff, Bool-cases, if◌then◌else◌, arith, bit,
  set_bit, bit-set_bit, bit-bit_and, bit-le-one, bit-zero, All, All-In, ok,
}
use dauth.Exchange.Autheval.Masks.{
  double, has_bits, evaluate_permissions_bits, set_masks, int_array_to_2bit_array,
}

abbrev pub InRange : ℕ → ℤ → Type 0
InRange length (pos i) = i < length
InRange length (negsuc i) = ⊥

abbrev pub HasBits : ℕ → ℤ → Type 0
HasBits b (pos i) = (bit b (2 * i) ≡ 1) × (bit b (2 * i + 1) ≡ 1)
HasBits b (negsuc i) = ⊥

set_masks_iff :
    (length : ℕ) (is : List ℤ) (mask : ℕ)
    → ((m : ℕ) × (set_masks length is mask ≡ ok m)) ↔ All (InRange length) is
unfolding set_masks
set_masks_iff length [] mask = ((λ _. tt), λ _. (mask, refl))
set_masks_iff length (negsuc i ∷ is) mask = ((λ (m, e). cc), λ h. absurd h.0)
set_masks_iff length (pos i ∷ is) mask =
    let later = set_masks_iff length is (set_bit (set_bit mask (i * 2)) (i * 2 + 1)) in
    elim (Bool-cases (ltb i length)) [
      | inl e ↦ rw e (λ p. (ground arith, later.0 p), λ h. later.1 h.1)
      | inr e ↦ rw e (λ (m, q). cc, λ h. absurd (ground (arith, h.0)))
    ]

bit-set_two :
    (mask i j : ℕ)
    → bit (set_bit (set_bit mask (i * 2)) (i * 2 + 1)) j
      ≡ (if i * 2 + 1 == j then 1 else if i * 2 == j then 1 else bit mask j)
bit-set_two mask i j =
    ground (arith, bit-set_bit (set_bit mask (i * 2)) (i * 2 + 1) j, bit-set_bit mask (i * 2) j)

-- Bits once set stay set.
set_masks_keeps :
    (length : ℕ) (is : List ℤ) (mask m j : ℕ)
    → set_masks length is mask ≡ ok m
    → bit mask j ≡ 1
    → bit m j ≡ 1
unfolding set_masks
set_masks_keeps length [] mask m j e h = ground arith
set_masks_keeps length (negsuc i ∷ is) mask m j e h = cc
set_masks_keeps length (pos i ∷ is) mask m j e h =
    set_masks_keeps length is (set_bit (set_bit mask (i * 2)) (i * 2 + 1)) m j (ground arith)
      (ground (arith, bit-set_two mask i j))

set_masks-HasBits :
    (length : ℕ) (is : List ℤ) (mask m : ℕ) → set_masks length is mask ≡ ok m → All (HasBits m) is
unfolding set_masks
set_masks-HasBits length [] mask m e = tt
set_masks-HasBits length (negsuc i ∷ is) mask m e = cc
set_masks-HasBits length (pos i ∷ is) mask m e =
    let next = set_bit (set_bit mask (i * 2)) (i * 2 + 1) in
    let rest : set_masks length is next ≡ ok m = ground arith in
    (
      (
        set_masks_keeps length is next m (2 * i) rest (ground (arith, bit-set_two mask i (2 * i))),
        set_masks_keeps length is next m (2 * i + 1) rest
            (ground (arith, bit-set_two mask i (2 * i + 1))),
      ),
      set_masks-HasBits length is next m rest,
    )

-- A bit of the mask belongs to a requested permission.
set_masks_only :
    (length : ℕ) (is : List ℤ) (mask m j : ℕ)
    → set_masks length is mask ≡ ok m
    → bit m j ≡ 1
    → (bit mask j ≡ 1) ⊎ In (pos (j / 2)) is
unfolding set_masks
set_masks_only length [] mask m j e h = inl (ground arith)
set_masks_only length (negsuc i ∷ is) mask m j e h = cc
set_masks_only length (pos i ∷ is) mask m j e h =
    elim (set_masks_only length is (set_bit (set_bit mask (i * 2)) (i * 2 + 1)) m j (ground arith)
      h) [
        | inl old ↦ elim (Bool-cases (i * 2 + 1 == j)) [
          | inl e ↦ inr (inl (ap pos (omega (arith, (==_iff (i * 2 + 1) j).0 e))))
          | inr odd ↦ elim (Bool-cases (i * 2 == j)) [
            | inl e ↦ inr (inl (ap pos (omega (arith, (==_iff (i * 2) j).0 e))))
            | inr even ↦ inl (ground (arith, bit-set_two mask i j))
          ]
        ]
        | inr later ↦ inr (inr later)
      ]

half_bit : (m j : ℕ) → HasBits m (pos (j / 2)) → bit m j ≡ 1
half_bit m j h = elim (Bool-cases (2 * (j / 2) == j)) [
  | inl e ↦ let same : 2 * (j / 2) ≡ j = (==_iff _ j).0 e in rw same at h.0
  | inr e ↦ let same : 2 * (j / 2) + 1 ≡ j = ground arith in rw same at h.1
]

min_one : (b j : ℕ) → min (bit b j) 1 ≡ bit b j
min_one b j = omega (arith, bit-le-one b j)

pub int_array_to_2bit_array_ok :
    (is : List ℤ) (length : ℕ)
    → All (InRange length) is
    → (m : ℕ) × (int_array_to_2bit_array is length ≡ ok m)
unfolding int_array_to_2bit_array
int_array_to_2bit_array_ok is length h = (set_masks_iff length is 0).1 h

pub int_array_to_2bit_array-HasBits :
    (is : List ℤ) (length m : ℕ) → int_array_to_2bit_array is length ≡ ok m → All (HasBits m) is
unfolding int_array_to_2bit_array
int_array_to_2bit_array-HasBits is length m e = set_masks-HasBits length is 0 m e

-- The bits of the mask: a list of permissions has one exactly when each lies below the length, and
-- then bit j is set if and only if the permission j / 2 is in the list.
pub int_array_to_2bit_array_bits :
    (is : List ℤ) (length m j : ℕ)
    → int_array_to_2bit_array is length ≡ ok m
    → All (InRange length) is × ((bit m j ≡ 1) ↔ In (pos (j / 2)) is)
unfolding int_array_to_2bit_array
int_array_to_2bit_array_bits is length m j e = (
  (set_masks_iff length is 0).0 (m, e),
  (
    λ h. elim (set_masks_only length is 0 m j e h) [
      | inl old ↦ absurd (omega (arith, bit-zero j))
      | inr found ↦ found
    ],
    λ found. half_bit m j (All-In (HasBits m) is (set_masks-HasBits length is 0 m e) found),
  ),
)

has_bits_pos :
    (i b : ℕ)
    → i < 2 ^ 62
    → has_bits (double (pos i)) b ≡ some (bit b (2 * i) == 1 && bit b (2 * i + 1) == 1)
unfolding has_bits double
has_bits_pos i b h = ground arith

abbrev lacking : Bool → ℤ → Option (List ℤ) → Option (List ℤ)
lacking has p none = none
lacking has p (some lack) = some (if has then lack else p ∷ lack)

evaluate_step :
    (i : ℕ) (is : List ℤ) (b : ℕ)
    → i < 2 ^ 62
    → evaluate_permissions_bits (pos i ∷ is) b
      ≡ lacking
          (bit b (2 * i) == 1 && bit b (2 * i + 1) == 1)
          (pos i)
          (evaluate_permissions_bits is b)
unfolding evaluate_permissions_bits
evaluate_step i is b h = ground (arith, has_bits_pos i b h)

-- The test of the bits looks at nothing but the bits of the permissions.
evaluate_masked :
    (is : List ℤ) (length b m : ℕ)
    → length ≤ 2 ^ 62
    → All (InRange length) is
    → All (HasBits m) is
    → evaluate_permissions_bits is (bit_and b m) ≡ evaluate_permissions_bits is b
unfolding evaluate_permissions_bits
evaluate_masked [] length b m le r h = refl
evaluate_masked (negsuc i ∷ is) length b m le r h = absurd r.0
evaluate_masked (pos i ∷ is) length b m le r h = rw (
  evaluate_step i is (bit_and b m) (omega (arith, r.0)),
  evaluate_step i is b (omega (arith, r.0)),
  evaluate_masked is length b m le r.1 h.1,
  bit-bit_and b m (2 * i),
  bit-bit_and b m (2 * i + 1),
  h.0.0,
  h.0.1,
  min_one b (2 * i),
  min_one b (2 * i + 1),
)

evaluate_iff :
    (is : List ℤ) (length b : ℕ)
    → length ≤ 2 ^ 62
    → All (InRange length) is
    → ((lack : List ℤ) × (evaluate_permissions_bits is b ≡ some lack))
      × ((evaluate_permissions_bits is b ≡ some []) ↔ All (HasBits b) is)
unfolding evaluate_permissions_bits
evaluate_iff [] length b le r = (([], refl), ((λ _. tt), λ _. refl))
evaluate_iff (negsuc i ∷ is) length b le r = absurd r.0
evaluate_iff (pos i ∷ is) length b le r =
    let ((lack, e), (to, from)) = evaluate_iff is length b le r.1 in
    let here = evaluate_step i is b (omega (arith, r.0)) in
    rw (here, e)
      (
        (_, refl),
        (λ all. ((ground arith, ground arith), to (ground arith)), λ h. ground (arith, from h.1)),
      )

-- The mask loses nothing: for a list of permissions that has a mask of a length of at most 2^62, a
-- record cut down to the mask is judged like the whole record, the test ends without a panic, and
-- it finds nothing lacking exactly when both bits of every permission are set.
pub evaluate_permissions_bits_masked :
    (is : List ℤ) (length b m : ℕ)
    → length ≤ 2 ^ 62
    → int_array_to_2bit_array is length ≡ ok m
    → (evaluate_permissions_bits is (bit_and b m) ≡ evaluate_permissions_bits is b)
      × ((lack : List ℤ) × (evaluate_permissions_bits is b ≡ some lack))
      × ((evaluate_permissions_bits is b ≡ some []) ↔ All (HasBits b) is)
unfolding int_array_to_2bit_array
evaluate_permissions_bits_masked is length b m le e =
    let range = (set_masks_iff length is 0).0 (m, e) in
    let (total, exact) = evaluate_iff is length b le range in
    (evaluate_masked is length b m le range (set_masks-HasBits length is 0 m e), total, exact)
