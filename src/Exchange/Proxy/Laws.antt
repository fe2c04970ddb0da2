-- ===== src/Exchange/Proxy/Laws.antt =====
-- What the records of vehicles decide, and the bound of a vehicle's identifier.
use Prim.Native.Nat.{bit_and}
use dauth.Base.{
  ℕ, zero, suc, ◌≤◌, ◌<◌, ◌≡◌, ◌⊎◌, ◌↔◌, inl, inr, ℤ, pos, negsuc, List, Option, none, some, false,
  ◌==◌, ==_iff, Bool-cases, arith, All, ok,
}
use dauth.Ethereum.{Ethereum, Address}
use dauth.Exchange.Autheval.Masks.{int_array_to_2bit_array}
use dauth.Exchange.Autheval.Masks.Laws.{
  HasBits, int_array_to_2bit_array-HasBits, evaluate_permissions_bits_masked,
}
use dauth.Exchange.Proxy.{
  Proxy, Vehicle, VehicleSacd, convert_token_id, get_vehicle_sacd, permissions_of, get_permissions,
}

-- The conversion takes exactly the positive numbers that an int32 holds, and keeps them.
pub convert_token_id_iff :
    (token_id : Option ℤ) (k : ℕ)
    → (convert_token_id token_id ≡ ok k) ↔ ((token_id ≡ some (pos k)) × (0 < k) × (k ≤ 2147483647))
unfolding convert_token_id
convert_token_id_iff none k = ground arith
convert_token_id_iff (some (negsuc n)) k = ground arith
convert_token_id_iff (some (pos zero)) k = ground arith
convert_token_id_iff (some (pos (suc n))) k = ground arith

-- The bits that the record of a vehicle has.
abbrev pub Recorded : Ethereum → Vehicle → ℕ → Type 0
Recorded eth v perms =
    ((v.sacd ≡ none) × (perms ≡ 0))
    ⊎ ((s : VehicleSacd) × (v.sacd ≡ some s) × (eth.decode_big s.permissions ≡ ok perms))

masked_iff :
    (ids : List ℤ) (b m : ℕ)
    → int_array_to_2bit_array ids 128 ≡ ok m
    → All (HasBits (bit_and b m)) ids ↔ All (HasBits b) ids
masked_iff ids b m e =
    let (same, _, whole) = evaluate_permissions_bits_masked ids 128 b m (omega arith) e in
    let (_, _, cut) = evaluate_permissions_bits_masked ids 128 (bit_and b m) m (omega arith) e in
    (λ h. whole.0 (ground (arith, cut.1 h)), λ h. cut.0 (ground (arith, whole.1 h)))

module _ (eth : Ethereum) (p : Proxy) where
  get_permissions_vehicle :
      (asset : Address) (token_id : Option ℤ) (grantee : Address) (mask : ℕ) (v : Vehicle)
      → asset ≡ p.contract_address_vehicle
      → get_vehicle_sacd p token_id grantee ≡ ok v
      → get_permissions eth p asset token_id grantee mask ≡ permissions_of eth p v grantee mask
  unfolding get_permissions
  get_permissions_vehicle asset token_id grantee mask v here e = ground (arith, here, e)

  -- What the bits of a vehicle decide, where the Identity API answers for it, the list of permissions
  -- has a mask, and the requester owns the vehicle or `perms` is what its record has: the bits returned
  -- have every permission of the list exactly when the requester is the owner or the record has them.
  pub get_permissions_decides :
      (ids : List ℤ) (mask : ℕ) (asset : Address) (token_id : Option ℤ) (grantee : Address)
      (v : Vehicle) (perms : ℕ)
      → int_array_to_2bit_array ids 128 ≡ ok mask
      → asset ≡ p.contract_address_vehicle
      → get_vehicle_sacd p token_id grantee ≡ ok v
      → (v.owner ≡ grantee) ⊎ Recorded eth v perms
      → (r : ℕ) × (get_permissions eth p asset token_id grantee mask ≡ ok r)
        × (All (HasBits r) ids ↔ ((v.owner ≡ grantee) ⊎ All (HasBits perms) ids))
  unfolding permissions_of
  get_permissions_decides ids mask asset token_id grantee v perms m here e known =
      let same = get_permissions_vehicle asset token_id grantee mask v here e in
      elim (Bool-cases (v.owner == grantee)) [
        | inl own ↦ (
          mask,
          ground (arith, same, own),
          (
            λ _. inl ((==_iff v.owner grantee).0 own),
            λ _. int_array_to_2bit_array-HasBits ids 128 mask m,
          ),
        )
        | inr other ↦ elim known [
          | inl owns ↦ absurd (ground (arith, owns, other))
          | inr (inl (no_record, blank)) ↦ (
            0,
            ground (arith, same, other, no_record),
            rw blank (others _ _ other (λ h. h, λ h. h)),
          )
          | inr (inr (s, has, decoded)) ↦ (
            bit_and perms mask,
            ground (arith, same, other, has, decoded),
            others _ _ other (masked_iff ids perms mask m),
          )
        ]
      ]
    where
      others : (P Q : Type 0) → (v.owner == grantee) ≡ false → P ↔ Q → P ↔ ((v.owner ≡ grantee) ⊎ Q)
      others P Q other (to, from) = (
        λ h. inr (to h),
        λ h. elim h [
          | inl owns ↦ absurd (ground (arith, (==_iff v.owner grantee).1 owns))
          | inr q ↦ from q
        ],
      )
