-- ===== src/Exchange/Access/Laws.antt =====
-- What lets a request for access through: the signed document, or the bits of the chain.
pub mod Chain
pub mod Decision
use dauth.Base.{
  Bool-cases, ◌==◌, ==_iff, ◌⊎◌, ℕ, ◌≡◌, ◌≢◌, ◌↔◌, inl, inr, refl, sym, subst, ℤ, pos, String, List,
  [], ◌∷◌, none, some, Option-cases, Result-cases, List-cases, All, arith, ok,
}
use dauth.Ethereum.{Ethereum, Address}
use dauth.Exchange.Models.{get_contract_address, Library, AssetDid, Json}
use dauth.Exchange.Autheval.Masks.{int_array_to_2bit_array}
use dauth.Exchange.Autheval.Masks.Laws.{
  InRange, HasBits, int_array_to_2bit_array_ok, evaluate_permissions_bits_masked,
}
use dauth.Exchange.Claims.{IdTable, id_of, privilege_id_to_name, manufacturer_privilege_id_to_name}
use dauth.Exchange.Claims.Tables.{Within, id_of-Within, privilege_id_to_name-Within}
use dauth.Exchange.Access.{
  AccessRequest, Service, look_up, permissions_on_chain, check_bits, priv_map,
  validate_access_via_record,
}

-- Each name has the identifier in its place.
abbrev pub Named : IdTable → List String → List ℤ → Type 0
Named t [] [] = Unit
Named t (p ∷ ps) (i ∷ is) = (id_of t p ≡ some i) × Named t ps is
Named t _ _ = ⊥

look_up_iff :
    (t : IdTable) (ps : List String)
    → (((look_up t ps).1 ≡ []) → Named t ps (look_up t ps).0)
      × ((is : List ℤ) → Named t ps is → look_up t ps ≡ (is, []))
unfolding look_up
look_up_iff t [] = ((λ _. tt), nothing)
  where
    nothing : (is : List ℤ) → Named t [] is → ◌≡◌ {A = List ℤ × List String} ([], []) (is, [])
    nothing [] h = refl
    nothing (i ∷ is) h = absurd h
look_up_iff t (p ∷ ps) = elim (Option-cases (id_of t p)) [
  | inl e ↦ rw (e, look_up) (λ h. cc, none_named e)
  | inr (i, e) ↦
      rw (e, look_up) (λ h. (e, (look_up_iff t ps).0 h), one_named i e (look_up_iff t ps).1)
]
  where
    none_named :
        id_of t p ≡ none
        → (is : List ℤ) → Named t (p ∷ ps) is
        → ◌≡◌ {A = List ℤ × List String} (pos 0 ∷ (look_up t ps).0, p ∷ (look_up t ps).1) (is, [])
    none_named e [] h = absurd h
    none_named e (i ∷ is) h = cc

    one_named :
        (j : ℤ)
        → id_of t p ≡ some j
        → ((is : List ℤ) → Named t ps is → look_up t ps ≡ (is, []))
        → (is : List ℤ) → Named t (p ∷ ps) is
        → ◌≡◌ {A = List ℤ × List String} (j ∷ (look_up t ps).0, (look_up t ps).1) (is, [])
    one_named j e later [] h = absurd h
    one_named j e later (i ∷ is) h = ground (arith, later is h.1)

Named-InRange :
    (t : IdTable) (ps : List String) (is : List ℤ)
    → Within 8 t
    → Named t ps is
    → All (InRange 128) is
Named-InRange t [] [] w h = tt
Named-InRange t [] (i ∷ is) w h = absurd h
Named-InRange t (p ∷ ps) [] w h = absurd h
Named-InRange t (p ∷ ps) (i ∷ is) w h =
    let (n, e, le) = id_of-Within 8 t w p i h.0 in
    (subst (InRange 128) (sym e) (omega (arith, le)), Named-InRange t ps is w h.1)

module _ (eth : Ethereum) (lib : Library) (json : Json) {S : Type 0} (s : Service S) where
  -- The chain has the two bits of each requested privilege, in the table of the asset's contract.
  pub record GrantedOnChain (req : AccessRequest) (addr : Address) : Type 0 where
    pub ids : List ℤ
    pub mask : ℕ
    pub ret : ℕ
    pub named : Named (priv_map eth lib json s req.asset) req.permissions ids
    pub masked : int_array_to_2bit_array ids 128 ≡ ok mask
    pub returned : permissions_on_chain eth lib json s req.asset addr mask ≡ ok ret
    pub has : All (HasBits ret) ids

  -- The table follows the asset's contract.
  pub priv_map_cases :
      (asset : AssetDid)
      → ((get_contract_address asset ≡ s.contract_address_manufacturer)
          × (priv_map eth lib json s asset ≡ manufacturer_privilege_id_to_name))
        ⊎ ((get_contract_address asset ≢ s.contract_address_manufacturer)
            × (priv_map eth lib json s asset ≡ privilege_id_to_name))
  unfolding priv_map
  priv_map_cases asset =
      elim (Bool-cases (get_contract_address asset == s.contract_address_manufacturer)) [
        | inl e ↦ inl ((==_iff _ _).0 e, rw e refl)
        | inr e ↦ inr ((λ h. ground (arith, e, (==_iff _ _).1 h)), rw e refl)
      ]

  priv_map-Within : (asset : AssetDid) → Within 8 (priv_map eth lib json s asset)
  unfolding priv_map
  priv_map-Within asset = ground (arith, privilege_id_to_name-Within)

  check_bits_iff :
      (asset : AssetDid) (ids : List ℤ) (addr : Address)
      → All (InRange 128) ids
      → (check_bits eth lib json s asset ids addr ≢ none)
        × ((check_bits eth lib json s asset ids addr ≡ some (ok tt)) ↔ (
            (mask : ℕ) × (ret : ℕ) × (int_array_to_2bit_array ids 128 ≡ ok mask)
            × (permissions_on_chain eth lib json s asset addr mask ≡ ok ret)
            × All (HasBits ret) ids))
  unfolding check_bits
  check_bits_iff asset ids addr h =
      let (mask, e) = int_array_to_2bit_array_ok ids 128 h in
      elim (Result-cases (permissions_on_chain eth lib json s asset addr mask)) [
        | inr (x, f) ↦
            rw (e, f, check_bits)
              (λ h. cc, (λ h. cc, λ (mask', ret', e', f', has). absurd (ground (arith, e, f))))
        | inl (ret, f) ↦
            let (_, (lack, g), exact) =
              evaluate_permissions_bits_masked ids 128 ret mask (omega arith) e in
            elim (List-cases lack) [
              | inl none_lack ↦
                  rw (e, f, g, none_lack, check_bits)
                    (λ h. cc, (λ _. (mask, ret, refl, f, exact.0 (ground arith)), λ h. refl))
              | inr (p, ps, some_lack) ↦
                  rw (e, f, g, some_lack, check_bits)
                    (
                      λ h. cc,
                      (
                        λ h. cc,
                        λ (mask', ret', e', f', has).
                            let same_mask : mask ≡ mask' = ground (arith, e') in
                            let same_ret : ret' ≡ ret = ground (
                              arith,
                              f,
                              subst
                                  (λ k. permissions_on_chain eth lib json s asset addr k ≡ ok ret')
                                  (sym same_mask) f',
                            ) in
                            let none_lack =
                              exact.1 (subst (λ r. All (HasBits r) ids) same_ret has) in
                            absurd (ground (arith, g, none_lack, some_lack)),
                      ),
                    )
            ]
      ]

  validate_access_via_record_iff :
      (req : AccessRequest) (addr : Address)
      → (validate_access_via_record eth lib json s req addr ≢ none)
        × ((validate_access_via_record eth lib json s req addr ≡ some (ok tt))
            ↔ GrantedOnChain req addr)
  unfolding validate_access_via_record
  validate_access_via_record_iff req addr =
      let t = priv_map eth lib json s req.asset in
      let (sound, exact) = look_up_iff t req.permissions in
      elim (List-cases (look_up t req.permissions).1) [
        | inr (p, ps, e) ↦
            rw (e, validate_access_via_record)
              (λ h. cc, (λ h. cc, λ g. absurd (ground (arith, e, exact g.ids g.named))))
        | inl e ↦
            let ids = (look_up t req.permissions).0 in
            let (total, bits) =
              check_bits_iff req.asset ids addr
                (Named-InRange t req.permissions ids (priv_map-Within req.asset) (sound e)) in
            rw (e, validate_access_via_record)
              (
                total,
                (
                  λ h.
                      let (mask, ret, m, f, has) = bits.0 h in
                      record {
                        ids = ids;
                        mask = mask;
                        ret = ret;
                        named = sound e;
                        masked = m;
                        returned = f;
                        has = has;
                      },
                  λ g.
                      let same : g.ids ≡ ids = ground (arith, exact g.ids g.named) in
                      bits.1 (
                        subst
                          (λ is.
                            (mask : ℕ) × (ret : ℕ) × (int_array_to_2bit_array is 128 ≡ ok mask)
                            × (permissions_on_chain eth lib json s req.asset addr mask ≡ ok ret)
                            × All (HasBits ret) is)
                          same (g.mask, g.ret, g.masked, g.returned, g.has)),
                ),
              )
      ]
