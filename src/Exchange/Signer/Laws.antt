-- ===== src/Exchange/Signer/Laws.antt =====
-- The privilege identifiers of a permission token, against the ones that the access check tested.
use mathlib.Core.List.{map}
use dauth.Base.{
  ◌≡◌, ◌≢◌, ◌⊎◌, inl, inr, refl, subst, ℤ, pos, String, List, [], ◌∷◌, none, some, Bool-cases,
  str_eq, eq_iff, All, Time, arith,
}
use dauth.Ethereum.{Ethereum, Address}
use dauth.Exchange.Models.{Library, Json, get_contract_address}
use dauth.Exchange.Claims.{IdTable, privilege_id_to_name, manufacturer_privilege_id_to_name, id_of}
use dauth.Exchange.Access.{Service}
use dauth.Exchange.Access.Laws.{Named, GrantedOnChain, priv_map_cases}
use dauth.Exchange.Signer.{PrivilegeTokenDto, TokenSigner, privilege_of, payload}

-- No name of the first table stands in the second.
abbrev IsDisjoint : IdTable → IdTable → Type 0
IsDisjoint [] u = Unit
IsDisjoint ((i, n) ∷ t) u = (id_of u n ≡ none) × IsDisjoint t u

id_of-IsDisjoint :
    (t u : IdTable) → IsDisjoint t u → (n : String) (i : ℤ) → id_of t n ≡ some i → id_of u n ≡ none
unfolding id_of
id_of-IsDisjoint [] u d n i e = cc
id_of-IsDisjoint ((j, m) ∷ t) u d n i e = elim (Bool-cases (str_eq m n)) [
  | inl same ↦ subst (λ k. id_of u k ≡ none) ((eq_iff m n).0 same) d.0
  | inr other ↦ id_of-IsDisjoint t u d.1 n i (ground arith)
]

tables-IsDisjoint : IsDisjoint manufacturer_privilege_id_to_name privilege_id_to_name
unfolding manufacturer_privilege_id_to_name privilege_id_to_name id_of
tables-IsDisjoint = (refl, (refl, (refl, (refl, (refl, (refl, tt))))))

Named-privilege_of :
    (ps : List String) (is : List ℤ) → Named privilege_id_to_name ps is → map privilege_of ps ≡ is
unfolding privilege_of
Named-privilege_of [] [] h = refl
Named-privilege_of [] (i ∷ is) h = absurd h
Named-privilege_of (p ∷ ps) [] h = absurd h
Named-privilege_of (p ∷ ps) (i ∷ is) h =
    let here : privilege_of p ≡ i = ground (arith, h.0) in
    rw (here, Named-privilege_of ps is h.1) refl

Named-zero :
    (ps : List String) (is : List ℤ)
    → Named manufacturer_privilege_id_to_name ps is
    → All (λ i. i ≡ pos 0) (map privilege_of ps)
unfolding privilege_of
Named-zero [] is h = tt
Named-zero (p ∷ ps) [] h = absurd h
Named-zero (p ∷ ps) (i ∷ is) h =
    (ground (arith, id_of-IsDisjoint _ _ tables-IsDisjoint p i h.0), Named-zero ps is h.1)

-- The deprecated identifiers of a permission token for a request that the record on the chain grants:
-- for any contract but the manufacturers', they are the identifiers whose bits the access check found;
-- for the manufacturers' contract, whose table has other names, each of them is 0.
pub payload_privilege_ids :
    (eth : Ethereum) (lib : Library) (json : Json) {S : Type 0} (access : Service S)
    (signer : TokenSigner) (req : PrivilegeTokenDto) (now : Time) (jti : String) (addr : Address)
    (g : GrantedOnChain eth lib json access req.access_request addr)
    → ((get_contract_address req.access_request.asset ≢ access.contract_address_manufacturer)
        × ((payload lib signer req now jti).custom.privilege_ids ≡ g.ids))
      ⊎ ((get_contract_address req.access_request.asset ≡ access.contract_address_manufacturer)
          × All (λ i. i ≡ pos 0) (payload lib signer req now jti).custom.privilege_ids)
unfolding payload
payload_privilege_ids eth lib json access signer req now jti addr g =
    let ps = req.access_request.permissions in
    elim (priv_map_cases eth lib json access req.access_request.asset) [
      | inl (here, t) ↦ inr (here, Named-zero ps g.ids (subst (λ k. Named k ps g.ids) t g.named))
      | inr (other, t) ↦
          inl (other, Named-privilege_of ps g.ids (subst (λ k. Named k ps g.ids) t g.named))
    ]
