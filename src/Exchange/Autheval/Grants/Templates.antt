-- ===== src/Exchange/Autheval/Grants/Templates.antt =====
-- The template of a document, and the grants of the document as a whole.
use dauth.Base.{
  ℕ, ◌≡◌, ◌⊎◌, ◌↔◌, inl, inr, refl, subst, String, List, [], ◌∷◌, Option, none, some, Bool, true,
  false, all, Bool-cases, str_eq, eq_iff, Result-cases, lookup, Time, All, arith, ok,
}
use dauth.Exchange.Models.{Library, AssetDid, SacdData}
use dauth.Exchange.Autheval.{Agreements}
use dauth.Exchange.Autheval.Grants.{
  Permissions, granted, PermissionsResult, TemplateService, evaluate_permissions,
  match_template_permissions, collect, has_template, apply_template, user_grant_map,
}
use dauth.Exchange.Autheval.Grants.Laws.{Given, AllAbout, collect_ok}

-- A template lets the grants through if it is active and each of its names is granted.
abbrev pub Allows : (String → Type 0) → Option PermissionsResult → Type 0
Allows P none = Unit
Allows P (some r) = (r.is_active ≡ true) × All (λ (e : String × Bool). P e.0) r.permissions

all_iff :
    (P : String → Type 0) (m : Permissions) (t : Permissions)
    → ((n : String) → (granted m n ≡ true) ↔ P n)
    → (all (λ (e : String × Bool). granted m e.0) t ≡ true) ↔ All (λ (e : String × Bool). P e.0) t
all_iff P m [] h = ((λ _. tt), λ _. refl)
all_iff P m (e ∷ t) h =
    let here = h e.0 in
    let later = all_iff P m t h in
    (
      λ x. (here.0 (ground arith), later.0 (ground arith)),
      λ x. ground (arith, here.1 x.0, later.1 x.1),
    )

match_iff :
    (P : String → Type 0) (m : Permissions) (t : Option PermissionsResult)
    → ((n : String) → (granted m n ≡ true) ↔ P n)
    → (match_template_permissions m t ≡ true) ↔ Allows P t
unfolding match_template_permissions
match_iff P m none h = ((λ _. tt), λ _. refl)
match_iff P m (some r) h =
    let all' = all_iff P m r.permissions h in
    (λ x. (ground arith, all'.0 (ground arith)), λ x. ground (arith, x.0, all'.1 x.1))

pub evaluate_permissions_iff :
    (m : Permissions) (ps : List String)
    → (evaluate_permissions m ps ≡ []) ↔ All (λ p. granted m p ≡ true) ps
unfolding evaluate_permissions
evaluate_permissions_iff m [] = ((λ _. tt), λ _. refl)
evaluate_permissions_iff m (p ∷ ps) = ground (arith, evaluate_permissions_iff m ps)

empty_granted : (n : String) → ¬ (granted [] n ≡ true)
unfolding granted lookup
empty_granted n h = cc

-- A document that names no template.
abbrev pub NoTemplate : SacdData → Type 0
NoTemplate d = (d.permission_template_id ≡ "") ⊎ (d.permission_template_id ≡ "0")

pub has_template_iff : (d : SacdData) → (has_template d ≡ false) ↔ NoTemplate d
unfolding has_template
has_template_iff d =
    let empty = eq_iff d.permission_template_id "" in
    let zero' = eq_iff d.permission_template_id "0" in
    (
      λ h. elim (Bool-cases (str_eq d.permission_template_id "")) [
        | inl e ↦ inl (empty.0 e)
        | inr e ↦ inr (zero'.0 (ground arith))
      ],
      λ h. elim h [ inl e ↦ ground (arith, empty.1 e) | inr e ↦ ground (arith, zero'.1 e) ],
    )

module _ (lib : Library) {S : Type 0} (templates : TemplateService S) (d : SacdData)
    (asset : AssetDid) where
  -- The template of the document, if it names one, lets the grants of the agreements through.
  abbrev pub TemplateAllows : (ℕ → Time) → S → Type 0
  TemplateAllows clock s =
      NoTemplate d
      ⊎ ((t : Option PermissionsResult) × ((templates.get_template_permissions
              d.permission_template_id asset s).0
            ≡ ok t)
          × Allows (Given clock 0 d.agreements) t)

  apply_template_ok :
      (clock : ℕ → Time) (acc : Permissions × Agreements) (s : S) (m : Permissions) (c : Agreements)
      (n : String)
      → ((k : String) → (granted acc.0 k ≡ true) ↔ Given clock 0 d.agreements k)
      → (apply_template lib templates d asset acc s).0 ≡ ok (m, c)
      → (granted m n ≡ true) ↔ (Given clock 0 d.agreements n × TemplateAllows clock s)
  unfolding apply_template
  apply_template_ok clock (m', c') s m c n h e = elim (Bool-cases (has_template d)) [
    | inr off ↦
        let same : m' ≡ m = ground arith in
        rw (← same) (λ g. ((h n).0 g, inl ((has_template_iff d).0 off)), λ g. (h n).1 g.0)
    | inl on ↦
        elim (Result-cases
          (templates.get_template_permissions d.permission_template_id asset s).0) [
            | inr (x, r) ↦ absurd (ground arith)
            | inl (t, r) ↦
                let allows = match_iff (Given clock 0 d.agreements) m' t h in
                elim (Bool-cases (match_template_permissions m' t)) [
                  | inl fits ↦
                      let same : m' ≡ m = ground arith in
                      rw (← same) (λ g. ((h n).0 g, inr (t, r, allows.0 fits)), λ g. (h n).1 g.0)
                  | inr unfit ↦
                      let same : m ≡ [] = ground arith in
                      rw same (
                        λ g. absurd (empty_granted n g),
                        λ g. elim g.1 [
                          | inl off ↦ let named = (has_template_iff d).1 off in cc
                          | inr (t', r', a) ↦
                              let same_t : t' ≡ t = ground arith in
                              let again =
                                allows.1 (subst (Allows (Given clock 0 d.agreements)) same_t a) in
                              cc
                        ],
                      )
                ]
          ]
  ]

  -- The grants of a SACD document: whatever UserGrantMap returns, every agreement that is in force at
  -- the reading of its round is about the requested asset, and a permission is granted exactly when
  -- such an agreement of the type "permission" names it and the template, if the document has one,
  -- is active with no name that the agreements do not give.
  pub user_grant_map_grants :
      (clock : ℕ → Time) (s : S) (m : Permissions) (c : Agreements) (n : String)
      → (user_grant_map lib templates d asset clock s).0 ≡ ok (m, c)
      → AllAbout lib asset clock 0 d.agreements
        × ((granted m n ≡ true) ↔ (Given clock 0 d.agreements n × TemplateAllows clock s))
  unfolding user_grant_map
  user_grant_map_grants clock s m c n e =
      elim (Result-cases (collect lib asset clock 0 d.agreements ([], []))) [
        | inr (x, r) ↦ absurd (ground arith)
        | inl (acc, r) ↦
            let (about, _) = collect_ok lib asset clock 0 d.agreements ([], []) acc n r in
            (about, apply_template_ok clock acc s m c n (from_start acc r) (ground arith))
      ]
    where
      from_start :
          (acc : Permissions × Agreements)
          → collect lib asset clock 0 d.agreements ([], []) ≡ ok acc
          → (k : String) → (granted acc.0 k ≡ true) ↔ Given clock 0 d.agreements k
      from_start acc r k =
          let (_, all') = collect_ok lib asset clock 0 d.agreements ([], []) acc k r in
          (
            λ g. elim (all'.0 g) [ inl none' ↦ absurd (empty_granted k none') | inr q ↦ q ],
            λ q. all'.1 (inr q),
          )
