-- ===== src/Exchange/Autheval/Grants/Documents.antt =====
-- When UserGrantMap reads a document, and what it collects of cloud events.
use dauth.Base.{
  ℕ, ◌≡◌, ◌⊎◌, ◌↔◌, inl, inr, refl, String, List, [], ◌∷◌, Option, if◌then◌else◌, All_iff,
  Bool-cases, Result-cases, Time, All, arith, ok,
}
use dauth.Exchange.Models.{Library, AssetDid, EventFilter, SacdAgreement, SacdData}
use dauth.Exchange.Autheval.{Agreements, or_global, text_or_global}
use dauth.Exchange.Autheval.Events.{Covered, FilterCovered}
use dauth.Exchange.Autheval.Grants.{
  Permissions, PermissionsResult, TemplateService, collect, has_template,
  match_template_permissions, apply_template, user_grant_map,
}
use dauth.Exchange.Autheval.Grants.Laws.{AllAbout}
use dauth.Exchange.Autheval.Grants.Templates.{NoTemplate, has_template_iff}
use dauth.Exchange.Autheval.Grants.CloudEvents.{
  EventGiven, asked, asked_all, FilterGiven, Covered-collect, collect_total,
}

module _ (lib : Library) (asset : AssetDid) {S : Type 0} (templates : TemplateService S)
    (d : SacdData) where
  -- The template service answers for the template of the document, if it names one.
  abbrev pub TemplateAnswers : S → Type 0
  TemplateAnswers s =
      NoTemplate d
      ⊎ ((t : Option PermissionsResult) × ((templates.get_template_permissions
              d.permission_template_id asset s).0
            ≡ ok t))

  -- The template does not touch the cloud events.
  apply_template_events :
      (acc : Permissions × Agreements) (s : S) (m : Permissions) (c : Agreements)
      → (apply_template lib templates d asset acc s).0 ≡ ok (m, c)
      → (c ≡ acc.1) × TemplateAnswers s
  unfolding apply_template
  apply_template_events (m', c') s m c e = elim (Bool-cases (has_template d)) [
    | inr off ↦ (ground arith, inl ((has_template_iff d).0 off))
    | inl on ↦
        elim (Result-cases
          (templates.get_template_permissions d.permission_template_id asset s).0) [
            | inr (x, r) ↦ absurd (ground arith)
            | inl (t, r) ↦ (ground arith, inr (t, r))
          ]
  ]

  apply_template_total :
      (acc : Permissions × Agreements) (s : S)
      → TemplateAnswers s
      → (m : Permissions) × (c : Agreements) × ((apply_template lib templates d asset acc s).0
          ≡ ok (m, c))
  unfolding apply_template
  apply_template_total (m', c') s (inl off) =
      let off' = (has_template_iff d).1 off in (m', c', ground arith)
  apply_template_total (m', c') s (inr (t, r)) = elim (Bool-cases (has_template d)) [
    | inr off ↦ (m', c', ground arith)
    | inl on ↦ (if match_template_permissions m' t then m' else [], c', ground arith)
  ]

  -- What UserGrantMap collects of cloud events is what the document grants.
  pub user_grant_map_events :
      (clock : ℕ → Time) (s : S) (m : Permissions) (c : Agreements) (t src id tag : String)
      → (user_grant_map lib templates d asset clock s).0 ≡ ok (m, c)
      → TemplateAnswers s × (Covered c t src id tag ↔ EventGiven clock 0 d.agreements t src id tag)
  unfolding user_grant_map
  user_grant_map_events clock s m c t src id tag e =
      elim (Result-cases (collect lib asset clock 0 d.agreements ([], []))) [
        | inr (x, r) ↦ absurd (ground arith)
        | inl (acc, r) ↦
            let (same, answers) = apply_template_events acc s m c (ground arith) in
            let all = Covered-collect lib asset clock 0 d.agreements ([], []) acc t src id tag r in
            (
              answers,
              rw same (
                λ h. elim (all.0 h) [ inl none' ↦ absurd none' | inr g ↦ g ],
                λ g. all.1 (inr g),
              ),
            )
      ]

  pub user_grant_map_total :
      (clock : ℕ → Time) (s : S)
      → AllAbout lib asset clock 0 d.agreements
      → TemplateAnswers s
      → (m : Permissions) × (c : Agreements) × ((user_grant_map lib templates d asset clock s).0
          ≡ ok (m, c))
  unfolding user_grant_map
  user_grant_map_total clock s about answers =
      let (acc, r) = collect_total lib asset clock 0 d.agreements ([], []) about in
      let (m, c, e) = apply_template_total acc s answers in (m, c, ground arith)

asked_all_lem : (xs : List String) → or_global xs ≡ asked_all xs
unfolding or_global
asked_all_lem [] = refl
asked_all_lem (x ∷ xs) = refl

-- Filters over agreements that cover what a document grants.
filter_iff :
    (c : Agreements) (clock : ℕ → Time) (as' : List SacdAgreement) (req : EventFilter)
    → ((t s id tag : String) → Covered c t s id tag ↔ EventGiven clock 0 as' t s id tag)
    → FilterCovered c req ↔ FilterGiven clock as' req
unfolding text_or_global
filter_iff c clock as' req each =
    rw (asked_all_lem req.tags, asked_all_lem req.ids)
      (All_iff
        (λ id.
          All_iff (λ tag. each (asked req.event_type) (asked req.source) id tag)
            (asked_all req.tags))
        (asked_all req.ids))

pub filters_iff :
    (c : Agreements) (clock : ℕ → Time) (as' : List SacdAgreement) (reqs : List EventFilter)
    → ((t s id tag : String) → Covered c t s id tag ↔ EventGiven clock 0 as' t s id tag)
    → All (FilterCovered c) reqs ↔ All (FilterGiven clock as') reqs
filters_iff c clock as' reqs each = All_iff (λ req. filter_iff c clock as' req each) reqs
