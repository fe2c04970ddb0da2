-- ===== src/Exchange/Autheval/Grants/CloudEvents.antt =====
-- The cloud events that the agreements of a document grant, and when the loop over them ends well.
use dauth.Base.{
  ℕ, suc, ◌≡◌, ◌⊎◌, ◌↔◌, inl, inr, if◌then◌else◌, refl, String, List, [], ◌∷◌, ◌++◌, if◌then◌else◌,
  Bool-cases, Result-cases, str_eq, eq_iff, Time, All, arith, ok,
}
use dauth.Exchange.Models.{
  Library, AssetDid, did_string, EventFilter, SacdAgreement, type_cloud_event, type_permission,
}
use dauth.Exchange.Autheval.{Agreements, or_global, add_agreement}
use dauth.Exchange.Autheval.Events.{Matches, AnyMatches, Covered}
use dauth.Exchange.Autheval.Grants.{Permissions, in_force, add_by_type, add_sacd, collect}
use dauth.Exchange.Autheval.Grants.Laws.{IsInForce, in_force_iff, AllAbout}

-- A list of the document stands for the text by an entry, or by leaving all out.
abbrev pub ListMatches : List String → String → Type 0
ListMatches xs s = (xs ≡ []) ⊎ AnyMatches xs s

-- What an agreement of a document grants of cloud events at an instant.
pub record GivesEvent (now : Time) (a : SacdAgreement) (event_type source id tag : String)
    : Type 0 where
  pub in_force : IsInForce now a
  pub is_cloud_event : a.type ≡ type_cloud_event
  pub event_type_matches : Matches a.event_type event_type
  pub source_matches : Matches a.source source
  pub id_matches : ListMatches a.ids id
  pub tag_matches : ListMatches a.tags tag

-- Some agreement grants the combination, at the instant of its round.
abbrev pub EventGiven :
    (ℕ → Time) → ℕ → List SacdAgreement → String → String → String → String → Type 0
EventGiven clock i [] t s id tag = ⊥
EventGiven clock i (a ∷ as') t s id tag =
    GivesEvent (clock i) a t s id tag ⊎ EventGiven clock (suc i) as' t s id tag

-- What a request asks for: its texts, or the wildcard where it leaves them out.
abbrev pub asked : String → String
asked s = if str_eq s "" then "*" else s

abbrev pub asked_all : List String → List String
asked_all [] = "*" ∷ []
asked_all (x ∷ xs) = x ∷ xs

-- Every identifier with every tag of the request is granted.
abbrev pub FilterGiven : (ℕ → Time) → List SacdAgreement → EventFilter → Type 0
FilterGiven clock as' req =
    All
      (λ id.
        All (λ tag. EventGiven clock 0 as' (asked req.event_type) (asked req.source) id tag)
          (asked_all req.tags))
      (asked_all req.ids)

or_global_iff : (xs : List String) (s : String) → AnyMatches (or_global xs) s ↔ ListMatches xs s
unfolding or_global
or_global_iff [] s = ((λ h. inl refl), λ h. inr (inl refl))
or_global_iff (x ∷ xs) s = ((λ h. inr h), λ h. elim h [ inl e ↦ cc | inr m ↦ m ])

Covered-append :
    (c d : Agreements) (t s id tag : String)
    → Covered (c ++ d) t s id tag ↔ (Covered c t s id tag ⊎ Covered d t s id tag)
Covered-append [] d t s id tag = ((λ h. inr h), λ h. elim h [ inl e ↦ absurd e | inr k ↦ k ])
Covered-append (a ∷ c) d t s id tag =
    let (to, from) = Covered-append c d t s id tag in
    (
      λ h. elim h [
        | inl k ↦ inl (inl k)
        | inr k ↦ elim (to k) [ inl l ↦ inl (inr l) | inr l ↦ inr l ]
      ],
      λ h. elim h [
        | inl (inl k) ↦ inl k
        | inl (inr k) ↦ inr (from (inl k))
        | inr k ↦ inr (from (inr k))
      ],
    )

-- An agreement of cloud events that is in force, once it is added.
Covered-add_agreement :
    (now : Time) (a : SacdAgreement) (c : Agreements) (t s id tag : String)
    → IsInForce now a
    → a.type ≡ type_cloud_event
    → Covered (add_agreement c a.event_type a.source a.ids a.tags) t s id tag
      ↔ (Covered c t s id tag ⊎ GivesEvent now a t s id tag)
unfolding add_agreement
Covered-add_agreement now a c t s id tag force is =
    let all = Covered-append c _ t s id tag in
    let ids = or_global_iff a.ids id in
    let tags = or_global_iff a.tags tag in
    (
      λ h. elim (all.0 h) [
        | inl k ↦ inl k
        | inr (inr k) ↦ absurd k
        | inr (inl k) ↦ inr (record {
          in_force = force;
          is_cloud_event = is;
          event_type_matches = k.event_type_matches;
          source_matches = k.source_matches;
          id_matches = ids.0 k.id_matches;
          tag_matches = tags.0 k.tag_matches;
        })
      ],
      λ h. elim h [
        | inl k ↦ all.1 (inl k)
        | inr g ↦ all.1 (
            inr (
              inl (record {
                event_type_matches = g.event_type_matches;
                source_matches = g.source_matches;
                id_matches = ids.1 g.id_matches;
                tag_matches = tags.1 g.tag_matches;
              })))
      ],
    )

-- An agreement that gives no event changes nothing.
unchanged : {P Q : Type 0} → ¬ Q → P ↔ (P ⊎ Q)
unchanged never = ((λ h. inl h), λ h. elim h [ inl p ↦ p | inr q ↦ absurd (never q) ])

Covered-add_by_type :
    (now : Time) (a : SacdAgreement) (acc : Permissions × Agreements) (t s id tag : String)
    → IsInForce now a
    → Covered (add_by_type a acc).1 t s id tag
      ↔ (Covered acc.1 t s id tag ⊎ GivesEvent now a t s id tag)
unfolding add_by_type
Covered-add_by_type now a (m, c) t s id tag force =
    elim (Bool-cases (str_eq a.type type_cloud_event)) [
      | inl e ↦ rw e (Covered-add_agreement now a c t s id tag force ((eq_iff _ _).0 e))
      | inr e ↦
          let never : ¬ GivesEvent now a t s id tag =
            λ g. absurd (ground (arith, (eq_iff a.type type_cloud_event).1 g.is_cloud_event)) in
          rw e (elim (Bool-cases (str_eq a.type type_permission)) [
            | inl f ↦ rw f (unchanged never)
            | inr f ↦ rw f (unchanged never)
          ])
    ]

module _ (lib : Library) (asset : AssetDid) where
  Covered-add_sacd :
      (now : Time) (a : SacdAgreement) (acc acc' : Permissions × Agreements) (t s id tag : String)
      → add_sacd lib asset now a acc ≡ ok acc'
      → Covered acc'.1 t s id tag ↔ (Covered acc.1 t s id tag ⊎ GivesEvent now a t s id tag)
  unfolding add_sacd
  Covered-add_sacd now a acc acc' t s id tag e = elim (Bool-cases (in_force now a)) [
    | inr off ↦
        let same : acc ≡ acc' = ground arith in
        rw (← same) (unchanged (λ g. absurd (ground (arith, (in_force_iff now a).1 g.in_force))))
    | inl on ↦ elim (Bool-cases (str_eq a.asset (did_string lib asset))) [
      | inr other ↦ absurd (ground arith)
      | inl mine ↦
          let same : add_by_type a acc ≡ acc' = ground arith in
          rw (← same) (Covered-add_by_type now a acc t s id tag ((in_force_iff now a).0 on))
    ]
  ]

  pub Covered-collect :
      (clock : ℕ → Time) (i : ℕ) (as' : List SacdAgreement) (acc acc' : Permissions × Agreements)
      (t s id tag : String)
      → collect lib asset clock i as' acc ≡ ok acc'
      → Covered acc'.1 t s id tag ↔ (Covered acc.1 t s id tag ⊎ EventGiven clock i as' t s id tag)
  unfolding collect
  Covered-collect clock i [] acc acc' t s id tag e =
      let same : acc ≡ acc' = ground arith in rw (← same) (unchanged (λ none'. none'))
  Covered-collect clock i (a ∷ as') acc acc' t s id tag e =
      elim (Result-cases (add_sacd lib asset (clock i) a acc)) [
        | inr (x, r) ↦ absurd (ground arith)
        | inl (next, r) ↦
            let here = Covered-add_sacd (clock i) a acc next t s id tag r in
            let later = Covered-collect clock (suc i) as' next acc' t s id tag (ground arith) in
            (
              λ h. elim (later.0 h) [
                | inl k ↦ elim (here.0 k) [ inl old ↦ inl old | inr new ↦ inr (inl new) ]
                | inr q ↦ inr (inr q)
              ],
              λ h. elim h [
                | inl old ↦ later.1 (inl (here.1 (inl old)))
                | inr (inl new) ↦ later.1 (inl (here.1 (inr new)))
                | inr (inr q) ↦ later.1 (inr q)
              ],
            )
      ]

  -- The loop ends well where the agreements in force are about the asset.
  pub collect_total :
      (clock : ℕ → Time) (i : ℕ) (as' : List SacdAgreement) (acc : Permissions × Agreements)
      → AllAbout lib asset clock i as'
      → (acc' : Permissions × Agreements) × (collect lib asset clock i as' acc ≡ ok acc')
  unfolding collect add_sacd
  collect_total clock i [] acc about = (acc, refl)
  collect_total clock i (a ∷ as') acc about = elim (Bool-cases (in_force (clock i) a)) [
    | inr off ↦ let (acc', r) = collect_total clock (suc i) as' acc about.1 in (acc', ground arith)
    | inl on ↦
        let mine = (eq_iff _ _).1 (about.0 ((in_force_iff (clock i) a).0 on)) in
        let (acc', r) = collect_total clock (suc i) as' (add_by_type a acc) about.1 in
        (acc', ground arith)
  ]
