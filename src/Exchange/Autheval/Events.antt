-- ===== src/Exchange/Autheval/Events.antt =====
-- When the agreements cover the requested cloud events.
use dauth.Base.{
  ◌≡◌, ◌⊎◌, ◌↔◌, inl, inr, refl, String, List, [], ◌∷◌, Option, none, Bool, true, false, ◌||◌,
  if◌then◌else◌, str_eq, eq_iff, arith, In, All, Error,
}
use mathlib.Core.Bool.{false≢true}
use dauth.Exchange.Models.{Library, EventFilter, global_identifier}
use dauth.Exchange.Autheval.{
  Agreement, Agreements, or_global, text_or_global, agreement_grants, grants, check_tags, check_ids,
  check_filters, evaluate_cloud_events, join_errors, lacking,
}

-- An entry stands for itself, and the wildcard for everything.
abbrev pub Matches : String → String → Type 0
Matches pattern s = (pattern ≡ s) ⊎ (pattern ≡ global_identifier)

-- One of the entries stands for the text.
abbrev pub AnyMatches : List String → String → Type 0
AnyMatches ps s = In s ps ⊎ In global_identifier ps

pub record Covers (a : Agreement) (event_type source id tag : String) : Type 0 where
  pub event_type_matches : Matches a.event_type event_type
  pub source_matches : Matches a.source source
  pub id_matches : AnyMatches a.ids id
  pub tag_matches : AnyMatches a.tags tag

-- Some agreement covers the combination.
abbrev pub Covered : Agreements → String → String → String → String → Type 0
Covered [] t s i g = ⊥
Covered (a ∷ c) t s i g = Covers a t s i g ⊎ Covered c t s i g

-- Every identifier with every tag of the request, with the wildcard for what it leaves out.
abbrev pub FilterCovered : Agreements → EventFilter → Type 0
FilterCovered c req =
    All
      (λ id.
        All (λ tag. Covered c (text_or_global req.event_type) (text_or_global req.source) id tag)
          (or_global req.tags))
      (or_global req.ids)

or_iff : {P Q : Type 0} (a b : Bool) → (a ≡ true) ↔ P → (b ≡ true) ↔ Q → ((a || b) ≡ true) ↔ (P ⊎ Q)
or_iff true b p q = (λ h. inl (p.0 refl), λ h. refl)
or_iff false b p q =
    (λ h. inr (q.0 h), λ h. elim h [ inl x ↦ absurd (false≢true (p.1 x)) | inr y ↦ q.1 y ])

round_iff :
    (b : Bool) (e : Option Error) (x : Error)
    → ((if b then e else join_errors e x) ≡ none) ↔ ((e ≡ none) × (b ≡ true))
unfolding join_errors
round_iff b e x = ground arith

Matches-iff : (p s : String) → ((str_eq p s || str_eq p global_identifier) ≡ true) ↔ Matches p s
Matches-iff p s = or_iff (str_eq p s) _ (eq_iff p s) (eq_iff p global_identifier)

module _ (lib : Library)
    (set_law : (xs : List String) (x : String) → (lib.set_contains xs x ≡ true) ↔ In x xs) where
  AnyMatches-iff :
      (ps : List String) (s : String)
      → ((lib.set_contains ps s || lib.set_contains ps global_identifier) ≡ true) ↔ AnyMatches ps s
  AnyMatches-iff ps s =
      or_iff (lib.set_contains ps s) _ (set_law ps s) (set_law ps global_identifier)

  agreement_grants_iff :
      (a : Agreement) (t s i g : String)
      → (agreement_grants lib a t s i g ≡ true) ↔ Covers a t s i g
  unfolding agreement_grants
  agreement_grants_iff a t s i g = (
    λ h. record {
      event_type_matches = (Matches-iff a.event_type t).0 (ground arith);
      source_matches = (Matches-iff a.source s).0 (ground arith);
      id_matches = (AnyMatches-iff a.ids i).0 (ground arith);
      tag_matches = (AnyMatches-iff a.tags g).0 (ground arith);
    },
    λ c. ground (
      arith,
      (Matches-iff a.event_type t).1 c.event_type_matches,
      (Matches-iff a.source s).1 c.source_matches,
      (AnyMatches-iff a.ids i).1 c.id_matches,
      (AnyMatches-iff a.tags g).1 c.tag_matches,
    ),
  )

  grants_iff :
      (c : Agreements) (t s i g : String) → (grants lib c t s i g ≡ true) ↔ Covered c t s i g
  unfolding grants
  grants_iff [] t s i g = (λ h. cc, λ h. absurd h)
  grants_iff (a ∷ c) t s i g =
      or_iff (agreement_grants lib a t s i g) _ (agreement_grants_iff a t s i g)
        (grants_iff c t s i g)

  -- The loops leave the error nil exactly when it was nil and each combination is covered.
  check_tags_iff :
      (c : Agreements) (req : EventFilter) (id : String) (tags : List String) (e : Option Error)
      → (check_tags lib c req id tags e ≡ none) ↔ (
          (e ≡ none)
          × All
              (λ tag. Covered c (text_or_global req.event_type) (text_or_global req.source) id tag)
              tags)
  unfolding check_tags
  check_tags_iff c req id [] e = ((λ h. (h, tt)), λ h. h.0)
  check_tags_iff c req id (tag ∷ tags) e =
      let t = text_or_global req.event_type in
      let s = text_or_global req.source in
      let here = round_iff (grants lib c t s id tag) e (lacking req id tag) in
      let covered = grants_iff c t s id tag in
      let later = check_tags_iff c req id tags _ in
      (
        λ h.
            let (none_yet, rest) = later.0 h in
            let (was, g) = here.0 none_yet in (was, (covered.0 g, rest)),
        λ h. later.1 (here.1 (h.0, covered.1 h.1.0), h.1.1),
      )

  check_ids_iff :
      (c : Agreements) (req : EventFilter) (ids tags : List String) (e : Option Error)
      → (check_ids lib c req ids tags e ≡ none) ↔ (
          (e ≡ none)
          × All
              (λ id.
                All
                  (λ tag.
                    Covered c (text_or_global req.event_type) (text_or_global req.source) id tag)
                  tags)
              ids)
  unfolding check_ids
  check_ids_iff c req [] tags e = ((λ h. (h, tt)), λ h. h.0)
  check_ids_iff c req (id ∷ ids) tags e =
      let here = check_tags_iff c req id tags e in
      let later = check_ids_iff c req ids tags _ in
      (
        λ h.
            let (none_yet, rest) = later.0 h in
            let (was, covered) = here.0 none_yet in (was, (covered, rest)),
        λ h. later.1 (here.1 (h.0, h.1.0), h.1.1),
      )

  check_filters_iff :
      (c : Agreements) (reqs : List EventFilter) (e : Option Error)
      → (check_filters lib c reqs e ≡ none) ↔ ((e ≡ none) × All (FilterCovered c) reqs)
  unfolding check_filters
  check_filters_iff c [] e = ((λ h. (h, tt)), λ h. h.0)
  check_filters_iff c (req ∷ reqs) e =
      let here = check_ids_iff c req (or_global req.ids) (or_global req.tags) e in
      let later = check_filters_iff c reqs _ in
      (
        λ h.
            let (none_yet, rest) = later.0 h in
            let (was, covered) = here.0 none_yet in (was, (covered, rest)),
        λ h. later.1 (here.1 (h.0, h.1.0), h.1.1),
      )

  -- Where the library's sets hold what they are given: the request for cloud events passes exactly
  -- when each of its filters is covered, for every identifier with every tag, by some agreement that
  -- names the event type, the source, the identifier and the tag, or has the wildcard in its place;
  -- what a filter leaves out is the wildcard, which only a wildcard covers.
  pub evaluate_cloud_events_iff :
      (c : Agreements) (reqs : List EventFilter)
      → (evaluate_cloud_events lib c reqs ≡ none) ↔ All (FilterCovered c) reqs
  unfolding evaluate_cloud_events
  evaluate_cloud_events_iff c reqs =
      let all = check_filters_iff c reqs none in (λ h. (all.0 h).1, λ h. all.1 (refl, h))
