-- ===== src/Exchange/Controller/Defaults.antt =====
-- The wildcards that the exchange fills in, and the evaluation of the filters.
use mathlib.Core.List.{map}
use dauth.Base.{
  ◌≡◌, ◌↔◌, refl, sym, subst, String, List, [], ◌∷◌, none, true, eq_iff, In, All, arith,
}
use dauth.Exchange.Models.{Library, EventFilter}
use dauth.Exchange.Autheval.{Agreements, or_global, text_or_global, evaluate_cloud_events}
use dauth.Exchange.Autheval.Events.{FilterCovered, evaluate_cloud_events_iff}
use dauth.Exchange.Access.{AccessRequest}
use dauth.Exchange.Controller.{add_default, add_default_identifiers}

or_global_twice : (xs : List String) → or_global (or_global xs) ≡ or_global xs
unfolding or_global
or_global_twice [] = refl
or_global_twice (x ∷ xs) = refl

text_or_global_twice : (s : String) → text_or_global (text_or_global s) ≡ text_or_global s
unfolding text_or_global
text_or_global_twice s = ground (arith, eq_iff s "")

FilterCovered-add_default :
    (c : Agreements) (f : EventFilter) → FilterCovered c (add_default f) ≡ FilterCovered c f
unfolding add_default
FilterCovered-add_default c f = rw (
  text_or_global_twice f.event_type,
  text_or_global_twice f.source,
  or_global_twice f.ids,
  or_global_twice f.tags,
)

All-add_default :
    (c : Agreements) (fs : List EventFilter)
    → All (FilterCovered c) (map add_default fs) ↔ All (FilterCovered c) fs
All-add_default c [] = ((λ h. h), λ h. h)
All-add_default c (f ∷ fs) =
    let (to, from) = All-add_default c fs in
    let same = FilterCovered-add_default c f in
    (λ h. (subst (λ P. P) same h.0, to h.1), λ h. (subst (λ P. P) (sym same) h.0, from h.1))

-- Where the library's sets hold what they are given, filling in the wildcards changes no decision on
-- cloud events: the filters pass with them exactly when they pass without them.
pub evaluate_cloud_events-add_default :
    (lib : Library)
    (set_law : (xs : List String) (x : String) → (lib.set_contains xs x ≡ true) ↔ In x xs)
    (req : AccessRequest) (c : Agreements)
    → (evaluate_cloud_events lib c (add_default_identifiers req).event_filters ≡ none)
      ↔ (evaluate_cloud_events lib c req.event_filters ≡ none)
unfolding add_default_identifiers
evaluate_cloud_events-add_default lib set_law req c =
    let with' = evaluate_cloud_events_iff lib set_law c (map add_default req.event_filters) in
    let without = evaluate_cloud_events_iff lib set_law c req.event_filters in
    let same = All-add_default c req.event_filters in
    (λ h. without.1 (same.0 (with'.0 h)), λ h. with'.1 (same.1 (without.0 h)))
