-- ===== src/Exchange/Controller/Fills.antt =====
-- What the exchange fills in where a request leaves something out.
use mathlib.Core.List.{map}
use dauth.Base.{
  ◌≡◌, ◌≢◌, ◌⊎◌, ◌↔◌, inl, inr, refl, ap, String, List, [], ◌∷◌, Bool-cases, is_nil, if◌then◌else◌,
  str_eq, eq_iff, arith,
}
use dauth.Exchange.Models.{EventFilter}
use dauth.Exchange.Autheval.{or_global, text_or_global}
use dauth.Exchange.Access.{AccessRequest}
use dauth.Exchange.Controller.{add_default, add_default_identifiers}

-- A default stands for what is missing.
abbrev pub OrElse : {A : Type 0} → A → A → A → A → Type 0
OrElse missing default given chosen =
    ((given ≡ missing) × (chosen ≡ default)) ⊎ ((given ≢ missing) × (chosen ≡ given))

-- The wildcard stands for what a filter leaves out.
pub record Filled (f g : EventFilter) : Type 0 where
  pub event_type : OrElse "" "*" f.event_type g.event_type
  pub source : OrElse "" "*" f.source g.source
  pub ids : OrElse [] ("*" ∷ []) f.ids g.ids
  pub tags : OrElse [] ("*" ∷ []) f.tags g.tags

abbrev pub AllFilled : List EventFilter → List EventFilter → Type 0
AllFilled [] [] = Unit
AllFilled (f ∷ fs) (g ∷ gs) = Filled f g × AllFilled fs gs
AllFilled _ _ = ⊥

-- The request with its wildcards.
pub record FilledIn (bare full : AccessRequest) : Type 0 where
  pub asset : full.asset ≡ bare.asset
  pub permissions : full.permissions ≡ bare.permissions
  pub event_filters : AllFilled bare.event_filters full.event_filters

text_iff : (s s' : String) → (s' ≡ text_or_global s) ↔ OrElse "" "*" s s'
unfolding text_or_global
text_iff s s' = elim (Bool-cases (str_eq s "")) [
  | inl e ↦
      let is = (eq_iff s "").0 e in
      rw e (λ h. inl (is, h), λ h. elim h [ inl (_, c) ↦ c | inr (ne, _) ↦ absurd (ne is) ])
  | inr e ↦
      let ne : s ≢ "" = λ is. ground (arith, (eq_iff s "").1 is) in
      rw e (λ h. inr (ne, h), λ h. elim h [ inl (is, _) ↦ absurd (ne is) | inr (_, c) ↦ c ])
]

pub list_iff : (d xs ys : List String) → (ys ≡ (if is_nil xs then d else xs)) ↔ OrElse [] d xs ys
list_iff d [] ys =
    (λ h. inl (refl, h), λ h. elim h [ inl (_, c) ↦ c | inr (ne, _) ↦ absurd (ne refl) ])
list_iff d (x ∷ xs) ys = (λ h. inr ((λ e. cc), h), λ h. elim h [ inl (e, _) ↦ cc | inr (_, c) ↦ c ])

or_global_lem : (xs : List String) → or_global xs ≡ (if is_nil xs then "*" ∷ [] else xs)
unfolding or_global
or_global_lem [] = refl
or_global_lem (x ∷ xs) = refl

or_global_iff : (xs ys : List String) → (ys ≡ or_global xs) ↔ OrElse [] ("*" ∷ []) xs ys
or_global_iff xs ys = rw (or_global_lem xs) (list_iff ("*" ∷ []) xs ys)

add_default_iff : (f g : EventFilter) → (g ≡ add_default f) ↔ Filled f g
unfolding add_default
add_default_iff f g = (
  λ h. record {
    event_type = (text_iff _ _).0 (ap (λ (k : EventFilter). k.event_type) h);
    source = (text_iff _ _).0 (ap (λ (k : EventFilter). k.source) h);
    ids = (or_global_iff _ _).0 (ap (λ (k : EventFilter). k.ids) h);
    tags = (or_global_iff _ _).0 (ap (λ (k : EventFilter). k.tags) h);
  },
  λ h.
      let a = (text_iff f.event_type g.event_type).1 h.event_type in
      let b = (text_iff f.source g.source).1 h.source in
      let c = (or_global_iff f.ids g.ids).1 h.ids in
      let d = (or_global_iff f.tags g.tags).1 h.tags in cc,
)

AllFilled-map : (fs gs : List EventFilter) → (gs ≡ map add_default fs) ↔ AllFilled fs gs
AllFilled-map [] [] = ((λ h. tt), λ h. refl)
AllFilled-map [] (g ∷ gs) = ((λ h. cc), λ h. absurd h)
AllFilled-map (f ∷ fs) [] = ((λ h. cc), λ h. absurd h)
AllFilled-map (f ∷ fs) (g ∷ gs) =
    let here = add_default_iff f g in
    let later = AllFilled-map fs gs in
    (
      λ h. (here.0 (ground arith), later.0 (ground arith)),
      λ h. let a = here.1 h.0 in let b = later.1 h.1 in cc,
    )

pub add_default_identifiers_iff :
    (bare full : AccessRequest) → (full ≡ add_default_identifiers bare) ↔ FilledIn bare full
unfolding add_default_identifiers
add_default_identifiers_iff bare full =
    let filters = AllFilled-map bare.event_filters full.event_filters in
    (
      λ h. record {
        asset = ap (λ (k : AccessRequest). k.asset) h;
        permissions = ap (λ (k : AccessRequest). k.permissions) h;
        event_filters = filters.0 (ap (λ (k : AccessRequest). k.event_filters) h);
      },
      λ h. let a = h.asset in let b = h.permissions in let c = filters.1 h.event_filters in cc,
    )
