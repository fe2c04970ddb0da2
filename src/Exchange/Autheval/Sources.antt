-- ===== src/Exchange/Autheval/Sources.antt =====
-- GetValidAgreements of internal/exchange/autheval/autheval.go: the identifiers by source for a type
-- of cloud events. The sets of shared/pkg/set are a parameter; the order in which Go ranges over a
-- map is that of the association list.
pub mod Laws
use dauth.Base.{String, List, [], ◌∷◌, none, some, lookup, insert}
use dauth.Exchange.Models.{global_identifier}

-- NewStringSet, Add and Slice.
pub record StringSets (T : Type 0) : Type 0 where
  pub new : T
  pub add : String → T → T
  pub slice : T → List String

-- A map[string]*set.StringSet, by source, and the nested map, by type of events.
abbrev pub BySource : Type 0 → Type 0
BySource T = List (String × T)

abbrev pub SacdAgreements : Type 0 → Type 0
SacdAgreements T = List (String × BySource T)

-- `sacdAgreements[key]`; a missing key gives the nil map, which has no entries.
unfoldable pub at_type : {T : Type 0} → SacdAgreements T → String → BySource T
at_type agreements key = elim (lookup key agreements) [ none ↦ [] | some m ↦ m ]

module _ {T : Type 0} (sets : StringSets T) where
  -- The inner loops.
  unfoldable pub add_all : T → List String → T
  add_all t [] = t
  add_all t (id ∷ ids) = add_all (sets.add id t) ids

  -- The loop over the grants of the type.
  unfoldable pub add_event_grants : BySource T → BySource T → BySource T
  unfolding add_all
  add_event_grants m [] = m
  add_event_grants m ((source, ids) ∷ rest) =
      add_event_grants (insert source (add_all sets.new (sets.slice ids)) m) rest

  -- The set of a source, made where there is none.
  unfoldable pub set_of : BySource T → String → T
  set_of m source = elim (lookup source m) [ none ↦ sets.new | some t ↦ t ]

  -- The loop over the global grants.
  unfoldable pub add_global_grants : BySource T → BySource T → BySource T
  unfolding add_all set_of
  add_global_grants m [] = m
  add_global_grants m ((source, ids) ∷ rest) =
      add_global_grants (insert source (add_all (set_of m source) (sets.slice ids)) m) rest

  unfoldable pub get_valid_agreements : SacdAgreements T → String → BySource T
  unfolding add_event_grants add_global_grants at_type
  get_valid_agreements agreements ce_type =
      add_global_grants (add_event_grants [] (at_type agreements ce_type))
        (at_type agreements global_identifier)
