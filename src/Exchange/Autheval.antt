-- ===== src/Exchange/Autheval.antt =====
-- internal/exchange/autheval: what the agreements of a SACD document grant, and whether a request is
-- covered. Wildcard grants of cloud events (agreements.go and EvaluateCloudEvents) are modelled
-- here, the grants of permissions in Grants, the 2-bit masks of the chain in Masks, and the
-- identifiers by source in Sources.
pub mod Events
pub mod Grants
pub mod Masks
pub mod Sources
use dauth.Base.{
  String, List, [], ◌∷◌, ◌++◌, Option, none, some, Bool, ◌&&◌, ◌||◌, any, if◌then◌else◌, str_eq,
  ◌⧺◌, Error, plain, joined,
}
use dauth.Exchange.Models.{Library, EventFilter, global_identifier}

-- An agreement on cloud events. `ids` and `tags` are what set.New is given.
pub record Agreement : Type 0 where
  pub event_type : String
  pub source : String
  pub ids : List String
  pub tags : List String

-- CloudEventAgreements
abbrev pub Agreements : Type 0
Agreements = List Agreement

-- `if len(xs) == 0 { xs = []string{"*"} }`
unfoldable pub or_global : List String → List String
or_global [] = global_identifier ∷ []
or_global (x ∷ xs) = x ∷ xs

-- `if s == "" { s = "*" }`
unfoldable pub text_or_global : String → String
text_or_global s = if str_eq s "" then global_identifier else s

-- CloudEventAgreements.Add
unfoldable pub add_agreement : Agreements → String → String → List String → List String → Agreements
unfolding or_global
add_agreement c event_type source ids tags =
    c
    ++ record {
      event_type = event_type;
      source = source;
      ids = or_global ids;
      tags = or_global tags;
    }
      ∷ []

-- errors.Join of the error so far, which may be nil, and one more.
join_errors : Option Error → Error → Option Error
join_errors none e = some e
join_errors (some f) e = some (joined f e)

lacking : EventFilter → String → String → Error
lacking req id tag = plain (
    "lacking grant for requested cloud event {type: " ⧺ req.event_type ⧺ ", source: " ⧺ req.source
    ⧺ ", id: " ⧺ id ⧺ ", tag: " ⧺ tag ⧺ "}")

module _ (lib : Library) where
  -- Agreement.Grants
  pub agreement_grants : Agreement → String → String → String → String → Bool
  agreement_grants a event_type source id tag =
      (str_eq a.event_type event_type || str_eq a.event_type global_identifier)
      && (str_eq a.source source || str_eq a.source global_identifier)
      && (lib.set_contains a.ids id || lib.set_contains a.ids global_identifier)
      && (lib.set_contains a.tags tag || lib.set_contains a.tags global_identifier)

  -- CloudEventAgreements.Grants
  unfoldable pub grants : Agreements → String → String → String → String → Bool
  unfolding agreement_grants
  grants c event_type source id tag = any (λ a. agreement_grants a event_type source id tag) c

  -- The innermost loop of EvaluateCloudEvents, over the tags.
  check_tags : Agreements → EventFilter → String → List String → Option Error → Option Error
  unfolding join_errors lacking text_or_global
  check_tags c req id [] e = e
  check_tags c req id (tag ∷ tags) e = check_tags c req id tags (
      if grants c (text_or_global req.event_type) (text_or_global req.source) id tag
      then e
      else join_errors e (lacking req id tag))

  check_ids : Agreements → EventFilter → List String → List String → Option Error → Option Error
  unfolding check_tags
  check_ids c req [] tags e = e
  check_ids c req (id ∷ ids) tags e = check_ids c req ids tags (check_tags c req id tags e)

  check_filters : Agreements → List EventFilter → Option Error → Option Error
  unfolding check_ids or_global
  check_filters c [] e = e
  check_filters c (req ∷ reqs) e =
      check_filters c reqs (check_ids c req (or_global req.ids) (or_global req.tags) e)

  -- EvaluateCloudEvents: `none` is a nil error.
  unfoldable pub evaluate_cloud_events : Agreements → List EventFilter → Option Error
  unfolding check_filters
  evaluate_cloud_events c reqs = check_filters c reqs none
