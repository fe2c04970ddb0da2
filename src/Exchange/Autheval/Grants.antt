-- ===== src/Exchange/Autheval/Grants.antt =====
-- The permissions that a SACD document grants: UserGrantMap, matchTemplatePermissions and
-- EvaluatePermissions. A map[string]bool is an association list; a missing name reads false.
pub mod CloudEvents
pub mod Documents
pub mod Laws
pub mod Templates
use dauth.Base.{
  ℕ, suc, String, List, [], ◌∷◌, Option, none, some, Bool, true, false, not, ◌&&◌, all,
  if◌then◌else◌, str_eq, ◌⧺◌, lookup, insert, Time, is_zero, before, after, plain, wrap, Result, ok,
  err,
}
use dauth.Exchange.Models.{
  Library, AssetDid, did_string, Permission, SacdAgreement, SacdData, type_cloud_event,
  type_permission,
}
use dauth.Exchange.Autheval.{Agreements, add_agreement}

abbrev pub Permissions : Type 0
Permissions = List (String × Bool)

-- `permissions[name]`
unfoldable pub granted : Permissions → String → Bool
granted m name = elim (lookup name m) [ none ↦ false | some b ↦ b ]

-- template.PermissionsResult, and the service that returns it; `none` is a nil pointer. The service
-- keeps a cache, its state S.
pub record PermissionsResult : Type 0 where
  pub permissions : Permissions
  pub is_active : Bool

pub record TemplateService (S : Type 0) : Type 0 where
  pub get_template_permissions : String → AssetDid → S → Result (Option PermissionsResult) × S

-- EvaluatePermissions: the requested names that are missing, in their order.
unfoldable pub evaluate_permissions : Permissions → List String → List String
evaluate_permissions user [] = []
evaluate_permissions user (p ∷ ps) =
    let rest = evaluate_permissions user ps in if not (granted user p) then p ∷ rest else rest

unfoldable pub match_template_permissions : Permissions → Option PermissionsResult → Bool
match_template_permissions sacd none = true
match_template_permissions sacd (some r) =
    if r.is_active then all (λ (e : String × Bool). granted sacd e.0) r.permissions else false

-- The loop over the names of one agreement.
unfoldable pub add_permissions : Permissions → List Permission → Permissions
add_permissions m [] = m
add_permissions m (p ∷ ps) = add_permissions (insert p.name true m) ps

-- The two `continue`s at the start of the loop do not fire.
pub in_force : Time → SacdAgreement → Bool
in_force now a =
    not (not (is_zero a.effective_at) && before now a.effective_at)
    && not (not (is_zero a.expires_at) && after now a.expires_at)

-- What the `switch` does with an agreement in force.
pub add_by_type : SacdAgreement → Permissions × Agreements → Permissions × Agreements
unfolding add_permissions
add_by_type a (m, c) =
    if str_eq a.type type_cloud_event
    then (m, add_agreement c a.event_type a.source a.ids a.tags)
    else if str_eq a.type type_permission
    then (add_permissions m a.permissions, c)
    else (m, c)

-- `PermissionTemplateID != "" && PermissionTemplateID != "0"`
pub has_template : SacdData → Bool
has_template d =
    not (str_eq d.permission_template_id "") && not (str_eq d.permission_template_id "0")

module _ (lib : Library) where
  -- One round of the loop; `now` is its reading of the clock.
  pub add_sacd :
      AssetDid → Time → SacdAgreement → Permissions × Agreements → Result (Permissions × Agreements)
  unfolding in_force add_by_type
  add_sacd asset now a acc =
      if not (in_force now a)
      then ok acc
      else if not (str_eq a.asset (did_string lib asset))
      then err
          (plain ("asset DID " ⧺ a.asset ⧺ " does not match request DID " ⧺ did_string lib asset))
      else ok (add_by_type a acc)

  -- The loop, from the round `i` on; `clock i` is what the round reads.
  pub collect :
      AssetDid
      → (ℕ → Time)
      → ℕ
      → List SacdAgreement
      → Permissions × Agreements
      → Result (Permissions × Agreements)
  unfolding add_sacd
  collect asset clock i [] acc = ok acc
  collect asset clock i (a ∷ as') acc = elim (add_sacd asset (clock i) a acc) [
    | err e ↦ err e
    | ok acc' ↦ collect asset clock (suc i) as' acc'
  ]

  module _ {S : Type 0} (templates : TemplateService S) where
    -- UserGrantMap, from the template on.
    pub apply_template :
        SacdData → AssetDid → Permissions × Agreements → S → Result (Permissions × Agreements) × S
    unfolding match_template_permissions has_template
    apply_template d asset (m, c) s =
        if has_template d
        then (let (r, s') = templates.get_template_permissions d.permission_template_id asset s in
            elim r [
              | err e ↦ (err (wrap "failed to get template permissions" e), s')
              | ok t ↦ (ok (if match_template_permissions m t then m else [], c), s')
            ])
        else (ok (m, c), s)

    unfoldable pub user_grant_map :
        SacdData → AssetDid → (ℕ → Time) → S → Result (Permissions × Agreements) × S
    unfolding collect apply_template
    user_grant_map d asset clock s = elim (collect asset clock 0 d.agreements ([], [])) [
      | err e ↦ (err e, s)
      | ok acc ↦ apply_template d asset acc s
    ]
