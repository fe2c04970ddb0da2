-- ===== src/Exchange/Autheval/Grants/Laws.antt =====
-- What the agreements of a document give; the template and the whole are in Grants/Templates.
use dauth.Base.{
  ℕ, suc, ◌≤◌, ◌≡◌, ◌⊎◌, ◌↔◌, inl, inr, String, List, [], ◌∷◌, map, true, Bool-cases, Result-cases,
  str_eq, eq_iff, insert, lookup-insert, Time, zero_time, is_zero_iff, In, arith, ok,
}
use dauth.Exchange.Models.{
  Library, AssetDid, did_string, Permission, SacdAgreement, type_cloud_event, type_permission,
}
use dauth.Exchange.Autheval.{Agreements}
use dauth.Exchange.Autheval.Grants.{
  Permissions, granted, add_permissions, in_force, add_by_type, add_sacd, collect,
}

abbrev pub names : List Permission → List String
names = map (λ p. p.name)

-- The agreement's own dates, where they are set, hold the instant between them.
pub record IsInForce (now : Time) (a : SacdAgreement) : Type 0 where
  pub started : (a.effective_at ≡ zero_time) ⊎ (a.effective_at ≤ now)
  pub not_over : (a.expires_at ≡ zero_time) ⊎ (now ≤ a.expires_at)

pub in_force_iff : (now : Time) (a : SacdAgreement) → (in_force now a ≡ true) ↔ IsInForce now a
unfolding in_force
in_force_iff now a = (
  λ h. record {
    started = ground (arith, is_zero_iff a.effective_at);
    not_over = ground (arith, is_zero_iff a.expires_at);
  },
  λ f. ground (arith, is_zero_iff a.effective_at, is_zero_iff a.expires_at, f.started, f.not_over),
)

granted-insert :
    (k n : String) (m : Permissions)
    → (granted (insert k true m) n ≡ true) ↔ ((k ≡ n) ⊎ (granted m n ≡ true))
unfolding granted
granted-insert k n m = elim (Bool-cases (str_eq k n)) [
  | inl e ↦ (λ _. inl ((eq_iff k n).0 e), λ _. ground (arith, lookup-insert k n true m))
  | inr e ↦ (
    λ h. inr (ground (arith, lookup-insert k n true m)),
    λ h. elim h [
      | inl same ↦ ground (arith, (eq_iff k n).1 same)
      | inr old ↦ ground (arith, lookup-insert k n true m)
    ],
  )
]

granted-add_permissions :
    (m : Permissions) (ps : List Permission) (n : String)
    → (granted (add_permissions m ps) n ≡ true) ↔ ((granted m n ≡ true) ⊎ In n (names ps))
unfolding add_permissions
granted-add_permissions m [] n = ((λ h. inl h), λ h. elim h [ inl p ↦ p | inr q ↦ absurd q ])
granted-add_permissions m (p ∷ ps) n =
    let later = granted-add_permissions (insert p.name true m) ps n in
    let here = granted-insert p.name n m in
    (
      λ h. elim (later.0 h) [
        | inl g ↦ elim (here.0 g) [ inl same ↦ inr (inl same) | inr old ↦ inl old ]
        | inr q ↦ inr (inr q)
      ],
      λ h. elim h [
        | inl old ↦ later.1 (inl (here.1 (inr old)))
        | inr (inl same) ↦ later.1 (inl (here.1 (inl same)))
        | inr (inr q) ↦ later.1 (inr q)
      ],
    )

-- The names that one agreement gives at an instant.
pub record Gives (now : Time) (a : SacdAgreement) (n : String) : Type 0 where
  pub in_force : IsInForce now a
  pub is_permission : a.type ≡ type_permission
  pub named : In n (names a.permissions)

-- Some agreement gives the name, at the instant of its round.
abbrev pub Given : (ℕ → Time) → ℕ → List SacdAgreement → String → Type 0
Given clock i [] n = ⊥
Given clock i (a ∷ as') n = Gives (clock i) a n ⊎ Given clock (suc i) as' n

granted-add_by_type :
    (a : SacdAgreement) (acc : Permissions × Agreements) (n : String)
    → (granted (add_by_type a acc).0 n ≡ true)
      ↔ ((granted acc.0 n ≡ true) ⊎ ((a.type ≡ type_permission) × In n (names a.permissions)))
unfolding add_by_type
granted-add_by_type a (m, c) n = elim (Bool-cases (str_eq a.type type_cloud_event)) [
  | inl e ↦ rw e (
    λ h. inl h,
    λ h. elim h [
      | inl old ↦ old
      | inr (p, q) ↦
          ground
            (arith, (eq_iff a.type type_cloud_event).0 e, eq_iff type_permission type_cloud_event)
    ],
  )
  | inr e ↦ rw e (elim (Bool-cases (str_eq a.type type_permission)) [
    | inl f ↦
        let all = granted-add_permissions m a.permissions n in
        rw f (
          λ h. elim (all.0 h) [ inl old ↦ inl old | inr q ↦ inr ((eq_iff _ _).0 f, q) ],
          λ h. elim h [ inl old ↦ all.1 (inl old) | inr (p, q) ↦ all.1 (inr q) ],
        )
    | inr f ↦ rw f (
      λ h. inl h,
      λ h. elim h [
        | inl old ↦ old
        | inr (p, q) ↦ ground (arith, (eq_iff a.type type_permission).1 p)
      ],
    )
  ])
]

module _ (lib : Library) (asset : AssetDid) where
  -- An agreement in force is about the requested asset.
  abbrev AboutAsset : Time → SacdAgreement → Type 0
  AboutAsset now a = IsInForce now a → a.asset ≡ did_string lib asset

  add_sacd_ok :
      (now : Time) (a : SacdAgreement) (acc acc' : Permissions × Agreements) (n : String)
      → add_sacd lib asset now a acc ≡ ok acc'
      → AboutAsset now a × ((granted acc'.0 n ≡ true) ↔ ((granted acc.0 n ≡ true) ⊎ Gives now a n))
  unfolding add_sacd
  add_sacd_ok now a acc acc' n e = elim (Bool-cases (in_force now a)) [
    | inr off ↦
        let same : acc ≡ acc' = ground arith in
        let idle : ¬ IsInForce now a = λ f. ground (arith, (in_force_iff now a).1 f) in
        rw (← same) (
          λ f. absurd (idle f),
          (λ h. inl h, λ h. elim h [ inl old ↦ old | inr g ↦ absurd (idle g.in_force) ]),
        )
    | inl on ↦ elim (Bool-cases (str_eq a.asset (did_string lib asset))) [
      | inr other ↦ absurd (ground arith)
      | inl mine ↦
          let same : add_by_type a acc ≡ acc' = ground arith in
          let all = granted-add_by_type a acc n in
          let force = (in_force_iff now a).0 on in
          rw (← same) (
            λ f. (eq_iff _ _).0 mine,
            (
              λ h. elim (all.0 h) [
                | inl old ↦ inl old
                | inr (p, q) ↦ inr (record { in_force = force; is_permission = p; named = q })
              ],
              λ h. elim h [
                | inl old ↦ all.1 (inl old)
                | inr g ↦ all.1 (inr (g.is_permission, g.named))
              ],
            ),
          )
    ]
  ]

  -- The agreements that are in force, each at the reading of its round, are about the asset.
  abbrev pub AllAbout : (ℕ → Time) → ℕ → List SacdAgreement → Type 0
  AllAbout clock i [] = Unit
  AllAbout clock i (a ∷ as') = AboutAsset (clock i) a × AllAbout clock (suc i) as'

  pub collect_ok :
      (clock : ℕ → Time) (i : ℕ) (as' : List SacdAgreement) (acc acc' : Permissions × Agreements)
      (n : String)
      → collect lib asset clock i as' acc ≡ ok acc'
      → AllAbout clock i as'
        × ((granted acc'.0 n ≡ true) ↔ ((granted acc.0 n ≡ true) ⊎ Given clock i as' n))
  unfolding collect
  collect_ok clock i [] acc acc' n e =
      let same : acc ≡ acc' = ground arith in
      rw (← same) (tt, (λ h. inl h, λ h. elim h [ inl old ↦ old | inr none' ↦ absurd none' ]))
  collect_ok clock i (a ∷ as') acc acc' n e =
      elim (Result-cases (add_sacd lib asset (clock i) a acc)) [
        | inr (x, r) ↦ absurd (ground arith)
        | inl (next, r) ↦
            let (about, here) = add_sacd_ok (clock i) a acc next n r in
            let (rest, later) = collect_ok clock (suc i) as' next acc' n (ground arith) in
            (
              (about, rest),
              (
                λ h. elim (later.0 h) [
                  | inl g ↦ elim (here.0 g) [ inl old ↦ inl old | inr new ↦ inr (inl new) ]
                  | inr q ↦ inr (inr q)
                ],
                λ h. elim h [
                  | inl old ↦ later.1 (inl (here.1 (inl old)))
                  | inr (inl new) ↦ later.1 (inl (here.1 (inr new)))
                  | inr (inr q) ↦ later.1 (inr q)
                ],
              ),
            )
      ]
