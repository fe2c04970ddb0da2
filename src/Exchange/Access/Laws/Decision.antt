-- ===== src/Exchange/Access/Laws/Decision.antt =====
-- The decision of ValidateAccess as a whole.
use dauth.Base.{
  ℕ, ◌≡◌, ◌≢◌, ◌⊎◌, ◌↔◌, inl, inr, All_iff, refl, subst, String, List, [], none, some, true, false,
  Bool-cases, Option-cases, Result-cases, List-cases, is_nil, is_nil_iff, str_eq, eq_iff, In, All,
  Time, arith, Error, ok, err,
}
use dauth.Ethereum.{Ethereum, Address}
use dauth.Exchange.Models.{Library, RawEvent, Json, SacdData}
use dauth.Exchange.Autheval.{Agreements, evaluate_cloud_events}
use dauth.Exchange.Autheval.Events.{evaluate_cloud_events_iff}
use dauth.Exchange.Autheval.Grants.{Permissions, evaluate_permissions, user_grant_map}
use dauth.Exchange.Autheval.Grants.Laws.{Given, AllAbout}
use dauth.Exchange.Autheval.Grants.CloudEvents.{FilterGiven}
use dauth.Exchange.Autheval.Grants.Documents.{
  TemplateAnswers, user_grant_map_events, user_grant_map_total, filters_iff,
}
use dauth.Exchange.Autheval.Grants.Templates.{
  TemplateAllows, evaluate_permissions_iff, user_grant_map_grants,
}
use dauth.Exchange.Proxy.{PermissionRecord}
use dauth.Exchange.Access.{
  AccessRequest, Service, evaluate_grants, evaluate_sacd_doc, permission_record,
  validate_access_via_source_doc, validate_access,
}
use dauth.Exchange.Access.Laws.{validate_access_via_record_iff}
use dauth.Exchange.Access.Laws.Chain.{Recorded, Recorded-iff, ChainGrants, ChainGrants-iff}

module _ (eth : Ethereum) (lib : Library)
    (set_law : (xs : List String) (x : String) → (lib.set_contains xs x ≡ true) ↔ In x xs)
    (json : Json) {S : Type 0} (s : Service S) where
  -- A permission is given by an agreement in force, and the template lets it through.
  abbrev pub Permitted : SacdData → AccessRequest → (ℕ → Time) → S → String → Type 0
  Permitted d req clock st n =
      Given clock 0 d.agreements n × TemplateAllows lib s.template_service d req.asset clock st

  -- The agreements of the document in force are about the asset, the template service answers, if the
  -- document names a template, and agreements in force grant each filter and each permission.
  pub record GrantsCover (d : SacdData) (req : AccessRequest) (clock : ℕ → Time) (st : S)
      : Type 0 where
    pub about : AllAbout lib req.asset clock 0 d.agreements
    pub template : TemplateAnswers lib req.asset s.template_service d st
    pub events : All (FilterGiven clock d.agreements) req.event_filters
    pub permitted : All (Permitted d req clock st) req.permissions

  -- The document of the record on the chain names the requester as its grantee, has a valid
  -- signature of its grantor, and covers the request.
  pub record GrantedByDoc (req : AccessRequest) (addr : Address) (clock : ℕ → Time) (st : S)
      : Type 0 where
    pub on_chain : PermissionRecord
    pub doc : RawEvent
    pub content : SacdData
    pub recorded : Recorded eth lib json s req.asset addr on_chain
    pub fetched : s.get_valid_sacd_doc on_chain.source ≡ ok doc
    pub decoded : json.sacd doc.raw ≡ ok content
    pub grantee : content.grantee ≡ eth.hex addr
    pub signed :
        s.validate_signature doc.raw doc.signature (eth.hex_to_address content.grantor) ≡ ok true
    pub cover : GrantsCover content req clock st

  all-Permitted :
      (d : SacdData) (req : AccessRequest) (clock : ℕ → Time) (st : S) (m : Permissions)
      (c : Agreements)
      → (user_grant_map lib s.template_service d req.asset clock st).0 ≡ ok (m, c)
      → (evaluate_permissions m req.permissions ≡ [])
        ↔ All (Permitted d req clock st) req.permissions
  all-Permitted d req clock st m c e =
      let each =
        All_iff (λ n. (user_grant_map_grants lib s.template_service d req.asset clock st m c n e).1)
          req.permissions in
      let (to, from) = evaluate_permissions_iff m req.permissions in
      (λ h. each.0 (to h), λ h. from (each.1 h))

  -- The filters pass over what was collected exactly when the document grants them.
  given_iff :
      (d : SacdData) (req : AccessRequest) (clock : ℕ → Time) (st : S) (m : Permissions)
      (c : Agreements)
      → (user_grant_map lib s.template_service d req.asset clock st).0 ≡ ok (m, c)
      → (evaluate_cloud_events lib c req.event_filters ≡ none)
        ↔ All (FilterGiven clock d.agreements) req.event_filters
  given_iff d req clock st m c e =
      let covered = evaluate_cloud_events_iff lib set_law c req.event_filters in
      let given = filters_iff c clock d.agreements req.event_filters (λ t src id tag.
        (user_grant_map_events lib req.asset s.template_service d clock st m c t src id tag e).1) in
      (λ h. given.0 (covered.0 h), λ h. covered.1 (given.1 h))

  -- The last two tests of evaluateSacdDoc.
  evaluate_grants_split :
      (d : SacdData) (req : AccessRequest) (grantee : Address) (clock : ℕ → Time) (st : S)
      (m : Permissions) (c : Agreements)
      → (user_grant_map lib s.template_service d req.asset clock st).0 ≡ ok (m, c)
      → ((evaluate_grants eth lib json s d req grantee clock st).0 ≡ ok tt) ↔ (
          (evaluate_cloud_events lib c req.event_filters ≡ none)
          × (evaluate_permissions m req.permissions ≡ []))
  unfolding evaluate_grants
  evaluate_grants_split d req grantee clock st m c e =
      elim (Option-cases (evaluate_cloud_events lib c req.event_filters)) [
        | inr (x, f) ↦ rw (e, f, evaluate_grants) (λ h. cc, λ h. cc)
        | inl f ↦ elim (List-cases (evaluate_permissions m req.permissions)) [
          | inl g ↦ rw (e, f, g, evaluate_grants) (λ h. (refl, refl), λ h. refl)
          | inr (p, ps, g) ↦ rw (e, f, g, evaluate_grants) (λ h. cc, λ h. cc)
        ]
      ]

  evaluate_grants_iff :
      (d : SacdData) (req : AccessRequest) (grantee : Address) (clock : ℕ → Time) (st : S)
      → ((evaluate_grants eth lib json s d req grantee clock st).0 ≡ ok tt)
        ↔ GrantsCover d req clock st
  unfolding evaluate_grants
  evaluate_grants_iff d req grantee clock st =
      elim (Result-cases (user_grant_map lib s.template_service d req.asset clock st).0) [
        | inr (x, e) ↦
            rw (e, evaluate_grants)
              (
                λ h. cc,
                λ g.
                    let (m, c, total) =
                      user_grant_map_total lib req.asset s.template_service d clock st g.about
                        g.template in
                    absurd (ground (arith, e, total)),
              )
        | inl ((m, c), e) ↦
            let events = given_iff d req clock st m c e in
            let permitted = all-Permitted d req clock st m c e in
            let split = evaluate_grants_split d req grantee clock st m c e in
            (
              λ h.
                  let (none_lack, none_left) = split.0 h in
                  record {
                    about =
                        (user_grant_map_grants lib s.template_service d req.asset clock st m c ""
                          e).0;
                    template =
                        (user_grant_map_events lib req.asset s.template_service d clock st m c "" ""
                          "" "" e).0;
                    events = events.0 none_lack;
                    permitted = permitted.0 none_left;
                  },
              λ g. split.1 (events.1 g.events, permitted.1 g.permitted),
            )
      ]

  evaluate_sacd_doc_iff :
      (doc : RawEvent) (d : SacdData) (req : AccessRequest) (addr : Address) (clock : ℕ → Time)
      (st : S)
      → json.sacd doc.raw ≡ ok d
      → ((evaluate_sacd_doc eth lib json s doc req addr clock st).0 ≡ ok tt) ↔ (
          (d.grantee ≡ eth.hex addr)
          × (s.validate_signature doc.raw doc.signature (eth.hex_to_address d.grantor) ≡ ok true)
          × GrantsCover d req clock st)
  unfolding evaluate_sacd_doc
  evaluate_sacd_doc_iff doc d req addr clock st e =
      let cover = evaluate_grants_iff d req addr clock st in
      elim (Bool-cases (str_eq d.grantee (eth.hex addr))) [
        | inr other ↦
            rw (e, other, evaluate_sacd_doc)
              (λ h. cc, λ h. absurd (ground (arith, (eq_iff d.grantee (eth.hex addr)).1 h.0)))
        | inl same ↦
            elim (Result-cases
              (s.validate_signature doc.raw doc.signature (eth.hex_to_address d.grantor))) [
                | inr (x, f) ↦ rw (e, same, f, evaluate_sacd_doc) (λ h. cc, λ h. cc)
                | inl (false, f) ↦ rw (e, same, f, evaluate_sacd_doc) (λ h. cc, λ h. cc)
                | inl (true, f) ↦
                    rw (e, same, f, evaluate_sacd_doc)
                      (λ h. ((eq_iff _ _).0 same, refl, cover.0 h), λ (_, _, g). cover.1 g)
              ]
      ]

  undecoded :
      (doc : RawEvent) (req : AccessRequest) (addr : Address) (clock : ℕ → Time) (st : S)
      (x : Error)
      → json.sacd doc.raw ≡ err x
      → ¬ ((evaluate_sacd_doc eth lib json s doc req addr clock st).0 ≡ ok tt)
  unfolding evaluate_sacd_doc
  undecoded doc req addr clock st x e = rw (e, evaluate_sacd_doc) (λ h. cc)

  validate_access_via_source_doc_iff :
      (req : AccessRequest) (addr : Address) (clock : ℕ → Time) (st : S)
      → ((validate_access_via_source_doc eth lib json s req addr clock st).0 ≡ ok tt)
        ↔ GrantedByDoc req addr clock st
  unfolding validate_access_via_source_doc
  validate_access_via_source_doc_iff req addr clock st =
      elim (Result-cases (permission_record eth lib json s req.asset addr)) [
        | inr (x, e) ↦
            rw (e, validate_access_via_source_doc)
              (λ h. cc, λ g. absurd (ground (arith, e, recorded g)))
        | inl (r, e) ↦ elim (Result-cases (s.get_valid_sacd_doc r.source)) [
          | inr (x, f) ↦
              rw (e, f, validate_access_via_source_doc)
                (λ h. cc, λ g. absurd (ground (arith, e, f, recorded g, g.fetched)))
          | inl (doc, f) ↦ rw (e, f, validate_access_via_source_doc) (read r doc e f)
        ]
      ]
    where
      recorded :
          (g : GrantedByDoc req addr clock st)
          → permission_record eth lib json s req.asset addr ≡ ok g.on_chain
      recorded g = (Recorded-iff eth lib json s req.asset addr g.on_chain).1 g.recorded

      from_doc :
          (r : PermissionRecord) (doc : RawEvent)
          → permission_record eth lib json s req.asset addr ≡ ok r
          → s.get_valid_sacd_doc r.source ≡ ok doc
          → GrantedByDoc req addr clock st
          → (evaluate_sacd_doc eth lib json s doc req addr clock st).0 ≡ ok tt
      from_doc r doc e f g =
          let same_record : g.on_chain ≡ r = ground (arith, e, recorded g) in
          let there : s.get_valid_sacd_doc r.source ≡ ok g.doc = rw same_record at g.fetched in
          let same : g.doc ≡ doc = ground (arith, f, there) in
          subst (λ k. (evaluate_sacd_doc eth lib json s k req addr clock st).0 ≡ ok tt) same
            ((evaluate_sacd_doc_iff g.doc g.content req addr clock st g.decoded).1
              (g.grantee, g.signed, g.cover))

      read :
          (r : PermissionRecord) (doc : RawEvent)
          → permission_record eth lib json s req.asset addr ≡ ok r
          → s.get_valid_sacd_doc r.source ≡ ok doc
          → ((evaluate_sacd_doc eth lib json s doc req addr clock st).0 ≡ ok tt)
            ↔ GrantedByDoc req addr clock st
      read r doc e f = (
        λ h. elim (Result-cases (json.sacd doc.raw)) [
          | inr (x, d) ↦ absurd (undecoded doc req addr clock st x d h)
          | inl (content, d) ↦
              let (grantee, signed, cover) =
                (evaluate_sacd_doc_iff doc content req addr clock st d).0 h in
              record {
                on_chain = r;
                doc = doc;
                content = content;
                recorded = (Recorded-iff eth lib json s req.asset addr r).0 e;
                fetched = f;
                decoded = d;
                grantee = grantee;
                signed = signed;
                cover = cover;
              }
        ],
        from_doc r doc e f,
      )

  -- Who may have a token. Where the library's sets hold what they are given, a request passes exactly
  -- when the document of the record on the chain grants it, or when it has no event filters and the
  -- chain has the bits of its permissions; and the decision never panics. The document grants it when
  -- it names the requester, bears its grantor's valid signature, is about the asset in every agreement
  -- in force, has its template, if any, answered for, and when agreements in force grant every
  -- identifier with every tag of each event filter, and each permission under the template's condition.
  pub validate_access_iff :
      (req : AccessRequest) (addr : Address) (clock : ℕ → Time) (st : S)
      → ((validate_access eth lib json s req addr clock st).0 ≢ none)
        × (((validate_access eth lib json s req addr clock st).0 ≡ some (ok tt)) ↔ (
            GrantedByDoc req addr clock st
            ⊎ ((req.event_filters ≡ []) × ChainGrants eth lib json s req addr)))
  unfolding validate_access
  validate_access_iff req addr clock st =
      let doc = validate_access_via_source_doc_iff req addr clock st in
      let (total, steps) = validate_access_via_record_iff eth lib json s req addr in
      let chain = ChainGrants-iff eth lib json s req addr in
      elim (Result-cases (validate_access_via_source_doc eth lib json s req addr clock st).0) [
        | inl (_, e) ↦ rw (e, validate_access) (λ h. cc, (λ h. inl (doc.0 e), λ h. refl))
        | inr (x, e) ↦ elim (Bool-cases (is_nil req.event_filters)) [
          | inr f ↦
              rw (e, f, validate_access)
                (
                  λ h. cc,
                  (
                    λ h. cc,
                    λ h. elim h [
                      | inl g ↦ absurd (ground (arith, e, doc.1 g))
                      | inr (none_asked, g) ↦ absurd (ground (arith, (is_nil_iff _).1 none_asked))
                    ],
                  ),
                )
          | inl f ↦
              rw (e, f, validate_access)
                (
                  total,
                  (
                    λ h. inr ((is_nil_iff _).0 f, chain.0 (steps.0 h)),
                    λ h. elim h [
                      | inl g ↦ absurd (ground (arith, e, doc.1 g))
                      | inr (_, g) ↦ steps.1 (chain.1 g)
                    ],
                  ),
                )
        ]
      ]
