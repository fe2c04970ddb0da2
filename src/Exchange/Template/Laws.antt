-- ===== src/Exchange/Template/Laws.antt =====
-- The cache of the templates holds verified agreements only, and does not change an answer.
use dauth.Base.{
  ◌≡◌, ◌⊎◌, inl, inr, refl, String, List, [], ◌∷◌, some, true, Bool-cases, Option-cases,
  Result-cases, str_eq, eq_iff, lookup, insert, All, arith, ok, parse_int, ℤ,
}
use dauth.Ethereum.{Ethereum}
use dauth.Exchange.Models.{Json, RawEvent, AssetDid, TemplateAgreement}
use dauth.Exchange.Template.{
  Service, Cache, verify_document, fetch_agreements, get_template_permissions, clear_cache,
}

abbrev Entry : Type 0
Entry = String × List TemplateAgreement

module _ (eth : Ethereum) (json : Json) (s : Service) where
  -- The agreements come from the document that the chain names for the template, whose owner signed it.
  pub record IsVerified (template_id : String) (as' : List TemplateAgreement) : Type 0 where
    pub id : ℤ
    pub source : String
    pub raw : RawEvent
    pub owner : String
    pub parsed : parse_int template_id ≡ some id
    pub on_chain : s.contract.templates id ≡ ok source
    pub document : s.get_valid_sacd_doc source ≡ ok raw
    pub content : json.template raw.raw ≡ ok (record { owner = owner; agreements = as' })
    pub signed : s.validate_signature raw.raw raw.signature (eth.hex_to_address owner) ≡ ok true

  fetch_agreements-IsVerified :
      (template_id : String) (as' : List TemplateAgreement)
      → fetch_agreements eth json s template_id ≡ ok as'
      → IsVerified template_id as'
  unfolding fetch_agreements
  fetch_agreements-IsVerified template_id as' e = elim (Option-cases (parse_int template_id)) [
    | inl p ↦ absurd (ground arith)
    | inr (id, p) ↦ elim (Result-cases (s.contract.templates id)) [
      | inr (x, q) ↦ absurd (ground arith)
      | inl (source, q) ↦ elim (Result-cases (s.get_valid_sacd_doc source)) [
        | inr (x, r) ↦ absurd (ground arith)
        | inl (raw, r) ↦ document id source raw p q r (ground arith)
      ]
    ]
  ]
    where
      document :
          (id : ℤ) (source : String) (raw : RawEvent)
          → parse_int template_id ≡ some id
          → s.contract.templates id ≡ ok source
          → s.get_valid_sacd_doc source ≡ ok raw
          → verify_document eth json s raw ≡ ok as'
          → IsVerified template_id as'
      document id source raw p q r v = elim (Result-cases (json.template raw.raw)) [
        | inr (x, t) ↦ absurd (ground arith)
        | inl (d, t) ↦ record {
          id = id;
          source = source;
          raw = raw;
          owner = d.owner;
          parsed = p;
          on_chain = q;
          document = r;
          content = ground arith;
          signed = ground arith;
        }
      ]

  -- Each entry of the cache is what fetching brings, and each is verified.
  abbrev pub IsFresh : Cache → Type 0
  IsFresh cache = All (λ (e : Entry). fetch_agreements eth json s e.0 ≡ ok e.1) cache

  abbrev pub IsSound : Cache → Type 0
  IsSound cache = All (λ (e : Entry). IsVerified e.0 e.1) cache

  IsFresh-IsSound : (cache : Cache) → IsFresh cache → IsSound cache
  IsFresh-IsSound [] h = tt
  IsFresh-IsSound (e ∷ cache) h =
      (fetch_agreements-IsVerified e.0 e.1 h.0, IsFresh-IsSound cache h.1)

  lookup-IsFresh :
      (template_id : String) (as' : List TemplateAgreement) (cache : Cache)
      → IsFresh cache
      → lookup template_id cache ≡ some as'
      → fetch_agreements eth json s template_id ≡ ok as'
  unfolding lookup
  lookup-IsFresh template_id as' [] h e = cc
  lookup-IsFresh template_id as' ((k, v) ∷ cache) h e = elim (Bool-cases (str_eq k template_id)) [
    | inl hit ↦ ground (arith, (eq_iff k template_id).0 hit, h.0)
    | inr miss ↦ lookup-IsFresh template_id as' cache h.1 (ground arith)
  ]

  insert-IsFresh :
      (template_id : String) (as' : List TemplateAgreement) (cache : Cache)
      → IsFresh cache
      → fetch_agreements eth json s template_id ≡ ok as'
      → IsFresh (insert template_id as' cache)
  unfolding insert
  insert-IsFresh template_id as' [] h f = (f, tt)
  insert-IsFresh template_id as' ((k, v) ∷ cache) h f = elim (Bool-cases (str_eq k template_id)) [
    | inl hit ↦ rw hit (f, h.1)
    | inr miss ↦ rw miss (h.0, insert-IsFresh template_id as' cache h.1 f)
  ]

  -- What a look-up leaves behind: the cache, or the cache with what was fetched.
  get_state :
      (template_id : String) (asset : AssetDid) (cache : Cache)
      → let cache' = (get_template_permissions eth json s template_id asset cache).1 in
        (cache' ≡ cache)
        ⊎ ((as' : List TemplateAgreement) × (fetch_agreements eth json s template_id ≡ ok as')
            × (cache' ≡ insert template_id as' cache))
  unfolding get_template_permissions
  get_state template_id asset cache = elim (Option-cases (lookup template_id cache)) [
    | inr (as', e) ↦ rw (e, get_template_permissions) (inl refl)
    | inl e ↦
        rw (e, get_template_permissions)
          (elim (Result-cases (fetch_agreements eth json s template_id)) [
            | inr (x, f) ↦ rw (f, get_template_permissions) (inl refl)
            | inl (as', f) ↦ rw (f, get_template_permissions) (inr (as', refl, refl))
          ])
  ]

  get_template_permissions-IsFresh :
      (template_id : String) (asset : AssetDid) (cache : Cache)
      → IsFresh cache
      → IsFresh (get_template_permissions eth json s template_id asset cache).1
  get_template_permissions-IsFresh template_id asset cache h =
      elim (get_state template_id asset cache) [
        | inl same ↦ rw same h
        | inr (as', f, new) ↦ rw new (insert-IsFresh template_id as' cache h f)
      ]

  -- The cache is transparent and safe, on a chain and a document store that do not change: from a
  -- cache whose entries are what fetching brings, the answer is that of a service with no cache, and
  -- the cache stays such. Each entry then comes from the document that the chain names for its
  -- template, under a valid signature of the document's owner.
  pub get_template_permissions_cached :
      (template_id : String) (asset : AssetDid) (cache : Cache)
      → IsFresh cache
      → ((get_template_permissions eth json s template_id asset cache).0
          ≡ (get_template_permissions eth json s template_id asset (clear_cache cache)).0)
        × IsFresh (get_template_permissions eth json s template_id asset cache).1
        × IsSound (get_template_permissions eth json s template_id asset cache).1
  unfolding get_template_permissions clear_cache lookup
  get_template_permissions_cached template_id asset cache h =
      let fresh = get_template_permissions-IsFresh template_id asset cache h in
      (
        elim (Option-cases (lookup template_id cache)) [
          | inl e ↦ elim (Result-cases (fetch_agreements eth json s template_id)) [
            | inl (as', f) ↦ rw (e, f, get_template_permissions) (ground (arith, f))
            | inr (x, f) ↦ rw (e, f, get_template_permissions) (ground (arith, f))
          ]
          | inr (as', e) ↦
              let f = lookup-IsFresh template_id as' cache h e in
              rw (e, f, get_template_permissions) (ground (arith, f))
        ],
        fresh,
        IsFresh-IsSound _ fresh,
      )
