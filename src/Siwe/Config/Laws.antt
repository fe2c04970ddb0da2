-- ===== src/Siwe/Config/Laws.antt =====
-- What Load of the sign-in surface accepts.
pub mod Usable
use dauth.Base.{
  ℕ, ◌*◌, ◌≡◌, ◌≢◌, ◌⊎◌, ◌↔◌, inl, inr, refl, sym, ap, subst, ◌∙◌, String, [], Bool-cases,
  if◌then◌else◌, is_nil_iff, eq_iff, str_eq, Duration, second, pos, ok, Result-cases, arith,
}
use dauth.Env.{Environment, getenv, uint, duration, numbered}
use dauth.Siwe.Config.{
  Url, Parsers, Config, use_postgres, initial, trim_slashes, absolute_url, issuer_url, public_url,
  check_database, load,
}

-- What Load makes of the values that it has parsed.
abbrev pub settled : Environment → Url → ℕ → Duration → Duration → Duration → Config
settled env public_url chain_id challenge_ttl token_ttl rpc_timeout =
    let s = initial env in
    record s {
      issuer = trim_slashes s.issuer;
      public_base_url = trim_slashes s.public_base_url;
      domain = if str_eq s.domain "" then public_url.host else s.domain;
      chain_id = chain_id;
      challenge_ttl = challenge_ttl;
      token_ttl = token_ttl;
      rpc_timeout = rpc_timeout;
      signing_keys = numbered env "SIWE_SIGNING_KEY_";
      database_url = getenv env "DATABASE_URL";
    }

module _ (parsers : Parsers) where
  -- A text that is a URL with a scheme and a host.
  pub record IsAbsolute (raw : String) (u : Url) : Type 0 where
    pub not_empty : raw ≢ ""
    pub parses : parsers.parse_url raw ≡ ok u
    pub scheme : u.scheme ≢ ""
    pub host : u.host ≢ ""

  -- The environment has what the service needs, and the settings are read from it.
  pub record IsConfigured (env : Environment) (s : Config) : Type 0 where
    pub issuer_url : Url
    pub public_url : Url
    pub issuer : IsAbsolute (initial env).issuer issuer_url
    pub public : IsAbsolute (initial env).public_base_url public_url
    pub audience : (initial env).audience ≢ []
    pub chain_id : uint env "CHAIN_ID" 137 ≡ ok s.chain_id
    pub challenge_ttl :
        duration parsers.parse_duration env "CHALLENGE_TTL" (pos (5 * 60 * second))
        ≡ ok s.challenge_ttl
    pub token_ttl :
        duration parsers.parse_duration env "TOKEN_TTL" (pos (60 * 60 * second)) ≡ ok s.token_ttl
    pub rpc_timeout :
        duration parsers.parse_duration env "RPC_TIMEOUT" (pos (3 * second)) ≡ ok s.rpc_timeout
    pub keys : numbered env "SIWE_SIGNING_KEY_" ≢ []
    pub database :
        (getenv env "DATABASE_URL" ≡ "")
        ⊎ ((u : Url) × (parsers.parse_url (getenv env "DATABASE_URL") ≡ ok u)
            × ((u.scheme ≡ "postgres") ⊎ (u.scheme ≡ "postgresql")))
    pub is : s ≡ settled env public_url s.chain_id s.challenge_ttl s.token_ttl s.rpc_timeout

  absolute_url_iff :
      (missing malformed raw : String) (u : Url)
      → (absolute_url parsers missing malformed raw ≡ ok u) ↔ IsAbsolute raw u
  unfolding absolute_url
  absolute_url_iff missing malformed raw u =
      let nothing = eq_iff raw "" in
      let no_scheme = eq_iff u.scheme "" in
      let no_host = eq_iff u.host "" in
      elim (Result-cases (parsers.parse_url raw)) [
        | inr (e, p) ↦ (λ h. absurd (ground arith), λ a. absurd (ground (arith, a.parses)))
        | inl (v, p) ↦ (
          λ h. record {
            not_empty = λ e. ground arith;
            parses = ground arith;
            scheme = λ e. ground arith;
            host = λ e. ground arith;
          },
          λ a. ground (arith, a.not_empty, a.parses, a.scheme, a.host),
        )
      ]

  check_database_iff :
      (s t : Config)
      → (check_database parsers s ≡ ok t) ↔ (
          (s ≡ t)
          × ((s.database_url ≡ "")
              ⊎ ((u : Url) × (parsers.parse_url s.database_url ≡ ok u)
                  × ((u.scheme ≡ "postgres") ⊎ (u.scheme ≡ "postgresql")))))
  unfolding check_database use_postgres
  check_database_iff s t =
      let unset = eq_iff s.database_url "" in
      elim (Result-cases (parsers.parse_url s.database_url)) [
        | inr (e, p) ↦ (λ h. ground arith, λ (same, found). ground arith)
        | inl (u, p) ↦
            let one = eq_iff u.scheme "postgres" in
            let other = eq_iff u.scheme "postgresql" in
            (
              λ h. elim (Bool-cases (str_eq s.database_url "")) [
                | inl e ↦ (ground arith, inl (ground arith))
                | inr e ↦ (ground arith, inr (u, p, ground arith))
              ],
              λ (same, found). ground arith,
            )
      ]

  issuer_url_iff : (s : Config) (u : Url) → (issuer_url parsers s ≡ ok u) ↔ IsAbsolute s.issuer u
  unfolding issuer_url
  issuer_url_iff s u = absolute_url_iff _ _ s.issuer u

  public_url_iff :
      (s : Config) (u : Url) → (public_url parsers s ≡ ok u) ↔ IsAbsolute s.public_base_url u
  unfolding public_url
  public_url_iff s u = absolute_url_iff _ _ s.public_base_url u

  -- What the fallible readings of Load give where it succeeds.
  data Parts (env : Environment) : Type 0 where
    parts :
        (iu pu : Url) (n : ℕ) (d1 d2 d3 : Duration)
        → issuer_url parsers (initial env) ≡ ok iu
        → public_url parsers (initial env) ≡ ok pu
        → uint env "CHAIN_ID" 137 ≡ ok n
        → duration parsers.parse_duration env "CHALLENGE_TTL" (pos (5 * 60 * second)) ≡ ok d1
        → duration parsers.parse_duration env "TOKEN_TTL" (pos (60 * 60 * second)) ≡ ok d2
        → duration parsers.parse_duration env "RPC_TIMEOUT" (pos (3 * second)) ≡ ok d3
        → Parts env

  load-Parts : (env : Environment) (s : Config) → load parsers env ≡ ok s → Parts env
  unfolding load
  load-Parts env s h =
      let reads = duration parsers.parse_duration env in
      elim (Result-cases (issuer_url parsers (initial env))) [
        | inr (e, p) ↦ absurd (ground arith)
        | inl (iu, p) ↦ elim (Result-cases (public_url parsers (initial env))) [
          | inr (e, q) ↦ absurd (ground arith)
          | inl (pu, q) ↦ elim (Result-cases (uint env "CHAIN_ID" 137)) [
            | inr (e, c) ↦ absurd (ground arith)
            | inl (n, c) ↦ elim (Result-cases (reads "CHALLENGE_TTL" (pos (5 * 60 * second)))) [
              | inr (e, r1) ↦ absurd (ground arith)
              | inl (d1, r1) ↦ elim (Result-cases (reads "TOKEN_TTL" (pos (60 * 60 * second)))) [
                | inr (e, r2) ↦ absurd (ground arith)
                | inl (d2, r2) ↦ elim (Result-cases (reads "RPC_TIMEOUT" (pos (3 * second)))) [
                  | inr (e, r3) ↦ absurd (ground arith)
                  | inl (d3, r3) ↦ parts iu pu n d1 d2 d3 p q c r1 r2 r3
                ]
              ]
            ]
          ]
        ]
      ]

  load_complete : (env : Environment) (s : Config) → IsConfigured env s → load parsers env ≡ ok s
  unfolding load
  load_complete env s c =
      rw
        (
          (issuer_url_iff (initial env) c.issuer_url).1 c.issuer,
          (public_url_iff (initial env) c.public_url).1 c.public,
          c.chain_id,
          c.challenge_ttl,
          c.token_ttl,
          c.rpc_timeout,
        )
        (ground (
          arith,
          c.audience,
          c.keys,
          is_nil_iff (initial env).audience,
          is_nil_iff (numbered env "SIWE_SIGNING_KEY_"),
          (check_database_iff
                (settled env c.public_url s.chain_id s.challenge_ttl s.token_ttl s.rpc_timeout) s).1
              (sym c.is, c.database),
        ))

  load-IsConfigured :
      (env : Environment) (s : Config) → load parsers env ≡ ok s → IsConfigured env s
  unfolding load
  load-IsConfigured env s h =
      let audiences = is_nil_iff (initial env).audience in
      let keys = is_nil_iff (numbered env "SIWE_SIGNING_KEY_") in
      elim (load-Parts env s h) [
        | parts iu pu n d1 d2 d3 p q c r1 r2 r3 ↦
            let checked : check_database parsers (settled env pu n d1 d2 d3) ≡ ok s =
              ground arith in
            let (same, database) = (check_database_iff (settled env pu n d1 d2 d3) s).0 checked in
            record {
              issuer_url = iu;
              public_url = pu;
              issuer = (issuer_url_iff (initial env) iu).0 p;
              public = (public_url_iff (initial env) pu).0 q;
              audience = λ e. ground arith;
              chain_id = c ∙ ap (λ (t : Config). ok t.chain_id) same;
              challenge_ttl = r1 ∙ ap (λ (t : Config). ok t.challenge_ttl) same;
              token_ttl = r2 ∙ ap (λ (t : Config). ok t.token_ttl) same;
              rpc_timeout = r3 ∙ ap (λ (t : Config). ok t.rpc_timeout) same;
              keys = λ e. ground arith;
              database = database;
              is =
                  subst
                    (λ (c : Config).
                      c ≡ settled env pu c.chain_id c.challenge_ttl c.token_ttl c.rpc_timeout)
                    same refl;
            }
      ]

  -- Load succeeds exactly when the environment is complete and well-formed: both URLs are set and
  -- absolute, there is an audience and a signing key, the chain and the lifetimes are readable where they
  -- are set, and DATABASE_URL is unset or a Postgres URL. It then returns the settings as read.
  pub load_iff : (env : Environment) (s : Config) → (load parsers env ≡ ok s) ↔ IsConfigured env s
  load_iff env s = (load-IsConfigured env s, load_complete env s)
