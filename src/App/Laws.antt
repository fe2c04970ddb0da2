-- ===== src/App/Laws.antt =====
-- What holds of a process that has started.
use dauth.Base.{◌≡◌, inl, inr, refl, ap, String, List, Option, Result-cases, ◌⧺◌, ok, arith}
use dauth.Env.{Environment}
use dauth.Ethereum.{Backend}
use dauth.Keyset.{KeySet}
use dauth.Keyset
use dauth.Oidc.{new_well_known, jwks_json}
use dauth.Siwe.Config as SiweConfig
use dauth.Exchange.Config.{signing_keys}
use dauth.Exchange.Ipfs.{new_ipfs_client}
use dauth.Exchange.Signer.{new_token_signer}
use dauth.Exchange.Identity.{is_dev_license}
use dauth.Exchange.Config as ExchangeConfig
use dauth.Exchange.Auth.{new_jwt_auth_from_jwks}
use dauth.App.{
  Externals, sign_with, SiweSurface, ExchangeSurface, siwe_oidc, handlers_of, exchange_oidc,
  token_ttl, Process, new_store, siwe_backend, build_siwe, exchange_of, create_servers, start,
}

module _ {D K : Type 0} (x : Externals D K) where
  -- The settings and the parts of a process that has started.
  pub record Started (order : List (String × String) → List (String × String)) (env : Environment)
      (p : Process D K) : Type 0 where
    pub cfg : SiweConfig.Config
    pub exchange_cfg : ExchangeConfig.Config
    pub keys : KeySet
    pub siwe_jwks : String
    pub jwks : K
    pub loaded : SiweConfig.load x.parsers env ≡ ok cfg
    pub exchange_loaded : ExchangeConfig.load x.eth order env ≡ ok exchange_cfg
    pub keys_loaded : Keyset.load x.crypto cfg.signing_keys ≡ ok keys
    pub built : build_siwe x cfg keys ≡ ok p.siwe
    pub published : jwks_json x.crypto x.marshal keys ≡ ok siwe_jwks
    pub trusted : x.jwt.new_jwk_set siwe_jwks ≡ ok jwks
    pub created :
        create_servers x env exchange_cfg (cfg.public_base_url ⧺ "/exchange/keys") jwks
        ≡ ok p.exchange

  pub start-Started :
      (order : List (String × String) → List (String × String)) (env : Environment)
      (p : Process D K)
      → start x order env ≡ ok p
      → Started order env p
  unfolding start new_jwt_auth_from_jwks
  start-Started order env p h = elim (Result-cases (SiweConfig.load x.parsers env)) [
    | inr (e, a) ↦ absurd (ground arith)
    | inl (cfg, a) ↦ elim (Result-cases (ExchangeConfig.load x.eth order env)) [
      | inr (e, b) ↦ absurd (ground arith)
      | inl (exchange_cfg, b) ↦ elim (Result-cases (Keyset.load x.crypto cfg.signing_keys)) [
        | inr (e, c) ↦ absurd (ground arith)
        | inl (keys, c) ↦ elim (Result-cases (build_siwe x cfg keys)) [
          | inr (e, d) ↦ absurd (ground arith)
          | inl (siwe, d) ↦ elim (Result-cases (jwks_json x.crypto x.marshal keys)) [
            | inr (e, f) ↦ absurd (ground arith)
            | inl (text, f) ↦ elim (Result-cases (x.jwt.new_jwk_set text)) [
              | inr (e, g) ↦ absurd (ground arith)
              | inl (jwks, g) ↦
                  elim (Result-cases (
                    create_servers x env exchange_cfg (cfg.public_base_url ⧺ "/exchange/keys")
                      jwks)) [
                        | inr (e, k) ↦ absurd (ground arith)
                        | inl (exchange, k) ↦
                            let same : p ≡ record { siwe = siwe; exchange = exchange } =
                              ground arith in
                            record {
                              cfg = cfg;
                              exchange_cfg = exchange_cfg;
                              keys = keys;
                              siwe_jwks = text;
                              jwks = jwks;
                              loaded = a;
                              exchange_loaded = b;
                              keys_loaded = c;
                              built = rw same d;
                              published = f;
                              trusted = g;
                              created = rw same k;
                            }
                      ]
            ]
          ]
        ]
      ]
    ]
  ]

  -- What buildSIWE makes of its settings.
  pub record Built (cfg : SiweConfig.Config) (keys : KeySet) (siwe : SiweSurface D) : Type 0 where
    pub backend : Option Backend
    pub dialled : siwe_backend x cfg ≡ ok backend
    pub stored : new_store x cfg ≡ ok siwe.store
    pub known : new_well_known x.crypto x.marshal (siwe_oidc cfg keys) ≡ ok siwe.well_known
    pub handles : siwe.handlers ≡ handlers_of x cfg keys backend

  pub build_siwe-Built :
      (cfg : SiweConfig.Config) (keys : KeySet) (siwe : SiweSurface D)
      → build_siwe x cfg keys ≡ ok siwe
      → Built cfg keys siwe
  unfolding build_siwe
  build_siwe-Built cfg keys siwe h = elim (Result-cases (siwe_backend x cfg)) [
    | inr (e, a) ↦ absurd (ground arith)
    | inl (backend, a) ↦ elim (Result-cases (new_store x cfg)) [
      | inr (e, b) ↦ absurd (ground arith)
      | inl (store, b) ↦
          elim (Result-cases (new_well_known x.crypto x.marshal (siwe_oidc cfg keys))) [
            | inr (e, c) ↦ absurd (ground arith)
            | inl (wk, c) ↦
                let same : siwe ≡ record {
                  handlers = handlers_of x cfg keys backend;
                  store = store;
                  well_known = wk;
                } =
                  ground arith in
                record {
                  backend = backend;
                  dialled = a;
                  stored = rw same b;
                  known = rw same c;
                  handles = ap (λ (s : SiweSurface D). s.handlers) same;
                }
          ]
    ]
  ]

  -- What CreateServers makes of its settings and of the key functions that it is given.
  pub record Created (env : Environment) (cfg : ExchangeConfig.Config) (uri : String) (jwks : K)
      (s : ExchangeSurface K) : Type 0 where
    pub keys : KeySet
    pub keys_loaded : Keyset.load x.crypto (signing_keys env) ≡ ok keys
    pub known : new_well_known x.crypto x.marshal (exchange_oidc cfg keys uri) ≡ ok s.well_known
    pub parser : s.exchange.parser ≡ x.jwt
    pub trusts : s.exchange.jwks ≡ jwks
    pub licences : s.exchange.is_dev_license ≡ is_dev_license x.eth (x.licences cfg.identity_url)

  pub create_servers-Created :
      (env : Environment) (cfg : ExchangeConfig.Config) (uri : String) (jwks : K)
      (s : ExchangeSurface K)
      → create_servers x env cfg uri jwks ≡ ok s
      → Created env cfg uri jwks s
  unfolding create_servers
  create_servers-Created env cfg uri jwks s h =
      let ipfs =
        new_ipfs_client x.parsers.parse_url x.parsers.parse_duration x.ipfs cfg.ipfs_base_url
          cfg.ipfs_timeout in
      elim (Result-cases (Keyset.load x.crypto (signing_keys env))) [
        | inr (e, a) ↦ absurd (ground arith)
        | inl (keys, a) ↦ elim (Result-cases (token_ttl x cfg)) [
          | inr (e, b) ↦ absurd (ground arith)
          | inl (ttl, b) ↦ elim (Result-cases (x.dial cfg.blockchain_node_url)) [
            | inr (e, c) ↦ absurd (ground arith)
            | inl (node, c) ↦ elim (Result-cases ipfs) [
              | inr (e, d) ↦ absurd (ground arith)
              | inl (http, d) ↦ elim (Result-cases (node.new_sacd cfg.contract_address_sacd)) [
                | inr (e, f) ↦ absurd (ground arith)
                | inl (sacd, f) ↦
                    elim (Result-cases (node.new_template cfg.contract_address_template)) [
                      | inr (e, g) ↦ absurd (ground arith)
                      | inl (templates, g) ↦
                          elim (Result-cases
                            (new_well_known x.crypto x.marshal (exchange_oidc cfg keys uri))) [
                              | inr (e, k) ↦ absurd (ground arith)
                              | inl (wk, k) ↦
                                  let same : s ≡ record {
                                    exchange = exchange_of x cfg jwks node sacd templates http (
                                        new_token_signer (sign_with x.sign_token keys) cfg.issuer
                                          ttl);
                                    well_known = wk;
                                  } =
                                    ground arith in
                                  record {
                                    keys = keys;
                                    keys_loaded = a;
                                    known = rw same k;
                                    parser = rw (same, exchange_of) refl;
                                    trusts = rw (same, exchange_of) refl;
                                    licences = rw (same, exchange_of) refl;
                                  }
                            ]
                    ]
              ]
            ]
          ]
        ]
      ]
