-- ===== src/App/Wired.antt =====
-- How the two surfaces of a started process hang together.
use dauth.Base.{◌≡◌, ◌≢◌, ◌⊎◌, inl, inr, Result-cases, ◌⧺◌, ok, some, arith}
use dauth.Env.{Environment}
use dauth.Keyset.{KeySet, sign}
use dauth.Keyset
use dauth.Keyset.Laws.{IsLoaded}
use dauth.Oidc.{WellKnown, Config, new_well_known, jwks_json, discovery_doc}
use dauth.Nonce.Memory.{new_memory}
use dauth.Siwe.Config as SiweConfig
use dauth.Siwe.Config.Laws.Usable.{IsUsable}
use dauth.Siwe.Token.{Claims}
use dauth.App.{
  Externals, ChosenStore, in_memory, shared, max_outstanding_challenges, Process, siwe_oidc,
}

module _ {D K : Type 0} (x : Externals D K) where
  -- The store by the setting DATABASE_URL.
  pub StoreOf : SiweConfig.Config → ChosenStore D → Type 0
  StoreOf cfg store =
      ((cfg.database_url ≡ "") × (store ≡ in_memory (new_memory max_outstanding_challenges)))
      ⊎ ((cfg.database_url ≢ "") × ((d : D) × (store ≡ shared d)))

  -- What NewWellKnown renders.
  pub new_well_known_ok :
      (cfg : Config) (wk : WellKnown)
      → new_well_known x.crypto x.marshal cfg ≡ ok wk
      → (x.marshal.discovery (discovery_doc cfg) ≡ ok wk.discovery)
        × (jwks_json x.crypto x.marshal cfg.keys ≡ ok wk.jwks)
  unfolding new_well_known
  new_well_known_ok cfg wk h = elim (Result-cases (x.marshal.discovery (discovery_doc cfg))) [
    | inr (e, a) ↦ absurd (ground arith)
    | inl (text, a) ↦ elim (Result-cases (jwks_json x.crypto x.marshal cfg.keys)) [
      | inr (e, b) ↦ absurd (ground arith)
      | inl (keys, b) ↦ (ground arith, ground arith)
    ]
  ]

  -- The process is configured by its environment, and its surfaces agree.
  pub record IsWired (env : Environment) (p : Process D K) : Type 0 where
    pub cfg : SiweConfig.Config
    pub keys : KeySet
    pub configured : SiweConfig.load x.parsers env ≡ ok cfg
    pub usable : IsUsable env cfg
    pub keys_loaded : IsLoaded x.crypto cfg.signing_keys keys
    pub store : StoreOf cfg p.siwe.store
    pub signs : (c : Claims) → sign x.sign_claims keys c ≡ some (p.siwe.handlers.issuer.keys c)
    pub issuer : p.siwe.handlers.issuer.issuer ≡ (siwe_oidc cfg keys).issuer
    pub uri : (siwe_oidc cfg keys).jwks_uri ≡ p.siwe.handlers.uri ⧺ "/siwe/keys"
    pub known : new_well_known x.crypto x.marshal (siwe_oidc cfg keys) ≡ ok p.siwe.well_known
    pub trusts : x.jwt.new_jwk_set p.siwe.well_known.jwks ≡ ok p.exchange.exchange.jwks
