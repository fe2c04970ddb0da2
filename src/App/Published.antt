-- ===== src/App/Published.antt =====
-- What the discovery documents of a started process say, and what its public handler answers there.
use dauth.Base.{◌≡◌, String, List, ◌⧺◌, ok}
use dauth.Env.{Environment}
use dauth.Keyset.{KeySet}
use dauth.Keyset
use dauth.Oidc.{Page, DiscoveryDoc, Config, jwks_json}
use dauth.Oidc
use dauth.Nonce.{Store}
use dauth.Siwe.Config as SiweConfig
use dauth.Exchange.Config.{signing_keys}
use dauth.Exchange.Config as ExchangeConfig
use dauth.Exchange.Template.{Cache}
use dauth.App.{Externals, Process}
use dauth.App.Mux.{Mux}
use dauth.App.Routes.{Request, Draws, page, Decoders, serve}
use dauth.App.Served.{exchange_keys}

abbrev pub document_page : String → Page
document_page text = record {
  content_type = "application/json";
  cache_control = "public, max-age=3600";
  body = text;
}

abbrev pub keys_page : String → Page
keys_page text = record {
  content_type = "application/json";
  cache_control = "public, max-age=300";
  body = text;
}

module _ {D K S : Type 0} (x : Externals D K) (mux : Mux) (store : Store S) (decode : Decoders)
    (p : Process D K) (req : Request) (d : Draws) (st : S × Cache) where
  -- Below a prefix, a discovery document of an issuer is served, and a key set at the address that the
  -- document names, under a base.
  pub record Publishes (base prefix issuer : String) (keys : KeySet) : Type 0 where
    pub doc : DiscoveryDoc
    pub text : String
    pub jwks : String
    pub names : doc.issuer ≡ issuer
    pub points : doc.jwks_uri ≡ base ⧺ (prefix ⧺ "/keys")
    pub rendered : x.marshal.discovery doc ≡ ok text
    pub encoded : jwks_json x.crypto x.marshal keys ≡ ok jwks
    pub document :
        serve x mux store decode p
          (record req { path = prefix ⧺ "/.well-known/openid-configuration" })
          d
          st
        ≡ (page (document_page text), st)
    pub key_set :
        serve x mux store decode p (record req { path = prefix ⧺ "/keys" }) d st
        ≡ (page (keys_page jwks), st)

  -- Both surfaces publish the key sets of the environment.
  pub record Published (order : List (String × String) → List (String × String)) (env : Environment)
      : Type 0 where
    pub cfg : SiweConfig.Config
    pub exchange_cfg : ExchangeConfig.Config
    pub keys : KeySet
    pub exchange_keys : KeySet
    pub configured : SiweConfig.load x.parsers env ≡ ok cfg
    pub exchange_configured : ExchangeConfig.load x.eth order env ≡ ok exchange_cfg
    pub keys_loaded : Keyset.load x.crypto cfg.signing_keys ≡ ok keys
    pub exchange_keys_loaded : Keyset.load x.crypto (signing_keys env) ≡ ok exchange_keys
    pub siwe : Publishes cfg.public_base_url "/siwe" p.siwe.handlers.issuer.issuer keys
    pub exchange : Publishes cfg.public_base_url "/exchange" exchange_cfg.issuer exchange_keys
