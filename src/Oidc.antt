-- ===== src/Oidc.antt =====
-- internal/oidc/wellknown.go: the discovery document and the published keys of a surface. The JSON
-- encoder is a parameter.
use dauth.Base.{String, List, [], ◌∷◌, is_nil, if◌then◌else◌, Result, ok, ◌>>=◌}
use dauth.Keyset.{Crypto, Jwk, KeySet, jwks}

pub record Config : Type 0 where
  pub issuer : String
  pub jwks_uri : String
  pub keys : KeySet
  pub claims_supported : List String

-- The two documents, rendered.
pub record WellKnown : Type 0 where
  pub discovery : String
  pub jwks : String

pub record DiscoveryDoc : Type 0 where
  pub issuer : String
  pub jwks_uri : String
  pub response_types_supported : List String
  pub subject_types_supported : List String
  pub id_token_signing_alg_values_supported : List String
  pub scopes_supported : List String
  pub claims_supported : List String

-- encoding/json at the two documents.
pub record Marshal : Type 0 where
  pub discovery : DiscoveryDoc → Result String
  pub jwks : List Jwk → Result String

-- A response of status 200.
pub record Page : Type 0 where
  pub content_type : String
  pub cache_control : String
  pub body : String

abbrev pub registered_claims : List String
registered_claims = "iss" ∷ "sub" ∷ "aud" ∷ "exp" ∷ "nbf" ∷ "iat" ∷ "jti" ∷ []

unfoldable pub discovery_doc : Config → DiscoveryDoc
discovery_doc cfg = record {
  issuer = cfg.issuer;
  jwks_uri = cfg.jwks_uri;
  response_types_supported = "none" ∷ [];
  subject_types_supported = "public" ∷ [];
  id_token_signing_alg_values_supported = "RS256" ∷ [];
  scopes_supported = "openid" ∷ [];
  claims_supported =
      if is_nil cfg.claims_supported then registered_claims else cfg.claims_supported;
}

module _ (c : Crypto) (json : Marshal) where
  -- (*KeySet).JWKS
  unfoldable pub jwks_json : KeySet → Result String
  jwks_json ks = json.jwks (jwks c ks)

  -- NewWellKnown
  unfoldable pub new_well_known : Config → Result WellKnown
  unfolding discovery_doc jwks_json
  new_well_known cfg = do
    discovery ← json.discovery (discovery_doc cfg)
    keys ← jwks_json cfg.keys
    ok (record { discovery = discovery; jwks = keys })

-- Discovery
unfoldable pub discovery : WellKnown → Page
discovery wk = record {
  content_type = "application/json";
  cache_control = "public, max-age=3600";
  body = wk.discovery;
}

-- JWKS
unfoldable pub jwks_page : WellKnown → Page
jwks_page wk = record {
  content_type = "application/json";
  cache_control = "public, max-age=300";
  body = wk.jwks;
}
