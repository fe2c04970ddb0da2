-- ===== src/App.antt =====
-- cmd/dauth/main.go and internal/exchange/app/app.go: what the process is made of when it starts.
-- Sockets, logs, metrics and the API documents are left out; whatever the start-up opens or parses
-- is a parameter.
pub mod Laws
pub mod Guarded
pub mod Mux
pub mod Published
pub mod Routes
pub mod Served
pub mod Session
pub mod Wired
use dauth.Base.{
  ℕ, ◌*◌, String, List, [], ◌∷◌, Option, none, some, not, if◌then◌else◌, str_eq, Duration, second,
  pos, plain, wrap, ◌⧺◌, Result, ok, err, map_err, ◌>>=◌, ◌>>◌,
}
use dauth.Env.{Environment}
use dauth.Ethereum.{Ethereum, Address, Backend}
use dauth.Httpmw.{Body}
use dauth.Keyset.{Crypto, RsaKey, KeySet, sign}
use dauth.Keyset
use dauth.Oidc
use dauth.Oidc.{Marshal, WellKnown, new_well_known, jwks_json}
use dauth.Nonce.Memory.{Memory, new_memory}
use dauth.Nonce.Postgres.{Database, new_postgres}
use dauth.Siwe.Config.{Parsers, use_postgres}
use dauth.Siwe.Config as SiweConfig
use dauth.Siwe.Token.{Claims, new_issuer}
use dauth.Siwe.Server.{Handlers}
use dauth.Exchange.Config.{signing_keys}
use dauth.Exchange.Config as ExchangeConfig
use dauth.Exchange.Models.{Library, Json}
use dauth.Exchange.Claims.{Token}
use dauth.Exchange.Proxy.{SacdInterface, Client, Proxy, proxied}
use dauth.Exchange.Template.{TemplateContract, Cache, service}
use dauth.Exchange.Ipfs.{Http, new_ipfs_client, get_valid_sacd_doc}
use dauth.Exchange.Signature.{validate_signature}
use dauth.Exchange.Access.{validate_access}
use dauth.Exchange.Access
use dauth.Exchange.Signer.{TokenSigner, new_token_signer, sign_privilege_payload}
use dauth.Exchange.Identity.{IdentityClient, is_dev_license}
use dauth.Exchange.Auth.{JwtParser, new_jwt_auth_from_jwks}
use dauth.Exchange.Controller.{ExchangeController, TokenRequest}
use dauth.Exchange.Routes.{Exchange}

-- A client of ethclient.Dial, with the bindings of the two contracts to addresses on its chain.
pub record Node : Type 0 where
  pub backend : Backend
  pub new_sacd : Address → Result SacdInterface
  pub new_template : Address → Result TemplateContract

-- The libraries, services and connections of the process: D is the state of the database, and K the
-- key functions of the JWT library.
pub record Externals (D K : Type 0) : Type 0 where
  pub eth : Ethereum
  pub lib : Library
  pub json : Json
  pub parsers : Parsers
  pub crypto : Crypto
  pub marshal : Marshal
  pub sign_claims : String → Claims → RsaKey → Result String
  pub sign_token : String → Token → RsaKey → Result String
  pub jwt : JwtParser K
  pub dial : String → Result Node
  pub open_pool : String → Result D
  pub ping : D → Result (Unit {0}) × D
  pub db : Database D
  pub ipfs : SiweConfig.Url → Duration → Http
  pub identity : String → Client
  pub licences : String → IdentityClient
  pub decode : Body → Result TokenRequest

abbrev pub max_outstanding_challenges : ℕ
max_outstanding_challenges = 100_000

-- The store that newStore returns, in its first state.
pub data ChosenStore (D : Type 0) : Type 0 where
  in_memory : Memory → ChosenStore D
  shared : D → ChosenStore D

-- Sign of a key set that Load returned: it has a key, so the panic of an empty set does not arise.
abbrev pub sign_with :
    {C : Type 0} → (String → C → RsaKey → Result String) → KeySet → C → Result String
sign_with signed_string ks claims = elim (sign signed_string ks claims) [
  | none ↦ err (plain "index out of range")
  | some r ↦ r
]

-- What buildSIWE returns.
pub record SiweSurface (D : Type 0) : Type 0 where
  pub handlers : Handlers
  pub store : ChosenStore D
  pub well_known : WellKnown

-- What CreateServers returns: the route of the exchange, and the published documents.
pub record ExchangeSurface (K : Type 0) : Type 0 where
  pub exchange : Exchange K Cache
  pub well_known : WellKnown

pub record Process (D K : Type 0) : Type 0 where
  pub siwe : SiweSurface D
  pub exchange : ExchangeSurface K

-- The two discovery surfaces.
unfoldable pub siwe_oidc : SiweConfig.Config → KeySet → Oidc.Config
siwe_oidc cfg keys = record {
  issuer = cfg.issuer;
  jwks_uri = cfg.public_base_url ⧺ "/siwe/keys";
  keys = keys;
  claims_supported =
      "iss" ∷ "sub" ∷ "aud" ∷ "exp" ∷ "nbf" ∷ "iat" ∷ "jti" ∷ "ethereum_address" ∷ [];
}

unfoldable pub exchange_oidc : ExchangeConfig.Config → KeySet → String → Oidc.Config
exchange_oidc cfg keys jwks_uri = record {
  issuer = cfg.issuer;
  jwks_uri = jwks_uri;
  keys = keys;
  claims_supported =
      "iss" ∷ "sub" ∷ "aud" ∷ "exp" ∷ "nbf" ∷ "iat" ∷ "jti" ∷ "asset" ∷ "permissions"
      ∷ "cloud_events" ∷ [];
}

module _ {D K : Type 0} (x : Externals D K) where
  -- newStore
  unfoldable pub new_store : SiweConfig.Config → Result (ChosenStore D)
  new_store cfg =
      if not (use_postgres cfg) then ok (in_memory (new_memory max_outstanding_challenges)) else (do
        pool ← map_err (wrap "opening challenge database") (x.open_pool cfg.database_url)
        let (pinged, up) = x.ping pool
        map_err (wrap "connecting to challenge database") pinged
        let (made, ready) = new_postgres x.db up
        made
        ok (shared ready))

  -- The backend of the verifier: none without RPC_URL.
  unfoldable pub siwe_backend : SiweConfig.Config → Result (Option Backend)
  siwe_backend cfg =
      if not (str_eq cfg.rpc_url "")
      then (do node ← x.dial cfg.rpc_url; ok (some node.backend))
      else ok none

  unfoldable pub handlers_of : SiweConfig.Config → KeySet → Option Backend → Handlers
  handlers_of cfg keys backend = record {
    verifier = backend;
    issuer = new_issuer (sign_with x.sign_claims keys) cfg.issuer cfg.audience cfg.token_ttl;
    domain = cfg.domain;
    uri = cfg.public_base_url;
    statement = cfg.statement;
    chain_id = cfg.chain_id;
    challenge_ttl = cfg.challenge_ttl;
    allowed_audiences = cfg.allowed_audiences;
  }

  -- buildSIWE
  unfoldable pub build_siwe : SiweConfig.Config → KeySet → Result (SiweSurface D)
  unfolding new_store siwe_backend siwe_oidc handlers_of
  build_siwe cfg keys = do
    backend ← siwe_backend cfg
    store ← new_store cfg
    well_known ← new_well_known x.crypto x.marshal (siwe_oidc cfg keys)
    ok (record { handlers = handlers_of cfg keys backend; store = store; well_known = well_known })

  -- The lifetime of the permission tokens.
  unfoldable pub token_ttl : ExchangeConfig.Config → Result Duration
  token_ttl cfg =
      if not (str_eq cfg.token_expiration "")
      then map_err (wrap "invalid TOKEN_EXPIRATION ")
          (x.parsers.parse_duration cfg.token_expiration)
      else ok (pos (10 * 60 * second))

  -- NewIPFSClient, NewTemplateService, NewAccessService and NewExchangeController, as CreateServers
  -- composes them.
  unfoldable pub controller :
      ExchangeConfig.Config
      → Node
      → SacdInterface
      → TemplateContract
      → Http
      → TokenSigner
      → ExchangeController Cache
  controller cfg node sacd templates http signer =
      let proxy : Proxy = record {
        contract = sacd;
        contract_address_vehicle = cfg.contract_address_vehicle;
        client = x.identity cfg.identity_url;
      } in
      let access : Access.Service Cache = record {
        sacd_contract = proxied x.eth proxy;
        get_valid_sacd_doc = get_valid_sacd_doc x.lib x.json http;
        template_service = service x.eth x.json (record {
          contract = templates;
          get_valid_sacd_doc = get_valid_sacd_doc x.lib x.json http;
          validate_signature = validate_signature x.eth node.backend;
        });
        validate_signature = validate_signature x.eth node.backend;
        contract_address_manufacturer = cfg.contract_address_manufacturer;
      } in
      record {
        chain_id = cfg.dimo_registry_chain_id;
        contract_address_manufacturer = cfg.contract_address_manufacturer;
        sign_privilege_payload = sign_privilege_payload x.lib signer;
        validate_access = validate_access x.eth x.lib x.json access;
      }

  -- The chain of the route POST /tokens/exchange in createHTTPServer.
  unfoldable pub exchange_of :
      ExchangeConfig.Config
      → K
      → Node
      → SacdInterface
      → TemplateContract
      → Http
      → TokenSigner
      → Exchange K Cache
  unfolding controller
  exchange_of cfg jwks node sacd templates http signer = record {
    parser = x.jwt;
    jwks = jwks;
    is_dev_license = is_dev_license x.eth (x.licences cfg.identity_url);
    decode = x.decode;
    controller = controller cfg node sacd templates http signer;
  }

  -- CreateServers, for the key functions of the sign-in surface.
  unfoldable pub create_servers :
      Environment → ExchangeConfig.Config → String → K → Result (ExchangeSurface K)
  unfolding token_ttl exchange_of exchange_oidc
  create_servers env cfg jwks_uri jwks = do
    keys ← map_err (wrap "failed to load signing keys") (Keyset.load x.crypto (signing_keys env))
    ttl ← token_ttl cfg
    let signer = new_token_signer (sign_with x.sign_token keys) cfg.issuer ttl
    node ← map_err (wrap "failed to dial Ethereum RPC") (x.dial cfg.blockchain_node_url)
    http ← map_err (wrap "failed to create IPFS client") (
        new_ipfs_client x.parsers.parse_url x.parsers.parse_duration x.ipfs cfg.ipfs_base_url
          cfg.ipfs_timeout)
    sacd ←
        map_err (wrap "failed to connect to blockchain node")
          (node.new_sacd cfg.contract_address_sacd)
    templates ←
        map_err (wrap "failed to connect to blockchain node")
          (node.new_template cfg.contract_address_template)
    well_known ← map_err (wrap "failed to create http server") (
        map_err (wrap "failed to render well-known surface")
          (new_well_known x.crypto x.marshal (exchange_oidc cfg keys jwks_uri)))
    ok (record {
      exchange = exchange_of cfg jwks node sacd templates http signer;
      well_known = well_known;
    })

  -- The part of run before it serves; `order` is that of the required settings of the exchange.
  unfoldable pub start :
      (List (String × String) → List (String × String)) → Environment → Result (Process D K)
  unfolding build_siwe create_servers
  start order env = do
    cfg ← SiweConfig.load x.parsers env
    exchange_cfg ← map_err (wrap "loading exchange config") (ExchangeConfig.load x.eth order env)
    siwe_keys ← Keyset.load x.crypto cfg.signing_keys
    siwe ← build_siwe cfg siwe_keys
    siwe_jwks ← jwks_json x.crypto x.marshal siwe_keys
    jwks ← new_jwt_auth_from_jwks x.jwt siwe_jwks
    exchange ←
        map_err (wrap "building exchange surface")
          (create_servers env exchange_cfg (cfg.public_base_url ⧺ "/exchange/keys") jwks)
    ok (record { siwe = siwe; exchange = exchange })
