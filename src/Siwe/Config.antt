-- ===== src/Siwe/Config.antt =====
-- internal/siwe/config/config.go: the settings of the service and of the sign-in surface.
-- url.Parse and time.ParseDuration are parameters.
pub mod Laws
use Prim.Native.Char.{Char, code}
use dauth.Base.{
  ℕ, ◌*◌, String, List, [], Bool, not, ◌||◌, ◌==◌, if◌then◌else◌, is_nil, str_eq, Duration, second,
  pos, plain, Result, ok, map_err, ◌>>=◌, ◌>>◌, require,
}
use dauth.Env.{Environment, getenv, string_or, uint, duration, numbered, trim_right, list}

-- The scheme and the host of a url.URL.
pub record Url : Type 0 where
  pub scheme : String
  pub host : String

-- net/url and time.
pub record Parsers : Type 0 where
  pub parse_url : String → Result Url
  pub parse_duration : String → Result Duration

pub record Config : Type 0 where
  pub environment : String
  pub log_level : String
  pub http_addr : String
  pub ops_addr : String
  pub public_base_url : String
  pub issuer : String
  pub domain : String
  pub audience : List String
  pub statement : String
  pub allowed_audiences : List String
  pub chain_id : ℕ
  pub challenge_ttl : Duration
  pub token_ttl : Duration
  pub rpc_url : String
  pub rpc_timeout : Duration
  pub signing_keys : List String
  pub database_url : String

-- UsePostgres
unfoldable pub use_postgres : Config → Bool
use_postgres s = not (str_eq s.database_url "")

unfoldable pub is_slash : Char → Bool
is_slash c = code c == b'/'

-- strings.TrimRight(s, "/")
unfoldable pub trim_slashes : String → String
unfolding is_slash
trim_slashes s = trim_right is_slash s

-- The settings before the checks.
unfoldable pub initial : Environment → Config
initial env = record {
  environment = string_or env "ENVIRONMENT" "dev";
  log_level = string_or env "LOG_LEVEL" "info";
  http_addr = string_or env "HTTP_ADDRESS" "0.0.0.0:8080";
  ops_addr = string_or env "OPS_ADDRESS" "0.0.0.0:8081";
  public_base_url = getenv env "PUBLIC_BASE_URL";
  issuer = getenv env "SIWE_ISSUER";
  domain = getenv env "SIWE_DOMAIN";
  audience = list (getenv env "JWT_AUDIENCE");
  statement = string_or env "SIWE_STATEMENT" "Sign in to DIMO.";
  allowed_audiences = list (getenv env "SIWE_ALLOWED_AUDIENCES");
  chain_id = 0;
  challenge_ttl = pos 0;
  token_ttl = pos 0;
  rpc_url = getenv env "RPC_URL";
  rpc_timeout = pos 0;
  signing_keys = [];
  database_url = "";
}

module _ (parsers : Parsers) where
  -- The check of a URL that is required and absolute, with its two complaints.
  unfoldable pub absolute_url : String → String → String → Result Url
  absolute_url missing malformed raw = do
    require (not (str_eq raw "")) (plain missing)
    u ← map_err (λ _. plain malformed) (parsers.parse_url raw)
    require (not (str_eq u.scheme "" || str_eq u.host "")) (plain malformed)
    ok u

  -- The check of DATABASE_URL, where it is set.
  unfoldable pub check_database : Config → Result Config
  unfolding use_postgres
  check_database s =
      if use_postgres s
      then (do
        let malformed = plain "DATABASE_URL must be a postgres:// connection URL, got "
        u ← map_err (λ _. malformed) (parsers.parse_url s.database_url)
        require (str_eq u.scheme "postgres" || str_eq u.scheme "postgresql") malformed
        ok s)
      else ok s

  -- The two URLs of the settings, checked.
  unfoldable pub issuer_url : Config → Result Url
  unfolding absolute_url
  issuer_url s =
      absolute_url "SIWE_ISSUER is required (e.g. https://dauth.dimo.zone/siwe)"
        "SIWE_ISSUER must be an absolute URL, got " s.issuer

  unfoldable pub public_url : Config → Result Url
  unfolding absolute_url
  public_url s =
      absolute_url "PUBLIC_BASE_URL is required (e.g. https://dauth.dimo.zone)"
        "PUBLIC_BASE_URL must be an absolute URL, got " s.public_base_url

  unfoldable pub load : Environment → Result Config
  unfolding initial issuer_url public_url trim_slashes check_database
  load env = do
    let s = initial env
    issuer_url s
    public ← public_url s
    require (not (is_nil s.audience))
        (plain "JWT_AUDIENCE is required (comma-separated audience list)")
    chain_id ← uint env "CHAIN_ID" 137
    challenge_ttl ← duration parsers.parse_duration env "CHALLENGE_TTL" (pos (5 * 60 * second))
    token_ttl ← duration parsers.parse_duration env "TOKEN_TTL" (pos (60 * 60 * second))
    rpc_timeout ← duration parsers.parse_duration env "RPC_TIMEOUT" (pos (3 * second))
    let keys = numbered env "SIWE_SIGNING_KEY_"
    require (not (is_nil keys))
        (plain "at least one signing key is required (SIWE_SIGNING_KEY_1, SIWE_SIGNING_KEY_2, ...)")
    check_database (record s {
      issuer = trim_slashes s.issuer;
      public_base_url = trim_slashes s.public_base_url;
      domain = if str_eq s.domain "" then public.host else s.domain;
      chain_id = chain_id;
      challenge_ttl = challenge_ttl;
      token_ttl = token_ttl;
      rpc_timeout = rpc_timeout;
      signing_keys = keys;
      database_url = getenv env "DATABASE_URL";
    })
