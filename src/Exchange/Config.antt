-- ===== src/Exchange/Config.antt =====
-- internal/exchange/config/config.go: the settings of the exchange surface.
pub mod Laws
use dauth.Base.{
  ℕ, String, List, [], ◌∷◌, Bool, if◌then◌else◌, str_eq, ℤ, pos, plain, ◌⧺◌, Result, ok, err, ◌>>=◌,
}
use dauth.Ethereum.{Ethereum, Address}
use dauth.Env.{Environment, getenv, string_or, int, uint, numbered}

pub record Config : Type 0 where
  pub environment : String
  pub log_level : String
  pub service_name : String
  pub grpc_port : ℤ
  pub enable_pprof : Bool
  pub issuer : String
  pub token_expiration : String
  pub blockchain_node_url : String
  pub contract_address_sacd : Address
  pub contract_address_template : Address
  pub contract_address_manufacturer : Address
  pub contract_address_vehicle : Address
  pub identity_url : String
  pub ipfs_base_url : String
  pub ipfs_timeout : String
  pub dimo_registry_chain_id : ℕ

-- The settings before the numbers are read.
unfoldable pub initial : Ethereum → Environment → Config
initial eth env = record {
  environment = string_or env "ENVIRONMENT" "local";
  log_level = string_or env "LOG_LEVEL" "info";
  service_name = string_or env "SERVICE_NAME" "token-exchange-api";
  grpc_port = pos 0;
  enable_pprof = str_eq (getenv env "ENABLE_PPROF") "true";
  issuer = getenv env "EXCHANGE_ISSUER";
  token_expiration = string_or env "TOKEN_EXPIRATION" "10m";
  blockchain_node_url = getenv env "BLOCKCHAIN_NODE_URL";
  contract_address_sacd = eth.hex_to_address (getenv env "CONTRACT_ADDRESS_SACD");
  contract_address_template = eth.hex_to_address (getenv env "CONTRACT_ADDRESS_TEMPLATE");
  contract_address_manufacturer = eth.hex_to_address (getenv env "CONTRACT_ADDRESS_MANUFACTURER");
  contract_address_vehicle = eth.hex_to_address (getenv env "CONTRACT_ADDRESS_VEHICLE");
  identity_url = getenv env "IDENTITY_URL";
  ipfs_base_url = getenv env "IPFS_BASE_URL";
  ipfs_timeout = string_or env "IPFS_TIMEOUT" "30s";
  dimo_registry_chain_id = 0;
}

-- required
unfoldable pub required : Config → List (String × String)
required s =
    ("EXCHANGE_ISSUER", s.issuer)
    ∷ ("BLOCKCHAIN_NODE_URL", s.blockchain_node_url)
    ∷ ("IDENTITY_URL", s.identity_url)
    ∷ ("IPFS_BASE_URL", s.ipfs_base_url)
    ∷ []

-- The loop over the required settings, in the order in which the map yields them.
unfoldable pub check_required : List (String × String) → Config → Result Config
check_required [] s = ok s
check_required ((name, val) ∷ rest) s =
    let go = check_required rest s in
    if str_eq val "" then err (plain (name ⧺ " is required")) else go

-- Load. Go ranges over a map in no fixed order: `order` is the one of this run.
unfoldable pub load :
    Ethereum → (List (String × String) → List (String × String)) → Environment → Result Config
unfolding initial required check_required
load eth order env = do
  grpc_port ← int env "GRPC_PORT" (pos 8086)
  chain_id ← uint env "DIMO_REGISTRY_CHAIN_ID" 137
  let s : Config = record (initial eth env) {
    grpc_port = grpc_port;
    dimo_registry_chain_id = chain_id;
  }
  check_required (order (required s)) s

-- SigningKeys
unfoldable pub signing_keys : Environment → List String
signing_keys env = numbered env "EXCHANGE_SIGNING_KEY_"
