-- ===== src/Siwe/Token.antt =====
-- internal/siwe/token/token.go: the access tokens of a verified account.
use dauth.Base.{String, List, Time, Duration, add, is_nil, if◌then◌else◌, Result, ok, err}
use dauth.Ethereum.{Ethereum, Address}

-- The claims, the registered ones included. Dates are the instants handed to NewNumericDate.
pub record Claims : Type 0 where
  pub ethereum_address : String
  pub issuer : String
  pub subject : String
  pub audience : List String
  pub issued_at : Time
  pub not_before : Time
  pub expires_at : Time
  pub id : String

-- `keys` is the method Sign of the key set.
pub record Issuer : Type 0 where
  pub keys : Claims → Result String
  pub issuer : String
  pub audience : List String
  pub ttl : Duration

-- NewIssuer, with Sign of the key set of its configuration.
unfoldable pub new_issuer : (Claims → Result String) → String → List String → Duration → Issuer
new_issuer keys issuer audience ttl = record {
  keys = keys;
  issuer = issuer;
  audience = audience;
  ttl = ttl;
}

unfoldable pub claims_for : Ethereum → Issuer → Time → String → Address → List String → Claims
claims_for eth i now jti account audience =
    let addr = eth.hex account in
    record {
      ethereum_address = addr;
      issuer = i.issuer;
      subject = addr;
      audience = if is_nil audience then i.audience else audience;
      issued_at = now;
      not_before = now;
      expires_at = add now i.ttl;
      id = jti;
    }

-- `now` is the clock's reading and `jti` the fresh identifier of uuid.NewString.
unfoldable pub issue :
    Ethereum → Issuer → Time → String → Address → List String → Result (String × Time)
unfolding claims_for
issue eth i now jti account audience = elim (i.keys (claims_for eth i now jti account audience)) [
  | err e ↦ err e
  | ok signed ↦ ok (signed, add now i.ttl)
]
