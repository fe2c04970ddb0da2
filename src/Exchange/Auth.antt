-- ===== src/Exchange/Auth.antt =====
-- internal/exchange/middleware/auth.go: the check of the bearer token. keyfunc and the JWT parser are
-- parameters over the key functions K; the header Authorization is an argument, the empty text where
-- it is missing.
pub mod Laws
use Prim.Native.String
use Prim.Native.String.{len}
use text.Mathlib.Text.{starts_with}
use dauth.Base.{
  String, Option, none, some, Bool, if◌then◌else◌, Time, wrap, Result, ok, err, map_err,
}
use dauth.Env.{trim_space}
use dauth.Exchange.Middleware.{Jwt, Context, Outcome, rejected, passed}

-- jwt.Token as the parser returns it.
pub record Parsed : Type 0 where
  pub token : Jwt
  pub valid : Bool

-- keyfunc.NewJWKSetJSON, and Parse of a parser whose only method is RS256, at an instant.
pub record JwtParser (K : Type 0) : Type 0 where
  pub new_jwk_set : String → Result K
  pub parse : K → Time → String → Result Parsed

abbrev pub bearer : String
bearer = "Bearer "

-- strings.CutPrefix
unfoldable pub cut_prefix : String → String → Option String
cut_prefix s prefix =
    if starts_with s prefix then some (String.slice s (len prefix) (len s)) else none

-- WithToken
abbrev pub with_token : Context → Jwt → Context
with_token ctx token = record ctx { token = some token }

module _ {K : Type 0} (parser : JwtParser K) where
  -- The handler of authMiddleware.
  unfoldable pub auth_middleware : K → Time → String → Context → Outcome
  unfolding cut_prefix
  auth_middleware jwks now authorization ctx = elim (cut_prefix authorization bearer) [
    | none ↦ rejected 401 "authorization header must use the Bearer scheme"
    | some token_str ↦ elim (parser.parse jwks now (trim_space token_str)) [
      | err _ ↦ rejected 401 "invalid token"
      | ok parsed ↦
          if parsed.valid
          then passed (with_token ctx parsed.token)
          else rejected 401 "invalid token"
    ]
  ]

  -- NewJWTAuthFromJWKS: the key functions of the middleware that it returns, which is
  -- `auth_middleware` of them.
  unfoldable pub new_jwt_auth_from_jwks : String → Result K
  new_jwt_auth_from_jwks json =
      map_err (wrap "failed to build keyfunc from in-memory JWKS") (parser.new_jwk_set json)
