-- ===== src/Exchange/Auth/Laws.antt =====
-- Which requests pass the check of the bearer token.
use text.Mathlib.Text.{starts_with}
use text.Mathlib.TextEquality.{starts_with_iff}
use text.Mathlib.TextPositions.{starts_with-append, len-append, slice-append_right}
use dauth.Base.{
  ◌≡◌, ◌↔◌, inl, inr, refl, sym, subst, ap, ◌∙◌, String, some, Option-cases, true, Bool-cases,
  Result-cases, ◌⧺◌, Time, ok, arith,
}
use dauth.Env.{trim_space}
use dauth.Exchange.Middleware.{Jwt, Context, passed}
use dauth.Exchange.Auth.{JwtParser, bearer, cut_prefix, with_token, auth_middleware}

pub cut_prefix-append : (prefix t : String) → cut_prefix (prefix ⧺ t) prefix ≡ some t
unfolding cut_prefix
cut_prefix-append prefix t =
    rw (starts_with-append prefix t, cut_prefix, len-append prefix t, slice-append_right prefix t)
      refl

cut_prefix-some : (s prefix t : String) → cut_prefix s prefix ≡ some t → s ≡ prefix ⧺ t
unfolding cut_prefix
cut_prefix-some s prefix t h = elim (Bool-cases (starts_with s prefix)) [
  | inr e ↦ absurd (ground arith)
  | inl e ↦
      let (rest, is) = (starts_with_iff s prefix).0 e in
      let cut : cut_prefix s prefix ≡ some rest =
        subst (λ x. cut_prefix x prefix ≡ some rest) is (cut_prefix-append prefix rest) in
      let same : rest ≡ t = ground (arith, h, cut) in sym is ∙ ap (λ x. prefix ⧺ x) same
]

-- A request with the header of a token that the parser takes for valid, and what the next handler gets.
pub record Bears {K : Type 0} (parser : JwtParser K) (jwks : K) (now : Time)
    (authorization : String) (ctx ctx' : Context) : Type 0 where
  pub text : String
  pub token : Jwt
  pub scheme : authorization ≡ bearer ⧺ text
  pub parsed : parser.parse jwks now (trim_space text) ≡ ok (record { token = token; valid = true })
  pub next : ctx' ≡ with_token ctx token

auth_middleware-passed :
    {K : Type 0} (parser : JwtParser K) (jwks : K) (now : Time) (authorization : String)
    (ctx ctx' : Context)
    → auth_middleware parser jwks now authorization ctx ≡ passed ctx'
    → Bears parser jwks now authorization ctx ctx'
unfolding auth_middleware
auth_middleware-passed parser jwks now authorization ctx ctx' h =
    elim (Option-cases (cut_prefix authorization bearer)) [
      | inl no_scheme ↦ absurd (ground arith)
      | inr (text, c) ↦ elim (Result-cases (parser.parse jwks now (trim_space text))) [
        | inr (e, p) ↦ absurd (ground arith)
        | inl (parsed, p) ↦ record {
          text = text;
          token = parsed.token;
          scheme = cut_prefix-some authorization bearer text c;
          parsed = ground arith;
          next = ground arith;
        }
      ]
    ]

Bears-passed :
    {K : Type 0} (parser : JwtParser K) (jwks : K) (now : Time) (authorization : String)
    (ctx ctx' : Context)
    → Bears parser jwks now authorization ctx ctx'
    → auth_middleware parser jwks now authorization ctx ≡ passed ctx'
unfolding auth_middleware
Bears-passed parser jwks now authorization ctx ctx' b =
    rw (b.scheme, cut_prefix-append bearer b.text, auth_middleware, b.parsed, b.next) refl

-- The check passes exactly the requests whose header has the Bearer scheme and a token that the parser
-- takes for valid, spaces around it aside, and hands this token on.
pub auth_middleware_iff :
    {K : Type 0} (parser : JwtParser K) (jwks : K) (now : Time) (authorization : String)
    (ctx ctx' : Context)
    → (auth_middleware parser jwks now authorization ctx ≡ passed ctx')
      ↔ Bears parser jwks now authorization ctx ctx'
auth_middleware_iff parser jwks now authorization ctx ctx' = (
  auth_middleware-passed parser jwks now authorization ctx ctx',
  Bears-passed parser jwks now authorization ctx ctx',
)
