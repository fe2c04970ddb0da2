-- ===== src/Exchange/Routes.antt =====
-- internal/exchange/app/app.go, the route POST /tokens/exchange of createHTTPServer: the cap on the
-- body, the bearer token, the licence, and the controller, under the recovery of cmd/dauth.
-- encoding/json is a parameter.
pub mod Laws
use dauth.Base.{ℕ, ◌^◌, String, List, Option, none, some, Bool, Time, Result}
use dauth.Ethereum.{Ethereum, Address}
use dauth.Httpmw.{Body, max_bytes, recover}
use dauth.Exchange.Models.{Library}
use dauth.Exchange.Middleware.{Context, rejected, passed, dev_license_validator}
use dauth.Exchange.Auth.{JwtParser, auth_middleware}
use dauth.Exchange.Controller.{TokenRequest, ExchangeController, Response, exchange_token}

abbrev pub max_request_bytes : ℕ
max_request_bytes = 2 ^ 20

pub record Request : Type 0 where
  pub authorization : String
  pub body : List ℕ

-- A status with a text, of http.Error, or the controller's response.
pub data Reply : Type 0 where
  plain_text : ℕ → String → Reply
  exchanged : Response → Reply

-- The context of a request before the middleware.
abbrev pub background : Context
background = record { token = none; response_subject = none }

-- The collaborators of the route: IsDevLicense, the decoder of the body, and the controller.
pub record Exchange (K St : Type 0) : Type 0 where
  pub parser : JwtParser K
  pub jwks : K
  pub is_dev_license : Address → Result Bool
  pub decode : Body → Result TokenRequest
  pub controller : ExchangeController St

-- The instants that a request reads: at the check of the token, in the rounds of the access check,
-- and at the signature.
pub record Clock : Type 0 where
  pub auth : Time
  pub access : ℕ → Time
  pub signer : Time

reply_of : Option Response → Option Reply
reply_of none = none
reply_of (some r) = some (exchanged r)

module _ (eth : Ethereum) (lib : Library) {K St : Type 0} (x : Exchange K St) where
  -- The handler of the route; `none` is a panic.
  unfoldable pub tokens_exchange : Request → Clock → String → St → Option Reply × St
  unfolding reply_of
  tokens_exchange req clock jti st =
      let body = max_bytes max_request_bytes req.body in
      elim (auth_middleware x.parser x.jwks clock.auth req.authorization background) [
        | rejected code message ↦ (some (plain_text code message), st)
        | passed ctx ↦ elim (dev_license_validator eth x.is_dev_license ctx) [
          | rejected code message ↦ (some (plain_text code message), st)
          | passed licensed ↦
              let (r, st') =
                exchange_token eth lib x.controller (x.decode body) licensed clock.access
                  clock.signer jti st in
              (reply_of r, st')
        ]
      ]

  -- The response that the client gets.
  unfoldable pub serve_exchange : Request → Clock → String → St → Reply × St
  unfolding tokens_exchange
  serve_exchange req clock jti st =
      let (r, st') = tokens_exchange req clock jti st in (recover plain_text r, st')
