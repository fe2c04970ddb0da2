-- ===== src/Exchange/Routes/Laws.antt =====
-- Who gets a permission token, along the whole route.
use dauth.Base.{
  ℕ, ◌≡◌, ◌⊎◌, inl, inr, refl, sym, subst, ◌∙◌, String, Option, none, some, true, false, is_nil,
  if◌then◌else◌, ok, arith,
}
use dauth.Ethereum.{Ethereum, Address}
use dauth.Httpmw.{max_bytes, recover}
use dauth.Exchange.Models.{Library}
use dauth.Exchange.Access.{AccessRequest}
use dauth.Exchange.Middleware.{
  Context, Outcome, rejected, passed, dev_license_validator, get_user_eth_addr,
}
use dauth.Exchange.Middleware.Laws.{
  dev_license_validator-passed, dev_license_validator-token, get_user_eth_addr-token,
}
use dauth.Exchange.Auth.{auth_middleware}
use dauth.Exchange.Auth.Laws.{Bears, auth_middleware_iff}
use dauth.Exchange.Controller.{
  TokenRequest, Response, token, default_audience, add_default_identifiers, token_req_to_access_req,
  exchange_token,
}
use dauth.Exchange.Controller.Laws.{Exchanged, exchange_token_iff, exchange_token-decoded}
use dauth.Exchange.Routes.{
  Request, exchanged, plain_text, Clock, Exchange, background, max_request_bytes, reply_of,
  tokens_exchange, serve_exchange,
}

Outcome-cases :
    (o : Outcome)
    → ((code : ℕ) × (message : String) × (o ≡ rejected code message))
      ⊎ ((ctx : Context) × (o ≡ passed ctx))
Outcome-cases (rejected code message) = inl (code, message, refl)
Outcome-cases (passed ctx) = inr (ctx, refl)

module _ (eth : Ethereum) (lib : Library) {K St : Type 0} (x : Exchange K St) (req : Request)
    (clock : Clock) (jti : String) (st : St) where
  -- What a permission token rests on.
  pub record Permitted (tk : String) : Type 0 where
    pub bearer_ctx : Context
    pub bears : Bears x.parser x.jwks clock.auth req.authorization background bearer_ctx
    pub requester : Address
    pub claimed : get_user_eth_addr eth bearer_ctx ≡ ok requester
    pub licensed : x.is_dev_license requester ≡ ok true
    pub body : TokenRequest
    pub decoded : x.decode (max_bytes max_request_bytes req.body) ≡ ok body
    pub asked : AccessRequest
    pub read : token_req_to_access_req eth lib x.controller body ≡ ok asked
    pub allowed :
        (x.controller.validate_access (add_default_identifiers asked) requester clock.access st).0
        ≡ some (ok tt)
    pub signed :
        x.controller.sign_privilege_payload
          (record {
            access_request = add_default_identifiers asked;
            audience = if is_nil body.audience then default_audience else body.audience;
            response_subject = eth.hex requester;
          })
          clock.signer
          jti
        ≡ ok tk

  -- The context after the licence check and the body that was read give the rest.
  of_exchanged :
      (ctx licensed : Context) (body : TokenRequest) (tk : String)
      → eth.is_hex_address "" ≡ false
      → Bears x.parser x.jwks clock.auth req.authorization background ctx
      → dev_license_validator eth x.is_dev_license ctx ≡ passed licensed
      → x.decode (max_bytes max_request_bytes req.body) ≡ ok body
      → Exchanged eth lib x.controller body licensed clock.access clock.signer jti st tk
      → Permitted tk
  of_exchanged ctx licensed body tk blank bears l d (asked, addr, e) =
      let (requester, known, claimed, subject) =
        dev_license_validator-passed eth x.is_dev_license ctx licensed blank l in
      let same : addr ≡ requester = ground (arith, e.requester) in
      let of_licence : e.subject ≡ eth.hex requester = ground (arith, e.licence) in
      record {
        bearer_ctx = ctx;
        bears = bears;
        requester = requester;
        claimed =
            sym (
              get_user_eth_addr-token eth ctx licensed
                (dev_license_validator-token eth x.is_dev_license ctx licensed l))
            ∙ claimed;
        licensed = known;
        body = body;
        decoded = d;
        asked = asked;
        read = e.read;
        allowed =
            subst
              (λ a.
                (x.controller.validate_access (add_default_identifiers asked) a clock.access st).0
                ≡ some (ok tt))
              same e.allowed;
        signed =
            subst
              (λ subject.
                x.controller.sign_privilege_payload
                  (record {
                    access_request = add_default_identifiers asked;
                    audience = if is_nil body.audience then default_audience else body.audience;
                    response_subject = subject;
                  })
                  clock.signer jti
                ≡ ok tk)
              of_licence e.signed;
      }

  replied :
      (r : Option Response) (tk : String)
      → recover plain_text (reply_of r) ≡ exchanged (token tk)
      → r ≡ some (token tk)
  unfolding recover reply_of
  replied none tk h = cc
  replied (some resp) tk h = ground arith

  of_answer :
      (ctx licensed : Context) (tk : String)
      → eth.is_hex_address "" ≡ false
      → Bears x.parser x.jwks clock.auth req.authorization background ctx
      → dev_license_validator eth x.is_dev_license ctx ≡ passed licensed
      → (exchange_token eth lib x.controller
          (x.decode (max_bytes max_request_bytes req.body))
          licensed
          clock.access
          clock.signer
          jti
          st).0
        ≡ some (token tk)
      → Permitted tk
  of_answer ctx licensed tk blank bears l answer =
      let (body, d) =
        exchange_token-decoded eth lib x.controller _ licensed clock.access clock.signer jti st tk
          answer in
      let read =
        subst
          (λ b.
            (exchange_token eth lib x.controller b licensed clock.access clock.signer jti st).0
            ≡ some (token tk))
          d answer in
      of_exchanged ctx licensed body tk blank bears l d (
        (exchange_token_iff eth lib x.controller body licensed clock.access clock.signer jti st
            tk).0
          read)

  -- A permission token is handed out only to a request whose bearer token the parser takes for valid,
  -- where the address of its claim is a developer licence, the access service lets this address have
  -- what the body, within its cap, asks for, and the token is signed for this request with this address as
  -- its subject; the empty text being no address.
  pub serve_exchange-Permitted :
      (tk : String)
      → eth.is_hex_address "" ≡ false
      → (serve_exchange eth lib x req clock jti st).0 ≡ exchanged (token tk)
      → Permitted tk
  unfolding serve_exchange tokens_exchange recover
  serve_exchange-Permitted tk blank h =
      elim (Outcome-cases
        (auth_middleware x.parser x.jwks clock.auth req.authorization background)) [
          | inl (code, message, a) ↦ absurd (ground arith)
          | inr (ctx, a) ↦ elim (Outcome-cases (dev_license_validator eth x.is_dev_license ctx)) [
            | inl (code, message, l) ↦ absurd (ground arith)
            | inr (licensed, l) ↦
                of_answer ctx licensed tk blank
                  ((auth_middleware_iff x.parser x.jwks clock.auth req.authorization background
                      ctx).0
                    a)
                  l (replied _ tk (ground arith))
          ]
        ]
