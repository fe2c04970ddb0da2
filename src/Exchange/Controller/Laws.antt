-- ===== src/Exchange/Controller/Laws.antt =====
-- The steps by which the exchange hands out a token.
use dauth.Base.{
  ℕ, ◌≡◌, ◌↔◌, ◌&&◌, inl, inr, refl, subst, String, List, some, false, Bool-cases, Option-cases,
  Result-cases, is_nil, if◌then◌else◌, Time, as_rich, arith, Error, Result, ok, err,
}
use dauth.Ethereum.{Ethereum, Address}
use dauth.Exchange.Models.{Library}
use dauth.Exchange.Access.{AccessRequest}
use dauth.Exchange.Signer.{PrivilegeTokenDto}
use dauth.Exchange.Middleware.{Context, get_response_subject, get_user_eth_addr}
use dauth.Exchange.Controller.{
  TokenRequest, ExchangeController, token, default_audience, write_error, add_default_identifiers,
  token_req_to_access_req, create_and_return_token, exchange_token,
}

module _ (eth : Ethereum) (lib : Library) {St : Type 0} (t : ExchangeController St) where
  module _ (req : TokenRequest) (ctx : Context) (clock : ℕ → Time) (now : Time) (jti : String)
      (st : St) (tk : String) where
    -- The token is signed for this request, which the access service lets this address have.
    pub record ExchangedAs (bare : AccessRequest) (addr : Address) : Type 0 where
      pub subject : String
      pub read : token_req_to_access_req eth lib t req ≡ ok bare
      pub asked : (is_nil bare.permissions && is_nil bare.event_filters) ≡ false
      pub requester : get_user_eth_addr eth ctx ≡ ok addr
      pub allowed :
          (t.validate_access (add_default_identifiers bare) addr clock st).0 ≡ some (ok tt)
      pub licence : get_response_subject ctx ≡ ok subject
      pub signed :
          t.sign_privilege_payload
            (record {
              access_request = add_default_identifiers bare;
              audience = if is_nil req.audience then default_audience else req.audience;
              response_subject = subject;
            })
            now
            jti
          ≡ ok tk

    abbrev pub Exchanged : Type 0
    Exchanged = (bare : AccessRequest) × (addr : Address) × ExchangedAs bare addr

  no_token : (e : Error) (tk : String) → ¬ (some (write_error e) ≡ some (token tk))
  unfolding write_error
  no_token e tk = elim (Option-cases (as_rich e)) [
    | inl f ↦ rw (f, write_error) (λ h. cc)
    | inr ((c, m), f) ↦ rw (f, write_error) (λ h. cc)
  ]

  create_iff :
      (ctx : Context) (aud : List String) (req : AccessRequest) (now : Time) (jti tk : String)
      → (some (create_and_return_token eth lib t ctx aud req now jti) ≡ some (token tk)) ↔ (
          (subject : String) × (get_response_subject ctx ≡ ok subject)
          × (t.sign_privilege_payload
                (record {
                  access_request = req;
                  audience = if is_nil aud then default_audience else aud;
                  response_subject = subject;
                })
                now
                jti
              ≡ ok tk))
  unfolding create_and_return_token
  create_iff ctx aud req now jti tk = elim (Result-cases (get_response_subject ctx)) [
    | inr (e, f) ↦ rw (f, create_and_return_token) (λ h. absurd (no_token e tk h), λ (s, g, _). cc)
    | inl (subject, f) ↦
        let dto : PrivilegeTokenDto = record {
          access_request = req;
          audience = if is_nil aud then default_audience else aud;
          response_subject = subject;
        } in
        elim (Result-cases (t.sign_privilege_payload dto now jti)) [
          | inr (e, g) ↦
              rw (f, g, create_and_return_token)
                (λ h. absurd (no_token _ tk h), λ (s, k, r). absurd (ground (arith, g, r)))
          | inl (signed, g) ↦
              rw (f, g, create_and_return_token)
                (λ h. (subject, refl, ground (arith, g)), λ (s, k, r). ground (arith, g, r))
        ]
  ]

  -- The access check and what follows it.
  decide_iff :
      (req : TokenRequest) (ctx : Context) (clock : ℕ → Time) (now : Time) (jti : String) (st : St)
      (tk : String) (bare : AccessRequest) (addr : Address)
      → token_req_to_access_req eth lib t req ≡ ok bare
      → (is_nil bare.permissions && is_nil bare.event_filters) ≡ false
      → get_user_eth_addr eth ctx ≡ ok addr
      → ((exchange_token eth lib t (ok req) ctx clock now jti st).0 ≡ some (token tk))
        ↔ ExchangedAs req ctx clock now jti st tk bare addr
  unfolding exchange_token
  decide_iff req ctx clock now jti st tk bare addr f asks u =
      let access_req = add_default_identifiers bare in
      elim (Option-cases (t.validate_access access_req addr clock st).0) [
        | inl v ↦
            rw (f, asks, u, v, exchange_token) (λ h. cc, λ g. absurd (ground (arith, v, g.allowed)))
        | inr (err e, v) ↦
            rw (f, asks, u, v, exchange_token)
              (λ h. absurd (no_token _ tk h), λ g. absurd (ground (arith, v, g.allowed)))
        | inr (ok _, v) ↦
            let create = create_iff ctx req.audience access_req now jti tk in
            rw (f, asks, u, v, exchange_token)
              (
                λ h.
                    let (subject, licence, signed) = create.0 h in
                    record {
                      subject = subject;
                      read = f;
                      asked = asks;
                      requester = u;
                      allowed = v;
                      licence = licence;
                      signed = signed;
                    },
                λ g. create.1 (g.subject, g.licence, g.signed),
              )
      ]

  -- The chain of the handler's steps, which Tokens opens.
  pub exchange_token_iff :
      (req : TokenRequest) (ctx : Context) (clock : ℕ → Time) (now : Time) (jti : String) (st : St)
      (tk : String)
      → ((exchange_token eth lib t (ok req) ctx clock now jti st).0 ≡ some (token tk))
        ↔ Exchanged req ctx clock now jti st tk
  unfolding exchange_token
  exchange_token_iff req ctx clock now jti st tk =
      elim (Result-cases (token_req_to_access_req eth lib t req)) [
        | inr (e, f) ↦
            rw (f, exchange_token)
              (λ h. absurd (no_token e tk h), λ (b, a, g). absurd (ground (arith, g.read)))
        | inl (bare, f) ↦ elim (Bool-cases (is_nil bare.permissions && is_nil bare.event_filters)) [
          | inl empty ↦
              rw (f, empty, exchange_token)
                (
                  λ h. absurd (no_token _ tk h),
                  λ (b, a, g). absurd (ground (arith, empty, (at bare b a f g).asked)),
                )
          | inr asks ↦ elim (Result-cases (get_user_eth_addr eth ctx)) [
            | inr (e, u) ↦
                rw (f, asks, u, exchange_token)
                  (
                    λ h. absurd (no_token _ tk h),
                    λ (b, a, g). absurd (ground (arith, u, g.requester)),
                  )
            | inl (addr, u) ↦
                let (to, from) = decide_iff req ctx clock now jti st tk bare addr f asks u in
                (
                  λ h. (bare, addr, to h),
                  λ (b, a, g).
                      let same : a ≡ addr = ground (arith, u, g.requester) in
                      from (
                        subst (λ k. ExchangedAs req ctx clock now jti st tk bare k) same
                          (at bare b a f g)),
                )
          ]
        ]
      ]
    where
      at :
          (bare b : AccessRequest) (a : Address)
          → token_req_to_access_req eth lib t req ≡ ok bare
          → ExchangedAs req ctx clock now jti st tk b a
          → ExchangedAs req ctx clock now jti st tk bare a
      at bare b a f g =
          let same : b ≡ bare = ground (arith, f, g.read) in
          subst (λ k. ExchangedAs req ctx clock now jti st tk k a) same g

  -- A body that does not decode gets no token.
  pub exchange_token-decoded :
      (body : Result TokenRequest) (ctx : Context) (clock : ℕ → Time) (now : Time) (jti : String)
      (st : St) (tk : String)
      → (exchange_token eth lib t body ctx clock now jti st).0 ≡ some (token tk)
      → (req : TokenRequest) × (body ≡ ok req)
  unfolding exchange_token
  exchange_token-decoded (ok req) ctx clock now jti st tk h = (req, refl)
  exchange_token-decoded (err e) ctx clock now jti st tk h = absurd (no_token _ tk h)
