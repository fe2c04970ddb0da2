-- ===== src/Exchange/Controller/Tokens.antt =====
-- When the exchange hands out a token, by what the request says.
use dauth.Base.{
  ℕ, ◌≡◌, ◌≢◌, ◌⊎◌, ◌↔◌, ◌&&◌, inl, inr, refl, subst, String, List, [], ◌∷◌, Option, some, true,
  false, Bool-cases, Option-cases, is_nil, if◌then◌else◌, Time, arith, ok,
}
use dauth.Ethereum.{Ethereum, Address}
use dauth.Exchange.Models.{Library}
use dauth.Exchange.Access.{AccessRequest}
use dauth.Exchange.Middleware.{
  Jwt, Context, get_response_subject, get_user_eth_addr, ethereum_address_claim,
}
use dauth.Exchange.Controller.{
  TokenRequest, ExchangeController, token, default_audience, add_default_identifiers,
  exchange_token,
}
use dauth.Exchange.Controller.Laws.{ExchangedAs, exchange_token_iff}
use dauth.Exchange.Controller.Fills.{OrElse, FilledIn, list_iff, add_default_identifiers_iff}
use dauth.Exchange.Controller.Reads.{ReadsAs, token_req_to_access_req_iff}

-- The sign-in token of the context has the address in its claim.
pub record Claimed (eth : Ethereum) (ctx : Context) (addr : Address) : Type 0 where
  pub token : Jwt
  pub claims : String → Option String
  pub text : String
  pub borne : ctx.token ≡ some token
  pub readable : token.claims ≡ some claims
  pub claim : claims "ethereum_address" ≡ some text
  pub is_hex : eth.is_hex_address text ≡ true
  pub is : eth.hex_to_address text ≡ addr

get_user_eth_addr_iff :
    (eth : Ethereum) (ctx : Context) (addr : Address)
    → (get_user_eth_addr eth ctx ≡ ok addr) ↔ Claimed eth ctx addr
unfolding get_user_eth_addr
get_user_eth_addr_iff eth ctx addr = (
  λ h. elim (Option-cases ctx.token) [
    | inl e ↦ absurd (ground arith)
    | inr (jwt, t) ↦ elim (Option-cases jwt.claims) [
      | inl e ↦ absurd (ground arith)
      | inr (claims, c) ↦ elim (Option-cases (claims ethereum_address_claim)) [
        | inl e ↦ absurd (ground arith)
        | inr (text, d) ↦ elim (Bool-cases (eth.is_hex_address text)) [
          | inr e ↦ absurd (ground arith)
          | inl e ↦ record {
            token = jwt;
            claims = claims;
            text = text;
            borne = t;
            readable = c;
            claim = d;
            is_hex = e;
            is = ground arith;
          }
        ]
      ]
    ]
  ],
  λ k. rw (get_user_eth_addr, k.borne, k.readable, k.claim, k.is_hex, k.is) refl,
)

get_response_subject_iff :
    (ctx : Context) (subject : String)
    → (get_response_subject ctx ≡ ok subject) ↔ (ctx.response_subject ≡ some subject)
unfolding get_response_subject
get_response_subject_iff ctx subject = elim (Option-cases ctx.response_subject) [
  | inl e ↦ ((λ h. absurd (ground arith)), λ h. absurd (ground arith))
  | inr (s, e) ↦ ((λ h. ground arith), λ h. ground arith)
]

asks_iff :
    (ps : List String) {A : Type 0} (fs : List A)
    → ((is_nil ps && is_nil fs) ≡ false) ↔ ((ps ≢ []) ⊎ (fs ≢ []))
asks_iff [] [] = ((λ h. cc), λ h. elim h [ inl n ↦ absurd (n refl) | inr n ↦ absurd (n refl) ])
asks_iff [] (f ∷ fs) = ((λ h. inr (λ e. cc)), λ h. refl)
asks_iff (p ∷ ps) fs = ((λ h. inl (λ e. cc)), λ h. refl)

module _ (eth : Ethereum) (lib : Library) {St : Type 0} (t : ExchangeController St)
    (req : TokenRequest) (ctx : Context) (clock : ℕ → Time) (now : Time) (jti : String) (st : St)
    (tk : String) where
  -- The request reads as one that asks for something, which the access service lets the address of the
  -- sign-in token have, with its wildcards; and the token is signed for just that.
  pub record TokenFor : Type 0 where
    pub bare : AccessRequest
    pub full : AccessRequest
    pub requester : Address
    pub subject : String
    pub audience : List String
    pub reads : ReadsAs eth lib t req bare
    pub asks : (bare.permissions ≢ []) ⊎ (bare.event_filters ≢ [])
    pub filled : FilledIn bare full
    pub claimed : Claimed eth ctx requester
    pub allowed : (t.validate_access full requester clock st).0 ≡ some (ok tt)
    pub licence : ctx.response_subject ≡ some subject
    pub for_audience : OrElse [] ("dimo.zone" ∷ []) req.audience audience
    pub signed :
        t.sign_privilege_payload
          (record { access_request = full; audience = audience; response_subject = subject })
          now
          jti
        ≡ ok tk

  of_steps :
      (bare : AccessRequest) (addr : Address)
      → ExchangedAs eth lib t req ctx clock now jti st tk bare addr
      → TokenFor
  of_steps bare addr e = record {
    bare = bare;
    full = add_default_identifiers bare;
    requester = addr;
    subject = e.subject;
    audience = if is_nil req.audience then default_audience else req.audience;
    reads = (token_req_to_access_req_iff eth lib t req bare).0 e.read;
    asks = (asks_iff bare.permissions bare.event_filters).0 e.asked;
    filled = (add_default_identifiers_iff bare _).0 refl;
    claimed = (get_user_eth_addr_iff eth ctx addr).0 e.requester;
    allowed = e.allowed;
    licence = (get_response_subject_iff ctx e.subject).0 e.licence;
    for_audience = (list_iff default_audience req.audience _).0 refl;
    signed = e.signed;
  }

  to_steps : (k : TokenFor) → ExchangedAs eth lib t req ctx clock now jti st tk k.bare k.requester
  to_steps k =
      let full = (add_default_identifiers_iff k.bare k.full).1 k.filled in
      let audience = (list_iff default_audience req.audience k.audience).1 k.for_audience in
      record {
        subject = k.subject;
        read = (token_req_to_access_req_iff eth lib t req k.bare).1 k.reads;
        asked = (asks_iff k.bare.permissions k.bare.event_filters).1 k.asks;
        requester = (get_user_eth_addr_iff eth ctx k.requester).1 k.claimed;
        allowed =
            subst (λ r. (t.validate_access r k.requester clock st).0 ≡ some (ok tt)) full k.allowed;
        licence = (get_response_subject_iff ctx k.subject).1 k.licence;
        signed = rw (← full, ← audience) k.signed;
      }

  -- When a token is handed out. On a body that decodes, the exchange answers with a token exactly when
  -- the request reads as an access request that asks for something: its asset by the DID, or else by
  -- the contract and the token identifier, its permissions by name, or else by identifiers that all
  -- stand in the table of the contract, and its event filters as they are; and the access service lets
  -- the address in the claim of the sign-in token have this, with the wildcard for each type, source,
  -- list of identifiers and list of tags that a filter leaves out, and the signer signs just that for the
  -- audience, or the default one, and for the response subject.
  pub exchange_token-TokenFor :
      ((exchange_token eth lib t (ok req) ctx clock now jti st).0 ≡ some (token tk)) ↔ TokenFor
  exchange_token-TokenFor =
      let steps = exchange_token_iff eth lib t req ctx clock now jti st tk in
      (
        λ h. let (bare, addr, e) = steps.0 h in of_steps bare addr e,
        λ k. steps.1 (k.bare, k.requester, to_steps k),
      )
