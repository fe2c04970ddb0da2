-- ===== src/Exchange/Middleware.antt =====
-- internal/exchange/middleware/valid_dev_license.go and internal/exchange/api: who makes a request.
-- The verification of the bearer token, a library's, comes before: its token is in the context.
pub mod Laws
use dauth.Base.{
  String, Option, none, some, Bool, true, false, not, ℕ, if◌then◌else◌, Error, sentinel, Result, ok,
  err, ◌⧺◌,
}
use dauth.Ethereum.{Ethereum, Address}

-- jwt.Token: its claims, where they are jwt.MapClaims, with the values that are strings.
pub record Jwt : Type 0 where
  pub claims : Option (String → Option String)

-- The values of the request's context.
pub record Context : Type 0 where
  pub token : Option Jwt
  pub response_subject : Option String

-- What the middleware does: it answers with a status and a text, or calls the next handler.
pub data Outcome : Type 0 where
  rejected : ℕ → String → Outcome
  passed : Context → Outcome

abbrev pub ethereum_address_claim : String
ethereum_address_claim = "ethereum_address"

unfoldable pub err_no_eth_addr : Error
err_no_eth_addr = sentinel "no valid ethereum_address claim"

unfoldable pub err_no_subject : Error
err_no_subject = sentinel "no subject value found in request context"

-- The claim, the empty text where it is missing or no string.
pub claim_text : (String → Option String) → String
claim_text claims = elim (claims ethereum_address_claim) [ none ↦ "" | some s ↦ s ]

-- NewDevLicenseValidator, with IsDevLicense of the identity service.
unfoldable pub dev_license_validator : Ethereum → (Address → Result Bool) → Context → Outcome
unfolding claim_text
dev_license_validator eth is_dev_license ctx = elim ctx.token [
  | none ↦ rejected 401 "no token in request context"
  | some token ↦ elim token.claims [
    | none ↦ rejected 400 "unexpected token claims type"
    | some claims ↦
        let addr_str = claim_text claims in
        if not (eth.is_hex_address addr_str)
        then rejected 401 "no valid ethereum_address claim"
        else (let addr = eth.hex_to_address addr_str in
            elim (is_dev_license addr) [
              | err _ ↦ rejected 500 "developer license lookup failed"
              | ok false ↦ rejected 403 ("not a dev license: " ⧺ eth.hex addr)
              | ok true ↦
                  passed (record { token = ctx.token; response_subject = some (eth.hex addr) })
            ])
  ]
]

unfoldable pub get_response_subject : Context → Result String
unfolding err_no_subject
get_response_subject ctx = elim ctx.response_subject [ none ↦ err err_no_subject | some s ↦ ok s ]

unfoldable pub get_user_eth_addr : Ethereum → Context → Result Address
unfolding err_no_eth_addr
get_user_eth_addr eth ctx = elim ctx.token [
  | none ↦ err err_no_eth_addr
  | some token ↦ elim token.claims [
    | none ↦ err err_no_eth_addr
    | some claims ↦ elim (claims ethereum_address_claim) [
      | none ↦ err err_no_eth_addr
      | some s ↦ if eth.is_hex_address s then ok (eth.hex_to_address s) else err err_no_eth_addr
    ]
  ]
]
