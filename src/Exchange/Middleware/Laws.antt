-- ===== src/Exchange/Middleware/Laws.antt =====
-- The licence check and the later readings of the same claim.
use dauth.Base.{
  ◌≡◌, refl, String, Option, some, Option-cases, Bool, true, false, Bool-cases, not, Result-cases,
  if◌then◌else◌, Result, ok, err, arith, ◌⧺◌, inl, inr,
}
use dauth.Ethereum.{Ethereum, Address}
use dauth.Exchange.Middleware.{
  Jwt, Context, Outcome, passed, rejected, claim_text, dev_license_validator, get_user_eth_addr,
  get_response_subject, ethereum_address_claim,
}

-- The rest of the validator, at the text of the claim.
abbrev passed_with : Ethereum → (Address → Result Bool) → Context → String → Outcome
passed_with eth is_dev_license ctx s =
    if not (eth.is_hex_address s)
    then rejected 401 "no valid ethereum_address claim"
    else elim (is_dev_license (eth.hex_to_address s)) [
      | err _ ↦ rejected 500 "developer license lookup failed"
      | ok false ↦ rejected 403 ("not a dev license: " ⧺ eth.hex (eth.hex_to_address s))
      | ok true ↦
          passed
            (record { token = ctx.token; response_subject = some (eth.hex (eth.hex_to_address s)) })
    ]

-- The two readings of the claim agree: where the licence check passes, and the empty text is no
-- address, the requester is the address of the claim, which is a licence, and the response subject is
-- that address.
pub dev_license_validator-passed :
    (eth : Ethereum) (is_dev_license : Address → Result Bool) (ctx ctx' : Context)
    → eth.is_hex_address "" ≡ false
    → dev_license_validator eth is_dev_license ctx ≡ passed ctx'
    → (addr : Address) × (is_dev_license addr ≡ ok true)
      × (get_user_eth_addr eth ctx' ≡ ok addr)
      × (get_response_subject ctx' ≡ ok (eth.hex addr))
unfolding dev_license_validator get_user_eth_addr get_response_subject claim_text
dev_license_validator-passed eth is_dev_license ctx ctx' blank e = elim (Option-cases ctx.token) [
  | inl absent ↦ absurd (ground arith)
  | inr (token, t) ↦ elim (Option-cases token.claims) [
    | inl other ↦ absurd (ground arith)
    | inr (claims, c) ↦ read token claims t c (ground arith)
  ]
]
  where
    read :
        (token : Jwt) (claims : String → Option String)
        → ctx.token ≡ some token
        → token.claims ≡ some claims
        → passed_with eth is_dev_license ctx (claim_text claims) ≡ passed ctx'
        → (addr : Address) × (is_dev_license addr ≡ ok true)
          × (get_user_eth_addr eth ctx' ≡ ok addr)
          × (get_response_subject ctx' ≡ ok (eth.hex addr))
    read token claims t c d = elim (Option-cases (claims ethereum_address_claim)) [
      | inl missing ↦ absurd (ground arith)
      | inr (s, found) ↦ elim (Bool-cases (eth.is_hex_address s)) [
        | inr bad ↦ absurd (ground arith)
        | inl good ↦ elim (Result-cases (is_dev_license (eth.hex_to_address s))) [
          | inr (x, f) ↦ absurd (ground arith)
          | inl (false, f) ↦ absurd (ground arith)
          | inl (true, f) ↦
              let same : ctx' ≡ record {
                token = ctx.token;
                response_subject = some (eth.hex (eth.hex_to_address s));
              } =
                ground arith in
              (eth.hex_to_address s, f, rw (same, t, c, found, good) refl, rw same refl)
        ]
      ]
    ]

-- The licence check leaves the token where it is.
pub dev_license_validator-token :
    (eth : Ethereum) (is_dev_license : Address → Result Bool) (ctx ctx' : Context)
    → dev_license_validator eth is_dev_license ctx ≡ passed ctx'
    → ctx'.token ≡ ctx.token
unfolding dev_license_validator
dev_license_validator-token eth is_dev_license ctx ctx' e = elim (Option-cases ctx.token) [
  | inl absent ↦ absurd (ground arith)
  | inr (token, t) ↦ elim (Option-cases token.claims) [
    | inl other ↦ absurd (ground arith)
    | inr (claims, c) ↦ elim (Bool-cases (eth.is_hex_address (claim_text claims))) [
      | inr bad ↦ absurd (ground arith)
      | inl good ↦ elim (Result-cases (is_dev_license (eth.hex_to_address (claim_text claims)))) [
        | inr (x, f) ↦ absurd (ground arith)
        | inl (false, f) ↦ absurd (ground arith)
        | inl (true, f) ↦ ground arith
      ]
    ]
  ]
]

-- The requester is read from the token alone.
pub get_user_eth_addr-token :
    (eth : Ethereum) (ctx ctx' : Context)
    → ctx'.token ≡ ctx.token
    → get_user_eth_addr eth ctx' ≡ get_user_eth_addr eth ctx
unfolding get_user_eth_addr
get_user_eth_addr-token eth ctx ctx' same = rw same refl
