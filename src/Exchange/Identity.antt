-- ===== src/Exchange/Identity.antt =====
-- internal/exchange/services/identity_service.go: the look-up of developer licences in the Identity API.
use dauth.Base.{
  ℕ, ◌≡◌, ◌↔◌, ◌≢◌, inl, inr, refl, String, List, [], ◌∷◌, Option, Bool, true, false, not, ◌==◌,
  is_nil, Bool-cases, if◌then◌else◌, str_eq, eq_iff, join, show, ◌⧺◌, arith, All, is_nil_iff, plain,
  wrap, Result, ok, err,
}
use dauth.Ethereum.{Ethereum, Address}

pub record ErrorDetail : Type 0 where
  pub message : String
  pub path : List String
  pub code : String

-- IdentityResponse; the owner of the licence, where there is one, is not read.
pub record IdentityResponse : Type 0 where
  pub owner : Option Address
  pub errors : List ErrorDetail

pub record HttpResponse : Type 0 where
  pub status_code : ℕ
  pub body : Result (List ℕ)

-- encoding/json and net/http, for a client of the API: the marshalled query for an address in hex,
-- the construction of the request, the request, and the decoder of its response.
pub record IdentityClient : Type 0 where
  pub marshal : String → Result (List ℕ)
  pub new_request : List ℕ → Result (Unit {0})
  pub send : List ℕ → Result HttpResponse
  pub unmarshal : List ℕ → Result IdentityResponse

abbrev pub not_found : String
not_found = "NOT_FOUND"

unfoldable pub execute_query : IdentityClient → String → Result IdentityResponse
execute_query c client_id = elim (c.marshal client_id) [
  | err e ↦ err e
  | ok json ↦ elim (c.new_request json) [
    | err e ↦ err (wrap "error creating request" e)
    | ok _ ↦ elim (c.send json) [
      | err e ↦ err (wrap "graphql request failed making request" e)
      | ok resp ↦
          if not (resp.status_code == 200)
          then err (plain ("invalid response from identity api " ⧺ show resp.status_code))
          else elim resp.body [
            | err e ↦ err (wrap "error reading response body" e)
            | ok body ↦ elim (c.unmarshal body) [
              | err e ↦ err (plain "failed to unmarshal GraphQL response")
              | ok r ↦ ok r
            ]
          ]
    ]
  ]
]

-- The messages of the errors that are not NOT_FOUND.
messages : List ErrorDetail → List String
messages [] = []
messages (e ∷ es) =
    let rest = messages es in if str_eq e.code not_found then rest else e.message ∷ rest

pub is_dev_license : Ethereum → IdentityClient → Address → Result Bool
unfolding execute_query messages
is_dev_license eth c addr = elim (execute_query c (eth.hex addr)) [
  | err e ↦ err e
  | ok response ↦
      if is_nil response.errors
      then ok true
      else if is_nil (messages response.errors)
      then ok false
      else err (plain (join ";" (messages response.errors)))
]

messages_iff :
    (es : List ErrorDetail) → (is_nil (messages es) ≡ true) ↔ All (λ e. e.code ≡ not_found) es
unfolding messages
messages_iff [] = ((λ _. tt), λ _. refl)
messages_iff (e ∷ es) = elim (Bool-cases (str_eq e.code not_found)) [
  | inl f ↦
      let (to, from) = messages_iff es in
      rw f (λ h. ((eq_iff e.code not_found).0 f, to h), λ h. from h.1)
  | inr f ↦ rw f (λ h. cc, λ h. absurd (ground (arith, (eq_iff e.code not_found).1 h.0)))
]

-- Where the query is answered, the errors of the answer alone decide: an account is a licence exactly
-- when there are none, and is found not to be one exactly when there are some and each is NOT_FOUND.
pub is_dev_license_iff :
    (eth : Ethereum) (c : IdentityClient) (addr : Address) (r : IdentityResponse)
    → execute_query c (eth.hex addr) ≡ ok r
    → ((is_dev_license eth c addr ≡ ok true) ↔ (r.errors ≡ []))
      × ((is_dev_license eth c addr ≡ ok false)
          ↔ ((r.errors ≢ []) × All (λ e. e.code ≡ not_found) r.errors))
unfolding is_dev_license
is_dev_license_iff eth c addr r q =
    let nil = is_nil_iff r.errors in
    let (to, from) = messages_iff r.errors in
    elim (Bool-cases (is_nil r.errors)) [
      | inl e ↦
          rw (q, e, is_dev_license)
            ((λ _. nil.0 e, λ _. refl), (λ h. cc, λ h. absurd (h.0 (nil.0 e))))
      | inr e ↦ elim (Bool-cases (is_nil (messages r.errors))) [
        | inl f ↦
            rw (q, e, f, is_dev_license)
              (
                (λ h. cc, λ h. absurd (ground (arith, e, nil.1 h))),
                (λ _. ((λ h. ground (arith, e, nil.1 h)), to f), λ _. refl),
              )
        | inr f ↦
            rw (q, e, f, is_dev_license)
              (
                (λ h. cc, λ h. absurd (ground (arith, e, nil.1 h))),
                (λ h. cc, λ h. absurd (ground (arith, f, from h.1))),
              )
      ]
    ]
