-- ===== src/Siwe/Verifier.antt =====
-- internal/siwe/signer/verifier.go: signatures of externally owned accounts by recovery, and of
-- deployed smart accounts by EIP-1271.
pub mod Laws
use dauth.Base.{
  ℕ, ◌+◌, ◌-◌, ◌%◌, List, [], ◌∷◌, Option, none, some, Bool, true, false, ◌||◌, ◌==◌, if◌then◌else◌,
  length, is_nil, get_or, set, Error, sentinel, wrap, Result, ok, err,
}
use dauth.Ethereum.{Ethereum, Address, Backend}

unfoldable pub err_backend : Error
err_backend = sentinel "signature verification backend unavailable"

-- The four bytes that isValidSignature returns for a valid signature.
abbrev pub magic_value : List ℕ
magic_value = 0x16 ∷ 0x26 ∷ 0xba ∷ 0x7e ∷ []

abbrev pub bytes_eq : List ℕ → List ℕ → Bool
bytes_eq [] [] = true
bytes_eq (a ∷ as') (b ∷ bs) = if a == b then bytes_eq as' bs else false
bytes_eq _ _ = false

-- The recovery id in the form of crypto.SigToPub; `none` is the default case, `return false`.
normalize_v : ℕ → Option ℕ
normalize_v v =
    if v == 27 || v == 28
    then some ((v + 256 - 27) % 256)
    else if v == 0 || v == 1
    then some v
    else none

-- The account that a normalized signature recovers to is the expected one.
recovers_to : Ethereum → List ℕ → List ℕ → Address → Bool
recovers_to eth hash sig expected = elim (eth.sig_to_pub hash sig) [
  | err e ↦ false
  | ok pub' ↦ eth.pubkey_to_address pub' == expected
]

unfoldable pub verify_eoa : Ethereum → List ℕ → List ℕ → Address → Bool
unfolding normalize_v recovers_to
verify_eoa eth signature hash expected =
    if length signature == 65
    then elim (normalize_v (get_or signature 64 0)) [
      | none ↦ false
      | some v ↦ recovers_to eth hash (set signature 64 v) expected
    ]
    else false

verify_erc1271 : Backend → List ℕ → List ℕ → Address → Result Bool
verify_erc1271 backend signature hash account = elim (backend.new_erc1271 account) [
  | err e ↦ err (wrap "binding contract" e)
  | ok _ ↦ elim (backend.is_valid_signature account hash signature) [
    | err e ↦ err (wrap "calling isValidSignature" e)
    | ok result ↦ ok (bytes_eq result magic_value)
  ]
]

-- The part of Verify that asks the backend.
verify_on_chain : Backend → Address → List ℕ → List ℕ → Result Bool
unfolding verify_erc1271 err_backend
verify_on_chain backend signer hash signature = elim (backend.code_at signer) [
  | err e ↦ err (wrap "fetching code" err_backend)
  | ok code ↦
      if is_nil code then ok false else elim (verify_erc1271 backend signature hash signer) [
        | err e ↦ err (wrap "" err_backend)
        | ok valid ↦ ok valid
      ]
]

-- No backend (`none`) restricts verification to externally owned accounts.
unfoldable pub verify : Ethereum → Option Backend → Address → List ℕ → List ℕ → Result Bool
unfolding verify_on_chain
verify eth backend signer message signature =
    let hash = eth.text_hash message in
    if verify_eoa eth signature hash signer
    then ok true
    else elim backend [ none ↦ ok false | some b ↦ verify_on_chain b signer hash signature ]
