-- ===== src/Exchange/Signature.antt =====
-- internal/exchange/signature/validator.go: signatures of grants, by recovery and then by ERC-1271.
pub mod Laws
use dauth.Base.{
  ℕ, ◌+◌, ◌-◌, ◌%◌, String, List, [], ◌∷◌, Bool, true, not, ◌&&◌, ◌==◌, if◌then◌else◌, length,
  get_or, set, str_eq, show, ◌⧺◌, Error, plain, wrap, joined, Result, ok, err,
}
use dauth.Ethereum.{Ethereum, Backend, Address}
use dauth.Siwe.Verifier.{bytes_eq}

abbrev pub erc1271_magic_value : List ℕ
erc1271_magic_value = 0x16 ∷ 0x26 ∷ 0xba ∷ 0x7e ∷ []

-- `sigCopy[64] -= 27`, on a byte.
less_27 : ℕ → ℕ
less_27 v = (v + 256 - 27) % 256

unfoldable pub valid_eoa_signature : Ethereum → List ℕ → List ℕ → Address → Result (Unit {0})
unfolding less_27
valid_eoa_signature eth hash signature addr =
    if not (length signature == 65)
    then err (plain ("invalid signature length: " ⧺ show (length signature)))
    else (let v = less_27 (get_or signature 64 0) in
        if not (v == 0) && not (v == 1)
        then err (
            plain
              ("invalid v byte: " ⧺ show (get_or signature 64 0) ⧺ "; accepted values 27 or 28"))
        else elim (eth.sig_to_pub hash (set signature 64 v)) [
          | err e ↦ err (wrap "failed to determine public key from signature" e)
          | ok key ↦
              if not (eth.pubkey_to_address key == addr)
              then err (plain ("invalid signature: " ⧺ eth.hex (eth.pubkey_to_address key)))
              else ok tt
        ])

-- Validator.ValidateSignature, from the fall-back to ERC-1271 on.
validate_on_chain : Ethereum → Backend → Error → List ℕ → List ℕ → Address → Result Bool
validate_on_chain eth backend errs hash sig addr = elim (backend.new_erc1271 addr) [
  | err e ↦ err (wrap ("failed to connect to address: " ⧺ eth.hex addr) e)
  | ok _ ↦ elim (backend.is_valid_signature addr hash sig) [
    | err e ↦ err (joined errs (wrap "erc1271 call failed" e))
    | ok result ↦ ok (bytes_eq result erc1271_magic_value)
  ]
]

pub validate_signature : Ethereum → Backend → List ℕ → String → Address → Result Bool
unfolding validate_on_chain
validate_signature eth backend payload signature addr =
    if str_eq signature ""
    then err (plain "empty signature")
    else (let sig = eth.from_hex signature in
        let hash = eth.text_hash payload in
        elim (valid_eoa_signature eth hash sig addr) [
          | ok _ ↦ ok true
          | err e ↦ validate_on_chain eth backend (wrap "failed to recover signer" e) hash sig addr
        ])
