-- ===== src/Siwe/Verifier/Laws.antt =====
-- When a signature is accepted, and when the answer is that validity is not known.
use dauth.Base.{
  ℕ, ◌≡◌, ◌≢◌, ◌⊎◌, ◌↔◌, inl, inr, refl, List, [], ◌∷◌, Option, none, some, true, Bool-cases, arith,
  ok, Result-cases,
}
use dauth.Ethereum.{Ethereum, Address, Backend}
use dauth.Siwe.Verifier.{verify_eoa, verify_on_chain, verify, magic_value, bytes_eq}

pub bytes_eq_iff : (xs ys : List ℕ) → (bytes_eq xs ys ≡ true) ↔ (xs ≡ ys)
bytes_eq_iff [] [] = (λ _. refl, λ _. refl)
bytes_eq_iff [] (y ∷ ys) = ground arith
bytes_eq_iff (x ∷ xs) [] = ground arith
bytes_eq_iff (x ∷ xs) (y ∷ ys) = ground (arith, bytes_eq_iff xs ys)

-- The account has code, its contract can be bound, and answers the magic value.
abbrev pub Approves : Backend → Address → List ℕ → List ℕ → Type 0
Approves b signer hash signature =
    ((code : List ℕ) × (b.code_at signer ≡ ok code) × (code ≢ []))
    × (b.new_erc1271 signer ≡ ok tt)
    × (b.is_valid_signature signer hash signature ≡ ok magic_value)

verify_on_chain_iff :
    (b : Backend) (signer : Address) (hash signature : List ℕ)
    → (verify_on_chain b signer hash signature ≡ ok true) ↔ Approves b signer hash signature
unfolding verify_on_chain
verify_on_chain_iff b signer hash signature =
    (λ h. to h, λ h. ground (arith, bytes_eq_iff magic_value magic_value))
  where
    to : verify_on_chain b signer hash signature ≡ ok true → Approves b signer hash signature
    to h = elim (Result-cases (b.code_at signer)) [
      | inr (e, p) ↦ ground arith
      | inl (code, p) ↦ elim (Result-cases (b.is_valid_signature signer hash signature)) [
        | inr (e, q) ↦ ground arith
        | inl (result, q) ↦
            ((code, p, ground arith), ground arith, ground (arith, bytes_eq_iff result magic_value))
      ]
    ]

abbrev pub ApprovedBy : Option Backend → Address → List ℕ → List ℕ → Type 0
ApprovedBy none signer hash signature = ⊥
ApprovedBy (some b) signer hash signature = Approves b signer hash signature

-- Acceptance: `verify` answers true exactly when the signature recovers to the signer, or when there
-- is a backend on which the signer has code and whose ERC-1271 contract answers the magic value.
pub verify-true_iff :
    (eth : Ethereum) (backend : Option Backend) (signer : Address) (message signature : List ℕ)
    → (verify eth backend signer message signature ≡ ok true) ↔ (
        (verify_eoa eth signature (eth.text_hash message) signer ≡ true)
        ⊎ ApprovedBy backend signer (eth.text_hash message) signature)
unfolding verify
verify-true_iff eth none signer message signature = ground arith
verify-true_iff eth (some b) signer message signature =
    let (to, from) = verify_on_chain_iff b signer (eth.text_hash message) signature in
    elim (Bool-cases (verify_eoa eth signature (eth.text_hash message) signer)) [
      | inl e ↦ rw e (λ _. inl refl, λ _. refl)
      | inr e ↦
          rw e (λ h. inr (to h), λ h. elim h [ inl wrong ↦ cc | inr approved ↦ from approved ])
    ]
