-- ===== src/Exchange/Signature/Laws.antt =====
-- The two verifiers of the program on the signatures of externally owned accounts.
use dauth.Base.{ℕ, ◌<◌, ◌≡◌, ◌⊎◌, ◌↔◌, List, true, arith, get_or, ok}
use dauth.Ethereum.{Ethereum, Address}
use dauth.Siwe.Verifier.{verify_eoa}
use dauth.Exchange.Signature.{valid_eoa_signature}

-- The two checks of an externally owned account agree up to the recovery id: where byte 64 of the
-- signature is a byte, the exchange accepts exactly what sign-in accepts and has the recovery id 27
-- or 28; the recovery ids 0 and 1 of some hardware wallets pass at sign-in only.
pub valid_eoa_signature_iff :
    (eth : Ethereum) (hash signature : List ℕ) (addr : Address)
    → get_or signature 64 0 < 256
    → (valid_eoa_signature eth hash signature addr ≡ ok tt) ↔ (
        (verify_eoa eth signature hash addr ≡ true)
        × ((get_or signature 64 0 ≡ 27) ⊎ (get_or signature 64 0 ≡ 28)))
unfolding valid_eoa_signature verify_eoa
valid_eoa_signature_iff eth hash signature addr h = ground arith
