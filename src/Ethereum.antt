-- ===== src/Ethereum.antt =====
-- What the program takes from go-ethereum (common, common/hexutil, accounts, crypto): parameters.
-- An address is its 20 bytes as one big-endian number, so common.Address{} is 0.
use dauth.Base.{ℕ, ◌^◌, ◌<◌, ◌≡◌, String, true, List, Bool, Result}

abbrev pub Address : Type 0
Address = ℕ

pub record Ethereum : Type 0 where
  -- common.IsHexAddress, common.HexToAddress and Address.Hex
  pub is_hex_address : String → Bool
  pub hex_to_address : String → Address
  pub hex : Address → String
  -- hexutil.Decode, hexutil.DecodeBig and common.FromHex
  pub decode_hex : String → Result (List ℕ)
  pub decode_big : String → Result ℕ
  pub from_hex : String → List ℕ
  -- accounts.TextHash, crypto.SigToPub and crypto.PubkeyToAddress
  pub text_hash : List ℕ → List ℕ
  pub sig_to_pub : List ℕ → List ℕ → Result (List ℕ)
  pub pubkey_to_address : List ℕ → Address

-- What is relied on of common.Address, where it is: an address is read into 20 bytes, and the hex form of
-- 20 bytes is an address that reads back as them.
pub record AddressLaws (eth : Ethereum) : Type 0 where
  pub width : (t : String) → eth.hex_to_address t < 2 ^ 160
  pub is_hex : (a : Address) → a < 2 ^ 160 → eth.is_hex_address (eth.hex a) ≡ true
  pub back : (a : Address) → a < 2 ^ 160 → eth.hex_to_address (eth.hex a) ≡ a

-- The chain, as bind.ContractBackend and the generated bindings of ERC-1271 show it: the code of an
-- account, the binding of a contract to an address, and its call isValidSignature on a hash and a
-- signature, which returns four bytes.
pub record Backend : Type 0 where
  pub code_at : Address → Result (List ℕ)
  pub new_erc1271 : Address → Result (Unit {0})
  pub is_valid_signature : Address → List ℕ → List ℕ → Result (List ℕ)
