-- ===== src/Siwe/Message.antt =====
-- internal/siwe/message/message.go: the canonical EIP-4361 text that the wallet signs.
use dauth.Base.{ℕ, String, Time, ◌⧺◌, show, format_rfc3339}
use dauth.Ethereum.{Ethereum, Address}

pub version : String
version = "1"

pub record Message : Type 0 where
  pub domain : String
  pub address : Address
  pub statement : String
  pub uri : String
  pub chain_id : ℕ
  pub nonce : String
  pub issued_at : Time
  pub expiration_time : Time

unfoldable pub to_string : Ethereum → Message → String
unfolding version format_rfc3339 show
to_string eth m =
    m.domain
    ⧺ " wants you to sign in with your Ethereum account:\n"
    ⧺ eth.hex m.address
    ⧺ "\n\n"
    ⧺ m.statement
    ⧺ "\n\n"
    ⧺ "URI: "
    ⧺ m.uri
    ⧺ "\n"
    ⧺ "Version: "
    ⧺ version
    ⧺ "\n"
    ⧺ "Chain ID: "
    ⧺ show m.chain_id
    ⧺ "\n"
    ⧺ "Nonce: "
    ⧺ m.nonce
    ⧺ "\n"
    ⧺ "Issued At: "
    ⧺ format_rfc3339 m.issued_at
    ⧺ "\n"
    ⧺ "Expiration Time: "
    ⧺ format_rfc3339 m.expiration_time
