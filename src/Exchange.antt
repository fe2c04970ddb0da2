-- ===== src/Exchange.antt =====
-- internal/exchange: the exchange of a sign-in token for a permission token, a module for each of
-- its packages.
pub mod Config
pub mod Models
pub mod Claims
pub mod Autheval
pub mod Signature
pub mod Proxy
pub mod Ipfs
pub mod Template
pub mod Access
pub mod Signer
pub mod Middleware
pub mod Auth
pub mod Routes
pub mod Controller
pub mod Rpc
pub mod Identity
