-- ===== src/Siwe.antt =====
-- internal/siwe: the sign-in surface, a module for each of its packages but nonce.
pub mod Config
pub mod Message
pub mod Verifier
pub mod Token
pub mod Server
