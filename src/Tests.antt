-- ===== src/Tests.antt =====
-- Tests: each module runs the model of one package on concrete inputs.
pub mod Samples
mod Nonces
pub mod Tables
pub mod Environments
pub mod Accesses
pub mod Keys
mod Grants
pub mod Exchanges
pub mod Processes
mod Routes
mod SignIns
mod Tokens
