-- ===== src/Auth.antt =====
-- Sign-in with the account of the printer's cloud, and the tokens that it gives.
pub mod TokenStore
pub mod Jwt
pub mod Login
pub mod Orchestrator
