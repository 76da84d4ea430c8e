-- ===== src/Accounts.antt =====
-- src/core/services/auth_service.py over src/data/repositories/auth_repository.py: registration,
-- login, refresh tokens and the password reset.
pub mod Security
pub mod Repository
pub mod Login
pub mod Reset
pub mod Tokens
pub mod Registration
pub mod Resets
