-- ===== src/Auth.antt =====
-- Authentication: app/services/auth_service.py.
pub mod Redis
pub mod RateLimit
pub mod Tokens
pub mod Accounts
pub mod Otp
