-- ===== src/Auth.antt =====
-- Passwords, access tokens and logins of the API: 2identify_api/app/core/security.py and
-- services/authentication.py.
pub mod Tokens
pub mod RoundTrip
pub mod Login
mod Examples
