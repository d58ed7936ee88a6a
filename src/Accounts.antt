-- ===== src/Accounts.antt =====
-- backend/jwtauth and backend/usecase/user_usecase.go: access tokens, sign-up and log-in.
pub mod Jwt
pub mod Auth
pub mod SignedUp
pub mod Refused
