-- ===== src/Web.antt =====
-- backend/controller and backend/dto: what the requests answer and what the players are shown.
pub mod Payload
pub mod Hidden
pub mod Errors
pub mod Ws
pub mod Codes
pub mod Http
pub mod Route
pub mod Users
pub mod Middleware
pub mod Hub
pub mod Latest
pub mod Identity
pub mod Pipeline
