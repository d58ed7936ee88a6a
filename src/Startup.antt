-- ===== src/Startup.antt =====
-- The start of the server (backend/main.go, run.go and db) and what runs beside its requests.
pub mod Environment
pub mod Origins
pub mod Health
pub mod Workers
