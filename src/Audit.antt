-- ===== src/Audit.antt =====
-- The audit log: backend/auditlog, backend/middleware/audit_log_middleware.go and
-- backend/controller/ws_audit.go.
pub mod Entry
pub mod Http
pub mod Ws
pub mod Logged
