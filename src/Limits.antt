-- ===== src/Limits.antt =====
-- backend/usecase/rate_limit_usecase.go: the limits on requests, over buckets in an outside store.
pub mod Keys
pub mod Allow
pub mod Allowed
pub mod Bucket
pub mod Capacity
