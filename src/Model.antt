-- ===== src/Model.antt =====
-- backend/model: the domain entities with their rules, one child for each group of files.
pub mod Status
pub mod Room
pub mod Session
pub mod Player
pub mod Hand
pub mod Strategy
pub mod Log
pub mod Account
