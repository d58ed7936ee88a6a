-- ===== src/Repository.antt =====
-- backend/repository: the store over PostgreSQL. The rows and their conversions, and the operations of
-- `pgStore` over a relational mapper (GORM), which is a parameter.
pub mod Text
pub mod Rows
pub mod Convert
pub mod Cards
pub mod RoundTrip
pub mod Gorm
pub mod Sessions
pub mod Rooms
pub mod Hands
pub mod Logs
pub mod Users
pub mod Pg
pub mod Laws
pub mod UserLaws
pub mod Table
pub mod Swap
pub mod Errors
