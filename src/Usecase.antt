-- ===== src/Usecase.antt =====
-- backend/usecase/game_usecase.go and idempotency.go: the use cases of the game over the store. Each
-- is a part that reads and decides, and a part that writes in one transaction; between the two other
-- requests may change the database.
pub mod Service
pub mod Idempotency
pub mod Access
pub mod Host
pub mod Seats
pub mod Connections
pub mod Start
pub mod Turn
pub mod Rematch
pub mod Vote
pub mod Forfeit
pub mod DealerTurn
pub mod Ticks
pub mod Requests
pub mod Swap
pub mod Replays
pub mod MoveWrites
pub mod Lock
pub mod Winner
pub mod Ballot
pub mod NextHost
pub mod Deadline
pub mod Voters
pub mod DealerStep
pub mod Overdue
pub mod Late
