-- ===== src/Round.antt =====
-- The game rules of backend/usecase/game_usecase.go, without the store: the deck, the deal, the
-- player's move, the dealer's move and the two ways a round is settled. The children prove that they
-- work together.
pub mod Deck
pub mod Shuffle
pub mod Deal
pub mod Turn
pub mod Dealer
pub mod Invariant
pub mod Draw
pub mod Moves
pub mod Settle
pub mod DealerMoves
pub mod FirstCards
pub mod Fresh
pub mod Start
pub mod Ends
pub mod Finish
pub mod Version
pub mod Remaining
pub mod Progress
