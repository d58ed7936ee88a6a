-- ===== src/Adapter.antt =====
-- backend/adapter/blackjackadapter: the port of the two hand interfaces to the libraries
-- github.com/ethanefung/cards and github.com/ethanefung/blackjack, which are a parameter here.
pub mod Convert
pub mod Evaluator
pub mod Rules
