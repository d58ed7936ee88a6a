-- ===== src/Round/Remaining.antt =====
-- How many cards a round of backend/usecase/game_usecase.go can use up.
use blackjack.Prelude.{ℕ, ◌+◌, ◌≤◌, ◌≡◌, length, arith}
use blackjack.Prelude.Int.{pos}
use blackjack.Model.Hand.{HandEvaluator, RoundEngine}
use blackjack.Model.Session.{GameSession, remaining_deck_cards}
use blackjack.Adapter.Rules.{IsHandRules}
use blackjack.Round.Deal.{Round}
use blackjack.Round.Dealer.{Marshal}
use blackjack.Round.Invariant.{Inv}
use blackjack.Round.Settle.{MarshalTotal}
use blackjack.Round.Ends.{Run, Run-Inv}

remaining_lem :
    (s : GameSession) (k : ℕ)
    → length s.deck ≡ 52
    → s.draw_index ≡ pos k
    → k ≤ 39
    → 13 ≤ remaining_deck_cards s
unfolding remaining_deck_cards
remaining_lem s k size index h = rw (size, index) (ground arith)

used : (a b : ℕ) → a ≤ 22 → b ≤ 17 → a + b ≤ 39
used a b h k = omega arith

module _ {ev : HandEvaluator} {engine : RoundEngine} {marshal : Marshal}
    (rules : IsHandRules ev engine) (total : MarshalTotal marshal) where
  -- In a round that is reached by moves from one that satisfies the invariant at least 13 cards are left in
  -- the deck.
  pub Run-remaining :
      {r s : Round} → Inv r → Run ev engine marshal r s → 13 ≤ remaining_deck_cards s.session
  Run-remaining {r} {s} v run =
      let w : Inv s = Run-Inv rules total v run in
      remaining_lem s.session (length s.player.hand + length s.dealer.hand) w.cards.deck_size
        w.cards.drawn (used _ _ w.player_size w.dealer_size)
