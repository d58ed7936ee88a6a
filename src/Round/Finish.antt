-- ===== src/Round/Finish.antt =====
-- The dealer's turn of backend/usecase/game_usecase.go as the scheduler plays it, one move for each tick.
use blackjack.Prelude.{
  ℕ, zero, suc, ◌+◌, ◌≤◌, ◌≡◌, refl, ◌∙◌, inl, inr, true, false, some, arith, length, ap,
}
use blackjack.Prelude.Result.{Result, ok, ◌>>=◌}
use blackjack.Model.Status.{is_dealer_turn, is_resetting, Outcome}
use blackjack.Model.Room.{Time}
use blackjack.Model.Hand.{HandEvaluator, RoundEngine, resolve_round_outcome}
use blackjack.Model.Player.{PlayerState}
use blackjack.Adapter.Rules.{IsHandRules}
use blackjack.Round.Deal.{Round}
use blackjack.Round.Dealer.{Marshal, dealer_move}
use blackjack.Round.Invariant.{Inv}
use blackjack.Round.Settle.{MarshalTotal, Settled}
use blackjack.Round.DealerMoves.{dealer_move-moves}

-- `dealerTurn` once a tick, at the times that `clock` gives, as long as it is the dealer's turn.
pub dealer_run : HandEvaluator → RoundEngine → Marshal → (ℕ → Time) → ℕ → Round → Result Round
dealer_run ev engine marshal clock zero r = ok r
dealer_run ev engine marshal clock (suc ticks) r = elim (is_dealer_turn r.session.status) [
  | false ↦ ok r
  | true ↦ dealer_move ev engine marshal (clock ticks) r >>= λ moved.
      dealer_run ev engine marshal clock ticks moved.0
]

-- The round is settled by the hands on the table, the dealer's at 17 or more.
pub record Finished (ev : HandEvaluator) (before after : Round) : Type 0 where
  pub status : is_resetting after.session.status ≡ true
  pub same_player_hand : after.player.hand ≡ before.player.hand
  pub dealer_stood : 17 ≤ ev.value after.dealer.hand
  pub result : Outcome
  pub resolved : resolve_round_outcome ev after.player.hand after.dealer.hand ≡ ok result
  pub recorded : after.player.outcome ≡ some result

not_dealer_turn-run :
    (ev : HandEvaluator) (engine : RoundEngine) (marshal : Marshal) (clock : ℕ → Time) (ticks : ℕ)
    (r : Round)
    → is_dealer_turn r.session.status ≡ false
    → dealer_run ev engine marshal clock ticks r ≡ ok r
unfolding dealer_run
not_dealer_turn-run ev engine marshal clock zero r e = refl
not_dealer_turn-run ev engine marshal clock (suc ticks) r e = rw (e, dealer_run)

resetting-not_dealer :
    (r : Round) → is_resetting r.session.status ≡ true → is_dealer_turn r.session.status ≡ false
resetting-not_dealer r e = ground arith

Settled-Finished :
    (ev : HandEvaluator) (o : Outcome) (before after : Round)
    → 17 ≤ ev.value before.dealer.hand
    → resolve_round_outcome ev before.player.hand before.dealer.hand ≡ ok o
    → Settled ev o before after
    → Finished ev before after
Settled-Finished ev o before after high outcome s = record {
  status = s.resetting_status;
  same_player_hand = s.same_hands.0;
  dealer_stood = rw s.same_hands.1 high;
  result = o;
  resolved = rw (s.same_hands.0, s.same_hands.1) outcome;
  recorded = s.outcome;
}

earlier :
    {ev : HandEvaluator} {r moved s : Round}
    → moved.player.hand ≡ r.player.hand
    → Finished ev moved s
    → Finished ev r s
earlier same f = record {
  status = f.status;
  same_player_hand = f.same_player_hand ∙ same;
  dealer_stood = f.dealer_stood;
  result = f.result;
  resolved = f.resolved;
  recorded = f.recorded;
}

module _ {ev : HandEvaluator} {engine : RoundEngine} {marshal : Marshal}
    (rules : IsHandRules ev engine) (total : MarshalTotal marshal) (clock : ℕ → Time) where
  -- Each tick settles the round or gives the dealer a card, of which he has room for 17.
  dealer_run-Finished :
      (ticks : ℕ) (r : Round)
      → Inv r
      → is_dealer_turn r.session.status ≡ true
      → 18 ≤ ticks + length r.dealer.hand
      → (s : Round) × (dealer_run ev engine marshal clock ticks r ≡ ok s) × Finished ev r s
  unfolding dealer_run
  dealer_run-Finished zero r v turn room = absurd (omega (arith, v.dealer_size))
  dealer_run-Finished (suc ticks) r v turn room =
      let (moved, log, e, w, step) = dealer_move-moves rules total (clock ticks) r v turn in
      elim step [
        | inl (high, _, (o, outcome, settled)) ↦
            let f : Finished ev r moved = Settled-Finished ev o r moved high outcome settled in
            rw (turn, dealer_run, e)
              (
                moved,
                not_dealer_turn-run ev engine marshal clock ticks moved
                    (resetting-not_dealer moved f.status),
                f,
              )
        | inr (_, _, again, same, one) ↦
            let (s, g, f) = dealer_run-Finished ticks moved w again (omega arith) in
            rw (turn, dealer_run, e) (s, g, earlier (ap (λ (p : PlayerState). p.hand) same) f)
      ]

  -- From the dealer's turn of a round that satisfies the invariant 18 ticks are enough: the round is
  -- settled, the player's hand is as it was, the dealer stands at 17 or more, and the recorded outcome is
  -- that of the hands.
  pub dealer_run-ends :
      (r : Round)
      → Inv r
      → is_dealer_turn r.session.status ≡ true
      → (s : Round) × (dealer_run ev engine marshal clock 18 r ≡ ok s) × Finished ev r s
  dealer_run-ends r v turn = dealer_run-Finished 18 r v turn (omega arith)
