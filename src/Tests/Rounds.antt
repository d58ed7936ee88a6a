-- ===== src/Tests/Rounds.antt =====
-- The theorems on a round, applied to the rounds of the small table.
use mathlib.Core.List.{Nodup}
use blackjack.Prelude.{
  ℕ, ◌+◌, ◌≤◌, ◌≡◌, refl, true, false, List, ◌++◌, Option, none, some, arith, ◌⊎◌, inl, ltb,
  if◌then◌else◌,
}
use blackjack.Prelude.Int.{pos}
use blackjack.Prelude.Result.{ok}
use blackjack.Model.Status.{lose}
use blackjack.Model.Session.{StoredCard}
use blackjack.Model.Log.{RoundLog}
use blackjack.Adapter.Convert.{IsStandard}
use blackjack.Adapter.Rules.{IsHandRules, lib-IsHandRules}
use blackjack.Round.Deck.{sorted_deck, new_shuffled_deck}
use blackjack.Round.Deal.{Round, new_round}
use blackjack.Round.Dealer.{Marshal, time_forfeit, dealer_move}
use blackjack.Round.Invariant.{Inv}
use blackjack.Round.Moves.{player_move-Keeps}
use blackjack.Round.Settle.{MarshalTotal, Settled}
use blackjack.Round.DealerMoves.{DealerMoved, dealer_move-moves}
use blackjack.Round.Ends.{
  Run, Step, here, next, player_moves, time_forfeit-Settled, Run-Inv, Run-Nodup,
}
use blackjack.Model.Status.{is_resetting}
use blackjack.Round.Progress.{moves, Run-ends}
use blackjack.Round.Finish.{dealer_run, Finished, dealer_run-ends}
use blackjack.Round.Shuffle.{BelowBound, Rearranged, new_shuffled_deck-Rearranged}
use blackjack.Round.Start.{Started, new_round-Starts}
use blackjack.Tests.Table.{
  library, library_laws, evaluator, engine, rules, open_round, closed_round, open_round-Inv,
  closed_round-Inv,
}

abbrev marshal : Marshal
marshal p = ok "text"

total : MarshalTotal marshal
total p = ("text", refl)

-- A random source that always answers 0, except that it fails for the bound 7.
abbrev rand : ℕ → Option ℕ
rand i = if ltb 0 i then (if ltb i 7 then none else some 0) else none

rand-BelowBound : BelowBound rand
rand-BelowBound i j h = ground arith

new_shuffled_deck-Rearranged_example : Rearranged IsStandard sorted_deck (new_shuffled_deck rand)
new_shuffled_deck-Rearranged_example = new_shuffled_deck-Rearranged rand rand-BelowBound

new_round-Starts_example :
    (r : Round) × (new_round evaluator engine rand 5 "s" "r" (pos 2) "u" ≡ ok r)
    × Inv r
    × Started evaluator 5 r
new_round-Starts_example =
    new_round-Starts rules rand 5 "s" "r" "u" (pos 2) rand-BelowBound refl refl refl refl

time_forfeit-Settled_example :
    (s : Round) × (log : RoundLog) × (time_forfeit evaluator marshal 5 open_round ≡ ok (s, log))
    × Inv s
    × Settled evaluator lose open_round s
time_forfeit-Settled_example = time_forfeit-Settled rules total 5 open_round open_round-Inv refl

dealer_move-moves_example :
    DealerMoved rules total 5 closed_round closed_round-Inv
      (dealer_move evaluator engine marshal 5 closed_round)
dealer_move-moves_example = dealer_move-moves rules total 5 closed_round closed_round-Inv refl

dealer_run-ends_example :
    (s : Round) × (dealer_run evaluator engine marshal (λ i. 100 + i) 18 closed_round ≡ ok s)
    × Finished evaluator closed_round s
dealer_run-ends_example =
    dealer_run-ends rules total (λ i. 100 + i) closed_round closed_round-Inv refl

abbrev hand : List StoredCard
hand = open_round.player.hand

-- A stand after the deal.
stood : (r : Round) × Step evaluator engine marshal open_round r
stood =
    let (r, e, v) = player_move-Keeps rules open_round open_round-Inv refl false 5 in
    (r, player_moves false 5 refl e)

Run-Inv_example : Inv stood.0
Run-Inv_example = Run-Inv rules total open_round-Inv (next here stood.1)

Run-Nodup_example : Nodup (stood.0.player.hand ++ stood.0.dealer.hand)
Run-Nodup_example = Run-Nodup rules total open_round-Inv (next here stood.1)

lib-IsHandRules_example : IsHandRules evaluator engine
lib-IsHandRules_example = lib-IsHandRules library library_laws

abbrev one_move : Run evaluator engine marshal open_round stood.0
one_move = next here stood.1

Run-ends_example :
    (moves one_move ≤ 41)
    × ((is_resetting stood.0.session.status ≡ true)
        ⊎ ((t : Round) × Step evaluator engine marshal stood.0 t))
Run-ends_example = Run-ends rules total 5 open_round-Inv (inl refl) one_move
