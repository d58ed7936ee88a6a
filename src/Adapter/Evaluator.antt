-- ===== src/Adapter/Evaluator.antt =====
-- backend/adapter/blackjackadapter/evaluator.go and round_engine.go.
use blackjack.Prelude.{
  ℕ, ◌+◌, str_eq, Bool, ◌&&◌, ◌||◌, List, [], ◌∷◌, length, ltb, ◌==◌, if◌then◌else◌,
}
use blackjack.Prelude.Result.{Result, ok}
use blackjack.Model.Status.{Outcome}
use blackjack.Model.Session.{StoredCard}
use blackjack.Model.Hand.{HandEvaluator, RoundEngine, resolve_round_outcome}
use blackjack.Adapter.Convert.{CardLibrary, to_blackjack_hand, from_blackjack_hand, to_card}

-- The switch in the loop of `hardValue`: what one card adds.
unfoldable pub hard_points : StoredCard → ℕ
hard_points c =
    if str_eq c.rank "A"
    then 1
    else if str_eq c.rank "K" || str_eq c.rank "Q" || str_eq c.rank "J" || str_eq c.rank "10"
    then 10
    else if str_eq c.rank "9"
    then 9
    else if str_eq c.rank "8"
    then 8
    else if str_eq c.rank "7"
    then 7
    else if str_eq c.rank "6"
    then 6
    else if str_eq c.rank "5"
    then 5
    else if str_eq c.rank "4"
    then 4
    else if str_eq c.rank "3"
    then 3
    else if str_eq c.rank "2"
    then 2
    else 0

hard_total : ℕ → List StoredCard → ℕ
hard_total total [] = total
hard_total total (c ∷ hand) = hard_total (total + hard_points c) hand

unfoldable pub hard_value : List StoredCard → ℕ
unfolding hard_total
hard_value hand = hard_total 0 hand

module _ (lib : CardLibrary) where
  unfoldable pub hand_value : List StoredCard → ℕ
  hand_value hand = lib.value (to_blackjack_hand lib hand)

  unfoldable pub hand_is_blackjack : List StoredCard → Bool
  hand_is_blackjack hand =
      let bh = to_blackjack_hand lib hand in length bh == 2 && lib.value bh == 21

  unfoldable pub hand_is_bust : List StoredCard → Bool
  hand_is_bust hand = ltb 21 (lib.value (to_blackjack_hand lib hand))

  unfoldable pub hand_is_soft : List StoredCard → Bool
  hand_is_soft hand =
      let bh = to_blackjack_hand lib hand in lib.has_ace bh && ltb (hard_value hand) (lib.value bh)

  unfoldable pub lib_evaluator : HandEvaluator
  unfolding hand_value hand_is_blackjack hand_is_bust hand_is_soft
  lib_evaluator = record {
    value = hand_value;
    is_blackjack = hand_is_blackjack;
    is_bust = hand_is_bust;
    is_soft = hand_is_soft;
  }

  unfoldable pub apply_player_hit : List StoredCard → StoredCard → Result (List StoredCard)
  apply_player_hit hand draw =
      ok (from_blackjack_hand lib (lib.draw (to_blackjack_hand lib hand) (to_card lib draw)))

  unfoldable pub resolve_outcome :
      HandEvaluator → List StoredCard → List StoredCard → Result Outcome
  resolve_outcome ev player_hand dealer_hand = resolve_round_outcome ev player_hand dealer_hand

  unfoldable pub lib_round_engine : RoundEngine
  unfolding apply_player_hit resolve_outcome
  lib_round_engine = record {
    apply_player_hit = apply_player_hit;
    resolve_outcome = resolve_outcome;
  }
