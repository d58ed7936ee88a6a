-- ===== src/Model/Hand.antt =====
-- backend/model/dealer_policy.go, outcome.go and round_engine.go: the two interfaces that the game
-- takes its hand rules from, the dealer's policy and the outcome of a round.
use blackjack.Prelude.{ℕ, Bool, true, false, not, ◌&&◌, List, ltb, leb, ◌==◌, if◌then◌else◌}
use blackjack.Prelude.Result.{Result, ok}
use blackjack.Model.Status.{Outcome, win, lose, push}
use blackjack.Model.Session.{StoredCard}

pub data DealerAction : Type 0 where
  hit stand : DealerAction

abbrev pub is_stand : DealerAction → Bool
is_stand stand = true
is_stand hit = false

pub record HandEvaluator : Type 0 where
  pub value : List StoredCard → ℕ
  pub is_blackjack : List StoredCard → Bool
  pub is_bust : List StoredCard → Bool
  pub is_soft : List StoredCard → Bool

unfoldable pub next_dealer_action : HandEvaluator → List StoredCard → DealerAction × Bool
next_dealer_action ev dealer =
    let v = ev.value dealer in
    if ev.is_bust dealer
    then (stand, true)
    else if v == 17 && ev.is_soft dealer
    then (stand, false)
    else if leb 17 v
    then (stand, false)
    else (hit, false)

unfoldable pub resolve_round_outcome :
    HandEvaluator → List StoredCard → List StoredCard → Result Outcome
resolve_round_outcome ev player_hand dealer_hand =
    let p_bust = ev.is_bust player_hand in
    let d_bust = ev.is_bust dealer_hand in
    let p_bj = ev.is_blackjack player_hand in
    let d_bj = ev.is_blackjack dealer_hand in
    let p_val = ev.value player_hand in
    let d_val = ev.value dealer_hand in
    if p_bust
    then ok lose
    else if d_bust
    then ok win
    else if p_bj && not d_bj
    then ok win
    else if d_bj && not p_bj
    then ok lose
    else if p_bj && d_bj
    then ok push
    else if ltb d_val p_val
    then ok win
    else if ltb p_val d_val
    then ok lose
    else ok push

pub record RoundEngine : Type 0 where
  pub apply_player_hit : List StoredCard → StoredCard → Result (List StoredCard)
  pub resolve_outcome : HandEvaluator → List StoredCard → List StoredCard → Result Outcome
