-- ===== src/Round/Turn.antt =====
-- The player's move in `playerTurn` of backend/usecase/game_usecase.go: what it does to the round
-- between its checks and its transaction.
use blackjack.Prelude.{◌+◌, Bool, none, some, ltb, if◌then◌else◌}
use blackjack.Prelude.Result.{Result, ok, ◌>>=◌}
use blackjack.Model.Status.{dealer_turn, is_player_turn, PlayerStatus}
use blackjack.Model.Room.{Time}
use blackjack.Model.Session.{
  GameSession, draw_card, transition_to, set_turn_deadline, increment_version, touch_session,
}
use blackjack.Model.Player.{set_player_status}
use blackjack.Model.Hand.{HandEvaluator, RoundEngine}
use blackjack.Round.Deal.{Round, player_turn_timeout}

-- The player's status changes, the turn goes to the dealer, and the deadline is lifted.
unfoldable pub end_turn : PlayerStatus → Round → Result Round
end_turn status r = do
  player ← set_player_status r.player status
  session ← transition_to r.session dealer_turn
  ok (record r { session = set_turn_deadline none session; player = player })

unfoldable pub hit_round : HandEvaluator → RoundEngine → Round → Result Round
unfolding end_turn
hit_round ev engine r = do
  (card, session) ← draw_card r.session
  next_hand ← engine.apply_player_hit r.player.hand card
  let drawn = record r { session = session; player = record (r.player) { hand = next_hand } }
  if ltb 21 (ev.value next_hand)
      then end_turn PlayerStatus.bust drawn
      else if ev.is_blackjack next_hand
      then end_turn PlayerStatus.blackjack_hand drawn
      else ok drawn

unfoldable pub stand_round : Time → Round → Result Round
unfolding end_turn
stand_round now r =
    end_turn PlayerStatus.stand
      (record r { session = set_turn_deadline (some (now + player_turn_timeout)) r.session })

-- While the turn goes on it has a new deadline.
unfoldable pub extend_deadline : Time → GameSession → GameSession
extend_deadline now s =
    if is_player_turn s.status then set_turn_deadline (some (now + player_turn_timeout)) s else s

-- `sess.IncrementVersion()` and `sess.Touch(now)`
unfoldable pub next_version : Time → GameSession → GameSession
next_version now s = touch_session now (increment_version s)

unfoldable pub player_move : HandEvaluator → RoundEngine → Bool → Time → Round → Result Round
unfolding hit_round stand_round extend_deadline next_version
player_move ev engine hit now r = do
  moved ← if hit then hit_round ev engine r else stand_round now r
  ok (record moved { session = next_version now (extend_deadline now moved.session) })
