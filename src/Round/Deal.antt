-- ===== src/Round/Deal.antt =====
-- The start of a round in backend/usecase/game_usecase.go: `initialDeal`, and the steps that `StartRoom`
-- and `rematchUnanimousSuccessTx` share to set up the session, the player and the dealer.
use blackjack.Prelude.{ℕ, ◌+◌, String, none, some, if◌then◌else◌, Option}
use blackjack.Prelude.Int.{ℤ, pos}
use blackjack.Prelude.Result.{Result, ok, ◌>>=◌}
use blackjack.Model.Status.{player_turn, dealer_turn, PlayerStatus}
use blackjack.Model.Room.{Time}
use blackjack.Model.Session.{
  GameSession, new_game_session, set_deck, draw_card, transition_to, set_turn_deadline,
}
use blackjack.Model.Player.{
  PlayerState, new_player_state, set_player_status, DealerState, new_dealer_state,
}
use blackjack.Model.Hand.{HandEvaluator, RoundEngine}
use blackjack.Round.Deck.{new_shuffled_deck}

-- What the store keeps of a round.
pub record Round : Type 0 where
  pub session : GameSession
  pub player : PlayerState
  pub dealer : DealerState

-- 15 seconds in nanoseconds.
abbrev pub player_turn_timeout : ℕ
player_turn_timeout = 15000000000

unfoldable pub initial_deal : RoundEngine → Round → Result Round
initial_deal engine r = do
  (c1, s1) ← draw_card r.session
  ph1 ← engine.apply_player_hit r.player.hand c1
  (c2, s2) ← draw_card s1
  dh1 ← engine.apply_player_hit r.dealer.hand c2
  (c3, s3) ← draw_card s2
  ph2 ← engine.apply_player_hit ph1 c3
  (c4, s4) ← draw_card s3
  dh2 ← engine.apply_player_hit dh1 c4
  ok (record {
    session = s4;
    player = record (r.player) { hand = ph2 };
    dealer = record (r.dealer) { hand = dh2 };
  })

-- A natural 21 ends the player's turn before it began.
abbrev pub settle_blackjack : HandEvaluator → Round → Result Round
settle_blackjack ev r =
    if ev.is_blackjack r.player.hand
    then (do
      player ← set_player_status r.player PlayerStatus.blackjack_hand
      session ← transition_to r.session dealer_turn
      ok (record r { session = set_turn_deadline none session; player = player }))
    else ok r

-- A new session with its deck dealt out. `rand` is the random source of the shuffle; `now` is never
-- the zero time, so `NewGameSession` does not ask the clock again.
unfoldable pub new_round :
    HandEvaluator
    → RoundEngine
    → (ℕ → Option ℕ)
    → Time
    → String
    → String
    → ℤ
    → String
    → Result Round
new_round ev engine rand now session_id room_id round_no user_id = do
  created ← new_game_session session_id room_id round_no now now
  deck ← new_shuffled_deck rand
  dealer ← new_dealer_state session_id
  player ← new_player_state session_id user_id (pos 1)
  dealt ←
      initial_deal engine
        (record { session = set_deck deck created; player = player; dealer = dealer })
  session ← transition_to dealt.session player_turn
  settle_blackjack ev
      (record dealt { session = set_turn_deadline (some (now + player_turn_timeout)) session })
