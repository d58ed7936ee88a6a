-- ===== src/Round/Fresh.antt =====
-- The rows of a round before and after the deal in backend/usecase/game_usecase.go, and the steps of `new_round`.
use blackjack.Prelude.{
  if◌then◌else◌, ℕ, ◌+◌, ◌≡◌, refl, true, false, List, [], Option, none, some, String, str_eq,
  arith,
}
use blackjack.Prelude.Int.{ℤ, pos, leb_ℤ}
use blackjack.Prelude.Result.{ok}
use blackjack.Model.Status.{dealing, player_turn, dealer_turn, PlayerStatus}
use blackjack.Model.Room.{Time}
use blackjack.Model.Session.{
  StoredCard, GameSession, new_game_session, set_deck, transition_to, set_turn_deadline,
}
use blackjack.Model.Player.{
  PlayerState, new_player_state, set_player_status, DealerState, new_dealer_state,
}
use blackjack.Model.Hand.{HandEvaluator, RoundEngine}
use blackjack.Round.Deck.{new_shuffled_deck}
use blackjack.Round.Deal.{Round, initial_deal, settle_blackjack, new_round, player_turn_timeout}

-- The session, the player and the dealer before the deal.
abbrev pub fresh_session : String → String → ℤ → Time → List StoredCard → GameSession
fresh_session id room_id round_no now deck = record {
  id = id;
  room_id = room_id;
  round_no = round_no;
  status = dealing;
  version = pos 1;
  turn_seat = pos 1;
  deck = deck;
  draw_index = pos 0;
  turn_deadline_at = none;
  result_snapshot = none;
  rematch_deadline_at = none;
  created_at = now;
  updated_at = now;
}

abbrev pub fresh_player : String → String → PlayerState
fresh_player id user_id = record {
  session_id = id;
  user_id = user_id;
  seat_no = pos 1;
  hand = [];
  status = PlayerStatus.active;
  outcome = none;
  final_score = none;
}

abbrev pub fresh_dealer : String → DealerState
fresh_dealer id = record { session_id = id; hand = []; hole_hidden = true; final_score = none }

-- After the deal the turn is the player's.
abbrev pub opened : Time → Round → Round
opened now r = record r {
  session = record (r.session) {
    status = player_turn;
    turn_deadline_at = some (now + player_turn_timeout);
  };
}

abbrev pub natural : Time → Round → Round
natural now r = record r {
  session = record (r.session) { status = dealer_turn; turn_deadline_at = none };
  player = record (r.player) { status = PlayerStatus.blackjack_hand };
}

new_game_session_lem :
    (id room_id : String) (round_no : ℤ) (now : Time)
    → str_eq id "" ≡ false
    → str_eq room_id "" ≡ false
    → leb_ℤ round_no (pos 0) ≡ false
    → new_game_session id room_id round_no now now ≡ ok (fresh_session id room_id round_no now [])
unfolding new_game_session
new_game_session_lem id room_id round_no now hid hroom hround = ground arith

new_player_state_lem :
    (id user_id : String)
    → str_eq id "" ≡ false
    → str_eq user_id "" ≡ false
    → new_player_state id user_id (pos 1) ≡ ok (fresh_player id user_id)
unfolding new_player_state
new_player_state_lem id user_id hid huser = ground arith

new_dealer_state_lem :
    (id : String) → str_eq id "" ≡ false → new_dealer_state id ≡ ok (fresh_dealer id)
unfolding new_dealer_state
new_dealer_state_lem id hid = ground arith

pub start_turn_lem :
    (s : GameSession)
    → s.status ≡ dealing
    → transition_to s player_turn ≡ ok (record s { status = player_turn })
unfolding transition_to
start_turn_lem s e = ground arith

pub settle_lem :
    (ev : HandEvaluator) (now : Time) (r : Round)
    → settle_blackjack ev (opened now r)
      ≡ (if ev.is_blackjack r.player.hand then ok (natural now r) else ok (opened now r))
unfolding transition_to set_turn_deadline set_player_status
settle_lem ev now r = refl

-- `new_round` once its parts have succeeded.
pub new_round_steps :
    (ev : HandEvaluator) (engine : RoundEngine) (rand : ℕ → Option ℕ) (now : Time)
    (id room_id user_id : String) (round_no : ℤ) (deck : List StoredCard) (dealt : Round)
    → str_eq id "" ≡ false
    → str_eq room_id "" ≡ false
    → str_eq user_id "" ≡ false
    → leb_ℤ round_no (pos 0) ≡ false
    → new_shuffled_deck rand ≡ ok deck
    → initial_deal engine (record {
      session = fresh_session id room_id round_no now deck;
      player = fresh_player id user_id;
      dealer = fresh_dealer id;
    })
      ≡ ok dealt
    → dealt.session.status ≡ dealing
    → new_round ev engine rand now id room_id round_no user_id ≡ (
        if ev.is_blackjack dealt.player.hand then ok (natural now dealt) else ok (opened now dealt))
unfolding new_round set_deck set_turn_deadline
new_round_steps ev engine rand now id room_id user_id round_no deck dealt hid hroom huser hround
      hdeck hdeal hstatus =
    rw
      (
        new_game_session_lem id room_id round_no now hid hroom hround,
        hdeck,
        new_dealer_state_lem id hid,
        new_player_state_lem id user_id hid huser,
        hdeal,
        start_turn_lem dealt.session hstatus,
      )
      (settle_lem ev now dealt)
