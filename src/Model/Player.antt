-- ===== src/Model/Player.antt =====
-- backend/model/entities.go (PlayerState, DealerState) and player_rules.go.
use blackjack.Prelude.{
  ℕ, String, str_eq, Bool, true, false, not, ◌||◌, List, [], ◌∷◌, ◌++◌, Option, none, some,
  if◌then◌else◌,
}
use blackjack.Prelude.Int.{ℤ, pos, eqb_ℤ}
use blackjack.Prelude.Result.{
  Error, invalid_status, invalid_seat, invalid_player_status, not_player_turn, not_your_turn,
  Result, ok, err,
}
use blackjack.Model.Status.{
  PlayerStatus, player_status_is_valid, is_active, Outcome, outcome_is_valid, is_player_turn,
}
use blackjack.Model.Session.{StoredCard, GameSession}

-- A score is a sum of card values, and so a natural number.
pub record PlayerState : Type 0 where
  pub session_id : String
  pub user_id : String
  pub seat_no : ℤ
  pub hand : List StoredCard
  pub status : PlayerStatus
  pub outcome : Option Outcome
  pub final_score : Option ℕ

unfoldable pub new_player_state : String → String → ℤ → Result PlayerState
new_player_state session_id user_id seat_no =
    if str_eq session_id "" || str_eq user_id ""
    then err (Error.other "session id and user id are required")
    else if not (eqb_ℤ seat_no (pos 1))
    then err invalid_seat
    else ok (record {
      session_id = session_id;
      user_id = user_id;
      seat_no = seat_no;
      hand = [];
      status = PlayerStatus.active;
      outcome = none;
      final_score = none;
    })

unfoldable pub append_player_card : StoredCard → PlayerState → PlayerState
append_player_card c p = record p { hand = p.hand ++ c ∷ [] }

unfoldable pub set_player_status : PlayerState → PlayerStatus → Result PlayerState
set_player_status p next =
    if not (player_status_is_valid next)
    then err invalid_player_status
    else ok (record p { status = next })

unfoldable pub can_act : PlayerState → Bool
can_act p = is_active p.status

unfoldable pub set_outcome : PlayerState → ℕ → Outcome → Result PlayerState
set_outcome p score o =
    if not (outcome_is_valid o)
    then err invalid_status
    else ok (record p { outcome = some o; final_score = some score })

-- The session is a pointer in the source: `none` is nil.
unfoldable pub assert_can_hit_or_stand :
    PlayerState → Option GameSession → String → Result (Unit {0})
unfolding can_act
assert_can_hit_or_stand p none actor_user_id = err invalid_status
assert_can_hit_or_stand p (some sess) actor_user_id =
    if not (is_player_turn sess.status)
    then err not_player_turn
    else if not (eqb_ℤ sess.turn_seat p.seat_no)
    then err not_your_turn
    else if not (str_eq p.user_id actor_user_id)
    then err not_your_turn
    else if not (can_act p)
    then err invalid_player_status
    else ok tt

pub record DealerState : Type 0 where
  pub session_id : String
  pub hand : List StoredCard
  pub hole_hidden : Bool
  pub final_score : Option ℕ

unfoldable pub new_dealer_state : String → Result DealerState
new_dealer_state session_id =
    if str_eq session_id ""
    then err (Error.other "session id is required")
    else ok (record { session_id = session_id; hand = []; hole_hidden = true; final_score = none })

unfoldable pub append_dealer_card : StoredCard → DealerState → DealerState
append_dealer_card c d = record d { hand = d.hand ++ c ∷ [] }

unfoldable pub reveal_hole : DealerState → DealerState
reveal_hole d = record d { hole_hidden = false }

unfoldable pub set_final_score : ℕ → DealerState → DealerState
set_final_score v d = record d { final_score = some v }
