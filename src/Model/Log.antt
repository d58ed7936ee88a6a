-- ===== src/Model/Log.antt =====
-- backend/model/entities.go (ActionLog, RematchVote) and round_log.go.
use blackjack.Prelude.{String, str_eq, Bool, not, ◌&&◌, ◌||◌, if◌then◌else◌}
use blackjack.Prelude.Int.{ℤ, pos, leb_ℤ}
use blackjack.Prelude.Result.{Error, Result, ok, err}
use blackjack.Model.Status.{ActorType, actor_type_is_valid, is_user}
use blackjack.Model.Room.{Time}

pub record ActionLog : Type 0 where
  pub session_id : String
  pub actor_type : ActorType
  pub actor_user_id : String
  pub target_user_id : String
  pub action_id : String
  pub request_type : String
  pub request_payload_hash : String
  pub response_snapshot : String

unfoldable pub validate_action_log : ActionLog → Result (Unit {0})
validate_action_log a =
    if str_eq a.session_id ""
      || str_eq a.action_id ""
      || str_eq a.request_type ""
      || str_eq a.request_payload_hash ""
    then err (Error.other "missing required action log fields")
    else if not (actor_type_is_valid a.actor_type)
    then err (Error.other "invalid actor type")
    else if is_user a.actor_type && str_eq a.actor_user_id ""
    then err (Error.other "actor user id is required for USER actor")
    else ok tt

pub record RematchVote : Type 0 where
  pub session_id : String
  pub user_id : String
  pub agree : Bool

unfoldable pub validate_rematch_vote : RematchVote → Result (Unit {0})
validate_rematch_vote v =
    if str_eq v.session_id "" || str_eq v.user_id ""
    then err (Error.other "session id and user id are required")
    else ok tt

pub record RoundLog : Type 0 where
  pub id : String
  pub session_id : String
  pub round_no : ℤ
  pub result_payload : String
  pub created_at : Time

unfoldable pub validate_round_log : RoundLog → Result (Unit {0})
validate_round_log r =
    if str_eq r.session_id "" || leb_ℤ r.round_no (pos 0) || str_eq r.result_payload ""
    then err (Error.other "invalid round log")
    else ok tt
