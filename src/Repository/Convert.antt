-- ===== src/Repository/Convert.antt =====
-- backend/repository/game_repository_map.go: rows from domain values and back. A nil pointer has no
-- counterpart: every caller hands over a value.
use blackjack.Prelude.{String, str_eq, Bool, true, false, not, ◌&&◌, if◌then◌else◌}
use Prim.Native.String.{◌++◌}
use blackjack.Prelude.Result.{Error, Result, ok, err, ◌>>=◌}
use blackjack.Prelude.Space.{trim_space}
use blackjack.Prelude.Decimal.{format_uint, parse_uint}
use blackjack.Model.Status.{
  room_status_is_valid, actor_type_is_valid, room_player_status_is_valid, ActorType, system,
}
use blackjack.Model.Room.{Room, RoomPlayer}
use blackjack.Model.Log.{ActionLog, RematchVote, RoundLog}
use blackjack.Model.Account.{User, Session}
use blackjack.Repository.Text.{
  room_status_text, to_room_status, actor_type_text, to_actor_type, room_player_status_text,
  to_room_player_status,
}
use blackjack.Repository.Rows.{
  RoomRecord, RoomPlayerRecord, ActionLogRecord, RematchVoteRecord, RoundLogRecord, UserRecord,
  SessionRecord,
}

unfoldable pub room_record_from_domain : Room → RoomRecord
room_record_from_domain r = record {
  id = r.id;
  host_user_id = r.host_user_id;
  status = room_status_text r.status;
  current_session_id = r.current_session_id;
  created_at = r.created_at;
  updated_at = r.updated_at;
}

unfoldable pub room_record_to_domain : RoomRecord → Result Room
room_record_to_domain m =
    let st = to_room_status m.status in
    if not (room_status_is_valid st)
    then err (Error.other ("invalid room status: " ++ m.status))
    else ok (record {
      id = m.id;
      host_user_id = m.host_user_id;
      status = st;
      current_session_id = m.current_session_id;
      created_at = m.created_at;
      updated_at = m.updated_at;
    })

unfoldable pub room_player_record_from_domain : RoomPlayer → RoomPlayerRecord
room_player_record_from_domain p = record {
  room_id = p.room_id;
  user_id = p.user_id;
  seat_no = p.seat_no;
  status = room_player_status_text p.status;
  joined_at = p.joined_at;
  left_at = p.left_at;
}

unfoldable pub room_player_record_to_domain : RoomPlayerRecord → Result RoomPlayer
room_player_record_to_domain m =
    let st = to_room_player_status m.status in
    if not (room_player_status_is_valid st)
    then err (Error.other ("invalid room player status: " ++ m.status))
    else ok (record {
      room_id = m.room_id;
      user_id = m.user_id;
      seat_no = m.seat_no;
      status = st;
      joined_at = m.joined_at;
      left_at = m.left_at;
    })

unfoldable pub user_record_from_domain : User → UserRecord
user_record_from_domain u = record {
  id = u.id;
  username = u.username;
  password_hash = u.password_hash;
  created_at = u.created_at;
  updated_at = u.updated_at;
}

unfoldable pub user_record_to_domain : UserRecord → Result User
user_record_to_domain m = ok (record {
  id = m.id;
  username = m.username;
  password_hash = m.password_hash;
  created_at = m.created_at;
  updated_at = m.updated_at;
})

unfoldable pub auth_session_record_from_domain : Session → SessionRecord
auth_session_record_from_domain s = record {
  id = s.id;
  user_id = s.user_id;
  expires_at = s.expires_at;
  created_at = s.created_at;
}

unfoldable pub auth_session_record_to_domain : SessionRecord → Result Session
auth_session_record_to_domain m = ok (record {
  id = m.id;
  user_id = m.user_id;
  expires_at = m.expires_at;
  created_at = m.created_at;
})

abbrev pub is_system : ActorType → Bool
is_system system = true
is_system _ = false

-- The actor of a row: an entry of the system without one goes to the target, or to the zero uuid.
unfoldable pub stored_actor : ActionLog → String
stored_actor a =
    let actor_user_id = trim_space a.actor_user_id in
    let tid = trim_space a.target_user_id in
    if str_eq actor_user_id "" && is_system a.actor_type
    then (if not (str_eq tid "") then tid else "00000000-0000-0000-0000-000000000000")
    else actor_user_id

unfoldable pub action_log_record_from_domain : ActionLog → ActionLogRecord
action_log_record_from_domain a = record {
  session_id = a.session_id;
  actor_type = actor_type_text a.actor_type;
  actor_user_id = stored_actor a;
  target_user_id = a.target_user_id;
  action_id = a.action_id;
  request_type = a.request_type;
  request_payload_hash = a.request_payload_hash;
  response_snapshot = a.response_snapshot;
}

unfoldable pub action_log_record_to_domain : ActionLogRecord → Result ActionLog
action_log_record_to_domain m =
    let actor_type = to_actor_type m.actor_type in
    if not (actor_type_is_valid actor_type)
    then err (Error.other ("invalid actor type: " ++ m.actor_type))
    else ok (record {
      session_id = m.session_id;
      actor_type = actor_type;
      actor_user_id = m.actor_user_id;
      target_user_id = m.target_user_id;
      action_id = m.action_id;
      request_type = m.request_type;
      request_payload_hash = m.request_payload_hash;
      response_snapshot = m.response_snapshot;
    })

-- The times of the row are Go's zero time.
unfoldable pub rematch_vote_record_from_domain : RematchVote → RematchVoteRecord
rematch_vote_record_from_domain v = record {
  session_id = v.session_id;
  user_id = v.user_id;
  agree = v.agree;
  created_at = 0;
  updated_at = 0;
}

unfoldable pub rematch_vote_record_to_domain : RematchVoteRecord → RematchVote
rematch_vote_record_to_domain m = record {
  session_id = m.session_id;
  user_id = m.user_id;
  agree = m.agree;
}

unfoldable pub round_log_record_from_domain : RoundLog → Result RoundLogRecord
round_log_record_from_domain r = (if not (str_eq r.id "") then parse_uint r.id else ok 0) >>= λ id.
    ok (record {
      id = id;
      session_id = r.session_id;
      round_no = r.round_no;
      result_payload = r.result_payload;
      created_at = r.created_at;
    })

unfoldable pub round_log_record_to_domain : RoundLogRecord → RoundLog
round_log_record_to_domain m = record {
  id = format_uint m.id;
  session_id = m.session_id;
  round_no = m.round_no;
  result_payload = m.result_payload;
  created_at = m.created_at;
}
