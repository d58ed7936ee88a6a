-- ===== src/Model/Room.antt =====
-- backend/model/entities.go (Room), room_rules.go and room_player.go. A method with a pointer receiver
-- returns the new value; a time is the number of nanoseconds since Go's zero time, so `IsZero` is `== 0`.
use blackjack.Prelude.{ℕ, String, str_eq, Bool, not, ◌||◌, Option, none, some, ◌==◌, if◌then◌else◌}
use blackjack.Prelude.Int.{ℤ, pos, ltb_ℤ, eqb_ℤ}
use blackjack.Prelude.Result.{
  Error, room_full, forbidden_start, invalid_status, invalid_seat, Result, ok, err,
}
use blackjack.Model.Status.{
  RoomStatus, is_waiting, is_ready, RoomPlayerStatus, room_player_status_is_valid,
}

abbrev pub Time : Type 0
Time = ℕ

pub record Room : Type 0 where
  pub id : String
  pub host_user_id : String
  pub status : RoomStatus
  pub current_session_id : Option String
  pub created_at : Time
  pub updated_at : Time

-- `clock` is what `time.Now()` returns if it is asked.
unfoldable pub new_room : String → String → Time → Time → Result Room
new_room id host_user_id at clock =
    let now = if at == 0 then clock else at in
    if str_eq id "" || str_eq host_user_id ""
    then err (Error.other "room id and host user id are required")
    else ok (record {
      id = id;
      host_user_id = host_user_id;
      status = RoomStatus.waiting;
      current_session_id = none;
      created_at = now;
      updated_at = now;
    })

unfoldable pub touch_room : Time → Room → Room
touch_room at r = if not (at == 0) then record r { updated_at = at } else r

unfoldable pub recalculate_status : Room → ℤ → Bool → Result Room
recalculate_status r active_human_players has_active_session =
    if ltb_ℤ active_human_players (pos 0)
    then err (Error.other "activeHumanPlayers must be >= 0")
    else if ltb_ℤ (pos 1) active_human_players
    then err room_full
    else if has_active_session
    then ok (record r { status = RoomStatus.playing })
    else if eqb_ℤ active_human_players (pos 1)
    then ok (record r { status = RoomStatus.ready })
    else ok (record r { status = RoomStatus.waiting })

unfoldable pub can_join_as_human_player : RoomStatus → Bool
can_join_as_human_player status = is_waiting status || is_ready status

unfoldable pub assert_host_can_start : Option Room → String → Bool → Result (Unit {0})
assert_host_can_start none actor_user_id has_ongoing_session = err invalid_status
assert_host_can_start (some room) actor_user_id has_ongoing_session =
    if not (str_eq room.host_user_id actor_user_id)
    then err forbidden_start
    else if not (is_ready room.status)
    then err forbidden_start
    else if has_ongoing_session
    then err forbidden_start
    else ok tt

pub record RoomPlayer : Type 0 where
  pub room_id : String
  pub user_id : String
  pub seat_no : ℤ
  pub status : RoomPlayerStatus
  pub joined_at : Time
  pub left_at : Option Time

unfoldable pub new_room_player : String → String → ℤ → Time → Result RoomPlayer
new_room_player room_id user_id seat_no joined_at =
    if str_eq room_id "" || str_eq user_id ""
    then err (Error.other "room id and user id are required")
    else if not (eqb_ℤ seat_no (pos 1))
    then err invalid_seat
    else if joined_at == 0
    then err (Error.other "joinedAt is required")
    else ok (record {
      room_id = room_id;
      user_id = user_id;
      seat_no = seat_no;
      status = RoomPlayerStatus.active;
      joined_at = joined_at;
      left_at = none;
    })

unfoldable pub set_room_player_status : RoomPlayer → RoomPlayerStatus → Result RoomPlayer
set_room_player_status p next =
    if not (room_player_status_is_valid next)
    then err invalid_status
    else ok (record p { status = next })

unfoldable pub mark_left : Time → RoomPlayer → RoomPlayer
mark_left at p = record p { status = RoomPlayerStatus.left; left_at = some at }
