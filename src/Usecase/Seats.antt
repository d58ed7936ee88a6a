-- ===== src/Usecase/Seats.antt =====
-- CreateRoom, JoinRoom, LeaveRoom and ResetRoomForDebug of backend/usecase/game_usecase.go.
use blackjack.Prelude.{◌+◌, String, str_eq, false, not, Option, none, leb, if◌then◌else◌, is_some}
use blackjack.Prelude.Int.{pos}
use blackjack.Prelude.Result.{
  Result, ok, err, not_found, already_exists, unauthorized_user, invalid_input, forbidden_action,
  invalid_game_state, room_full, fail_if, ◌>>=◌, ◌>>◌,
}
use blackjack.Model.Status.{RoomPlayerStatus, has_left}
use blackjack.Model.Room.{
  Time, Room, new_room, touch_room, recalculate_status, can_join_as_human_player, RoomPlayer,
  new_room_player, set_room_player_status, mark_left,
}
use blackjack.Store.{Read, Write}
use blackjack.Usecase.Service.{Service, Moment, Prepared, done, todo, finish, ◌>>>=◌, ◌>>>◌, lift}
use blackjack.Usecase.Host.{count_seated, count_others, HostTransfer, host_after_leave}

module _ (u : Service) where
  -- CreateRoom.
  pub create_prepare : String → Moment → Result (Prepared Room Room)
  create_prepare host_user_id m = do
    fail_if (str_eq host_user_id "") unauthorized_user
    room ← new_room m.fresh_id host_user_id m.now m.now
    room ← recalculate_status room (pos 0) false
    ok (todo (touch_room m.now room))

  pub create_commit : Room → Write u.store.Db Room
  create_commit room = u.store.create_room room >>> lift (ok room)

  unfoldable pub create_room : (u.store.Db → u.store.Db) → String → Moment → Write u.store.Db Room
  unfolding create_prepare create_commit
  create_room others host_user_id m db =
      finish u.store others create_commit (create_prepare host_user_id m) db

  -- JoinRoom: the room with its new status and the row of the joiner.
  unfoldable pub join_prepare :
      String → String → Moment → Read u.store.Db (Prepared (Room × RoomPlayer) Room)
  join_prepare room_id user_id m db = do
    fail_if (str_eq user_id "") unauthorized_user
    fail_if (str_eq room_id "") invalid_input
    room ← u.store.get_room room_id db
    fail_if (not (can_join_as_human_player room.status)) invalid_game_state
    fail_if (not (str_eq room.host_user_id user_id)) forbidden_action
    players ← u.store.list_room_players_by_room_id room_id db
    let active_human = count_seated players
    fail_if (leb 1 active_human) room_full
    joiner ← new_room_player room_id user_id (pos 1) m.now
    room ← recalculate_status room (pos (active_human + 1)) (is_some room.current_session_id)
    ok (todo (touch_room m.now room, joiner))

  unfoldable pub full_if_exists : {A : Type 0} → Result A → Result A
  full_if_exists (ok a) = ok a
  full_if_exists (err already_exists) = err room_full
  full_if_exists (err e) = err e

  -- A first visit makes a row, a player who left takes his old row again.
  unfoldable pub seat : RoomPlayer → Time → Result RoomPlayer → Write u.store.Db (Unit {0})
  unfolding full_if_exists
  seat joiner now (err not_found) db =
      let (r, db') = u.store.create_room_player joiner db in (full_if_exists r, db')
  seat joiner now (err e) db = (err e, db)
  seat joiner now (ok existing) db =
      if not (has_left existing.status)
      then (err room_full, db)
      else elim (set_room_player_status existing RoomPlayerStatus.active) [
        | err e ↦ (err e, db)
        | ok p ↦ u.store.update_room_player (record p { left_at = none; joined_at = now }) db
      ]

  pub join_commit : String → String → Moment → Room × RoomPlayer → Write u.store.Db Room
  unfolding seat
  join_commit room_id user_id m (room, joiner) db =
      (seat joiner m.now (u.store.get_room_player room_id user_id db)
          >>> u.store.update_room room
          >>> lift (ok room))
        db

  unfoldable pub join_room :
      (u.store.Db → u.store.Db) → String → String → Moment → Write u.store.Db Room
  unfolding join_prepare join_commit
  join_room others room_id user_id m db =
      finish u.store others (join_commit room_id user_id m) (join_prepare room_id user_id m db) db

  -- LeaveRoom: the room, the row of the player who leaves, and the transfer of the host's part.
  leave_seat :
      String
      → String
      → Moment
      → Room
      → RoomPlayer
      → Read u.store.Db
          (Prepared ((Room × RoomPlayer) × Option HostTransfer) (Room × Option HostTransfer))
  unfolding host_after_leave
  leave_seat room_id user_id m room p db = do
    players ← u.store.list_room_players_by_room_id room_id db
    let (hosted, transfer) = host_after_leave room_id user_id room players
    counted ← recalculate_status hosted (pos (count_others user_id players)) false
    ok (todo ((touch_room m.now counted, mark_left m.now p), transfer))

  pub leave_prepare :
      String
      → String
      → Moment
      → Read u.store.Db
          (Prepared ((Room × RoomPlayer) × Option HostTransfer) (Room × Option HostTransfer))
  unfolding leave_seat
  leave_prepare room_id user_id m db = do
    fail_if (str_eq user_id "") unauthorized_user
    fail_if (str_eq room_id "") invalid_input
    room ← u.store.get_room room_id db
    fail_if (is_some room.current_session_id) invalid_game_state
    p ← u.store.get_room_player room_id user_id db
    if has_left p.status then ok (done (room, none)) else leave_seat room_id user_id m room p db

  pub leave_commit :
      (Room × RoomPlayer) × Option HostTransfer → Write u.store.Db (Room × Option HostTransfer)
  leave_commit ((room, p), transfer) =
      u.store.update_room_player p >>> u.store.update_room room >>> lift (ok (room, transfer))

  unfoldable pub leave_room :
      (u.store.Db → u.store.Db)
      → String
      → String
      → Moment
      → Write u.store.Db (Room × Option HostTransfer)
  unfolding leave_prepare leave_commit
  leave_room others room_id user_id m db =
      finish u.store others leave_commit (leave_prepare room_id user_id m db) db

  -- ResetRoomForDebug: all of it is one transaction.
  reset_body : String → String → Moment → Room → Write u.store.Db Room
  reset_body room_id user_id m room =
      let freed = record room { current_session_id = none } in
      lift (fail_if (not (str_eq room.host_user_id user_id)) forbidden_action)
      >>> u.store.update_room freed
      >>> u.store.delete_game_sessions_by_room_id room_id
      >>> u.store.delete_room_players_by_room_id room_id
      >>> (lift (recalculate_status freed (pos 0) false) >>>= λ counted.
          u.store.update_room (touch_room m.now counted) >>> lift (ok (touch_room m.now counted)))

  unfoldable pub reset_room_for_debug :
      (u.store.Db → u.store.Db) → String → String → Moment → Write u.store.Db Room
  unfolding reset_body
  reset_room_for_debug others room_id user_id m db =
      if str_eq user_id ""
      then (err unauthorized_user, others db)
      else if str_eq room_id ""
      then (err invalid_input, others db)
      else u.store.transaction
          (λ tx. (lift (u.store.get_room room_id tx) >>>= reset_body room_id user_id m) tx)
          (others db)
