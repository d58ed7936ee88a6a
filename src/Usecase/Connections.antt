-- ===== src/Usecase/Connections.antt =====
-- MarkConnected and MarkDisconnected of backend/usecase/game_usecase.go: one write each, not in a
-- transaction.
use blackjack.Prelude.{String, str_eq, ◌||◌, Option, none, some, if◌then◌else◌}
use blackjack.Prelude.Result.{Result, ok, err, not_found, invalid_input, ◌>>=◌}
use blackjack.Model.Status.{RoomPlayerStatus, has_left, is_at_table, is_disconnected}
use blackjack.Model.Room.{RoomPlayer, set_room_player_status}
use blackjack.Store.{Write}
use blackjack.Usecase.Service.{Service}

-- The row to write, if any.
unfoldable pub connected : RoomPlayer → Result (Option RoomPlayer)
connected p =
    if has_left p.status || is_at_table p.status
    then ok none
    else set_room_player_status p RoomPlayerStatus.active >>= λ q. ok (some q)

unfoldable pub disconnected : RoomPlayer → Result (Option RoomPlayer)
disconnected p =
    if has_left p.status || is_disconnected p.status
    then ok none
    else set_room_player_status p RoomPlayerStatus.disconnected >>= λ q. ok (some q)

unless_missing : Result (Option RoomPlayer) → Result (Option RoomPlayer)
unless_missing (ok p) = ok p
unless_missing (err not_found) = ok none
unless_missing (err e) = err e

module _ (u : Service) where
  unfoldable pub store_change : Result (Option RoomPlayer) → Write u.store.Db (Unit {0})
  store_change (err e) db = (err e, db)
  store_change (ok none) db = (ok tt, db)
  store_change (ok (some p)) db = u.store.update_room_player p db

  unfoldable pub mark_connected :
      (u.store.Db → u.store.Db) → String → String → Write u.store.Db (Unit {0})
  unfolding connected store_change
  mark_connected others room_id user_id db =
      if str_eq room_id "" || str_eq user_id ""
      then (err invalid_input, others db)
      else store_change (u.store.get_room_player room_id user_id db >>= connected) (others db)

  unfoldable pub mark_disconnected :
      (u.store.Db → u.store.Db) → String → String → Write u.store.Db (Unit {0})
  unfolding disconnected store_change unless_missing
  mark_disconnected others room_id user_id db =
      if str_eq room_id "" || str_eq user_id ""
      then (err invalid_input, others db)
      else store_change
          (unless_missing (u.store.get_room_player room_id user_id db >>= disconnected)) (others db)
