-- ===== src/Sockets/Broadcast.antt =====
-- `broadcastRoomStateLocal` of backend/controller/room_ws_controller.go: the state of a room, sent to each of
-- its connections as its player may see it. Whether a write to a connection succeeds is given.
use blackjack.Prelude.{ℕ, String, Bool, List, [], ◌∷◌, Option, none, some, if◌then◌else◌}
use blackjack.Prelude.Result.{Result, ok, err}
use blackjack.Model.Room.{Time}
use blackjack.Usecase.Access.{RoomState, get_room_state}
use blackjack.Web.Hub.{Hub, Connections, remove, snapshot}
use blackjack.Web.Payload.{RoomStateSyncPayload, build_room_dto}
use blackjack.Sockets.Site.{Site, World}

pub record WsRoomStateSyncEvent : Type 0 where
  pub event : String
  pub payload : RoomStateSyncPayload

abbrev pub Sent : Type 0
Sent = List (ℕ × WsRoomStateSyncEvent)

module _ (s : Site) (format : Time → String) (writes : ℕ → Bool) (event room_id : String) where
  abbrev pub event_of : String → Result RoomState → Option WsRoomStateSyncEvent
  event_of user_id (err e) = none
  event_of user_id (ok state) =
      some (record { event = event; payload = build_room_dto format state user_id })

  unfoldable pub message_for : String → s.service.store.Db → Option WsRoomStateSyncEvent
  message_for user_id db = event_of user_id (get_room_state s.service room_id user_id db)

  -- `rest` is the remainder of the loop. A connection that cannot be written to leaves the hub.
  unfoldable pub deliver : ℕ → Option WsRoomStateSyncEvent → (Hub → Sent × Hub) → Hub → Sent × Hub
  deliver conn none rest hub = rest hub
  deliver conn (some message) rest hub =
      if writes conn
      then (let (sent, hub') = rest hub in ((conn, message) ∷ sent, hub'))
      else rest (remove room_id conn hub)

  unfoldable pub send_all : Connections → s.service.store.Db → Hub → Sent × Hub
  unfolding message_for deliver
  send_all [] db hub = ([], hub)
  send_all ((conn, user_id) ∷ connections) db hub =
      deliver conn (message_for user_id db) (send_all connections db) hub

  unfoldable pub broadcast_room_state_local : World s → Sent × World s
  unfolding send_all
  broadcast_room_state_local w =
      let (sent, hub) = send_all (snapshot room_id w.hub) w.db w.hub in
      (sent, record w { hub = hub })
