-- ===== src/Sockets/Announce.antt =====
-- `broadcastRoomState`, `BroadcastRoomSync` and `BroadcastRoomStateFromPeer` of
-- backend/controller/room_ws_controller.go: a room's state goes to the connections of this server, and the
-- other servers are told.
use blackjack.Prelude.{ℕ, String, Bool, List, [], ◌∷◌, ◌++◌, Option, none, some}
use blackjack.Prelude.Result.{Result, ok, err}
use blackjack.Model.Room.{Time}
use blackjack.Sockets.Site.{Site, World}
use blackjack.Sockets.Broadcast.{Sent, broadcast_room_state_local}
use blackjack.Sockets.Sync.{SyncCodec, RoomSyncBroker, publish}

-- An error of the broker is dropped.
abbrev pub published_of : Result (Option String) → List String
published_of (err e) = []
published_of (ok none) = []
published_of (ok (some text)) = text ∷ []

module _ (s : Site) (format : Time → String) (writes : ℕ → Bool) (codec : SyncCodec)
    (broker : RoomSyncBroker) where
  -- What is sent here, and what is published.
  unfoldable pub broadcast_room_state : String → String → World s → Sent × List String × World s
  broadcast_room_state event room_id w =
      let (sent, w') = broadcast_room_state_local s format writes event room_id w in
      (sent, published_of (publish codec broker room_id event), w')

  unfoldable pub broadcast_room_sync : String → World s → Sent × List String × World s
  unfolding broadcast_room_state
  broadcast_room_sync room_id w = broadcast_room_state "ROOM_STATE_SYNC" room_id w

  unfoldable pub broadcast_room_state_from_peer : String → String → World s → Sent × World s
  broadcast_room_state_from_peer room_id event w =
      broadcast_room_state_local s format writes event room_id w

  abbrev pub then_rooms :
      (World s → Sent × List String × World s)
      → Sent × List String × World s
      → Sent × List String × World s
  then_rooms rest (sent, published, w) =
      let (sent', published', w') = rest w in (sent ++ sent', published ++ published', w')

  -- The rooms of a list, one after the other.
  unfoldable pub sync_rooms : List String → World s → Sent × List String × World s
  unfolding broadcast_room_sync
  sync_rooms [] w = ([], [], w)
  sync_rooms (room_id ∷ rooms) w = then_rooms (sync_rooms rooms) (broadcast_room_sync room_id w)
