-- ===== src/Sockets/Close.antt =====
-- The end of a connection: the deferred function of `RoomWS` of backend/controller/room_ws_controller.go,
-- and `wsShouldMarkDisconnected`. The metrics and the closing of the socket are left out.
use blackjack.Prelude.{String, str_eq, Bool, true, ◌&&◌, if◌then◌else◌}
use blackjack.Prelude.Result.{Result, ok, err}
use blackjack.Prelude.Space.{trim_space}
use blackjack.Usecase.Connections.{mark_disconnected}
use blackjack.Web.Hub.{remove, is_latest}
use blackjack.Sockets.Epoch.{is_current_connection_epoch}
use blackjack.Sockets.Site.{Site, World, Connection}

-- A value, or true where there is an error.
abbrev pub or_true : Result Bool → Bool
or_true (ok b) = b
or_true (err e) = true

-- The variable BLACKJACK_WS_MARK_DISCONNECTED; `parse_bool` is strconv.ParseBool.
unfoldable pub ws_should_mark_disconnected : (String → Result Bool) → String → Bool
ws_should_mark_disconnected parse_bool value =
    let v = trim_space value in if str_eq v "" then true else or_true (parse_bool v)

module _ (s : Site) where
  unfoldable pub close : (s.service.store.Db → s.service.store.Db) → Connection → World s → World s
  close others c w =
      let latest = is_latest c.room_id c.user_id c.conn w.hub in
      let current =
        or_true (is_current_connection_epoch s.epochs c.room_id c.user_id c.epoch w.epochs) in
      record w {
        hub = remove c.room_id c.conn w.hub;
        db =
            if latest && current && s.mark_disconnected
            then (mark_disconnected s.service others c.room_id c.user_id w.db).1
            else w.db;
      }
