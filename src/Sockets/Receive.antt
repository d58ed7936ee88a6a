-- ===== src/Sockets/Receive.antt =====
-- One turn of the receiving loop of `RoomWS` of backend/controller/room_ws_controller.go. The audit log is
-- left out; what is sent to the room afterwards is in Broadcast.
use Prim.Native.String.{◌++◌}
use blackjack.Prelude.{Bool, true, false, not, if◌then◌else◌}
use blackjack.Prelude.Int.{ℤ}
use blackjack.Prelude.Result.{Error, Result, ok, err}
use blackjack.Limits.Allow.{RateLimitResult}
use blackjack.Usecase.Service.{Moment}
use blackjack.Web.Errors.{error_text}
use blackjack.Web.Ws.{WsActionRequest, WsAnswer, error_event, handle_game_ws_action}
use blackjack.Sockets.Epoch.{refresh_connection_epoch, is_current_connection_epoch}
use blackjack.Sockets.Site.{Site, World, Connection}
use blackjack.Sockets.Open.{limit}

-- What a message is answered with: what `handleGameWSAction` sends or an ERROR event of the loop, an ERROR
-- event with its retry_after_ms, or the ERROR event that ends the connection.
pub data Received : Type 0 where
  sent : WsAnswer → Received
  slow_down : ℤ → Received
  superseded : Received

module _ (s : Site) where
  abbrev pub failed : Error → World s → Received × World s
  failed e w = (sent (error_event "internal_error" (error_text e)), w)

  -- `rivals` is what other connections do to Redis between the two commands, `others` what other requests
  -- do to the database.
  module _ (others : s.service.store.Db → s.service.store.Db)
      (rivals : s.epochs.redis.Db → s.epochs.redis.Db) (m : Moment) (c : Connection) where
    unfoldable pub act_if_current : Result Bool → WsActionRequest → World s → Received × World s
    act_if_current (err e) req w = failed e w
    act_if_current (ok false) req w = (superseded, w)
    act_if_current (ok true) req w =
        let (answer, db) = handle_game_ws_action s.service others m req c.room_id c.user_id w.db in
        (sent answer, record w { db = db })

    unfoldable pub after_refresh :
        Result (Unit {0}) × s.epochs.redis.Db → WsActionRequest → World s → Received × World s
    unfolding act_if_current
    after_refresh (err e, epochs) req w = failed e (record w { epochs = epochs })
    after_refresh (ok x, epochs) req w =
        let epochs' = rivals epochs in
        act_if_current (is_current_connection_epoch s.epochs c.room_id c.user_id c.epoch epochs')
          req (record w { epochs = epochs' })

    unfoldable pub read_action : Result WsActionRequest → World s → Received × World s
    unfolding after_refresh
    read_action (err e) w = (sent (error_event "invalid_input" "invalid message payload"), w)
    read_action (ok req) w =
        after_refresh (refresh_connection_epoch s.epochs c.room_id c.user_id c.epoch w.epochs) req w

    abbrev pub unless_limited :
        Result WsActionRequest → Result (RateLimitResult s.floats) × World s → Received × World s
    unless_limited message (err e, w) = failed e w
    unless_limited message (ok r, w) =
        if not r.allowed then (slow_down r.retry_after_ms, w) else read_action message w

    -- `message` is what json.Unmarshal makes of the frame.
    unfoldable pub receive : ℤ → Result WsActionRequest → World s → Received × World s
    unfolding read_action
    receive now_ms message w =
        if not s.limiter
        then read_action message w
        else unless_limited message (limit s ("ws:" ++ c.user_id) now_ms w)
