-- ===== src/Sockets/Open.antt =====
-- `RoomWS` of backend/controller/room_ws_controller.go up to the registration in the hub. The upgrade, the
-- first frame and its JSON are given; the audit log and the metrics are left out, and what is sent to the
-- room afterwards is in Broadcast.
use Prim.Native.String.{◌++◌}
use blackjack.Prelude.{
  ℕ, String, str_eq, ◌||◌, not, ◌⊎◌, inl, inr, Option, none, some, if◌then◌else◌,
}
use blackjack.Prelude.Int.{ℤ}
use blackjack.Prelude.Result.{Error, Result, ok, err, not_found}
use blackjack.Prelude.Space.{trim_space}
use blackjack.Model.Room.{Room}
use blackjack.Model.Session.{GameSession}
use blackjack.Accounts.Jwt.{parse_and_validate}
use blackjack.Limits.Allow.{RateLimitResult, allow}
use blackjack.Usecase.Access.{get_room}
use blackjack.Usecase.Connections.{mark_connected}
use blackjack.Web.Errors.{error_text, failure, internal}
use blackjack.Web.Hub.{add}
use blackjack.Sockets.Epoch.{register_connection_epoch}
use blackjack.Sockets.Site.{
  Site, World, Connection, Opened, answered, not_upgraded, closed, refused, connected, Step,
  stop_if, or_stop, ◌>>=◌, ◌>>◌,
}

-- WSAuthMessage; its request id is only logged.
pub record WsAuthMessage : Type 0 where
  pub event : String
  pub access_token : String

-- A request for a connection: the address of its other end, the outcome of the upgrade, the new connection,
-- and the first message, which is `none` where the read fails or takes too long, with what json.Unmarshal
-- makes of it.
pub record Handshake : Type 0 where
  pub room_id : String
  pub real_ip : String
  pub remote_addr : String
  pub upgrade : Result ℕ
  pub first : Option (Result WsAuthMessage)
  pub now_ms : ℤ
  pub now : ℕ

unfoldable pub pre_ws_connection_key : Handshake → String
pre_ws_connection_key h =
    let ip = trim_space h.real_ip in "ws-open-pre:" ++ (if str_eq ip "" then h.remote_addr else ip)

abbrev pub unauthorized_first : Opened
unauthorized_first = refused "unauthorized" "first message must be AUTH with access_token" none

module _ (s : Site) where
  abbrev pub with_buckets : {A : Type 0} → World s → Result A × s.buckets.Db → Result A × World s
  with_buckets w (r, b) = (r, record w { buckets = b })

  -- `r.limiter.Allow`
  unfoldable pub limit : String → ℤ → World s → Result (RateLimitResult s.floats) × World s
  limit key now_ms w = with_buckets w (allow s.floats s.buckets s.to_lower key now_ms w.buckets)

  abbrev pub unless_limited :
      (Error → Opened)
      → (ℤ → Opened)
      → Result (RateLimitResult s.floats) × World s
      → (Opened ⊎ Unit {0}) × World s
  unless_limited failed full (err e, w) = (inl (failed e), w)
  unless_limited failed full (ok r, w) = stop_if s (not r.allowed) (full r.retry_after_ms) w

  unfoldable pub limit_address : Handshake → Step s (Unit {0})
  limit_address h w =
      if not s.limiter
      then (inr tt, w)
      else unless_limited (λ e. answered (internal e) none)
          (λ retry.
            answered (failure 429 "rate_limited" "too many websocket connection attempts")
              (some retry))
          (limit (pre_ws_connection_key h) h.now_ms w)

  unfoldable pub limit_user : Handshake → String → Step s (Unit {0})
  limit_user h user_id w =
      if not s.limiter
      then (inr tt, w)
      else unless_limited (λ e. refused "internal_error" (error_text e) none)
          (λ retry. refused "rate_limited" "too many websocket connection attempts" (some retry))
          (limit ("ws-open:" ++ user_id) h.now_ms w)

  unfoldable pub read_auth : Option (Result WsAuthMessage) → Step s String
  read_auth none w = (inl closed, w)
  read_auth (some (err e)) w = (inl unauthorized_first, w)
  read_auth (some (ok msg)) w =
      if not (str_eq msg.event "AUTH") || str_eq (trim_space msg.access_token) ""
      then (inl unauthorized_first, w)
      else (inr msg.access_token, w)

  abbrev pub with_epochs :
      {A : Type 0} → World s → Result A × s.epochs.redis.Db → Result A × World s
  with_epochs w (r, e) = (r, record w { epochs = e })

  abbrev pub refused_internal : {A : Type 0} → Result A × World s → (Opened ⊎ A) × World s
  refused_internal (r, w) = or_stop s r (λ e. refused "internal_error" (error_text e) none) w

  unfoldable pub assign_epoch : String → String → Step s ℤ
  assign_epoch room_id user_id w =
      refused_internal (with_epochs w (register_connection_epoch s.epochs room_id user_id w.epochs))

  -- `err != nil && err != repository.ErrNotFound`
  abbrev pub unless_missing : Result (Unit {0}) → Result (Unit {0})
  unless_missing (ok x) = ok x
  unless_missing (err not_found) = ok tt
  unless_missing (err e) = err e

  abbrev pub with_db :
      World s → Result (Unit {0}) × s.service.store.Db → Result (Unit {0}) × World s
  with_db w (r, db) = (unless_missing r, record w { db = db })

  unfoldable pub sit_down :
      (s.service.store.Db → s.service.store.Db) → String → String → Step s (Unit {0})
  sit_down others room_id user_id w =
      refused_internal (with_db w (mark_connected s.service others room_id user_id w.db))

  abbrev pub session_id : Option GameSession → Option String
  session_id none = none
  session_id (some sess) = some sess.id

  unfoldable pub enter : Connection → Option String → String → Step s Opened
  enter c game_session jti w =
      let (old, hub) = add c.room_id c.conn c.user_id w.hub in
      (inr (connected c old game_session jti), record w { hub = hub })

  -- What `jwtauth.ParseAndValidate` and `GetRoom` answer, or the refusal.
  unfoldable pub identify : Handshake → String → Step s (String × String)
  identify h token =
      or_stop s (parse_and_validate s.jwt s.secret token h.now)
        (λ e. refused "unauthorized" "invalid or expired token" none)

  unfoldable pub see_room : String → String → Step s (Room × Option GameSession)
  see_room room_id user_id w =
      or_stop s (get_room s.service room_id user_id w.db)
        (λ e. refused "forbidden" "room access denied" none) w

  abbrev pub ended : (Opened ⊎ Opened) × World s → Opened × World s
  ended (inl o, w) = (o, w)
  ended (inr o, w) = (o, w)

  -- `others` is what other requests do to the database before the player is marked as connected.
  unfoldable pub open_steps : (s.service.store.Db → s.service.store.Db) → Handshake → Step s Opened
  open_steps others h = do
    stop_if s (str_eq h.room_id "") (answered (failure 400 "invalid_input" "room is required") none)
    limit_address h
    conn ← or_stop s h.upgrade not_upgraded
    token ← read_auth h.first
    (user_id, jti) ← identify h token
    (room, sess) ← see_room h.room_id user_id
    limit_user h user_id
    epoch ← assign_epoch h.room_id user_id
    sit_down others h.room_id user_id
    enter (record { room_id = h.room_id; user_id = user_id; conn = conn; epoch = epoch })
        (session_id sess) jti

  unfoldable pub room_ws :
      (s.service.store.Db → s.service.store.Db) → Handshake → World s → Opened × World s
  unfolding open_steps
  room_ws others h w = ended (open_steps others h w)
