-- ===== src/Sockets/Stale.antt =====
-- The check of the epoch in the receiving loop of backend/controller/room_ws_controller.go.
use blackjack.Prelude.{
  ◌<◌, ◌≡◌, ◌≢◌, refl, ap, ◌∙◌, Bool, true, false, not, ◌||◌, Bool-cases, inl, inr, arith,
}
use blackjack.Prelude.Int.{ℤ, pos, negsuc, leb_ℤ, eqb_ℤ}
use blackjack.Prelude.Result.{Result, ok, err}
use blackjack.Limits.Allow.{RateLimitResult}
use blackjack.Usecase.Service.{Moment}
use blackjack.Web.Ws.{WsActionRequest}
use blackjack.Sockets.Epoch.{
  IsRedis, ws_epoch_latest_key, refresh_connection_epoch, is_current_connection_epoch,
}
use blackjack.Sockets.Site.{Site, World, Connection}
use blackjack.Sockets.Receive.{
  superseded, act_if_current, after_refresh, read_action, unless_limited, receive,
}

eqb_ℤ_refl : (a : ℤ) → eqb_ℤ a a ≡ true
eqb_ℤ_refl (pos n) = ground arith
eqb_ℤ_refl (negsuc n) = ground arith

module _ (s : Site) (laws : IsRedis s.epochs.redis) (lives : 0 < s.epochs.ttl)
    (others : s.service.store.Db → s.service.store.Db)
    (rivals : s.epochs.redis.Db → s.epochs.redis.Db) (m : Moment) (c : Connection)
    (apart : (d : s.epochs.redis.Db)
      → s.epochs.redis.get_int64 (ws_epoch_latest_key c.room_id c.user_id) (rivals d)
        ≡ s.epochs.redis.get_int64 (ws_epoch_latest_key c.room_id c.user_id) d) where
  -- After a refresh that succeeds the epoch is current.
  refreshed :
      (d : s.epochs.redis.Db)
      → (refresh_connection_epoch s.epochs c.room_id c.user_id c.epoch d).0 ≡ ok tt
      → is_current_connection_epoch s.epochs c.room_id c.user_id c.epoch
          (rivals (refresh_connection_epoch s.epochs c.room_id c.user_id c.epoch d).1)
        ≡ ok true
  unfolding refresh_connection_epoch is_current_connection_epoch
  refreshed d h = elim (Bool-cases (not s.epochs.configured || leb_ℤ c.epoch (pos 0))) [
    | inl e ↦ rw (e) refl
    | inr e ↦ rw (e) (
        rw
          (apart _
            ∙ laws.set-get (ws_epoch_latest_key c.room_id c.user_id) c.epoch s.epochs.ttl d lives
                (rw (e) at h))
          (ap ok (eqb_ℤ_refl c.epoch)))
  ]

  acts :
      (r : Result Bool) (req : WsActionRequest) (w : World s)
      → r ≡ ok true
      → (act_if_current s others rivals m c r req w).0 ≢ superseded
  unfolding act_if_current
  acts (ok true) req w e h = cc
  acts (ok false) req w e h = cc
  acts (err x) req w e h = cc

  after_refresh-acts :
      (x : Result (Unit {0}) × s.epochs.redis.Db) (req : WsActionRequest) (w : World s)
      → (x.0 ≡ ok tt
          → is_current_connection_epoch s.epochs c.room_id c.user_id c.epoch (rivals x.1) ≡ ok true)
      → (after_refresh s others rivals m c x req w).0 ≢ superseded
  unfolding after_refresh
  after_refresh-acts (ok y, d) req w k = acts _ req _ (k refl)
  after_refresh-acts (err e, d) req w k = λ h. cc

  read_action-acts :
      (message : Result WsActionRequest) (w : World s)
      → (read_action s others rivals m c message w).0 ≢ superseded
  unfolding read_action
  read_action-acts (err e) w = λ h. cc
  read_action-acts (ok req) w = after_refresh-acts _ req w (refreshed w.epochs)

  unless_limited-acts :
      (message : Result WsActionRequest) (x : Result (RateLimitResult s.floats) × World s)
      → (unless_limited s others rivals m c message x).0 ≢ superseded
  unless_limited-acts message (err e, w) = λ h. cc
  unless_limited-acts message (ok r, w) = elim (Bool-cases (not r.allowed)) [
    | inl e ↦ rw (e) (λ h. cc)
    | inr e ↦ rw (e) (read_action-acts message w)
  ]

  -- No message is refused as that of a superseded connection, whatever epochs were registered before it, if
  -- no other connection of the player in the room writes to Redis between the refresh and the check.
  pub receive-ne-superseded :
      (now_ms : ℤ) (message : Result WsActionRequest) (w : World s)
      → (receive s others rivals m c now_ms message w).0 ≢ superseded
  unfolding receive
  receive-ne-superseded now_ms message w = elim (Bool-cases (not s.limiter)) [
    | inl e ↦ rw (e) (read_action-acts message w)
    | inr e ↦ rw (e) (unless_limited-acts message _)
  ]
