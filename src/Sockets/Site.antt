-- ===== src/Sockets/Site.antt =====
-- What a server has at hand for its WebSocket connections, the state that it changes, and the steps of
-- `RoomWS` of backend/controller/room_ws_controller.go, which end at the first refusal.
use blackjack.Prelude.{ℕ, String, ◌⊎◌, inl, inr, Bool, true, false, Option}
use blackjack.Prelude.Int.{ℤ}
use blackjack.Prelude.Result.{Error, Result, ok, err}
use blackjack.Accounts.Jwt.{Jwt}
use blackjack.Limits.Allow.{Floats, RateLimitRepository}
use blackjack.Usecase.Service.{Service}
use blackjack.Web.Errors.{Failure}
use blackjack.Web.Hub.{Hub}
use blackjack.Sockets.Epoch.{EpochStore}

-- RoomController with what it reaches. `limiter` is false where the limiter is nil; `mark_disconnected` is
-- what `wsShouldMarkDisconnected` reads.
pub record Site : Type 1 where
  pub service : Service
  pub epochs : EpochStore
  pub floats : Floats
  pub buckets : RateLimitRepository floats
  pub limiter : Bool
  pub to_lower : String → String
  pub jwt : Jwt
  pub secret : String
  pub mark_disconnected : Bool

-- The hub of this server, the epochs in Redis, the buckets of the limiter and the database.
pub record World (s : Site) : Type 0 where
  pub hub : Hub
  pub epochs : s.epochs.redis.Db
  pub buckets : s.buckets.Db
  pub db : s.service.store.Db

-- A connection as its goroutine knows it.
pub record Connection : Type 0 where
  pub room_id : String
  pub user_id : String
  pub conn : ℕ
  pub epoch : ℤ

-- How an attempt ends: answered before the upgrade, with the value of X-RateLimit-Retry-After-Ms if any;
-- not upgraded; closed in silence; closed after an ERROR event with its retry_after_ms if any; or in the
-- hub, with the older connection to close, the game session for the audit log and the token's id.
pub data Opened : Type 0 where
  answered : Failure → Option ℤ → Opened
  not_upgraded : Error → Opened
  closed : Opened
  refused : String → String → Option ℤ → Opened
  connected : Connection → Option ℕ → Option String → String → Opened

module _ (s : Site) where
  abbrev pub Step : Type 0 → Type 0
  Step A = World s → (Opened ⊎ A) × World s

  abbrev pub then_step :
      {A B : Type 0} → (A → Step B) → (Opened ⊎ A) × World s → (Opened ⊎ B) × World s
  then_step f (inl o, w) = (inl o, w)
  then_step f (inr a, w) = f a w

  abbrev pub stop_if : (b : Bool) → Opened → Step (Unit {0})
  stop_if true o w = (inl o, w)
  stop_if false o w = (inr tt, w)

  -- `if err != nil { return … }`
  abbrev pub or_stop : {A : Type 0} → Result A → (Error → Opened) → Step A
  or_stop (ok a) stop w = (inr a, w)
  or_stop (err e) stop w = (inl (stop e), w)

infixl 5 ◌>>=◌ ◌>>◌
abbrev pub ◌>>=◌ : {s : Site} {A B : Type 0} → Step s A → (A → Step s B) → Step s B
◌>>=◌ {s} m f w = then_step s f (m w)

abbrev pub ◌>>◌ : {s : Site} {A B : Type 0} → Step s A → Step s B → Step s B
m >> k = m >>= λ _. k
