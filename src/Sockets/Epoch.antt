-- ===== src/Sockets/Epoch.antt =====
-- The connection epochs of backend/controller/room_ws_controller.go. The Redis server is a parameter.
use Prim.Native.String.{◌++◌}
use blackjack.Prelude.{
  ℕ, ◌*◌, ◌<◌, String, ◌≡◌, ◌≢◌, Bool, true, false, not, ◌||◌, Option, none, some, if◌then◌else◌,
}
use blackjack.Prelude.Int.{ℤ, pos, pos_part, leb_ℤ, eqb_ℤ, ◌<ℤ◌, ◌≤ℤ◌}
use blackjack.Prelude.Result.{Error, ok, err, ◌>>=◌}
use blackjack.Store.{Read, Write}
use blackjack.Usecase.Service.{◌>>>=◌, ◌>>>◌, lift}

-- INCR, SET with a time to live in nanoseconds, and GET as an int64; an absent key (redis.Nil) is `none`.
pub record Redis : Type 1 where
  pub Db : Type 0
  pub incr : String → Write Db ℤ
  pub set : String → ℤ → ℕ → Write Db (Unit {0})
  pub get_int64 : String → Read Db (Option ℤ)

-- What Redis documents: a value that was set with a time to live can be read at once, INCR stores what it
-- answers, which is above the number that stood there and does not fall where the answer is lost, and a
-- command leaves the other keys alone.
pub record IsRedis (r : Redis) : Type 0 where
  pub set-get :
      (key : String) (v : ℤ) (ttl : ℕ) (db : r.Db)
      → 0 < ttl
      → (r.set key v ttl db).0 ≡ ok tt
      → r.get_int64 key (r.set key v ttl db).1 ≡ ok (some v)
  pub set-other :
      (key other : String) (v : ℤ) (ttl : ℕ) (db : r.Db)
      → other ≢ key
      → r.get_int64 other (r.set key v ttl db).1 ≡ r.get_int64 other db
  pub incr-get :
      (key : String) (n : ℤ) (db : r.Db)
      → (r.incr key db).0 ≡ ok n
      → r.get_int64 key (r.incr key db).1 ≡ ok (some n)
  pub incr_grows :
      (key : String) (v n : ℤ) (db : r.Db)
      → r.get_int64 key db ≡ ok (some v)
      → (r.incr key db).0 ≡ ok n
      → v <ℤ n
  pub incr_lost :
      (key : String) (v : ℤ) (e : Error) (db : r.Db)
      → r.get_int64 key db ≡ ok (some v)
      → (r.incr key db).0 ≡ err e
      → (w : ℤ) × (r.get_int64 key (r.incr key db).1 ≡ ok (some w)) × (v ≤ℤ w)
  pub incr-other :
      (key other : String) (db : r.Db)
      → other ≢ key
      → r.get_int64 other (r.incr key db).1 ≡ r.get_int64 other db

-- `wsEpochRedis` and `wsEpochTTL`; `configured` is false where the client is nil.
pub record EpochStore : Type 1 where
  pub redis : Redis
  pub configured : Bool
  pub ttl : ℕ

abbrev pub default_ttl : ℕ
default_ttl = 120 * 1000000000

-- `ConfigureWebSocketConnectionEpochStore`, with `none` for a nil client.
abbrev pub configure_epoch_store : Redis → Bool → ℤ → EpochStore
configure_epoch_store redis given ttl = record {
  redis = redis;
  configured = given;
  ttl = if leb_ℤ ttl (pos 0) then default_ttl else pos_part ttl;
}

abbrev pub user_prefix : String → String → String
user_prefix room_id user_id = "ws:room:" ++ room_id ++ ":user:" ++ user_id

unfoldable pub ws_epoch_counter_key : String → String → String
ws_epoch_counter_key room_id user_id = user_prefix room_id user_id ++ ":epoch_counter"

unfoldable pub ws_epoch_latest_key : String → String → String
ws_epoch_latest_key room_id user_id = user_prefix room_id user_id ++ ":latest_epoch"

abbrev pub is_epoch : ℤ → Option ℤ → Bool
is_epoch epoch none = false
is_epoch epoch (some current) = eqb_ℤ current epoch

module _ (s : EpochStore) where
  unfoldable pub register_connection_epoch : String → String → Write s.redis.Db ℤ
  register_connection_epoch room_id user_id db =
      if not s.configured
      then (ok (pos 0), db)
      else (s.redis.incr (ws_epoch_counter_key room_id user_id) >>>= λ epoch.
            s.redis.set (ws_epoch_latest_key room_id user_id) epoch s.ttl >>> lift (ok epoch))
          db

  unfoldable pub refresh_connection_epoch : String → String → ℤ → Write s.redis.Db (Unit {0})
  refresh_connection_epoch room_id user_id epoch db =
      if not s.configured || leb_ℤ epoch (pos 0)
      then (ok tt, db)
      else s.redis.set (ws_epoch_latest_key room_id user_id) epoch s.ttl db

  unfoldable pub is_current_connection_epoch : String → String → ℤ → Read s.redis.Db Bool
  is_current_connection_epoch room_id user_id epoch db =
      if not s.configured || leb_ℤ epoch (pos 0)
      then ok true
      else s.redis.get_int64 (ws_epoch_latest_key room_id user_id) db >>= λ current.
          ok (is_epoch epoch current)
