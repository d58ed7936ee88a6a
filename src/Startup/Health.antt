-- ===== src/Startup/Health.antt =====
-- `healthHandler` of backend/main.go. What the three pings answer is given.
use blackjack.Prelude.{ℕ, String, List, [], ◌∷◌}
use blackjack.Prelude.Result.{Result, ok, err}
use blackjack.Web.Errors.{error_text}

-- The status code, and the keys of the JSON object with their values.
pub record Health : Type 0 where
  pub code : ℕ
  pub body : List (String × String)

abbrev pub ping_rate_limit_redis : Result (Unit {0}) → Health
ping_rate_limit_redis (err e) = record {
  code = 503;
  body =
      ("status", "unhealthy")
      ∷ ("database", "up")
      ∷ ("room_redis", "up")
      ∷ ("rate_limit_redis", "down")
      ∷ ("error", error_text e)
      ∷ [];
}
ping_rate_limit_redis (ok x) = record {
  code = 200;
  body =
      ("status", "healthy")
      ∷ ("database", "up")
      ∷ ("room_redis", "up")
      ∷ ("rate_limit_redis", "up")
      ∷ [];
}

abbrev pub ping_room_redis : Result (Unit {0}) → Result (Unit {0}) → Health
ping_room_redis (err e) rate_limit = record {
  code = 503;
  body =
      ("status", "unhealthy")
      ∷ ("database", "up")
      ∷ ("room_redis", "down")
      ∷ ("rate_limit_redis", "unknown")
      ∷ ("error", error_text e)
      ∷ [];
}
ping_room_redis (ok x) rate_limit = ping_rate_limit_redis rate_limit

-- The database, the Redis of the rooms and the Redis of the limiter, in this order.
unfoldable pub health_handler : Result (Unit {0}) → Result (Unit {0}) → Result (Unit {0}) → Health
health_handler (err e) room rate_limit = record {
  code = 503;
  body =
      ("status", "unhealthy")
      ∷ ("database", "down")
      ∷ ("redis", "unknown")
      ∷ ("error", error_text e)
      ∷ [];
}
health_handler (ok x) room rate_limit = ping_room_redis room rate_limit
