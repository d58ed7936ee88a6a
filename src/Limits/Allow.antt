-- ===== src/Limits/Allow.antt =====
-- backend/usecase/rate_limit_usecase.go: the decisions. Numbers of tokens are floating-point numbers,
-- a parameter with its order; the store of the buckets is the port of
-- backend/repository/rate_limit_repository.go.
use blackjack.Prelude.{ℕ, String, str_eq, Bool, true, false, if◌then◌else◌}
use Prim.Native.String.{◌++◌}
use blackjack.Prelude.Int.{ℤ, pos, times64}
use blackjack.Prelude.Result.{Result, ok, err, ◌>>=◌}
use blackjack.Store.{Write}
use blackjack.Limits.Keys.{rate_limit_email_key, ip_bucket, email_bucket, tasks_bucket}

-- float64 with the order `<` and the constants that the code names.
pub record Floats : Type 1 where
  pub Float64 : Type 0
  pub less : Float64 → Float64 → Bool
  pub one : Float64
  pub five : Float64
  pub twenty : Float64

-- RateLimitRepository: the key, the rate, the capacity, the cost and the time in milliseconds.
pub record RateLimitRepository (f : Floats) : Type 1 where
  pub Db : Type 0
  pub allow : String → f.Float64 → f.Float64 → f.Float64 → ℤ → Write Db (Bool × f.Float64 × ℤ)

pub record RateLimitResult (f : Floats) : Type 0 where
  pub allowed : Bool
  pub tokens : f.Float64
  pub retry_after_ms : ℤ

pub record RateLimitDecision (f : Floats) : Type 0 where
  pub allowed : Bool
  pub remaining : f.Float64
  pub retry_after : ℤ
  pub limit_name : String

-- time.Millisecond in nanoseconds.
abbrev pub millisecond : ℕ
millisecond = 1000000

module _ (f : Floats) (repo : RateLimitRepository f) (to_lower : String → String) where
  abbrev Answer : Type 0
  Answer = Bool × f.Float64 × ℤ

  unfoldable pub allow : String → ℤ → Write repo.Db (RateLimitResult f)
  allow key now_ms db =
      let (r, db') = repo.allow key f.five f.twenty f.one now_ms db in
      (
        r >>= λ (allowed, tokens, retry_after_ms).
            ok (record { allowed = allowed; tokens = tokens; retry_after_ms = retry_after_ms }),
        db',
      )

  unfoldable pub allow_tasks : ℕ → ℤ → Write repo.Db (RateLimitDecision f)
  allow_tasks user_id now_ms db =
      let (r, db') = repo.allow (tasks_bucket user_id) f.five f.twenty f.one now_ms db in
      (
        r >>= λ (allowed, rem, retry). ok (record {
          allowed = allowed;
          remaining = rem;
          retry_after = times64 retry millisecond;
          limit_name = "tasks:user";
        }),
        db',
      )

  abbrev refused : String → f.Float64 → ℤ → RateLimitDecision f
  refused name rem retry = record {
    allowed = false;
    remaining = rem;
    retry_after = times64 retry millisecond;
    limit_name = name;
  }

  abbrev granted : String → f.Float64 → RateLimitDecision f
  granted name rem = record {
    allowed = true;
    remaining = rem;
    retry_after = pos 0;
    limit_name = name;
  }

  -- The answer for the name, after that for the address allowed with `rem` tokens left.
  unfoldable pub after_email :
      String → f.Float64 → Result Answer × repo.Db → Result (RateLimitDecision f) × repo.Db
  after_email action rem (err e, db) = (err e, db)
  after_email action rem (ok (false, rem2, retry2), db) =
      (ok (refused (action ++ ":email") rem2 retry2), db)
  after_email action rem (ok (true, rem2, retry2), db) =
      (ok (granted action (if f.less rem2 rem then rem2 else rem)), db)

  unfoldable pub after_ip :
      String
      → String
      → f.Float64
      → f.Float64
      → ℤ
      → Result Answer × repo.Db
      → Result (RateLimitDecision f) × repo.Db
  unfolding after_email
  after_ip action email rate capacity now_ms (err e, db) = (err e, db)
  after_ip action email rate capacity now_ms (ok (false, rem, retry), db) =
      (ok (refused (action ++ ":ip") rem retry), db)
  after_ip action email rate capacity now_ms (ok (true, rem, retry), db) =
      if str_eq email ""
      then (ok (granted (action ++ ":ip") rem), db)
      else after_email action rem
          (repo.allow (email_bucket action email) rate capacity f.one now_ms db)

  unfoldable pub allow_username :
      String → String → String → f.Float64 → f.Float64 → ℤ → Write repo.Db (RateLimitDecision f)
  unfolding after_ip
  allow_username action ip email rate capacity now_ms db =
      after_ip action (rate_limit_email_key to_lower email) rate capacity now_ms
        (repo.allow (ip_bucket action ip) rate capacity f.one now_ms db)

  unfoldable pub allow_signup : String → String → ℤ → Write repo.Db (RateLimitDecision f)
  allow_signup ip email now_ms db = allow_username "signup" ip email f.one f.five now_ms db

  unfoldable pub allow_login : String → String → ℤ → Write repo.Db (RateLimitDecision f)
  allow_login ip email now_ms db = allow_username "login" ip email f.one f.five now_ms db
