-- ===== src/Limits/Bucket.antt =====
-- backend/repository/rate_limit_repository.go: the script of the token bucket, which Redis runs as one step,
-- and `Allow`, which reads its answer. Floating-point numbers and Redis are parameters.
use Prim.Native.String.{◌++◌}
use blackjack.Prelude.{
  String, Bool, true, false, not, ◌||◌, List, [], ◌∷◌, Option, none, some, if◌then◌else◌,
}
use blackjack.Prelude.Int.{ℤ, pos, ltb_ℤ, eqb_ℤ}
use blackjack.Prelude.Result.{Error, Result, ok, err, ◌>>=◌}
use blackjack.Store.{Write}
use blackjack.Limits.Allow.{Floats, RateLimitRepository}

-- The operations of float64, which is also the number type of Lua. `of_int` rounds to a float, `ceil` and
-- `truncate` give whole numbers. `kept` is what a number is when it is read back from a hash, into which
-- Redis writes it with its first digits.
pub record Arithmetic (f : Floats) : Type 0 where
  pub plus : f.Float64 → f.Float64 → f.Float64
  pub minus : f.Float64 → f.Float64 → f.Float64
  pub times : f.Float64 → f.Float64 → f.Float64
  pub over : f.Float64 → f.Float64 → f.Float64
  pub min : f.Float64 → f.Float64 → f.Float64
  pub of_int : ℤ → f.Float64
  pub ceil : f.Float64 → ℤ
  pub truncate : f.Float64 → ℤ
  pub kept : f.Float64 → f.Float64
  pub parse_int : String → Result ℤ
  pub parse_float : String → Result f.Float64

-- The hashes with the fields `tokens` and `ts`. `eval` runs a script, or fails.
pub record Hashes (f : Floats) : Type 1 where
  pub Db : Type 0
  pub hmget : String → Db → Option f.Float64 × Option f.Float64
  pub hmset : String → f.Float64 → f.Float64 → Db → Db
  pub pexpire : String → ℤ → Db → Db
  pub eval : {A : Type 0} → (Db → A × Db) → Write Db A

-- A value of an answer of Redis.
pub data Any (f : Floats) : Type 0 where
  int64 : ℤ → Any f
  float64 : f.Float64 → Any f
  text : String → Any f
  other_type : String → Any f

abbrev pub or_number : {A : Type 0} → A → Option A → A
or_number a none = a
or_number a (some b) = b

-- fmt.Errorf with %w: the text of the wrapped error follows.
abbrev pub wrapped : {A : Type 0} → (Error → Error) → Result A → Result A
wrapped f (ok a) = ok a
wrapped f (err e) = err (f e)

module _ (f : Floats) (a : Arithmetic f) where
  abbrev zero_number : f.Float64
  zero_number = a.of_int (pos 0)

  -- `x <= 0` on numbers that are not NaN.
  abbrev not_positive : f.Float64 → Bool
  not_positive x = not (f.less zero_number x)

  -- The tokens at the time `now`: a new bucket is full, and time that runs backwards adds nothing.
  unfoldable pub refilled :
      f.Float64 → f.Float64 → f.Float64 → Option f.Float64 × Option f.Float64 → f.Float64
  refilled rate capacity now (tokens, ts) =
      let delta = a.minus now (or_number now ts) in
      let elapsed = if f.less delta zero_number then zero_number else delta in
      a.min capacity
        (a.plus (or_number capacity tokens) (a.times (a.over elapsed (a.of_int (pos 1000))) rate))

  -- The tokens that are left, and whether the cost was paid.
  unfoldable pub spent : f.Float64 → f.Float64 → Bool × f.Float64
  spent tokens cost = if f.less tokens cost then (false, tokens) else (true, a.minus tokens cost)

  unfoldable pub retry_after : f.Float64 → f.Float64 → f.Float64 → ℤ
  retry_after rate tokens cost =
      if f.less tokens cost
      then a.ceil (a.times (a.over (a.minus cost tokens) rate) (a.of_int (pos 1000)))
      else pos 0

  unfoldable pub ttl_ms : f.Float64 → f.Float64 → ℤ
  ttl_ms rate capacity =
      let ttl = a.ceil (a.times (a.over capacity rate) (a.of_int (pos 2000))) in
      if ltb_ℤ ttl (pos 1000) then pos 1000 else ttl

  abbrev pub flag : Bool → ℤ
  flag true = pos 1
  flag false = pos 0

  module _ (h : Hashes f) where
    -- `tokenBucketScript`. A number of Lua goes to the client without its fraction.
    unfoldable pub token_bucket_script :
        String → f.Float64 → f.Float64 → f.Float64 → f.Float64 → h.Db → List (Any f) × h.Db
    unfolding refilled spent retry_after ttl_ms
    token_bucket_script key rate capacity cost now db =
        if not_positive rate || not_positive capacity || not_positive cost
        then (int64 (pos 0) ∷ int64 (pos 0) ∷ int64 (pos 0) ∷ [], db)
        else (let tokens = refilled rate capacity now (h.hmget key db) in
            let (allowed, left) = spent tokens cost in
            (
              int64 (flag allowed)
                  ∷ int64 (a.truncate left)
                  ∷ int64 (retry_after rate tokens cost)
                  ∷ [],
              h.pexpire key (ttl_ms rate capacity) (h.hmset key left now db),
            ))

    unfoldable pub to_int64 : Any f → Result ℤ
    to_int64 (int64 n) = ok n
    to_int64 (float64 x) = ok (a.truncate x)
    to_int64 (text s) = a.parse_int s
    to_int64 (other_type name) = err (Error.other ("unsupported int64 type " ++ name))

    unfoldable pub to_float64 : Any f → Result f.Float64
    to_float64 (float64 x) = ok x
    to_float64 (int64 n) = ok (a.of_int n)
    to_float64 (text s) = a.parse_float s
    to_float64 (other_type name) = err (Error.other ("unsupported float64 type " ++ name))

    -- `wrap` adds the words of the code to an error.
    unfoldable pub read_answer :
        (String → Error → Error) → List (Any f) → Result (Bool × f.Float64 × ℤ)
    unfolding to_int64 to_float64
    read_answer wrap (x ∷ y ∷ z ∷ []) = do
      allowed ← wrapped (wrap "parse allowed: ") (to_int64 x)
      tokens ← wrapped (wrap "parse tokens: ") (to_float64 y)
      retry ← wrapped (wrap "parse retry_after_ms: ") (to_int64 z)
      ok (eqb_ℤ allowed (pos 1), tokens, retry)
    read_answer wrap values = err (Error.other "unexpected lua result")

    abbrev pub read_from :
        (String → Error → Error)
        → Result (List (Any f)) × h.Db
        → Result (Bool × f.Float64 × ℤ) × h.Db
    read_from wrap (r, db) = (r >>= read_answer wrap, db)

    -- `connected` is false where the client is nil. The numbers go to the script as decimal texts that denote
    -- them exactly.
    unfoldable pub allow :
        Bool
        → (String → Error → Error)
        → String
        → f.Float64
        → f.Float64
        → f.Float64
        → ℤ
        → Write h.Db (Bool × f.Float64 × ℤ)
    unfolding read_answer
    allow connected wrap key rate capacity cost now_ms db =
        if not connected
        then (err (Error.other "redis client is nil"), db)
        else read_from wrap
            (h.eval (token_bucket_script ("rate:" ++ key) rate capacity cost (a.of_int now_ms)) db)

    -- The implementation of the port of the rate limiter.
    abbrev pub redis_token_bucket : Bool → (String → Error → Error) → RateLimitRepository f
    redis_token_bucket connected wrap = record { Db = h.Db; allow = allow connected wrap }
