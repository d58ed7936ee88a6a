-- ===== src/Limits/Capacity.antt =====
-- What the token buckets of backend/repository/rate_limit_repository.go hold.
use blackjack.Prelude.{
  String, str_eq, eq_iff, ◌≡◌, ◌≢◌, sym, ap, subst, ◌∙◌, Bool, true, false, not, ◌||◌, Bool-cases,
  ||-false, true≢false, ◌⊎◌, inl, inr, Option, none, some, arith,
}
use Prim.Native.String.{◌++◌}
use blackjack.Prelude.Int.{ℤ, pos}
use blackjack.Prelude.Result.{Error}
use blackjack.Limits.Allow.{Floats}
use blackjack.Limits.Bucket.{Arithmetic, Hashes, refilled, spent, token_bucket_script, allow}

-- What IEEE 754 gives for the numbers of the code: the minimum is not above its first argument, taking a
-- positive number away does not raise a number, and writing a number down and reading it back does not lift
-- it over a number that is kept exactly.
pub record IsArithmetic {f : Floats} (a : Arithmetic f) : Type 0 where
  pub min_below : (c x : f.Float64) → f.less c (a.min c x) ≡ false
  pub minus_below :
      (c x y : f.Float64)
      → f.less (a.of_int (pos 0)) y ≡ true
      → f.less c x ≡ false
      → f.less c (a.minus x y) ≡ false
  pub kept_below :
      (c x : f.Float64) → a.kept c ≡ c → f.less c x ≡ false → f.less c (a.kept x) ≡ false

-- What Redis documents: HMGET reads what HMSET wrote, a later HMSET of another key or a time to live leaves
-- it, and a script runs as one step, also where its answer is lost, or does not run.
pub record IsHashes {f : Floats} (a : Arithmetic f) (h : Hashes f) : Type 1 where
  pub hmset-hmget :
      (key : String) (tokens ts : f.Float64) (db : h.Db)
      → h.hmget key (h.hmset key tokens ts db) ≡ (some (a.kept tokens), some (a.kept ts))
  pub hmset-other :
      (key other : String) (tokens ts : f.Float64) (db : h.Db)
      → other ≢ key
      → h.hmget other (h.hmset key tokens ts db) ≡ h.hmget other db
  pub pexpire-hmget :
      (key other : String) (ttl : ℤ) (db : h.Db)
      → h.hmget other (h.pexpire key ttl db) ≡ h.hmget other db
  pub eval_once :
      {A : Type 0} (script : h.Db → A × h.Db) (db : h.Db)
      → ((h.eval script db).1 ≡ (script db).1) ⊎ ((h.eval script db).1 ≡ db)

-- The tokens of a bucket, if it has the field, are at most `c`.
abbrev pub Holds : (f : Floats) → f.Float64 → Option f.Float64 → Type 0
Holds f c none = Unit {0}
Holds f c (some t) = f.less c t ≡ false

module _ {f : Floats} (a : Arithmetic f) (h : Hashes f) (arithmetic : IsArithmetic a)
    (laws : IsHashes a h) where
  abbrev pub IsWithin : f.Float64 → String → h.Db → Type 0
  IsWithin c key db = Holds f c (h.hmget key db).0

  spent_within :
      (c tokens cost : f.Float64)
      → f.less (a.of_int (pos 0)) cost ≡ true
      → f.less c tokens ≡ false
      → f.less c (spent f a tokens cost).1 ≡ false
  unfolding spent
  spent_within c tokens cost positive below = elim (Bool-cases (f.less tokens cost)) [
    | inl e ↦ rw (e) below
    | inr e ↦ rw (e) (arithmetic.minus_below c tokens cost positive below)
  ]

  stored-IsWithin :
      (c left ts : f.Float64) (key other : String) (ttl : ℤ) (db : h.Db)
      → a.kept c ≡ c
      → f.less c left ≡ false
      → IsWithin c other db
      → IsWithin c other (h.pexpire key ttl (h.hmset key left ts db))
  stored-IsWithin c left ts key other ttl db exact below before =
      subst (Holds f c)
        (sym (ap tokens_of (laws.pexpire-hmget key other ttl (h.hmset key left ts db))))
        (elim (Bool-cases (str_eq other key)) [
          | inl e ↦
              subst (λ k. Holds f c (h.hmget k (h.hmset key left ts db)).0)
                (sym ((eq_iff other key).0 e))
                (subst (Holds f c) (sym (ap tokens_of (laws.hmset-hmget key left ts db)))
                  (arithmetic.kept_below c left exact below))
          | inr e ↦
              subst (Holds f c)
                (sym (
                  ap tokens_of (
                    laws.hmset-other key other left ts db
                      (λ k. true≢false (sym ((eq_iff other key).1 k) ∙ e)))))
                before
        ])
    where
      tokens_of : Option f.Float64 × Option f.Float64 → Option f.Float64
      tokens_of x = x.0

  refilled_within :
      (rate c now : f.Float64) (x : Option f.Float64 × Option f.Float64)
      → f.less c (refilled f a rate c now x) ≡ false
  unfolding refilled
  refilled_within rate c now (tokens, ts) = arithmetic.min_below c _

  script-IsWithin :
      (key other : String) (rate c cost now : f.Float64) (db : h.Db)
      → a.kept c ≡ c
      → IsWithin c other db
      → IsWithin c other (token_bucket_script f a h key rate c cost now db).1
  unfolding token_bucket_script
  script-IsWithin key other rate c cost now db exact before =
      elim (Bool-cases (not (f.less zero rate) || not (f.less zero c) || not (f.less zero cost))) [
        | inl e ↦ rw (e) before
        | inr e ↦ rw (e) (
            stored-IsWithin c _ now key other _ db exact
              (spent_within c _ cost
                (positive (||-false (not (f.less zero rate) || not (f.less zero c)) _ e).1)
                (refilled_within rate c now (h.hmget key db)))
              before)
      ]
    where
      zero : f.Float64
      zero = a.of_int (pos 0)

      positive : {b : Bool} → not b ≡ false → b ≡ true
      positive p = ground arith

  -- A decision of the limiter leaves every bucket with at most `c` tokens, if it had no more before and the
  -- decision was made with the capacity `c`, which a hash keeps exactly; also where it ends with an error.
  pub allow-IsWithin :
      (connected : Bool) (wrap : String → Error → Error) (key other : String)
      (rate c cost : f.Float64) (now_ms : ℤ) (db : h.Db)
      → a.kept c ≡ c
      → IsWithin c other db
      → IsWithin c other (allow f a h connected wrap key rate c cost now_ms db).1
  unfolding allow
  allow-IsWithin false wrap key other rate c cost now_ms db exact before = before
  allow-IsWithin true wrap key other rate c cost now_ms db exact before =
      ran (
        laws.eval_once (token_bucket_script f a h ("rate:" ++ key) rate c cost (a.of_int now_ms))
          db)
    where
      ran :
          ((h.eval (token_bucket_script f a h ("rate:" ++ key) rate c cost (a.of_int now_ms)) db).1
              ≡ (token_bucket_script f a h ("rate:" ++ key) rate c cost (a.of_int now_ms) db).1)
            ⊎ ((h.eval
                  (token_bucket_script f a h ("rate:" ++ key) rate c cost (a.of_int now_ms))
                  db).1
                ≡ db)
          → IsWithin c other
              (h.eval
                (token_bucket_script f a h ("rate:" ++ key) rate c cost (a.of_int now_ms))
                db).1
      ran (inl p) =
          subst (IsWithin c other) (sym p)
            (script-IsWithin ("rate:" ++ key) other rate c cost (a.of_int now_ms) db exact before)
      ran (inr p) = subst (IsWithin c other) (sym p) before
