-- ===== src/Tests/Limits.antt =====
-- Witnesses for the properties of the rate limiter: one bucket for all keys, with whole tokens.
use Prim.Native.Nat.{◌/◌}
use blackjack.Prelude.{
  ℕ, ◌+◌, ◌*◌, ◌-◌, String, str_eq, eq_iff, eq_refl, ◌≡◌, ◌≢◌, refl, true, Bool-cases, inl, inr,
  Option, some, ltb, if◌then◌else◌, arith,
}
use blackjack.Limits.Bucket
use blackjack.Limits.Bucket.{Arithmetic, Hashes}
use blackjack.Limits.Capacity.{IsArithmetic, IsHashes, IsWithin, allow-IsWithin}
use blackjack.Prelude.Int.{pos, pos_part}
use blackjack.Prelude.Result.{ok}
use blackjack.Prelude.Space.{trim_space, trim_left, trim_right, is_space}
use blackjack.Limits.Keys.{rate_limit_ip_key, rate_limit_email_key, replace_all, remove_all}
use blackjack.Limits.Allow.{
  Floats, RateLimitRepository, RateLimitDecision, allow_username, after_ip, after_email,
}
use blackjack.Limits.Allowed

abbrev pub naturals : Floats
naturals = record { Float64 = ℕ; less = ltb; one = 1; five = 5; twenty = 20 }

abbrev pub bucket : RateLimitRepository naturals
bucket = record {
  Db = ℕ;
  allow = λ key rate capacity cost now db.
      (ok (ltb 0 db, db - 1, if ltb 0 db then pos 0 else pos 1000), db - 1);
}

abbrev let_in : RateLimitDecision naturals
let_in = record { allowed = true; remaining = 3; retry_after = pos 0; limit_name = "login" }

anna_may_try :
    (allow_username naturals bucket (λ s. s) "login" "10.0.0.1" " anna " 1 5 (pos 0) 5).0
    ≡ ok let_in
unfolding allow_username after_ip after_email rate_limit_email_key remove_all trim_space trim_left
    trim_right is_space
anna_may_try = refl

allow_username-Decided_example :
    Allowed.Decided naturals bucket
      (λ s. s)
      "login"
      "10.0.0.1"
      (rate_limit_email_key (λ s. s) " anna ")
      1
      5
      (pos 0)
      5
      let_in
      (allow_username naturals bucket (λ s. s) "login" "10.0.0.1" " anna " 1 5 (pos 0) 5).1
allow_username-Decided_example =
    Allowed.allow_username-Decided naturals bucket (λ s. s) "login" "10.0.0.1" " anna " 1 5 (pos 0)
      5 let_in anna_may_try

test : rate_limit_ip_key " 10.0.0.1" ≡ "10_0_0_1"
unfolding rate_limit_ip_key replace_all trim_space trim_left trim_right is_space
test = refl

abbrev whole : Arithmetic naturals
whole = record {
  plus = λ x y. x + y;
  minus = λ x y. x - y;
  times = λ x y. x * y;
  over = λ x y. x / y;
  min = λ x y. if ltb x y then x else y;
  of_int = pos_part;
  ceil = pos;
  truncate = pos;
  kept = λ x. x;
  parse_int = λ s. ok (pos 0);
  parse_float = λ s. ok 0;
}

whole_laws : IsArithmetic whole
whole_laws = record {
  min_below = λ c x. ground arith;
  minus_below = λ c x y positive below. ground arith;
  kept_below = λ c x exact below. below;
}

abbrev Buckets : Type 0
Buckets = String → Option ℕ × Option ℕ

abbrev store : String → ℕ → ℕ → Buckets → Buckets
store key tokens ts db other = if str_eq other key then (some tokens, some ts) else db other

abbrev hashes : Hashes naturals
hashes = record {
  Db = Buckets;
  hmget = λ key db. db key;
  hmset = store;
  pexpire = λ key ttl db. db;
  eval = λ script db. let (x, db') = script db in (ok x, db');
}

store_other :
    (key other : String) (tokens ts : ℕ) (db : Buckets)
    → other ≢ key
    → store key tokens ts db other ≡ db other
store_other key other tokens ts db differ = elim (Bool-cases (str_eq other key)) [
  | inl e ↦ absurd (differ ((eq_iff other key).0 e))
  | inr e ↦ rw (e) refl
]

hashes_laws : IsHashes whole hashes
hashes_laws = record {
  hmset-hmget = λ key tokens ts db. rw (eq_refl key) refl;
  hmset-other = store_other;
  pexpire-hmget = λ key other ttl db. refl;
  eval_once = λ script db. inl refl;
}

abbrev full : Buckets
full key = (some 5, some 0)

allow-IsWithin_example :
    IsWithin whole hashes whole_laws hashes_laws 5 "rate:k"
      (Bucket.allow naturals whole hashes true (λ words e. e) "k" 1 5 1 (pos 9000) full).1
allow-IsWithin_example =
    allow-IsWithin whole hashes whole_laws hashes_laws true (λ words e. e) "k" "rate:k" 1 5 1
      (pos 9000) full refl refl
