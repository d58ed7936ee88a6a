-- ===== src/Limits/Allowed.antt =====
-- What the decisions of backend/usecase/rate_limit_usecase.go mean.
use blackjack.Prelude.{
  String, str_eq, eq_iff, ◌≡◌, refl, sym, subst, Bool, true, false, Bool-cases, ◌⊎◌, inl, inr,
  if◌then◌else◌,
}
use blackjack.Prelude.Int.{ℤ}
use blackjack.Prelude.Result.{Result, ok, err, ok_unique, ok≢err}
use blackjack.Limits.Keys.{rate_limit_email_key, ip_bucket, email_bucket}
use blackjack.Limits.Allow.{
  Floats, RateLimitRepository, RateLimitDecision, allow_username, after_ip, after_email,
}

module _ (f : Floats) (repo : RateLimitRepository f) (to_lower : String → String) where
  -- The bucket of a key answered the request: `yes` or no, with the tokens that are left, and the database
  -- that it left.
  abbrev pub Answered :
      String → f.Float64 → f.Float64 → ℤ → repo.Db → Bool → f.Float64 → repo.Db → Type 0
  Answered key rate capacity now_ms db answer rem db' =
      (retry : ℤ) × (repo.allow key rate capacity f.one now_ms db ≡ (ok (answer, rem, retry), db'))

  -- What an answer to an attempt means: the bucket of the address refused it and the other was not
  -- asked, or it allowed it and there is no name, or it allowed it and the bucket of the name decided.
  abbrev pub Decided :
      String
      → String
      → String
      → f.Float64
      → f.Float64
      → ℤ
      → repo.Db
      → RateLimitDecision f
      → repo.Db
      → Type 0
  Decided action ip email rate capacity now_ms db d db' =
      ((d.allowed ≡ false)
        × Answered (ip_bucket action ip) rate capacity now_ms db false d.remaining db')
      ⊎ ((d.allowed ≡ true)
          × (email ≡ "")
          × Answered (ip_bucket action ip) rate capacity now_ms db true d.remaining db')
      ⊎ (rem : f.Float64) × (rem2 : f.Float64) × (db1 : repo.Db) × Answered (ip_bucket action ip)
          rate capacity now_ms db true rem db1
        × Answered (email_bucket action email) rate capacity now_ms db1 d.allowed rem2 db'
        × (d.remaining ≡ (if d.allowed then (if f.less rem2 rem then rem2 else rem) else rem2))

  after_email-Decided :
      (action ip email : String) (rate capacity : f.Float64) (now_ms : ℤ) (db db1 : repo.Db)
      (rem : f.Float64) (d : RateLimitDecision f) (r : Result (Bool × f.Float64 × ℤ) × repo.Db)
      → Answered (ip_bucket action ip) rate capacity now_ms db true rem db1
      → repo.allow (email_bucket action email) rate capacity f.one now_ms db1 ≡ r
      → (after_email f repo to_lower action rem r).0 ≡ ok d
      → Decided action ip email rate capacity now_ms db d
          (after_email f repo to_lower action rem r).1
  unfolding after_email
  after_email-Decided action ip email rate capacity now_ms db db1 rem d (err e, db2) p q h =
      absurd (ok≢err (sym h))
  after_email-Decided action ip email rate capacity now_ms db db1 rem d
        (ok (false, rem2, retry2), db2) p q h =
      subst (λ x. Decided action ip email rate capacity now_ms db x db2) (ok_unique refl h)
        (inr (inr (rem, rem2, db1, p, (retry2, q), refl)))
  after_email-Decided action ip email rate capacity now_ms db db1 rem d
        (ok (true, rem2, retry2), db2) p q h =
      subst (λ x. Decided action ip email rate capacity now_ms db x db2) (ok_unique refl h)
        (inr (inr (rem, rem2, db1, p, (retry2, q), refl)))

  after_ip-Decided :
      (action ip email : String) (rate capacity : f.Float64) (now_ms : ℤ) (db : repo.Db)
      (d : RateLimitDecision f) (r : Result (Bool × f.Float64 × ℤ) × repo.Db)
      → repo.allow (ip_bucket action ip) rate capacity f.one now_ms db ≡ r
      → (after_ip f repo to_lower action email rate capacity now_ms r).0 ≡ ok d
      → Decided action ip email rate capacity now_ms db d
          (after_ip f repo to_lower action email rate capacity now_ms r).1
  unfolding after_ip
  after_ip-Decided action ip email rate capacity now_ms db d (err e, db1) p h =
      absurd (ok≢err (sym h))
  after_ip-Decided action ip email rate capacity now_ms db d (ok (false, rem, retry), db1) p h =
      subst (λ x. Decided action ip email rate capacity now_ms db x db1) (ok_unique refl h)
        (inl (refl, (retry, p)))
  after_ip-Decided action ip email rate capacity now_ms db d (ok (true, rem, retry), db1) p h =
      elim (Bool-cases (str_eq email "")) [
        | inl e ↦ rw (e) (
            subst (λ x. Decided action ip email rate capacity now_ms db x db1)
              (ok_unique refl (rw (e) at h)) (inr (inl (refl, (eq_iff email "").0 e, (retry, p)))))
        | inr e ↦ rw (e) (
            after_email-Decided action ip email rate capacity now_ms db db1 rem d
              (repo.allow (email_bucket action email) rate capacity f.one now_ms db1) (retry, p)
              refl (rw (e) at h))
      ]

  -- An attempt that is answered was refused by the bucket of its address, and then the bucket of the name
  -- was not asked, or allowed by it with no name given, or allowed by it and decided by the bucket of the
  -- name, with the smaller number of tokens left when both allow it.
  pub allow_username-Decided :
      (action ip email : String) (rate capacity : f.Float64) (now_ms : ℤ) (db : repo.Db)
      (d : RateLimitDecision f)
      → (allow_username f repo to_lower action ip email rate capacity now_ms db).0 ≡ ok d
      → Decided action ip
          (rate_limit_email_key to_lower email)
          rate
          capacity
          now_ms
          db
          d
          (allow_username f repo to_lower action ip email rate capacity now_ms db).1
  unfolding allow_username
  allow_username-Decided action ip email rate capacity now_ms db d h =
      after_ip-Decided action ip (rate_limit_email_key to_lower email) rate capacity now_ms db d
        (repo.allow (ip_bucket action ip) rate capacity f.one now_ms db) refl h
