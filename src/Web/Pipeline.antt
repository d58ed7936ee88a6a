-- ===== src/Web/Pipeline.antt =====
-- The chain of middlewares before every handler under /api (`Register` of backend/router/game_router.go). The
-- telemetry, the request id and the audit log change neither the answer nor the database and are left out.
use Prim.Native.String.{◌++◌}
use blackjack.Prelude.{
  String, str_eq, eq_iff, ◌≡◌, ◌≢◌, refl, ap, Bool, true, false, Bool-cases, ◌⊎◌, inl, inr, Option,
  none, some,
}
use blackjack.Prelude.Int.{ℤ}
use blackjack.Prelude.Result.{Result, ok, err}
use blackjack.Model.Room.{Time}
use blackjack.Accounts.Jwt.{Claims}
use blackjack.Limits.Allow.{Floats, RateLimitRepository, RateLimitResult, allow}
use blackjack.Web.Errors.{Failure}
use blackjack.Web.Middleware.{
  HttpRequest, needs_csrf, has_bearer_auth, limited, csrf_middleware, csrf_middleware-passes,
  rate_limit_middleware,
}
use blackjack.Web.Identity.{
  EchoJwt, skip_jwt_auth, set_auth_context_from_token, authenticated, auth_middleware,
}

-- A middleware answers, with X-RateLimit-Retry-After-Ms if any, or the handler does.
pub data Served (A : Type 0) : Type 0 where
  blocked : Failure → Option ℤ → Served A
  handled : A → Served A

pub record Gate : Type 1 where
  pub echo_jwt : EchoJwt
  pub secret : String
  pub floats : Floats
  pub buckets : RateLimitRepository floats
  pub to_lower : String → String
  pub has_limiter : Bool
  pub equal_fold : String → String → Bool

module _ (g : Gate) {Db A : Type 0} (handler : HttpRequest → Db → A × Db) where
  abbrev handle_with : HttpRequest → Db → Served A × Db
  handle_with r db = let (a, db') = handler r db in (handled a, db')

  unfoldable pub after_csrf : Option Failure → HttpRequest → Db → Served A × Db
  after_csrf (some f) r db = (blocked f none, db)
  after_csrf none r db = handle_with r db

  unfoldable pub after_rate_limit :
      Option (Failure × Option ℤ) × g.buckets.Db → HttpRequest → Db → Served A × g.buckets.Db × Db
  unfolding after_csrf
  after_rate_limit (some (f, retry), b) r db = (blocked f retry, b, db)
  after_rate_limit (none, b) r db =
      let (a, db') = after_csrf (csrf_middleware g.equal_fold r) r db in (a, b, db')

  unfoldable pub after_auth :
      Failure ⊎ HttpRequest → ℤ → g.buckets.Db → Db → Served A × g.buckets.Db × Db
  unfolding after_rate_limit
  after_auth (inl f) now_ms b db = (blocked f none, b, db)
  after_auth (inr r) now_ms b db =
      after_rate_limit
        (rate_limit_middleware g.floats g.buckets g.to_lower g.has_limiter r now_ms b) r db

  unfoldable pub api : HttpRequest → Time → ℤ → g.buckets.Db → Db → Served A × g.buckets.Db × Db
  unfolding after_auth
  api r now now_ms b db = after_auth (auth_middleware g.echo_jwt g.secret now r) now_ms b db

  -- The routes that need no log-in.
  abbrev pub IsOpenRoute : String → Type 0
  IsOpenRoute path =
      (path ≡ "/api/auth/login")
      ⊎ ((path ≡ "/api/auth/signup") ⊎ ((path ≡ "/ws/rooms/:id") ⊎ (path ≡ "/api/ws/rooms/:id")))

  -- The request that the handler is given: that of a route without log-in as it came, or one with a token
  -- that is accepted, with the token's subject as its user; a token without a subject names nobody.
  abbrev pub IsIdentified : HttpRequest → Time → HttpRequest → Type 0
  IsIdentified r now seen =
      (IsOpenRoute r.path × (seen ≡ r))
      ⊎ ((claims : Claims) × (g.echo_jwt g.secret r.authorization now ≡ ok claims)
          × (((claims.subject ≡ "") × (seen ≡ r)) ⊎ (seen ≡ record r { user_id = claims.subject })))

  -- The request is not limited: there is no limiter or no user, or the limiter allows the user's bucket.
  abbrev pub IsAllowed : HttpRequest → ℤ → g.buckets.Db → Type 0
  IsAllowed seen now_ms b =
      (g.has_limiter ≡ false)
      ⊎ ((seen.user_id ≡ "")
          ⊎ ((result : RateLimitResult g.floats) × ((allow g.floats g.buckets g.to_lower
                  ("http:" ++ seen.user_id) now_ms b).0
                ≡ ok result)
              × (result.allowed ≡ true)))

  -- The request is not forged: it needs no token, has a bearer token, or sends that of its cookie.
  abbrev pub IsGenuine : HttpRequest → Type 0
  IsGenuine seen =
      (needs_csrf seen ≡ false)
      ⊎ ((has_bearer_auth g.equal_fold seen ≡ true)
          ⊎ ((seen.csrf_cookie ≡ some seen.csrf_header) × (seen.csrf_header ≢ "")))

  -- What a request has led to: the handler ran on an identified request that is neither limited nor forged, or
  -- it did not run and the database is as it was.
  abbrev pub IsGuarded :
      HttpRequest → Time → ℤ → g.buckets.Db → Db → Served A × g.buckets.Db × Db → Type 0
  IsGuarded r now now_ms b db (blocked f retry, b', db') = db' ≡ db
  IsGuarded r now now_ms b db (handled a, b', db') =
      (seen : HttpRequest) × IsIdentified r now seen
      × IsAllowed seen now_ms b
      × IsGenuine seen
      × ((a, db') ≡ handler seen db)

  limited-IsAllowed :
      (x : Result (RateLimitResult g.floats) × g.buckets.Db)
      → (limited x).0 ≡ none
      → (result : RateLimitResult g.floats) × (x.0 ≡ ok result) × (result.allowed ≡ true)
  limited-IsAllowed (err e, b) h = cc
  limited-IsAllowed (ok result, b) h = elim (Bool-cases result.allowed) [
    | inl e ↦ (result, refl, e)
    | inr e ↦ cc (rw e at h)
  ]

  rate_limit_middleware-IsAllowed :
      (seen : HttpRequest) (now_ms : ℤ) (b : g.buckets.Db)
      → (rate_limit_middleware g.floats g.buckets g.to_lower g.has_limiter seen now_ms b).0 ≡ none
      → IsAllowed seen now_ms b
  unfolding rate_limit_middleware
  rate_limit_middleware-IsAllowed seen now_ms b h = elim (Bool-cases g.has_limiter) [
    | inr off ↦ inl off
    | inl on ↦ elim (Bool-cases (str_eq seen.user_id "")) [
      | inl nobody ↦ inr (inl ((eq_iff seen.user_id "").0 nobody))
      | inr known ↦ inr (
          inr (
            limited-IsAllowed
              (allow g.floats g.buckets g.to_lower ("http:" ++ seen.user_id) now_ms b)
              (rw (on, known) at h)))
    ]
  ]

  skip_jwt_auth-IsOpenRoute : (r : HttpRequest) → skip_jwt_auth r ≡ true → IsOpenRoute r.path
  unfolding skip_jwt_auth
  skip_jwt_auth-IsOpenRoute r h = elim (Bool-cases (str_eq r.path "/api/auth/login")) [
    | inl e ↦ inl ((eq_iff r.path "/api/auth/login").0 e)
    | inr a ↦ elim (Bool-cases (str_eq r.path "/api/auth/signup")) [
      | inl e ↦ inr (inl ((eq_iff r.path "/api/auth/signup").0 e))
      | inr b ↦ elim (Bool-cases (str_eq r.path "/ws/rooms/:id")) [
        | inl e ↦ inr (inr (inl ((eq_iff r.path "/ws/rooms/:id").0 e)))
        | inr c ↦ inr (inr (inr ((eq_iff r.path "/api/ws/rooms/:id").0 (rw (a, b, c) at h))))
      ]
    ]
  ]

  set_auth_context-names :
      (claims : Claims) (r : HttpRequest)
      → ((claims.subject ≡ "") × (set_auth_context_from_token claims r ≡ r))
        ⊎ (set_auth_context_from_token claims r ≡ record r { user_id = claims.subject })
  unfolding set_auth_context_from_token
  set_auth_context-names claims r = elim (Bool-cases (str_eq claims.subject "")) [
    | inl e ↦ inl ((eq_iff claims.subject "").0 e, rw e refl)
    | inr e ↦ inr (rw e refl)
  ]

  after_csrf-IsGuarded :
      (r seen : HttpRequest) (now : Time) (now_ms : ℤ) (b b' : g.buckets.Db) (db : Db)
      (c : Option Failure)
      → IsIdentified r now seen
      → (rate_limit_middleware g.floats g.buckets g.to_lower g.has_limiter seen now_ms b).0 ≡ none
      → csrf_middleware g.equal_fold seen ≡ c
      → IsGuarded r now now_ms b db (let (a, db') = after_csrf c seen db in (a, b', db'))
  unfolding after_csrf
  after_csrf-IsGuarded r seen now now_ms b b' db (some f) identified open_limit e = refl
  after_csrf-IsGuarded r seen now now_ms b b' db none identified open_limit e = (
    seen,
    identified,
    rate_limit_middleware-IsAllowed seen now_ms b open_limit,
    csrf_middleware-passes g.equal_fold seen e,
    refl,
  )

  after_rate_limit-IsGuarded :
      (r seen : HttpRequest) (now : Time) (now_ms : ℤ) (b : g.buckets.Db) (db : Db)
      (x : Option (Failure × Option ℤ) × g.buckets.Db)
      → IsIdentified r now seen
      → rate_limit_middleware g.floats g.buckets g.to_lower g.has_limiter seen now_ms b ≡ x
      → IsGuarded r now now_ms b db (after_rate_limit x seen db)
  unfolding after_rate_limit
  after_rate_limit-IsGuarded r seen now now_ms b db (some (f, retry), b') identified e = refl
  after_rate_limit-IsGuarded r seen now now_ms b db (none, b') identified e =
      after_csrf-IsGuarded r seen now now_ms b b' db _ identified
        (ap (λ (x : Option (Failure × Option ℤ) × g.buckets.Db). x.0) e) refl

  after_auth-IsGuarded :
      (r : HttpRequest) (now : Time) (now_ms : ℤ) (b : g.buckets.Db) (db : Db) (x : Result Claims)
      → g.echo_jwt g.secret r.authorization now ≡ x
      → IsGuarded r now now_ms b db (after_auth (authenticated r x) now_ms b db)
  unfolding after_auth
  after_auth-IsGuarded r now now_ms b db (ok claims) e =
      after_rate_limit-IsGuarded r _ now now_ms b db _
        (inr (claims, e, set_auth_context-names claims r)) refl
  after_auth-IsGuarded r now now_ms b db (err f) e = refl

  -- A request under /api reaches its handler only on one of the four routes without log-in, then as it came,
  -- or with a token that is accepted, then with the token's subject as its user; and only if there is no
  -- limiter or no user or the limiter allows the user's bucket, and if it needs no token against forgery, has a
  -- bearer token, or sends the token of its cookie. A request that is blocked has changed nothing in the
  -- database.
  pub api-IsGuarded :
      (r : HttpRequest) (now : Time) (now_ms : ℤ) (b : g.buckets.Db) (db : Db)
      → IsGuarded r now now_ms b db (api r now now_ms b db)
  unfolding api auth_middleware after_auth
  api-IsGuarded r now now_ms b db = elim (Bool-cases (skip_jwt_auth r)) [
    | inl e ↦ rw (e) (
        after_rate_limit-IsGuarded r r now now_ms b db _ (inl (skip_jwt_auth-IsOpenRoute r e, refl))
          refl)
    | inr e ↦ rw (e) (after_auth-IsGuarded r now now_ms b db _ refl)
  ]
