-- ===== src/Web/Middleware.antt =====
-- backend/middleware/csrf_middleware.go and rate_limit_middleware.go: the answer that a middleware gives in
-- place of the handler, or `none` where it passes the request on.
use blackjack.Prelude.{
  String, str_eq, eq_iff, ◌≡◌, ◌≢◌, sym, ap, ◌∙◌, Bool, true, false, not, ◌&&◌, ◌||◌, Bool-cases,
  true≢false, ◌⊎◌, inl, inr, Option, none, some, leb, if◌then◌else◌,
}
use Prim.Native.String.{len, slice, ◌++◌}
use blackjack.Prelude.Int.{ℤ}
use blackjack.Prelude.Result.{Result, ok, err}
use blackjack.Prelude.Space.{trim_space}
use blackjack.Limits.Allow.{Floats, RateLimitRepository, RateLimitResult, allow}
use blackjack.Web.Errors.{Failure, failure, internal}

-- A header that is not sent is empty, the cookie then `none`; `path` is the path of the route.
pub record HttpRequest : Type 0 where
  pub method : String
  pub path : String
  pub authorization : String
  pub csrf_cookie : Option String
  pub csrf_header : String
  pub user_id : String

unfoldable pub needs_csrf : HttpRequest → Bool
needs_csrf r =
    if not (
      str_eq r.method "POST"
      || str_eq r.method "PUT"
      || str_eq r.method "PATCH"
      || str_eq r.method "DELETE")
    then false
    else not (str_eq r.path "/api/auth/login" || str_eq r.path "/api/auth/signup")

-- `equal_fold` is strings.EqualFold.
unfoldable pub has_bearer_auth : (String → String → Bool) → HttpRequest → Bool
has_bearer_auth equal_fold r =
    let h = r.authorization in
    leb 7 (len h)
    && equal_fold (slice h 0 7) "Bearer "
    && not (str_eq (trim_space (slice h 7 (len h))) "")

unfoldable pub check_cookie : Option String → String → Option Failure
check_cookie none header = some (failure 403 "csrf_invalid" "csrf token is required")
check_cookie (some token) header =
    if str_eq token ""
    then some (failure 403 "csrf_invalid" "csrf token is required")
    else if str_eq header "" || not (str_eq header token)
    then some (failure 403 "csrf_invalid" "csrf token mismatch")
    else none

unfoldable pub csrf_middleware : (String → String → Bool) → HttpRequest → Option Failure
unfolding check_cookie
csrf_middleware equal_fold r =
    if not (needs_csrf r)
    then none
    else if has_bearer_auth equal_fold r
    then none
    else check_cookie r.csrf_cookie r.csrf_header

-- With a refusal goes the header X-RateLimit-Retry-After-Ms.
abbrev pub limited :
    {f : Floats} {Db : Type 0} → Result (RateLimitResult f) × Db → Option (Failure × Option ℤ) × Db
limited (err e, db) = (some (internal e, none), db)
limited (ok result, db) = (
  if not result.allowed
      then some (failure 429 "rate_limited" "too many requests", some result.retry_after_ms)
      else none,
  db,
)

-- `has_limiter` is false for a nil limiter. Without one or without a user the request is not counted.
unfoldable pub rate_limit_middleware :
    (f : Floats) (repo : RateLimitRepository f) (to_lower : String → String) (has_limiter : Bool)
    → HttpRequest
    → ℤ
    → repo.Db
    → Option (Failure × Option ℤ) × repo.Db
rate_limit_middleware f repo to_lower has_limiter r now_ms db =
    if not has_limiter
    then (none, db)
    else if str_eq r.user_id ""
    then (none, db)
    else limited (allow f repo to_lower ("http:" ++ r.user_id) now_ms db)

check_cookie-passes :
    (cookie : Option String) (header : String)
    → check_cookie cookie header ≡ none
    → (cookie ≡ some header) × (header ≢ "")
unfolding check_cookie
check_cookie-passes none header h = cc
check_cookie-passes (some token) header h = elim (Bool-cases (str_eq token "")) [
  | inl e ↦ absurd (some≢none (rw (e) at h))
  | inr e ↦ elim (Bool-cases (str_eq header token)) [
    | inl f ↦
        let same = (eq_iff header token).0 f in
        (ap some (sym same), λ k. true≢false (sym (ap (λ t. str_eq t "") (sym same ∙ k)) ∙ e))
    | inr f ↦ absurd (mismatch (str_eq header "") (rw (e, f) at h))
  ]
]
  where
    some≢none : {x : Failure} → ◌≡◌ {A = Option Failure} (some x) none → ⊥
    some≢none h = cc

    mismatch :
        (b : Bool)
        → ◌≡◌ {A = Option Failure}
            (if b || true then some (failure 403 "csrf_invalid" "csrf token mismatch") else none)
            none
        → ⊥
    mismatch true h = cc
    mismatch false h = cc

-- A request that the check lets through needs no token, or carries a bearer token, or sends in its header
-- the token of its cookie, which is not empty.
pub csrf_middleware-passes :
    (equal_fold : String → String → Bool) (r : HttpRequest)
    → csrf_middleware equal_fold r ≡ none
    → (needs_csrf r ≡ false)
      ⊎ ((has_bearer_auth equal_fold r ≡ true)
          ⊎ ((r.csrf_cookie ≡ some r.csrf_header) × (r.csrf_header ≢ "")))
unfolding csrf_middleware
csrf_middleware-passes equal_fold r h = elim (Bool-cases (needs_csrf r)) [
  | inr e ↦ inl e
  | inl e ↦ elim (Bool-cases (has_bearer_auth equal_fold r)) [
    | inl f ↦ inr (inl f)
    | inr f ↦ inr (inr (check_cookie-passes r.csrf_cookie r.csrf_header (rw (e, f) at h)))
  ]
]
