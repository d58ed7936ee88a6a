-- ===== src/Web/Identity.antt =====
-- backend/middleware/auth_middleware.go: who sends a request. echo-jwt, which reads the token of the header
-- and validates it, is a parameter.
use blackjack.Prelude.{String, str_eq, Bool, ◌||◌, ◌⊎◌, inl, inr, if◌then◌else◌}
use blackjack.Prelude.Result.{Result, ok, err}
use blackjack.Model.Room.{Time}
use blackjack.Accounts.Jwt.{Claims}
use blackjack.Web.Errors.{Failure, failure}
use blackjack.Web.Middleware.{HttpRequest}

-- The claims of the token in the header Authorization, by the secret and the time.
abbrev pub EchoJwt : Type 0
EchoJwt = String → String → Time → Result Claims

unfoldable pub skip_jwt_auth : HttpRequest → Bool
skip_jwt_auth r =
    str_eq r.path "/api/auth/login"
    || str_eq r.path "/api/auth/signup"
    || str_eq r.path "/ws/rooms/:id"
    || str_eq r.path "/api/ws/rooms/:id"

-- The `user_id` of the context; the token's id only goes to the audit log.
unfoldable pub set_auth_context_from_token : Claims → HttpRequest → HttpRequest
set_auth_context_from_token claims r =
    if str_eq claims.subject "" then r else record r { user_id = claims.subject }

unfoldable pub auth_error : HttpRequest → Failure
auth_error r =
    if str_eq r.authorization ""
    then failure 401 "unauthorized" "login required"
    else failure 401 "unauthorized" "invalid or expired token"

abbrev pub authenticated : HttpRequest → Result Claims → Failure ⊎ HttpRequest
authenticated r (ok claims) = inr (set_auth_context_from_token claims r)
authenticated r (err e) = inl (auth_error r)

unfoldable pub auth_middleware : EchoJwt → String → Time → HttpRequest → Failure ⊎ HttpRequest
auth_middleware echo_jwt secret now r =
    if skip_jwt_auth r then inr r else authenticated r (echo_jwt secret r.authorization now)
