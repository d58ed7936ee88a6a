-- ===== src/Web/Users.antt =====
-- The handlers of backend/controller/user_controller.go.
use blackjack.Prelude.{ℕ, ◌-◌, String, str_eq, ◌||◌, Option, none, some, ltb, if◌then◌else◌}
use Prim.Native.Nat.{zero, suc, ◌/◌}
use blackjack.Prelude.Int.{ℤ, pos, negsuc}
use blackjack.Prelude.Result.{Error, Result, ok, err, invalid_input, username_taken, unauthorized}
use blackjack.Model.Room.{Time}
use blackjack.Model.Account.{User}
use blackjack.Accounts.Auth as Auth
use blackjack.Accounts.Auth.{AuthService, AuthResponse, Visit}
use blackjack.Web.Errors.{Failure, failure, internal}
use blackjack.Web.Http.{Reply, json, fail}

pub record LoginRequest : Type 0 where
  pub username : String
  pub password : String

pub record UserJson : Type 0 where
  pub id : String
  pub username : String

pub record TokenJson : Type 0 where
  pub access_token : String
  pub token_type : String
  pub expires_in : ℤ
  pub user : UserJson

unfoldable pub signup_error : Error → Failure
signup_error invalid_input =
    failure 400 "invalid_input" "username must be 3-100 chars and password must be at least 8 chars"
signup_error username_taken = failure 409 "username_taken" "username already exists"
signup_error e = internal e

unfoldable pub login_error : Error → Failure
login_error unauthorized = failure 401 "unauthorized" "invalid credentials"
login_error e = internal e

abbrev pub missing_credentials : Failure
missing_credentials = failure 400 "invalid_input" "username and password are required"

abbrev pub user_json : User → UserJson
user_json user = record { id = user.id; username = user.username }

-- The whole seconds from `now` on, towards zero.
abbrev pub negated : ℕ → ℤ
negated zero = pos 0
negated (suc n) = negsuc n

unfoldable pub seconds_until : Time → Time → ℤ
seconds_until at now =
    if ltb at now then negated ((now - at) / 1000000000) else pos ((at - now) / 1000000000)

unfoldable pub token_json : Time → AuthResponse → TokenJson
token_json now res = record {
  access_token = res.token;
  token_type = "Bearer";
  expires_in = seconds_until res.expires_at now;
  user = user_json res.user;
}

-- `now` is the clock when the answer is written.
abbrev pub token_reply : ℕ → (Error → Failure) → Time → Result AuthResponse → Reply TokenJson
token_reply status table now (ok res) = json status (token_json now res) none
token_reply status table now (err e) = fail (table e)

module _ (u : AuthService) (v : Visit) (now : Time) where
  -- A request whose body cannot be read is `none`.
  unfoldable pub signup : Option LoginRequest → u.store.Db → Reply TokenJson × u.store.Db
  signup none db = (fail missing_credentials, db)
  signup (some req) db =
      if str_eq req.username "" || str_eq req.password ""
      then (fail missing_credentials, db)
      else let (r, db') = Auth.signup u req.username req.password v db in
        (token_reply 201 signup_error now r, db')

  unfoldable pub login : Option LoginRequest → u.store.Db → Reply TokenJson
  login none db = fail missing_credentials
  login (some req) db =
      if str_eq req.username "" || str_eq req.password ""
      then fail missing_credentials
      else token_reply 200 login_error now (Auth.login u req.username req.password v db)

  abbrev pub me_reply : Result User → Reply UserJson
  me_reply (ok user) = json 200 (user_json user) none
  me_reply (err e) = fail (failure 401 "unauthorized" "not logged in")

  unfoldable pub me : String → u.store.Db → Reply UserJson
  me user_id db =
      if str_eq user_id ""
      then fail (failure 401 "unauthorized" "not logged in")
      else me_reply (Auth.me u user_id db)
