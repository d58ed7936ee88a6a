-- ===== src/Accounts/Auth.antt =====
-- backend/usecase/user_usecase.go: sign-up, log-in, log-out and the reading of one's own account. The
-- package bcrypt is a parameter.
use blackjack.Prelude.{ℕ, String, str_eq, ◌≡◌, Bool, ◌||◌, ltb, if◌then◌else◌}
use Prim.Native.String.{len}
use blackjack.Prelude.Result.{
  Error, already_exists, invalid_input, unauthorized, username_taken, Result, ok, err, ◌>>=◌,
}
use blackjack.Prelude.Space.{trim_space}
use blackjack.Model.Room.{Time}
use blackjack.Model.Account.{User}
use blackjack.Store.{Store, Read, Write}
use blackjack.Accounts.Jwt.{Jwt, sign_access_token}

-- GenerateFromPassword, DefaultCost and CompareHashAndPassword.
pub record Bcrypt : Type 0 where
  pub generate : String → ℕ → Result String
  pub default_cost : ℕ
  pub compare : String → String → Result (Unit {0})

pub record IsBcrypt (b : Bcrypt) : Type 0 where
  pub matches :
      (password hash : String) (cost : ℕ)
      → b.generate password cost ≡ ok hash
      → b.compare hash password ≡ ok tt

pub record AuthService : Type 1 where
  pub store : Store
  pub bcrypt : Bcrypt
  pub jwt : Jwt
  pub jwt_secret : String
  pub session_ttl : ℕ

-- 24 hours in nanoseconds.
abbrev pub new_auth_service : Store → Bcrypt → Jwt → String → AuthService
new_auth_service store bcrypt jwt jwt_secret = record {
  store = store;
  bcrypt = bcrypt;
  jwt = jwt;
  jwt_secret = jwt_secret;
  session_ttl = 86400000000000;
}

pub record AuthResponse : Type 0 where
  pub token : String
  pub expires_at : Time
  pub user : User

-- What the outside gives to one request: the clock when the account is made and when the token is signed,
-- a new id for the account and one for the token.
pub record Visit : Type 0 where
  pub now : Time
  pub signed_at : Time
  pub user_id : String
  pub jti : String

abbrev pub or_unauthorized : {A : Type 0} → Result A → Result A
or_unauthorized (ok a) = ok a
or_unauthorized (err e) = err unauthorized

abbrev pub taken : Error → Error
taken already_exists = username_taken
taken e = e

abbrev pub or_taken : Result (Unit {0}) → Result (Unit {0})
or_taken (ok x) = ok x
or_taken (err e) = err (taken e)

abbrev pub refuses : String → String → Bool
refuses username password = ltb (len username) 3 || ltb 100 (len username) || ltb (len password) 8

abbrev pub new_user : String → String → Visit → User
new_user username hash v = record {
  id = v.user_id;
  username = username;
  password_hash = hash;
  created_at = v.now;
  updated_at = v.now;
}

module _ (u : AuthService) where
  -- The token for a user, with the answer that carries it.
  unfoldable pub respond : Visit → User → Result AuthResponse
  respond v user =
      sign_access_token u.jwt u.jwt_secret user.id u.session_ttl v.jti v.signed_at
      >>= λ (token, exp, jti). ok (record { token = token; expires_at = exp; user = user })

  unfoldable pub enroll : Visit → User → Write u.store.Db AuthResponse
  enroll v user db =
      let (r, db') = u.store.transaction (u.store.create_user user) db in
      (or_taken r >>= λ _. respond v user, db')

  unfoldable pub signup_named : String → Result String → Visit → Write u.store.Db AuthResponse
  unfolding enroll
  signup_named username (err e) v db = (err e, db)
  signup_named username (ok hash) v db = enroll v (new_user username hash v) db

  unfoldable pub signup : String → String → Visit → Write u.store.Db AuthResponse
  unfolding signup_named
  signup username password v db =
      let name = trim_space username in
      if refuses name password
      then (err invalid_input, db)
      else signup_named name (u.bcrypt.generate password u.bcrypt.default_cost) v db

  unfoldable pub login : String → String → Visit → Read u.store.Db AuthResponse
  unfolding respond
  login username password v db =
      or_unauthorized (u.store.get_user_by_username username db) >>= λ user.
      or_unauthorized (u.bcrypt.compare user.password_hash password) >>= λ _. respond v user

  unfoldable pub logout : Read u.store.Db (Unit {0})
  logout db = ok tt

  unfoldable pub me : String → Read u.store.Db User
  me user_id db =
      if str_eq user_id ""
      then err unauthorized
      else or_unauthorized (u.store.get_user_by_id user_id db)
