-- ===== src/Accounts/Refused.antt =====
-- The errors of sign-up and log-in in backend/usecase/user_usecase.go.
use blackjack.Prelude.{◌+◌, ◌≤◌, String, ◌≡◌, refl, sym, ◌∙◌, Bool-cases, inl, inr}
use Prim.Native.String.{len}
use blackjack.Prelude.Result.{Error, unauthorized, Result, ok, err, ◌>>=◌, ok≢err, err_unique}
use blackjack.Prelude.Space.{trim_space}
use blackjack.Model.Account.{User}
use blackjack.Store.{IsStore}
use blackjack.Accounts.Jwt.{IsJwt, sign_access_token-signs}
use blackjack.Accounts.Auth.{
  AuthService, AuthResponse, Visit, new_user, refuses, or_unauthorized, respond, enroll,
  signup_named, signup, login,
}

module _ (u : AuthService) (jwt : IsJwt u.jwt) (secret : 16 ≤ len u.jwt_secret) where
  responds : (v : Visit) (user : User) → (res : AuthResponse) × (respond u v user ≡ ok res)
  unfolding respond
  responds v user =
      let (token, signed) =
        sign_access_token-signs u.jwt jwt u.jwt_secret user.id v.jti u.session_ttl v.signed_at
          secret in
      (
        record { token = token; expires_at = v.signed_at + u.session_ttl; user = user },
        rw (signed) refl,
      )

  enroll_failed :
      (laws : IsStore u.store) (v : Visit) (user : User) (db : u.store.Db) (e : Error)
      → (enroll u v user db).0 ≡ err e
      → (enroll u v user db).1 ≡ db
  unfolding enroll
  enroll_failed laws v user db e h = by_answer (u.store.transaction create db).0 refl
    where
      create : u.store.Db → Result (Unit {0}) × u.store.Db
      create = u.store.create_user user

      by_answer :
          (r : Result (Unit {0}))
          → (u.store.transaction create db).0 ≡ r
          → (u.store.transaction create db).1 ≡ db
      by_answer (err x) p = laws.transaction_failed create db x p
      by_answer (ok x) p = let (res, q) = responds v user in absurd (ok≢err (sym q ∙ (rw (p) at h)))

  signup_named_failed :
      (laws : IsStore u.store) (name : String) (r : Result String) (v : Visit) (db : u.store.Db)
      (e : Error)
      → (signup_named u name r v db).0 ≡ err e
      → (signup_named u name r v db).1 ≡ db
  unfolding signup_named
  signup_named_failed laws name (err x) v db e h = refl
  signup_named_failed laws name (ok hash) v db e h =
      enroll_failed laws v (new_user name hash v) db e h

  -- With a secret of 16 bytes a sign-up that fails has made no account.
  pub signup_failed :
      (laws : IsStore u.store) (username password : String) (v : Visit) (db : u.store.Db)
      (e : Error)
      → (signup u username password v db).0 ≡ err e
      → (signup u username password v db).1 ≡ db
  unfolding signup
  signup_failed laws username password v db e h =
      elim (Bool-cases (refuses (trim_space username) password)) [
        | inl p ↦ rw (p) refl
        | inr p ↦ rw (p) (
            signup_named_failed laws (trim_space username)
              (u.bcrypt.generate password u.bcrypt.default_cost) v db e (rw (p) at h))
      ]

  -- With a secret of 16 bytes the one error of a log-in is `unauthorized`, whether the name is unknown,
  -- the password wrong or the store fails.
  pub login_failed :
      (username password : String) (v : Visit) (db : u.store.Db) (e : Error)
      → login u username password v db ≡ err e
      → e ≡ unauthorized
  unfolding login
  login_failed username password v db e h = by_user (u.store.get_user_by_username username db) h
    where
      by_password :
          (user : User) (r : Result (Unit {0}))
          → (or_unauthorized r >>= λ _. respond u v user) ≡ err e
          → e ≡ unauthorized
      by_password user (err x) k = sym (err_unique k)
      by_password user (ok x) k = let (res, q) = responds v user in absurd (ok≢err (sym q ∙ k))

      by_user :
          (r : Result User)
          → (or_unauthorized r >>= λ user.
              or_unauthorized (u.bcrypt.compare user.password_hash password) >>= λ _.
              respond u v user)
            ≡ err e
          → e ≡ unauthorized
      by_user (err x) k = sym (err_unique k)
      by_user (ok user) k = by_password user (u.bcrypt.compare user.password_hash password) k
