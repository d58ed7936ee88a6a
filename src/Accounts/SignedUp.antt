-- ===== src/Accounts/SignedUp.antt =====
-- What a sign-up leaves, for backend/usecase/user_usecase.go and backend/jwtauth/jwt.go together.
use blackjack.Prelude.{◌+◌, ◌≤◌, String, ◌≡◌, ◌≢◌, refl, sym, ap, subst, ◌∙◌, Bool-cases, inl, inr}
use Prim.Native.String.{len}
use blackjack.Prelude.Result.{Result, ok, err, >>=-eq-ok, ok_unique, ok≢err}
use blackjack.Prelude.Space.{trim_space}
use blackjack.Model.Room.{Time}
use blackjack.Model.Account.{User}
use blackjack.Store.{Store, IsStore}
use blackjack.Accounts.Jwt.{
  IsJwt, named_text, sign_access_token, parse_and_validate, sign_access_token-signs,
  parse_and_validate-sign,
}
use blackjack.Accounts.Auth.{
  IsBcrypt, AuthService, AuthResponse, Visit, new_user, refuses, or_taken, respond, enroll,
  signup_named, signup, login, me,
}

-- The same account, apart from its times, which the database cuts to the microsecond.
abbrev pub SameAccount : User → User → Type 0
SameAccount a b = (a.id ≡ b.id) × (a.username ≡ b.username) × (a.password_hash ≡ b.password_hash)

-- What is read under the name or the id of an account that was just created is that account.
pub record KeepsAccounts (s : Store) : Type 0 where
  pub by_username :
      (user found : User) (db : s.Db)
      → (s.create_user user db).0 ≡ ok tt
      → s.get_user_by_username user.username (s.create_user user db).1 ≡ ok found
      → SameAccount found user
  pub by_id :
      (user found : User) (db : s.Db)
      → (s.create_user user db).0 ≡ ok tt
      → s.get_user_by_id user.id (s.create_user user db).1 ≡ ok found
      → SameAccount found user

or_taken-ok : (r : Result (Unit {0})) (x : Unit {0}) → or_taken r ≡ ok x → r ≡ ok tt
or_taken-ok (ok x) y h = refl
or_taken-ok (err e) x h = absurd (ok≢err (sym h))

module _ (u : AuthService) where
  -- An account was made and a token signed for it.
  abbrev Enrolled : User → Visit → u.store.Db → u.store.Db → AuthResponse → Type 0
  Enrolled user v db db' res =
      ((u.store.create_user user db).0 ≡ ok tt)
      × (db' ≡ (u.store.create_user user db).1)
      × (res.user ≡ user)
      × (jti : String) × (sign_access_token u.jwt u.jwt_secret user.id u.session_ttl v.jti
            v.signed_at
          ≡ ok (res.token, res.expires_at, jti))

  enroll-Enrolled :
      (laws : IsStore u.store) (user : User) (v : Visit) (db : u.store.Db) (res : AuthResponse)
      → (enroll u v user db).0 ≡ ok res
      → Enrolled user v db (enroll u v user db).1 res
  unfolding enroll respond
  enroll-Enrolled laws user v db res h =
      let create = u.store.create_user user in
      let (x, p, q) = >>=-eq-ok (or_taken (u.store.transaction create db).0) _ res h in
      let done = laws.transaction_done create db tt (or_taken-ok _ x p) in
      let ((token, exp, jti), signed, k) =
        >>=-eq-ok (sign_access_token u.jwt u.jwt_secret user.id u.session_ttl v.jti v.signed_at) _
          res q in
      let same = ok_unique refl k in
      (
        ap (λ (y : Result (Unit {0}) × u.store.Db). y.0) (sym done) ∙ or_taken-ok _ x p,
        ap (λ (y : Result (Unit {0}) × u.store.Db). y.1) done,
        ap (λ (r : AuthResponse). r.user) (sym same),
        jti,
        signed ∙ ap (λ (r : AuthResponse). ok (r.token, r.expires_at, jti)) same,
      )

  signup_named-Enrolled :
      (laws : IsStore u.store) (name : String) (r : Result String) (v : Visit) (db : u.store.Db)
      (res : AuthResponse)
      → (signup_named u name r v db).0 ≡ ok res
      → (hash : String) × (r ≡ ok hash)
        × Enrolled (new_user name hash v) v db (signup_named u name r v db).1 res
  unfolding signup_named
  signup_named-Enrolled laws name (err e) v db res h = absurd (ok≢err (sym h))
  signup_named-Enrolled laws name (ok hash) v db res h =
      (hash, refl, enroll-Enrolled laws (new_user name hash v) v db res h)

  signup-Enrolled :
      (laws : IsStore u.store) (username password : String) (v : Visit) (db : u.store.Db)
      (res : AuthResponse)
      → (signup u username password v db).0 ≡ ok res
      → (hash : String) × (u.bcrypt.generate password u.bcrypt.default_cost ≡ ok hash)
        × Enrolled
            (new_user (trim_space username) hash v)
            v
            db
            (signup u username password v db).1
            res
  unfolding signup
  signup-Enrolled laws username password v db res h =
      elim (Bool-cases (refuses (trim_space username) password)) [
        | inl e ↦ absurd (ok≢err (sym (rw (e) at h)))
        | inr e ↦ rw (e) (
            signup_named-Enrolled laws (trim_space username)
              (u.bcrypt.generate password u.bcrypt.default_cost) v db res (rw (e) at h))
      ]

  module _ (laws : IsStore u.store) (accounts : KeepsAccounts u.store) (jwt : IsJwt u.jwt) where
    -- Who signed up, without the spaces around his name, logs in under that name with the same password, and
    -- is answered the same account and a token, if the name can be read, bcrypt and the tokens keep their
    -- laws, the secret has 16 bytes, and the store keeps the laws of `IsStore` and `KeepsAccounts`, which
    -- `pgStore` does.
    pub signup-login :
        (username password : String) (v w : Visit) (db : u.store.Db) (res : AuthResponse)
        (found : User)
        → IsBcrypt u.bcrypt
        → 16 ≤ len u.jwt_secret
        → (signup u username password v db).0 ≡ ok res
        → u.store.get_user_by_username (trim_space username) (signup u username password v db).1
          ≡ ok found
        → (again : AuthResponse) × (login u
              (trim_space username)
              password
              w
              (signup u username password v db).1
            ≡ ok again)
          × SameAccount again.user res.user
    unfolding login respond
    signup-login username password v w db res found bcrypt secret h read =
        let (hash, made, (created, stored, same, _, _)) =
          signup-Enrolled laws username password v db res h in
        let user = new_user (trim_space username) hash v in
        let same_account =
          accounts.by_username user found db created
            (ap (u.store.get_user_by_username user.username) (sym stored) ∙ read) in
        let right = bcrypt.matches password hash u.bcrypt.default_cost made in
        let (token, signed) =
          sign_access_token-signs u.jwt jwt u.jwt_secret found.id w.jti u.session_ttl w.signed_at
            secret in
        (
          record { token = token; expires_at = w.signed_at + u.session_ttl; user = found },
          rw (read, same_account.2, right, signed) refl,
          subst (SameAccount found) (sym same) same_account,
        )

    -- The token of a sign-up is valid until it expires and names the new account, and who is read under that
    -- id is answered as the user and is the same account, if the tokens keep their laws and the store keeps
    -- the laws of `IsStore` and `KeepsAccounts`, which `pgStore` does.
    pub signup-me :
        (username password : String) (v : Visit) (db : u.store.Db) (res : AuthResponse)
        (later : Time) (found : User)
        → v.user_id ≢ ""
        → (signup u username password v db).0 ≡ ok res
        → later ≤ res.expires_at
        → u.store.get_user_by_id res.user.id (signup u username password v db).1 ≡ ok found
        → (parse_and_validate u.jwt u.jwt_secret res.token later ≡ ok (res.user.id, v.jti))
          × (me u res.user.id (signup u username password v db).1 ≡ ok found)
          × SameAccount found res.user
    unfolding me
    signup-me username password v db res later found named h in_time read =
        let (hash, made, (created, stored, same, got, signed)) =
          signup-Enrolled laws username password v db res h in
        let user = new_user (trim_space username) hash v in
        let read = rw same at read in
        let same_account =
          accounts.by_id user found db created
            (ap (u.store.get_user_by_id user.id) (sym stored) ∙ read) in
        rw (same) (
          parse_and_validate-sign u.jwt jwt u.jwt_secret user.id v.jti res.token got u.session_ttl
              v.signed_at later res.expires_at named signed in_time,
          rw (named_text user.id named, read) refl,
          same_account,
        )
