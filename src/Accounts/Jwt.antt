-- ===== src/Accounts/Jwt.antt =====
-- backend/jwtauth/jwt.go: access tokens. The package golang-jwt is a parameter.
use blackjack.Prelude.{
  ℕ, ◌+◌, ◌*◌, ◌≤◌, ◌<◌, String, str_eq, eq_iff, ◌≡◌, ◌≢◌, refl, sym, ap, subst, ◌∙◌, Bool, true,
  false, not, ◌||◌, Bool-cases, true≢false, inl, inr, Option, some, ltb, if◌then◌else◌, arith,
}
use Prim.Native.String.{len}
use blackjack.Prelude.Result.{Error, Result, ok, err, ◌>>=◌, >>=-eq-ok, ok_unique, ok≢err}
use blackjack.Model.Room.{Time}

-- jwt.RegisteredClaims, the fields that the code sets.
pub record Claims : Type 0 where
  pub subject : String
  pub id : String
  pub issued_at : Time
  pub expires_at : Time

pub data Method : Type 0 where
  hs256 : Method
  other_method : String → Method

abbrev pub is_hs256 : Method → Bool
is_hs256 hs256 = true
is_hs256 (other_method name) = false

-- `numeric_date` is jwt.NewNumericDate, `sign` SignedString on a token of the method, `parse`
-- ParseWithClaims with its key function, the leeway and the time: the claims and the flag `Valid`.
-- `method_of` is the method that a token names.
pub record Jwt : Type 0 where
  pub numeric_date : Time → Time
  pub sign : Method → Claims → String → Result String
  pub parse : String → (Method → Result String) → ℕ → Time → Result (Claims × Bool)
  pub method_of : String → Option Method

abbrev pub second : ℕ
second = 1000000000

-- What the package documents: dates have the precision of a second, HS256 signs with every secret, a
-- token verifies under the key it was signed with until it expires, and the key function is asked for the
-- key of the token's method.
pub record IsJwt (jwt : Jwt) : Type 0 where
  pub date_near : (t : Time) → t < jwt.numeric_date t + second
  pub signs :
      (claims : Claims) (secret : String)
      → (token : String) × (jwt.sign hs256 claims secret ≡ ok token)
  pub verifies :
      (claims : Claims) (secret token : String) (key : Method → Result String) (leeway : ℕ)
      (now : Time)
      → jwt.sign hs256 claims secret ≡ ok token
      → key hs256 ≡ ok secret
      → now < claims.expires_at + leeway
      → (read : Claims) × (jwt.parse token key leeway now ≡ ok (read, true))
        × (read.subject ≡ claims.subject)
        × (read.id ≡ claims.id)
  pub keyed :
      (token : String) (key : Method → Result String) (leeway : ℕ) (now : Time)
      (answer : Claims × Bool)
      → jwt.parse token key leeway now ≡ ok answer
      → (m : Method) × (secret : String) × (jwt.method_of token ≡ some m) × (key m ≡ ok secret)

abbrev pub invalid_token : Error
invalid_token = Error.other "invalid jwt"

abbrev pub leeway : ℕ
leeway = 30 * second

-- The key function of `ParseAndValidate`.
abbrev pub key_of : String → Method → Result String
key_of secret m =
    if not (is_hs256 m) then err (Error.other "unexpected signing method") else ok secret

abbrev pub claimed : Result (Claims × Bool) → Result (String × String)
claimed (err e) = err invalid_token
claimed (ok (claims, valid)) =
    if not valid || str_eq claims.subject ""
    then err invalid_token
    else ok (claims.subject, claims.id)

long_enough : (secret : String) → 16 ≤ len secret → ltb (len secret) 16 ≡ false
long_enough secret h = ground arith

pub named_text : (s : String) → s ≢ "" → str_eq s "" ≡ false
named_text s h = elim (Bool-cases (str_eq s "")) [
  | inl e ↦ absurd (h ((eq_iff s "").0 e))
  | inr e ↦ e
]

before :
    (later expires expires' date : Time)
    → later ≤ expires'
    → expires ≡ expires'
    → expires < date + second
    → later < date + leeway
before later expires expires' date h e k = omega arith

key_of-hs256 : (secret key : String) (m : Method) → key_of secret m ≡ ok key → m ≡ hs256
key_of-hs256 secret key hs256 h = refl
key_of-hs256 secret key (other_method name) h = cc

unnamed : (s : String) → str_eq s "" ≡ false → s ≢ ""
unnamed s h e = true≢false (sym (ap (λ t. str_eq t "") e) ∙ h)

claimed-ok :
    (r : Result (Claims × Bool)) (user_id jti : String)
    → claimed r ≡ ok (user_id, jti)
    → (answer : Claims × Bool) × (r ≡ ok answer) × (user_id ≢ "")
claimed-ok (err e) user_id jti h = cc
claimed-ok (ok (claims, false)) user_id jti h = cc
claimed-ok (ok (claims, true)) user_id jti h = elim (Bool-cases (str_eq claims.subject "")) [
  | inl e ↦ absurd (ok≢err (sym (rw (e) at h)))
  | inr e ↦ (
    (claims, true),
    refl,
    subst (λ s. s ≢ "") (ap (λ (x : String × String). x.0) (ok_unique refl (rw (e) at h)))
        (unnamed claims.subject e),
  )
]

module _ (jwt : Jwt) where
  abbrev pub claims_of : String → String → Time → Time → Claims
  claims_of user_id jti now expires_at = record {
    subject = user_id;
    id = jti;
    issued_at = jwt.numeric_date now;
    expires_at = jwt.numeric_date expires_at;
  }

  -- `jti` is the new uuid, `now` the clock.
  unfoldable pub sign_access_token :
      String → String → ℕ → String → Time → Result (String × Time × String)
  sign_access_token secret user_id ttl jti now =
      let expires_at = now + ttl in
      if ltb (len secret) 16
      then err (Error.other "jwt secret must be at least 16 bytes")
      else jwt.sign hs256 (claims_of user_id jti now expires_at) secret >>= λ signed.
          ok (signed, expires_at, jti)

  unfoldable pub parse_and_validate : String → String → Time → Result (String × String)
  parse_and_validate secret token now =
      if ltb (len secret) 16
      then err (Error.other "jwt secret must be at least 16 bytes")
      else claimed (jwt.parse token (key_of secret) leeway now)

  module _ (laws : IsJwt jwt) where
    -- With a secret of 16 bytes a token is signed.
    pub sign_access_token-signs :
        (secret user_id jti : String) (ttl : ℕ) (now : Time)
        → 16 ≤ len secret
        → (token : String) × (sign_access_token secret user_id ttl jti now
            ≡ ok (token, now + ttl, jti))
    unfolding sign_access_token
    sign_access_token-signs secret user_id jti ttl now h =
        let (token, signed) = laws.signs (claims_of user_id jti now (now + ttl)) secret in
        (token, rw (long_enough secret h, signed) refl)

    -- A token that was signed for a user is valid under the same secret until it expires and names the
    -- user and the token's id.
    pub parse_and_validate-sign :
        (secret user_id jti token got : String) (ttl : ℕ) (now later expires_at : Time)
        → user_id ≢ ""
        → sign_access_token secret user_id ttl jti now ≡ ok (token, expires_at, got)
        → later ≤ expires_at
        → parse_and_validate secret token later ≡ ok (user_id, jti)
    unfolding sign_access_token parse_and_validate
    parse_and_validate-sign secret user_id jti token got ttl now later expires_at named h in_time =
        elim (Bool-cases (ltb (len secret) 16)) [
          | inl e ↦ absurd (ok≢err (sym (rw (e) at h)))
          | inr e ↦
              let claims = claims_of user_id jti now (now + ttl) in
              let (signed, s, k) = >>=-eq-ok (jwt.sign hs256 claims secret) _ _ (rw (e) at h) in
              let same = ok_unique refl k in
              let (read, p, q, r) =
                laws.verifies claims secret signed (key_of secret) leeway later s refl (
                  before later (now + ttl) expires_at (jwt.numeric_date (now + ttl)) in_time
                    (ap (λ (x : String × Time × String). x.1) same) (laws.date_near (now + ttl))) in
              subst (λ t. parse_and_validate secret t later ≡ ok (user_id, jti))
                (ap (λ (x : String × Time × String). x.0) same)
                (rw (e, p, q, r, named_text user_id named) refl)
        ]

    -- A token that is accepted names the method HS256, its subject is not empty, and the secret has 16
    -- bytes or more.
    pub parse_and_validate-accepts :
        (secret token user_id jti : String) (now : Time)
        → parse_and_validate secret token now ≡ ok (user_id, jti)
        → (jwt.method_of token ≡ some hs256) × (user_id ≢ "") × (16 ≤ len secret)
    unfolding parse_and_validate
    parse_and_validate-accepts secret token user_id jti now h =
        elim (Bool-cases (ltb (len secret) 16)) [
          | inl e ↦ absurd (ok≢err (sym (rw (e) at h)))
          | inr e ↦
              let (answer, p, q) =
                claimed-ok (jwt.parse token (key_of secret) leeway now) user_id jti (rw (e) at h) in
              let (m, key, at_method, k) = laws.keyed token (key_of secret) leeway now answer p in
              (at_method ∙ ap some (key_of-hs256 secret key m k), q, ground arith)
        ]
