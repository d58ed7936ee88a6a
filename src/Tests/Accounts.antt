-- ===== src/Tests/Accounts.antt =====
-- Witnesses for the properties of the accounts: tokens that hold their two names, and passwords that are
-- their own hashes.
use blackjack.Prelude.{
  ◌≤◌, String, str_eq, eq_refl, ◌≡◌, ◌≢◌, refl, sym, ap, ◌∙◌, Bool, true, false, Bool-cases,
  true≢false, inl, inr, some, ◌==◌, if◌then◌else◌, arith,
}
use Prim.Native.Char.{Char, code}
use Prim.Native.String.{[], ◌∷◌, char_at, len}
use blackjack.Prelude.Result.{
  Result, ok, err, ok_unique, ok≢err, unauthorized, username_taken, ◌>>=◌,
}
use blackjack.Prelude.Space.{trim_space, trim_left, trim_right, is_space}
use blackjack.Model.Account.{User}
use blackjack.Accounts.Jwt.{
  Jwt, IsJwt, Claims, Method, hs256, other_method, parse_and_validate, sign_access_token,
}
use blackjack.Accounts.Auth.{
  Bcrypt, IsBcrypt, AuthService, AuthResponse, Visit, new_auth_service, signup, signup_named,
  enroll, respond, login, me,
}
use blackjack.Accounts.Jwt
use blackjack.Accounts.SignedUp
use blackjack.Accounts.SignedUp.{SameAccount, KeepsAccounts}
use blackjack.Tests.Memory.{memory, memory_laws}
use blackjack.Tests.Requests.{opened}

abbrev pub dot : Char
dot = char_at "." 0

abbrev pub bar : Char
bar = char_at "|" 0

-- Two texts as one: a bar before each character of the first and a dot after it.
unfoldable pub pack : String → String → String
pack [] t = dot ∷ t
pack (c ∷ s) t = bar ∷ c ∷ pack s t

abbrev pub split : Bool → String → Char → String × String → String × String
split true rest d (a, b) = ([], rest)
split false rest d (a, b) = (d ∷ a, b)

unfoldable pub unpack : String → String × String
unpack [] = ([], [])
unpack (c ∷ []) = ([], [])
unpack (c ∷ d ∷ s) = split (code c == 46) (d ∷ s) d (unpack s)

pub unpack-pack : (s t : String) → unpack (pack s t) ≡ (s, t)
unfolding unpack pack
unpack-pack [] [] = refl
unpack-pack [] (d ∷ t) = refl
unpack-pack (c ∷ s) t = rw (unpack-pack s t) refl

abbrev claims : String × String → Claims
claims (user_id, jti) = record { subject = user_id; id = jti; issued_at = 0; expires_at = 0 }

abbrev tokens : Jwt
tokens = record {
  numeric_date = λ t. t;
  sign = λ m c secret. ok (pack c.subject c.id);
  parse = λ token key leeway now. key hs256 >>= λ secret. ok (claims (unpack token), true);
  method_of = λ token. some hs256;
}

keyed_by :
    (r : Result String) (answer given : Claims × Bool)
    → (r >>= λ secret. ok given) ≡ ok answer
    → (secret : String) × (r ≡ ok secret)
keyed_by (ok secret) answer given h = (secret, refl)
keyed_by (err e) answer given h = cc

tokens_laws : IsJwt tokens
tokens_laws = record {
  date_near = λ t. omega arith;
  signs = λ c secret. (pack c.subject c.id, refl);
  verifies = λ c secret token key leeway now signed known in_time.
      let e = ap unpack (ok_unique refl (sym signed)) ∙ unpack-pack c.subject c.id in
      (
        claims (unpack token),
        rw (known) refl,
        ap (λ (x : String × String). x.0) e,
        ap (λ (x : String × String). x.1) e,
      );
  keyed = λ token key leeway now answer h.
      let (secret, k) = keyed_by (key hs256) answer (claims (unpack token), true) h in
      (hs256, secret, refl, k);
}

abbrev plain : Bcrypt
plain = record {
  generate = λ password cost. ok password;
  default_cost = 10;
  compare = λ hash password. if str_eq hash password then ok tt else err unauthorized;
}

plain_laws : IsBcrypt plain
plain_laws = record {
  matches = λ password hash cost h.
      let same = ok_unique refl h in
      ap (λ t. plain.compare t password) (sym same) ∙ rw (eq_refl password) refl;
}

read_back : {a b : User} → ok a ≡ ok b → SameAccount b a
read_back h =
    let same = ok_unique refl h in
    (
      ap (λ (x : User). x.id) (sym same),
      ap (λ (x : User). x.username) (sym same),
      ap (λ (x : User). x.password_hash) (sym same),
    )

accounts : KeepsAccounts memory
accounts = record {
  by_username = λ user found db h read.
      elim (Bool-cases (str_eq db.account.username user.username)) [
        | inl e ↦ absurd (ok≢err (sym (rw (e) at h)))
        | inr e ↦ read_back (rw (e, eq_refl user.username) at read)
      ];
  by_id = λ user found db h read. elim (Bool-cases (str_eq db.account.username user.username)) [
    | inl e ↦ absurd (ok≢err (sym (rw (e) at h)))
    | inr e ↦ read_back (rw (e, eq_refl user.id) at read)
  ];
}

abbrev service : AuthService
service = new_auth_service memory plain tokens "sixteen bytes..."

abbrev first_visit : Visit
first_visit = record { now = 10; signed_at = 11; user_id = "b"; jti = "t" }

abbrev next_visit : Visit
next_visit = record { now = 20; signed_at = 21; user_id = "c"; jti = "w" }

abbrev bert : AuthResponse
bert = record {
  token = "|b.t";
  expires_at = 86400000000011;
  user = record {
    id = "b";
    username = "bert";
    password_hash = "password";
    created_at = 10;
    updated_at = 10;
  };
}

bert_signs_up : (signup service " bert " "password" first_visit opened).0 ≡ ok bert
unfolding signup signup_named enroll respond trim_space trim_left trim_right is_space
    sign_access_token pack
bert_signs_up = refl

bert_is_named :
    memory.get_user_by_username
      (trim_space " bert ")
      (signup service " bert " "password" first_visit opened).1
    ≡ ok bert.user
unfolding signup signup_named enroll respond trim_space trim_left trim_right is_space
bert_is_named = refl

bert_is_b :
    memory.get_user_by_id "b" (signup service " bert " "password" first_visit opened).1
    ≡ ok bert.user
unfolding signup signup_named enroll respond trim_space trim_left trim_right is_space
bert_is_b = refl

signup-login_example :
    (again : AuthResponse) × (login service
        (trim_space " bert ")
        "password"
        next_visit
        (signup service " bert " "password" first_visit opened).1
      ≡ ok again)
    × SameAccount again.user bert.user
signup-login_example =
    SignedUp.signup-login service memory_laws accounts tokens_laws " bert " "password" first_visit
      next_visit opened bert bert.user plain_laws (omega arith) bert_signs_up bert_is_named

b≢empty : ◌≢◌ {A = String} "b" ""
b≢empty h = true≢false (sym (ap (λ t. str_eq t "") h))

signup-me_example :
    (parse_and_validate tokens "sixteen bytes..." "|b.t" 1000 ≡ ok ("b", "t"))
    × (me service "b" (signup service " bert " "password" first_visit opened).1 ≡ ok bert.user)
    × SameAccount bert.user bert.user
signup-me_example =
    SignedUp.signup-me service memory_laws accounts tokens_laws " bert " "password" first_visit
      opened bert 1000 bert.user b≢empty bert_signs_up (omega arith) bert_is_b

read : parse_and_validate tokens "sixteen bytes..." "|b.t" 1000 ≡ ok ("b", "t")
unfolding parse_and_validate unpack
read = refl

parse_and_validate-accepts_example :
    (tokens.method_of "|b.t" ≡ some hs256)
    × (◌≢◌ {A = String} "b" "")
    × (16 ≤ len "sixteen bytes...")
parse_and_validate-accepts_example =
    Jwt.parse_and_validate-accepts tokens tokens_laws "sixteen bytes..." "|b.t" "b" "t" 1000 read

anna_is_taken : (signup service "anna" "password" first_visit opened).0 ≡ err username_taken
unfolding signup signup_named enroll respond trim_space trim_left trim_right is_space
anna_is_taken = refl

anna_forgot : login service "anna" "wrong" next_visit opened ≡ err unauthorized
unfolding login respond
anna_forgot = refl
