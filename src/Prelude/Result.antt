-- ===== src/Prelude/Result.antt =====
-- The errors of the backend as values (model/types.go, usecase/*.go and repository/repository_errors.go),
-- and results that carry one of them.
use Prim.Native.String.{String}
use mathlib.Core.Path.{◌≡◌, refl}
use mathlib.Core.Bool.{Bool, true, false}

-- `other` is an error with a message of its own; `panic` is a run-time fault of Go.
pub data Error : Type 0 where
  not_found already_exists : Error
  unauthorized_user invalid_game_state forbidden_action : Error
  unauthorized invalid_input username_taken : Error
  invalid_status invalid_transition invalid_version version_conflict room_full invalid_seat : Error
  invalid_player_status invalid_deck deck_exhausted not_player_turn not_your_turn cannot_join :
      Error
  forbidden_start duplicate_action : Error
  other : String → Error
  panic : Error

abbrev pub is_not_found : Error → Bool
is_not_found not_found = true
is_not_found _ = false

abbrev pub is_already_exists : Error → Bool
is_already_exists already_exists = true
is_already_exists _ = false

abbrev pub is_version_conflict : Error → Bool
is_version_conflict version_conflict = true
is_version_conflict _ = false

pub data Result {ℓ} (A : Type ℓ) : Type ℓ where
  ok : A → Result A
  err : Error → Result A

infixl 5 ◌>>=◌ ◌>>◌
abbrev pub ◌>>=◌ {ℓ κ} : {A : Type ℓ} {B : Type κ} → Result A → (A → Result B) → Result B
ok a >>= f = f a
err e >>= f = err e

abbrev pub ◌>>◌ {ℓ κ} : {A : Type ℓ} {B : Type κ} → Result A → Result B → Result B
m >> k = m >>= λ _. k

-- `if cond { return err }`
abbrev pub fail_if : Bool → Error → Result (Unit {0})
fail_if true e = err e
fail_if false e = ok tt

-- A successful chain has successful parts.
pub >>=-eq-ok {ℓ κ} :
    {A : Type ℓ} {B : Type κ} (m : Result A) (f : A → Result B) (b : B)
    → (m >>= f) ≡ ok b
    → (a : A) × (m ≡ ok a) × (f a ≡ ok b)
>>=-eq-ok (ok a) f b h = (a, refl, h)
>>=-eq-ok (err e) f b h = cc

-- Two successful results of one computation are equal.
pub ok_unique {ℓ} : {A : Type ℓ} {m : Result A} {a b : A} → m ≡ ok a → m ≡ ok b → a ≡ b
ok_unique p q = cc

pub ok≢err {ℓ} : {A : Type ℓ} {a : A} {e : Error} → ◌≡◌ {A = Result A} (ok a) (err e) → ⊥
ok≢err h = cc

pub err_unique {ℓ} : {A : Type ℓ} {d e : Error} → ◌≡◌ {A = Result A} (err d) (err e) → d ≡ e
err_unique h = cc
