-- ===== src/Prelude/Decimal.antt =====
-- Go's strconv.FormatUint and strconv.ParseUint in base 10 on 64 bits.
use Prim.Native.Nat.{ℕ, zero, suc, ◌+◌, ◌*◌, ◌-◌, ◌/◌, ◌%◌, ◌^◌, ◌≤◌, ◌<◌}
use Prim.Native.Char.{code}
use Prim.Native.String.{String, [], ◌∷◌, ◌++◌}
use mathlib.Core.Bool.{Bool, true, false, ◌&&◌}
use mathlib.Core.Logic.{inl, inr}
use mathlib.Core.Path.{◌≡◌, refl, ap, ◌∙◌}
use text.Mathlib.TextLemmas.{nil-append, cons-append}
use native.Mathlib.Omega.{arith}
use blackjack.Prelude.Tests.{Bool-cases, ltb, leb}
use blackjack.Prelude.Text.{digit, format_nat}
use blackjack.Prelude.Result.{Error, Result, ok, err, ◌>>=◌}

abbrev pub max_uint64 : ℕ
max_uint64 = 18446744073709551615

unfoldable pub format_uint : ℕ → String
format_uint n = format_nat 20 n

-- A character that is a digit, a value that is too large.
abbrev accept : Bool → Bool → Result ℕ → Result ℕ
accept true false rest = rest
accept true true rest = err (Error.other "value out of range")
accept false _ rest = err (Error.other "invalid syntax")

unfoldable parse_digits : ℕ → String → Result ℕ
parse_digits acc [] = ok acc
parse_digits acc (c ∷ s) =
    let n = acc * 10 + (code c - 48) in
    accept (leb 48 (code c) && leb (code c) 57) (ltb max_uint64 n) (parse_digits n s)

unfoldable pub parse_uint : String → Result ℕ
unfolding parse_digits
parse_uint [] = err (Error.other "invalid syntax")
parse_uint (c ∷ s) = parse_digits 0 (c ∷ s)

accept->>= :
    (b o : Bool) (m : Result ℕ) (f : ℕ → Result ℕ) → accept b o (m >>= f) ≡ (accept b o m >>= f)
accept->>= true true m f = refl
accept->>= true false m f = refl
accept->>= false o m f = refl

parse_digits-++ :
    (acc : ℕ) (s t : String)
    → parse_digits acc (s ++ t) ≡ (parse_digits acc s >>= λ n. parse_digits n t)
unfolding parse_digits
parse_digits-++ acc [] t = ap (parse_digits acc) (nil-append t)
parse_digits-++ acc (c ∷ s) t =
    let n = acc * 10 + (code c - 48) in
    let b = leb 48 (code c) && leb (code c) 57 in
    ap (parse_digits acc) (cons-append c s t)
    ∙ ap (accept b (ltb max_uint64 n)) (parse_digits-++ n s t)
    ∙ accept->>= b (ltb max_uint64 n) (parse_digits n s) (λ m. parse_digits m t)

parse_digits-digit :
    (acc d : ℕ)
    → d < 10
    → acc * 10 + d ≤ max_uint64
    → parse_digits acc (digit d) ≡ ok (acc * 10 + d)
unfolding parse_digits digit
parse_digits-digit acc zero h k = ground arith
parse_digits-digit acc (suc zero) h k = ground arith
parse_digits-digit acc (suc (suc zero)) h k = ground arith
parse_digits-digit acc (suc (suc (suc zero))) h k = ground arith
parse_digits-digit acc (suc (suc (suc (suc zero)))) h k = ground arith
parse_digits-digit acc (suc (suc (suc (suc (suc zero))))) h k = ground arith
parse_digits-digit acc (suc (suc (suc (suc (suc (suc zero)))))) h k = ground arith
parse_digits-digit acc (suc (suc (suc (suc (suc (suc (suc zero))))))) h k = ground arith
parse_digits-digit acc (suc (suc (suc (suc (suc (suc (suc (suc zero)))))))) h k = ground arith
parse_digits-digit acc (suc (suc (suc (suc (suc (suc (suc (suc (suc zero))))))))) h k = ground arith
parse_digits-digit acc (suc (suc (suc (suc (suc (suc (suc (suc (suc (suc n)))))))))) h k =
    absurd (omega arith)

-- Enough digits for a number print it in a form that reads back.
format_nat_lem :
    (fuel n : ℕ) → n < 10 ^ fuel → n ≤ max_uint64 → parse_digits 0 (format_nat fuel n) ≡ ok n
unfolding format_nat parse_digits
format_nat_lem zero n h k = ap ok (omega arith)
format_nat_lem (suc fuel) n h k = elim (Bool-cases (ltb n 10)) [
  | inl p ↦ rw (p) (parse_digits-digit 0 n (ground arith) (omega arith) ∙ ap ok (omega arith))
  | inr p ↦
      rw
        (
          p,
          parse_digits-++ 0 (format_nat fuel (n / 10)) (digit (n % 10)),
          format_nat_lem fuel (n / 10) (shorter fuel n h) (omega arith),
        )
        (parse_digits-digit (n / 10) (n % 10) (omega arith) (omega arith) ∙ ap ok (omega arith))
]
  where
    shorter : (fuel n : ℕ) → n < 10 ^ suc fuel → n / 10 < 10 ^ fuel
    shorter fuel n h = grind arith

parse_uint-parse_digits :
    (s : String) (n : ℕ) → parse_digits 0 s ≡ ok (suc n) → parse_uint s ≡ ok (suc n)
unfolding parse_uint parse_digits
parse_uint-parse_digits [] n h = ground arith
parse_uint-parse_digits (c ∷ s) n h = h

pub parse_uint-format : (n : ℕ) → n ≤ max_uint64 → parse_uint (format_uint n) ≡ ok n
unfolding format_uint
parse_uint-format zero h = unfold parse_uint parse_digits format_nat digit in refl
parse_uint-format (suc n) h =
    parse_uint-parse_digits (format_nat 20 (suc n)) n (format_nat_lem 20 (suc n) (omega arith) h)
