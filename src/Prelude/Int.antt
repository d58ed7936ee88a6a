-- ===== src/Prelude/Int.antt =====
-- Go's `int` and `int64` (both 64 bits wide) as signed numbers, with the increment that wraps.
use Prim.Native.Nat.{ℕ, zero, suc, ◌+◌, ◌-◌, ◌*◌, ◌%◌, ◌<◌, ◌≤◌}
use mathlib.Core.Path.{◌≡◌, refl}
use mathlib.Core.Bool.{Bool, true}
use native.Mathlib.Omega.{arith}
use blackjack.Prelude.Tests.{ltb, leb, ◌==◌, if◌then◌else◌}
use mathlib.Core.Bool.{◌&&◌}

-- `negsuc n` is -(n + 1).
pub data ℤ : Type 0 where
  pos : ℕ → ℤ
  negsuc : ℕ → ℤ

abbrev pub pos_part : ℤ → ℕ
pos_part (pos n) = n
pos_part (negsuc n) = 0

abbrev pub neg_part : ℤ → ℕ
neg_part (pos n) = 0
neg_part (negsuc n) = suc n

abbrev pub ltb_ℤ : ℤ → ℤ → Bool
ltb_ℤ a b = ltb (pos_part a + neg_part b) (pos_part b + neg_part a)

abbrev pub leb_ℤ : ℤ → ℤ → Bool
leb_ℤ a b = leb (pos_part a + neg_part b) (pos_part b + neg_part a)

abbrev pub eqb_ℤ : ℤ → ℤ → Bool
eqb_ℤ a b = pos_part a == pos_part b && neg_part a == neg_part b

infix 50 ◌<ℤ◌ ◌≤ℤ◌
abbrev pub ◌<ℤ◌ : ℤ → ℤ → Type 0
a <ℤ b = pos_part a + neg_part b < pos_part b + neg_part a

abbrev pub ◌≤ℤ◌ : ℤ → ℤ → Type 0
a ≤ℤ b = pos_part a + neg_part b ≤ pos_part b + neg_part a

pub eqb_ℤ-sound : (a b : ℤ) → eqb_ℤ a b ≡ true → a ≡ b
eqb_ℤ-sound (pos m) (pos n) h = ground arith
eqb_ℤ-sound (pos m) (negsuc n) h = ground arith
eqb_ℤ-sound (negsuc m) (pos n) h = ground arith
eqb_ℤ-sound (negsuc m) (negsuc n) h = ground arith

abbrev pub max_int64 : ℕ
max_int64 = 9223372036854775807

-- `x + 1` on a 64-bit integer: the largest value wraps round to the smallest.
unfoldable pub inc64 : ℤ → ℤ
inc64 (pos n) = if n == max_int64 then negsuc max_int64 else pos (n + 1)
inc64 (negsuc zero) = pos 0
inc64 (negsuc (suc n)) = negsuc n

pub inc64-pos : (n : ℕ) → n < max_int64 → inc64 (pos n) ≡ pos (n + 1)
unfolding inc64
inc64-pos n h = ground arith

abbrev pub two_64 : ℕ
two_64 = 18446744073709551616

-- A 64-bit pattern as a signed number.
abbrev pub signed64 : ℕ → ℤ
signed64 m = if leb m max_int64 then pos m else negsuc (two_64 - 1 - m)

-- The product with a natural number on 64 bits, which wraps.
unfoldable pub times64 : ℤ → ℕ → ℤ
times64 (pos n) k = signed64 ((n * k) % two_64)
times64 (negsuc n) k = signed64 ((two_64 - (suc n * k) % two_64) % two_64)

test : times64 (negsuc 2) 1000000 ≡ negsuc 2999999
unfolding times64
test = refl
