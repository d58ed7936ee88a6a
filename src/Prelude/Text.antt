-- ===== src/Prelude/Text.antt =====
-- Go's strconv.FormatInt in base 10 and strconv.FormatBool.
use Prim.Native.Nat.{ℕ, zero, suc, ◌+◌, ◌/◌, ◌%◌}
use Prim.Native.String.{String}
use Prim.Native.String.{◌++◌}
use mathlib.Core.Bool.{Bool, true, false}
use mathlib.Core.Path.{◌≡◌, refl}
use mathlib.Core.Option.{none, some}
use mathlib.Core.List.{[], ◌∷◌}
use blackjack.Prelude.Int.{ℤ, pos, negsuc}
use blackjack.Prelude.Lists.{get_elem?}
use blackjack.Prelude.Tests.{ltb, if◌then◌else◌}

unfoldable pub digit : ℕ → String
digit n =
    elim (get_elem? {A = String} ("0" ∷ "1" ∷ "2" ∷ "3" ∷ "4" ∷ "5" ∷ "6" ∷ "7" ∷ "8" ∷ "9" ∷ [])
      n) [ some d ↦ d | none ↦ "" ]

-- Twenty digits are enough for every 64-bit number.
unfoldable pub format_nat : ℕ → ℕ → String
unfolding digit
format_nat zero n = ""
format_nat (suc fuel) n =
    let rest = format_nat fuel (n / 10) in if ltb n 10 then digit n else rest ++ digit (n % 10)

unfoldable pub format_int : ℤ → String
unfolding format_nat
format_int (pos n) = format_nat 20 n
format_int (negsuc n) = "-" ++ format_nat 20 (n + 1)

unfoldable pub format_bool : Bool → String
format_bool true = "true"
format_bool false = "false"

test : format_int (pos 9223372036854775807) ≡ "9223372036854775807"
unfolding format_int format_nat digit
test = refl
