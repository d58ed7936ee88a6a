-- ===== src/Prelude/Space.antt =====
-- Go's strings.TrimSpace and the functions of the package strings that the keys of the rate limiter use.
use Prim.Native.Char.{Char, code}
use Prim.Native.String.{String, [], ◌∷◌}
use mathlib.Core.Bool.{Bool, true, false, ◌&&◌, ◌||◌}
use mathlib.Core.Path.{◌≡◌, refl}
use mathlib.Core.Logic.{inl, inr}
use blackjack.Prelude.Tests.{Bool-cases, leb, ◌==◌, if◌then◌else◌}

-- unicode.IsSpace
unfoldable pub is_space : Char → Bool
is_space c =
    (leb 9 (code c) && leb (code c) 13)
    || code c == 32
    || code c == 133
    || code c == 160
    || code c == 5760
    || (leb 8192 (code c) && leb (code c) 8202)
    || code c == 8232
    || code c == 8233
    || code c == 8239
    || code c == 8287
    || code c == 12288

unfoldable pub trim_left : String → String
trim_left [] = []
trim_left (c ∷ s) = let rest = trim_left s in if is_space c then rest else c ∷ s

-- A character that goes unless something stays after it.
abbrev pub space_before : Bool → Char → String → String
space_before true c [] = []
space_before true c (d ∷ s) = c ∷ d ∷ s
space_before false c s = c ∷ s

unfoldable pub trim_right : String → String
trim_right [] = []
trim_right (c ∷ s) = space_before (is_space c) c (trim_right s)

unfoldable pub trim_space : String → String
unfolding trim_left trim_right
trim_space s = trim_right (trim_left s)

test : trim_space "  ab c \t" ≡ "ab c"
unfolding trim_space trim_left trim_right is_space
test = refl

starts_blank : String → Bool
starts_blank [] = false
starts_blank (c ∷ s) = is_space c

starts_blank-trim_left : (s : String) → starts_blank (trim_left s) ≡ false
unfolding starts_blank trim_left
starts_blank-trim_left [] = refl
starts_blank-trim_left (c ∷ s) = elim (Bool-cases (is_space c)) [
  | inl p ↦ rw (p) (starts_blank-trim_left s)
  | inr p ↦ rw (p) p
]

trim_left_same : (s : String) → starts_blank s ≡ false → trim_left s ≡ s
unfolding starts_blank trim_left
trim_left_same [] h = refl
trim_left_same (c ∷ s) h = rw (h) refl

starts_blank-trim_right :
    (s : String) → starts_blank s ≡ false → starts_blank (trim_right s) ≡ false
unfolding starts_blank trim_right
starts_blank-trim_right [] h = refl
starts_blank-trim_right (c ∷ s) h = rw (h) h

trim_right-space_before :
    (b : Bool) (c : Char) (t : String)
    → is_space c ≡ b
    → trim_right t ≡ t
    → trim_right (space_before b c t) ≡ space_before b c t
unfolding trim_right
trim_right-space_before true c [] h k = refl
trim_right-space_before true c (d ∷ t) h k = rw (h, k) refl
trim_right-space_before false c t h k = rw (h, k) refl

trim_right_twice : (s : String) → trim_right (trim_right s) ≡ trim_right s
unfolding trim_right
trim_right_twice [] = refl
trim_right_twice (c ∷ s) =
    trim_right-space_before (is_space c) c (trim_right s) refl (trim_right_twice s)

pub trim_space_twice : (s : String) → trim_space (trim_space s) ≡ trim_space s
unfolding trim_space
trim_space_twice s =
    let t = trim_left s in
    rw (trim_left_same (trim_right t) (starts_blank-trim_right t (starts_blank-trim_left s)))
      (trim_right_twice t)
