-- ===== src/Startup/Origins.antt =====
-- `ConfigureWebSocketAllowedOrigins` of backend/controller/room_ws_controller.go: from which pages a WebSocket
-- may be opened.
use mathlib.Core.Logic.{◌↔◌}
use Prim.Native.Char.{Char, code}
use Prim.Native.String as Text
use blackjack.Prelude.{
  String, str_eq, eq_iff, ◌≡◌, ◌≢◌, refl, sym, ap, ◌∙◌, subst, Bool, true, false, true≢false, ◌==◌,
  Bool-cases, In, ◌⊎◌, inl, inr, List, [], ◌∷◌, if◌then◌else◌,
}
use blackjack.Prelude.Space.{trim_space, trim_space_twice}
use blackjack.Startup.Environment.{
  Environment, comma, split, trimmed_parts, parse_ws_allowed_origins,
}

unfoldable pub is_listed : String → List String → Bool
is_listed origin [] = false
is_listed origin (o ∷ origins) = if str_eq o origin then true else is_listed origin origins

-- The `CheckOrigin` of a list of origins that is trimmed already.
abbrev pub check_listed : List String → String → Bool
check_listed [] origin = true
check_listed (o ∷ origins) origin = is_listed origin (o ∷ origins)

-- The `CheckOrigin` that the function leaves for the header Origin.
unfoldable pub check_origin : List String → String → Bool
unfolding is_listed
check_origin origins origin = check_listed (trimmed_parts origins) origin

trimmed_parts_twice : (l : List String) → trimmed_parts (trimmed_parts l) ≡ trimmed_parts l
unfolding trimmed_parts
trimmed_parts_twice [] = refl
trimmed_parts_twice (part ∷ parts) = elim (Bool-cases (str_eq (trim_space part) "")) [
  | inl e ↦ rw (e) (trimmed_parts_twice parts)
  | inr e ↦
      rw (e, trim_space_twice part, e) (ap (λ l. trim_space part ∷ l) (trimmed_parts_twice parts))
]

parsed_twice :
    (env : Environment)
    → trimmed_parts (parse_ws_allowed_origins env) ≡ parse_ws_allowed_origins env
unfolding parse_ws_allowed_origins trimmed_parts
parsed_twice env = elim (Bool-cases (str_eq (env "WS_ALLOWED_ORIGINS") "")) [
  | inl e ↦ rw (e) refl
  | inr e ↦ rw (e) (trimmed_parts_twice (split comma (env "WS_ALLOWED_ORIGINS")))
]

is_listed-In : (origin : String) (l : List String) → is_listed origin l ≡ true → In origin l
unfolding is_listed
is_listed-In origin [] h = cc
is_listed-In origin (o ∷ l) h = elim (Bool-cases (str_eq o origin)) [
  | inl e ↦ inl (sym ((eq_iff o origin).0 e))
  | inr e ↦ inr (is_listed-In origin l (rw (e) at h))
]

In-is_listed : (origin : String) (l : List String) → In origin l → is_listed origin l ≡ true
unfolding is_listed
In-is_listed origin [] m = absurd m
In-is_listed origin (o ∷ l) (inl p) = rw ((eq_iff o origin).1 (sym p)) refl
In-is_listed origin (o ∷ l) (inr n) = elim (Bool-cases (str_eq o origin)) [
  | inl e ↦ rw (e) refl
  | inr e ↦ rw (e) (In-is_listed origin l n)
]

checked :
    (l : List String) (origin : String) → (check_listed l origin ≡ true) ↔ ((l ≡ []) ⊎ In origin l)
unfolding is_listed
checked [] origin = (λ h. inl refl, λ h. refl)
checked (o ∷ l) origin = (
  λ h. inr (is_listed-In origin (o ∷ l) h),
  λ h. elim h [ inl p ↦ cc | inr m ↦ In-is_listed origin (o ∷ l) m ],
)

abbrev pub has_comma : String → Bool
has_comma Text.[] = false
has_comma (Text.◌∷◌ c s) = let rest = has_comma s in if code c == comma then true else rest

-- A text, a comma, and another text.
abbrev pub before_comma : String → String → String
before_comma Text.[] rest = Text.◌∷◌ "," rest
before_comma (Text.◌∷◌ c s) rest = Text.◌∷◌ c (before_comma s rest)

-- Parts with a comma between each two.
abbrev pub joined : String → List String → String
joined part [] = part
joined part (next ∷ parts) = before_comma part (joined next parts)

abbrev pub NoCommas : List String → Type 0
NoCommas [] = Unit
NoCommas (part ∷ parts) = (has_comma part ≡ false) × NoCommas parts

no_comma :
    (c : Char) (s : String)
    → has_comma (Text.◌∷◌ c s) ≡ false
    → ((code c == comma) ≡ false) × (has_comma s ≡ false)
no_comma c s h = elim (Bool-cases (code c == comma)) [
  | inl e ↦ cc (rw e at h)
  | inr e ↦ (e, rw e at h)
]

split-before_comma :
    (part rest : String)
    → has_comma part ≡ false
    → split comma (before_comma part rest) ≡ part ∷ split comma rest
unfolding split
split-before_comma Text.[] rest free = refl
split-before_comma (Text.◌∷◌ c s) rest free =
    let (other, free) = no_comma c s free in rw (other, split-before_comma s rest free) refl

split-part : (part : String) → has_comma part ≡ false → split comma part ≡ part ∷ []
unfolding split
split-part Text.[] free = refl
split-part (Text.◌∷◌ c s) free =
    let (other, free) = no_comma c s free in rw (other, split-part s free) refl

split-joined :
    (part : String) (parts : List String)
    → NoCommas (part ∷ parts)
    → split comma (joined part parts) ≡ part ∷ parts
split-joined part [] (free, rest) = split-part part free
split-joined part (next ∷ parts) (free, rest) =
    split-before_comma part (joined next parts) free
    ∙ ap (λ l. part ∷ l) (split-joined next parts rest)

-- The origin that a part names is the part without the spaces around it, if anything is left.
abbrev pub Names : List String → String → Type 0
Names parts origin = (origin ≢ "") × (part : String) × In part parts × (trim_space part ≡ origin)

later :
    (part origin : String) (parts : List String) → Names parts origin → Names (part ∷ parts) origin
later part origin parts (some_text, p, m, e) = (some_text, p, inr m, e)

trimmed_parts-Names :
    (parts : List String) (origin : String) → In origin (trimmed_parts parts) → Names parts origin
unfolding trimmed_parts
trimmed_parts-Names [] origin m = absurd m
trimmed_parts-Names (part ∷ parts) origin m = elim (Bool-cases (str_eq (trim_space part) "")) [
  | inl e ↦ later part origin parts (trimmed_parts-Names parts origin (rw e at m))
  | inr e ↦ elim (rw e at m) [
    | inl same ↦ (
      λ empty. true≢false (sym ((eq_iff (trim_space part) "").1 (sym same ∙ empty)) ∙ e),
      part,
      inl refl,
      sym same,
    )
    | inr n ↦ later part origin parts (trimmed_parts-Names parts origin n)
  ]
]

Names-trimmed_parts :
    (parts : List String) (origin part : String)
    → origin ≢ ""
    → In part parts
    → trim_space part ≡ origin
    → In origin (trimmed_parts parts)
unfolding trimmed_parts
Names-trimmed_parts [] origin part text m e = absurd m
Names-trimmed_parts (p ∷ parts) origin part text m e =
    elim (Bool-cases (str_eq (trim_space p) "")) [
      | inl blank ↦ elim m [
        | inl same ↦ absurd (text (sym e ∙ ap trim_space same ∙ (eq_iff (trim_space p) "").0 blank))
        | inr n ↦ rw blank (Names-trimmed_parts parts origin part text n e)
      ]
      | inr full ↦ elim m [
        | inl same ↦ rw full (inl (sym e ∙ ap trim_space same))
        | inr n ↦ rw full (inr (Names-trimmed_parts parts origin part text n e))
      ]
    ]

named_one :
    (parts : List String) (origin : String) → Names parts origin → In origin (trimmed_parts parts)
named_one parts origin (text, part, m, e) = Names-trimmed_parts parts origin part text m e

first_named : (l : List String) → (l ≡ []) ⊎ ((o : String) × In o l)
first_named [] = inl refl
first_named (o ∷ l) = inr (o, inl refl)

nothing_in : (l : List String) (o : String) → l ≡ [] → In o l → ⊥
nothing_in [] o e m = absurd m
nothing_in (x ∷ l) o e m = cc e

parsed :
    (env : Environment) (part : String) (parts : List String)
    → NoCommas (part ∷ parts)
    → env "WS_ALLOWED_ORIGINS" ≡ joined part parts
    → parse_ws_allowed_origins env ≡ trimmed_parts (part ∷ parts)
unfolding parse_ws_allowed_origins trim_space
parsed env part parts free e = elim (Bool-cases (str_eq (env "WS_ALLOWED_ORIGINS") "")) [
  | inr text ↦ rw (text, e) (ap trimmed_parts (split-joined part parts free))
  | inl empty ↦ rw empty (
      ap trimmed_parts (
        sym (ap (split comma) (sym e ∙ (eq_iff (env "WS_ALLOWED_ORIGINS") "").0 empty))
        ∙ split-joined part parts free))
]

-- Let the value of WS_ALLOWED_ORIGINS be the parts with a comma between each two, none of which has a comma
-- in it. Then a page may open a WebSocket exactly when every part is blank, that is, no part names an origin,
-- or when its origin is what one of the parts leaves without the spaces around it.
pub check_origin-allowed :
    (env : Environment) (origin part : String) (parts : List String)
    → NoCommas (part ∷ parts)
    → env "WS_ALLOWED_ORIGINS" ≡ joined part parts
    → (check_origin (parse_ws_allowed_origins env) origin ≡ true)
      ↔ (((o : String) → Names (part ∷ parts) o → ⊥) ⊎ Names (part ∷ parts) origin)
unfolding check_origin
check_origin-allowed env origin part parts free e =
    let (there, back) = checked (parse_ws_allowed_origins env) origin in
    let same = parsed env part parts free e in
    rw (parsed_twice env) (
      λ h. elim (there h) [
        | inl empty ↦ inl (λ o named.
            nothing_in (trimmed_parts (part ∷ parts)) o (sym same ∙ empty)
              (named_one (part ∷ parts) o named))
        | inr m ↦ inr (trimmed_parts-Names (part ∷ parts) origin (subst (In origin) same m))
      ],
      λ h. back (elim h [
        | inl nobody ↦ elim (first_named (trimmed_parts (part ∷ parts))) [
          | inl empty ↦ inl (same ∙ empty)
          | inr named ↦ absurd (nobody named.0 (trimmed_parts-Names (part ∷ parts) named.0 named.1))
        ]
        | inr named ↦ inr (subst (In origin) (sym same) (named_one (part ∷ parts) origin named))
      ]),
    )
