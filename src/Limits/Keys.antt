-- ===== src/Limits/Keys.antt =====
-- backend/usecase/rate_limit_usecase.go: the keys of the buckets. strings.ToLower, which goes by the
-- tables of Unicode, is a parameter.
use blackjack.Prelude.{
  ℕ, String, str_eq, ◌≡◌, ◌≢◌, refl, sym, ap, ◌∙◌, Bool, false, Bool-cases, ||-false, true≢false,
  inl, inr, ◌||◌, ◌==◌, if◌then◌else◌,
}
use Prim.Native.Char.{Char, code}
use Prim.Native.String.{[], ◌∷◌, ◌++◌, char_at}
use text.Mathlib.TextLemmas.{cons-ne-nil}
use blackjack.Prelude.Space.{trim_space}
use blackjack.Prelude.Decimal.{format_uint}

-- strings.ReplaceAll for one character by another, and for one character by nothing.
unfoldable pub replace_all : String → ℕ → Char → String
replace_all [] old new = []
replace_all (c ∷ s) old new =
    let rest = replace_all s old new in if code c == old then new ∷ rest else c ∷ rest

unfoldable pub remove_all : String → ℕ → String
remove_all [] old = []
remove_all (c ∷ s) old = let rest = remove_all s old in if code c == old then rest else c ∷ rest

abbrev pub colon : ℕ
colon = 58

abbrev pub dot : ℕ
dot = 46

abbrev pub space : ℕ
space = 32

abbrev pub underscore : Char
underscore = char_at "_" 0

unfoldable pub rate_limit_ip_key : String → String
unfolding replace_all
rate_limit_ip_key ip =
    let v = trim_space ip in
    if str_eq v "" then "unknown" else replace_all (replace_all v colon underscore) dot underscore

unfoldable pub rate_limit_email_key : (String → String) → String → String
rate_limit_email_key to_lower email = remove_all (to_lower (trim_space email)) space

abbrev pub ip_bucket : String → String → String
ip_bucket action ip = "rl:" ++ action ++ ":ip:" ++ rate_limit_ip_key ip

abbrev pub email_bucket : String → String → String
email_bucket action email = "rl:" ++ action ++ ":email:" ++ email

abbrev pub tasks_bucket : ℕ → String
tasks_bucket user_id = "rl:tasks:user:" ++ format_uint user_id

-- A text holds a character.
unfoldable pub holds : ℕ → String → Bool
holds n [] = false
holds n (c ∷ s) = code c == n || holds n s

holds-replace_all :
    (s : String) (old : ℕ) (new : Char)
    → (code new == old) ≡ false
    → holds old (replace_all s old new) ≡ false
unfolding holds replace_all
holds-replace_all [] old new h = refl
holds-replace_all (c ∷ s) old new h = elim (Bool-cases (code c == old)) [
  | inl e ↦ rw (e, h) (holds-replace_all s old new h)
  | inr e ↦ rw (e, e) (holds-replace_all s old new h)
]

holds_other-replace_all :
    (s : String) (n old : ℕ) (new : Char)
    → (code new == n) ≡ false
    → holds n s ≡ false
    → holds n (replace_all s old new) ≡ false
unfolding holds replace_all
holds_other-replace_all [] n old new h k = refl
holds_other-replace_all (c ∷ s) n old new h k =
    let (p, q) = ||-false (code c == n) (holds n s) k in
    elim (Bool-cases (code c == old)) [
      | inl e ↦ rw (e, h) (holds_other-replace_all s n old new h q)
      | inr e ↦ rw (e, p) (holds_other-replace_all s n old new h q)
    ]

replace_all-not_empty : (s : String) (old : ℕ) (new : Char) → s ≢ "" → replace_all s old new ≢ ""
unfolding replace_all
replace_all-not_empty [] old new h = h
replace_all-not_empty (c ∷ s) old new h = elim (Bool-cases (code c == old)) [
  | inl e ↦ rw (e) (cons-ne-nil new (replace_all s old new))
  | inr e ↦ rw (e) (cons-ne-nil c (replace_all s old new))
]

holds-remove_all : (s : String) (old : ℕ) → holds old (remove_all s old) ≡ false
unfolding holds remove_all
holds-remove_all [] old = refl
holds-remove_all (c ∷ s) old = elim (Bool-cases (code c == old)) [
  | inl e ↦ rw (e) (holds-remove_all s old)
  | inr e ↦ rw (e, e) (holds-remove_all s old)
]

-- The key of an address is never empty and holds no colon and no dot.
pub rate_limit_ip_key-clean :
    (ip : String)
    → (rate_limit_ip_key ip ≢ "")
      × (holds colon (rate_limit_ip_key ip) ≡ false)
      × (holds dot (rate_limit_ip_key ip) ≡ false)
unfolding rate_limit_ip_key
rate_limit_ip_key-clean ip =
    let v = trim_space ip in
    let w = replace_all v colon underscore in
    elim (Bool-cases (str_eq v "")) [
      | inl e ↦
          unfold holds in rw (e) ((λ h. true≢false (sym (ap (λ t. str_eq t "") h))), refl, refl)
      | inr e ↦ rw (e) (
        replace_all-not_empty w dot underscore
            (replace_all-not_empty v colon underscore (named_text e)),
        holds_other-replace_all w colon dot underscore refl
            (holds-replace_all v colon underscore refl),
        holds-replace_all w dot underscore refl,
      )
    ]
  where
    named_text : {s : String} → str_eq s "" ≡ false → s ≢ ""
    named_text e h = true≢false (sym (ap (λ t. str_eq t "") h) ∙ e)

-- The key of a name holds no space.
pub rate_limit_email_key-clean :
    (to_lower : String → String) (email : String)
    → holds space (rate_limit_email_key to_lower email) ≡ false
unfolding rate_limit_email_key
rate_limit_email_key-clean to_lower email = holds-remove_all (to_lower (trim_space email)) space
