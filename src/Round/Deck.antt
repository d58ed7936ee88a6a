-- ===== src/Round/Deck.antt =====
-- `newShuffledDeck` of backend/usecase/game_usecase.go, with `shuffleIntn` of hooks.go as a parameter:
-- `rand i` is the answer of the call with the bound `i`, and `none` is its error. The bounds of the
-- calls differ, so a function describes every run.
use blackjack.Prelude.{
  ℕ, zero, suc, ◌+◌, String, List, [], ◌∷◌, ◌++◌, Option, none, some, get_elem?, set,
}
use blackjack.Prelude.Result.{panic, Result, ok, err, ◌>>=◌}
use blackjack.Model.Session.{StoredCard}

abbrev suits : List String
suits = "S" ∷ "H" ∷ "D" ∷ "C" ∷ []

abbrev pub ranks : List String
ranks = "A" ∷ "2" ∷ "3" ∷ "4" ∷ "5" ∷ "6" ∷ "7" ∷ "8" ∷ "9" ∷ "10" ∷ "J" ∷ "Q" ∷ "K" ∷ []

unfoldable pub cards_of_suit : String → List String → List StoredCard
cards_of_suit s [] = []
cards_of_suit s (r ∷ rs) = record { rank = r; suit = s } ∷ cards_of_suit s rs

unfoldable pub deck_of_suits : List String → List StoredCard
unfolding cards_of_suit
deck_of_suits [] = []
deck_of_suits (s ∷ ss) = cards_of_suit s ranks ++ deck_of_suits ss

-- The deck before the shuffle.
unfoldable pub sorted_deck : List StoredCard
unfolding deck_of_suits
sorted_deck = deck_of_suits suits

-- `deck[i], deck[j] = deck[j], deck[i]`
unfoldable pub swap_cards {ℓ} : {A : Type ℓ} → List A → ℕ → ℕ → Result (List A)
swap_cards deck i j = elim (get_elem? deck i) [
  | none ↦ err panic
  | some x ↦ elim (get_elem? deck j) [ none ↦ err panic | some y ↦ ok (set (set deck i y) j x) ]
]

-- The index that is swapped with `i`: 0 if the random source fails.
unfoldable pub shuffle_index : (ℕ → Option ℕ) → ℕ → ℕ
shuffle_index rand i = elim (rand (i + 1)) [ none ↦ 0 | some j ↦ j ]

-- The loop from `i` down to 1.
unfoldable pub shuffle_from {ℓ} : {A : Type ℓ} → (ℕ → Option ℕ) → ℕ → List A → Result (List A)
unfolding swap_cards shuffle_index
shuffle_from rand zero deck = ok deck
shuffle_from rand (suc i) deck =
    swap_cards deck (suc i) (shuffle_index rand (suc i)) >>= λ swapped. shuffle_from rand i swapped

unfoldable pub new_shuffled_deck : (ℕ → Option ℕ) → Result (List StoredCard)
unfolding shuffle_from sorted_deck
new_shuffled_deck rand = shuffle_from rand 51 sorted_deck
