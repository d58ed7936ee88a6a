-- ===== src/Round/Shuffle.antt =====
-- The shuffle of `newShuffledDeck` in backend/usecase/game_usecase.go as a rearrangement of the deck.
use mathlib.Core.List.{Perm, Mem, Nodup, Nodup-nil, Nodup-cons, not-mem-nil, mem-cons}
use mathlib.Core.HLevel.{⊥_prop}
use mathlib.Core.Logic.Or
use mathlib.Core.List.Perm
use blackjack.Prelude.{
  ℕ, zero, suc, ◌+◌, ◌≤◌, ◌<◌, ◌≡◌, refl, ap, ◌∙◌, inl, inr, List, [], ◌∷◌, Option, some,
  Option-cases, arith, length, get_elem?, get_elem?_lem, set, Bool, true, false, not, ◌&&◌, ◌||◌,
  map, str_eq, eq_iff, All, All-append, All-get_elem?,
}
use blackjack.Prelude.Result.{Result, ok}
use blackjack.Model.Session.{StoredCard}
use blackjack.Adapter.Convert.{
  RankName, ace, two, three, four, five, six, seven, eight, nine, ten, jack, queen, king, SuitName,
  spades, hearts, diamonds, clubs, suit_text, named_card, IsStandard,
}
use blackjack.Round.Deck.{
  cards_of_suit, deck_of_suits, ranks, sorted_deck, swap_cards, shuffle_index, shuffle_from,
  new_shuffled_deck,
}

-- crypto/rand.Int returns a number below its bound.
abbrev pub BelowBound : (ℕ → Option ℕ) → Type 0
BelowBound rand = (i j : ℕ) → rand i ≡ some j → j < i

shuffle_index_bound : (rand : ℕ → Option ℕ) (i : ℕ) → BelowBound rand → shuffle_index rand i ≤ i
unfolding shuffle_index
shuffle_index_bound rand i below = elim (Option-cases (rand (i + 1))) [
  | inl failed ↦ rw (failed, shuffle_index) (omega arith)
  | inr (j, e) ↦ rw (e, shuffle_index) (omega (arith, below (i + 1) j e))
]

module _ {ℓ} {A : Type ℓ} where
  length-set : (xs : List A) (i : ℕ) (v : A) → length (set xs i v) ≡ length xs
  length-set [] i v = refl
  length-set (x ∷ xs) zero v = refl
  length-set (x ∷ xs) (suc i) v = ap suc (length-set xs i v)

  All-set {κ} : (P : A → Type κ) (xs : List A) (i : ℕ) (v : A) → All P xs → P v → All P (set xs i v)
  All-set P [] i v h p = h
  All-set P (x ∷ xs) zero v h p = (p, h.1)
  All-set P (x ∷ xs) (suc i) v h p = (h.0, All-set P xs i v h.1 p)

  -- An element of the tail changes places with the one that stands before the tail.
  exchange_head :
      (xs : List A) (j : ℕ) (x y : A) → get_elem? xs j ≡ some y → Perm (y ∷ set xs j x) (x ∷ xs)
  exchange_head [] j x y e = cc
  exchange_head (z ∷ xs) zero x y e =
      Perm.trans (Perm.swap x y xs) (Perm.cons x (Perm.cons' (ground arith) (Perm.refl xs)))
  exchange_head (z ∷ xs) (suc j) x y e =
      Perm.trans (Perm.swap z y _)
        (Perm.trans (Perm.cons z (exchange_head xs j x y e)) (Perm.swap x z xs))

  exchange-perm :
      (xs : List A) (i j : ℕ) (x y : A)
      → get_elem? xs i ≡ some x
      → get_elem? xs j ≡ some y
      → Perm (set (set xs i y) j x) xs
  exchange-perm [] i j x y e f = cc
  exchange-perm (z ∷ xs) zero zero x y e f = Perm.cons' (ground arith) (Perm.refl xs)
  exchange-perm (z ∷ xs) zero (suc j) x y e f =
      Perm.trans (exchange_head xs j x y f) (Perm.cons' (ground arith) (Perm.refl xs))
  exchange-perm (z ∷ xs) (suc i) zero x y e f =
      Perm.trans (exchange_head xs i y x e) (Perm.cons' (ground arith) (Perm.refl xs))
  exchange-perm (z ∷ xs) (suc i) (suc j) x y e f = Perm.cons z (exchange-perm xs i j x y e f)

-- A rearrangement of `xs`, of elements that satisfy `P`.
abbrev pub Rearranged {ℓ κ} : {A : Type ℓ} → (A → Type κ) → List A → Result (List A) → Type (ℓ ⊔ κ)
Rearranged {A} P xs m =
    (ys : List A) × (m ≡ ok ys) × Perm ys xs × (length ys ≡ length xs) × All P ys

module _ {ℓ κ} {A : Type ℓ} (P : A → Type κ) where
  -- Inside the list a swap succeeds.
  swap_cards-Rearranged :
      (xs : List A) (i j : ℕ)
      → All P xs
      → i < length xs
      → j < length xs
      → Rearranged P xs (swap_cards xs i j)
  unfolding swap_cards
  swap_cards-Rearranged xs i j h hi hj =
      let (x, ex, _) = get_elem?_lem i xs hi in
      let (y, ey, _) = get_elem?_lem j xs hj in
      (
        set (set xs i y) j x,
        ground arith,
        exchange-perm xs i j x y ex ey,
        length-set (set xs i y) j x ∙ length-set xs i y,
        All-set P (set xs i y) j x (All-set P xs i y h (All-get_elem? P j xs y h ey))
            (All-get_elem? P i xs x h ex),
      )

  -- The loop ends with a rearrangement of the deck, whatever the random numbers are.
  pub shuffle_from-Rearranged :
      (rand : ℕ → Option ℕ) (i : ℕ) (deck : List A)
      → BelowBound rand
      → All P deck
      → i < length deck
      → Rearranged P deck (shuffle_from rand i deck)
  unfolding shuffle_from
  shuffle_from-Rearranged rand zero deck below h room = (deck, refl, Perm.refl deck, refl, h)
  shuffle_from-Rearranged rand (suc i) deck below h room =
      let (swapped, e, p, n, h') =
        swap_cards-Rearranged deck (suc i) (shuffle_index rand (suc i)) h room
          (omega (arith, shuffle_index_bound rand (suc i) below)) in
      let (out, f, q, m, h'') = shuffle_from-Rearranged rand i swapped below h' (omega arith) in
      rw e (out, f, Perm.trans q p, m ∙ n, h'')

standard : (n : RankName × SuitName) → IsStandard (named_card n)
standard n = record { name = n; named = refl }

suit_cards : (s : SuitName) → All IsStandard (cards_of_suit (suit_text s) ranks)
unfolding cards_of_suit
suit_cards s =
    let at = λ (r : RankName). standard (r, s) in
    (
      at ace,
      (
        at two,
        (
          at three,
          (
            at four,
            (
              at five,
              (
                at six,
                (at seven, (at eight, (at nine, (at ten, (at jack, (at queen, (at king, tt))))))),
              ),
            ),
          ),
        ),
      ),
    )

deck_of_suits-IsStandard : (ss : List SuitName) → All IsStandard (deck_of_suits (map suit_text ss))
unfolding deck_of_suits
deck_of_suits-IsStandard [] = tt
deck_of_suits-IsStandard (s ∷ ss) =
    All-append IsStandard (cards_of_suit (suit_text s) ranks) (deck_of_suits (map suit_text ss))
      (suit_cards s) (deck_of_suits-IsStandard ss)

pub sorted_deck-IsStandard : All IsStandard sorted_deck
unfolding sorted_deck
sorted_deck-IsStandard = deck_of_suits-IsStandard (spades ∷ hearts ∷ diamonds ∷ clubs ∷ [])

pub length-sorted_deck : length sorted_deck ≡ 52
unfolding sorted_deck
length-sorted_deck = refl

-- With a random source that answers below its bound or fails, the shuffle succeeds, and its result is a
-- rearrangement of the sorted deck, as long, of named cards.
pub new_shuffled_deck-Rearranged :
    (rand : ℕ → Option ℕ)
    → BelowBound rand
    → Rearranged IsStandard sorted_deck (new_shuffled_deck rand)
unfolding new_shuffled_deck
new_shuffled_deck-Rearranged rand below =
    shuffle_from-Rearranged IsStandard rand 51 sorted_deck below sorted_deck-IsStandard
      (omega (arith, length-sorted_deck))

-- Whether a card is in a list, and whether no card is in it twice.
contains : StoredCard → List StoredCard → Bool
contains c [] = false
contains c (d ∷ ds) = str_eq d.rank c.rank && str_eq d.suit c.suit || contains c ds

all_distinct : List StoredCard → Bool
unfolding contains
all_distinct [] = true
all_distinct (c ∷ cs) = not (contains c cs) && all_distinct cs

not_contains-not-Mem : (c : StoredCard) (cs : List StoredCard) → contains c cs ≡ false → ¬ Mem c cs
unfolding contains
not_contains-not-Mem c [] e m = not-mem-nil m
not_contains-not-Mem c (d ∷ ds) e m =
    Or.elim ⊥_prop (mem-cons.0 m)
      (λ same. ground (
        arith,
        ap (λ (x : StoredCard). x.rank) same,
        ap (λ (x : StoredCard). x.suit) same,
        eq_iff d.rank c.rank,
        eq_iff d.suit c.suit,
      ))
      (not_contains-not-Mem c ds (ground arith))

all_distinct-Nodup : (cs : List StoredCard) → all_distinct cs ≡ true → Nodup cs
unfolding all_distinct
all_distinct-Nodup [] e = Nodup-nil
all_distinct-Nodup (c ∷ cs) e =
    Nodup-cons.1 (not_contains-not-Mem c cs (ground arith), all_distinct-Nodup cs (ground arith))

pub sorted_deck-Nodup : Nodup sorted_deck
sorted_deck-Nodup = all_distinct-Nodup sorted_deck (unfold all_distinct sorted_deck in refl)
