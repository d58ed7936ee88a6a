-- ===== src/Adapter/Convert.antt =====
-- backend/adapter/blackjackadapter/cards_convert.go, over the card library as a parameter.
use blackjack.Prelude.{
  ℕ, ◌≤◌, String, str_eq, Bool, ◌≡◌, List, [], ◌∷◌, ◌++◌, map, length, if◌then◌else◌, ◌==◌,
}
use blackjack.Model.Session.{StoredCard}

-- The names of the constants that the card library exports.
pub data RankName : Type 0 where
  ace two three four five six seven eight nine ten jack queen king : RankName

pub data SuitName : Type 0 where
  spades hearts diamonds clubs : SuitName

abbrev rank_number : RankName → ℕ
rank_number ace = 1
rank_number two = 2
rank_number three = 3
rank_number four = 4
rank_number five = 5
rank_number six = 6
rank_number seven = 7
rank_number eight = 8
rank_number nine = 9
rank_number ten = 10
rank_number jack = 11
rank_number queen = 12
rank_number king = 13

abbrev suit_number : SuitName → ℕ
suit_number spades = 0
suit_number hearts = 1
suit_number diamonds = 2
suit_number clubs = 3

abbrev pub same_rank : RankName → RankName → Bool
same_rank r s = rank_number r == rank_number s

abbrev pub same_suit : SuitName → SuitName → Bool
same_suit r s = suit_number r == suit_number s

-- A card of the library: a struct of the two.
pub record Card (Rank Suit : Type 0) : Type 0 where
  pub suit_of : Suit
  pub rank_of : Rank

-- The two libraries: the types and constants of `cards`, with Go's `==` on them, and the hand of
-- `blackjack`, a slice of cards. `draw` is the hand after `h.Draw(c)`.
pub record CardLibrary : Type 1 where
  pub Rank : Type 0
  pub Suit : Type 0
  pub rank : RankName → Rank
  pub rankless : Rank
  pub rank_eq : Rank → Rank → Bool
  pub suit : SuitName → Suit
  pub suitless : Suit
  pub suit_eq : Suit → Suit → Bool
  pub draw : List (Card Rank Suit) → Card Rank Suit → List (Card Rank Suit)
  pub value : List (Card Rank Suit) → ℕ
  pub has_ace : List (Card Rank Suit) → Bool

-- What the code relies on: the constants are distinct under `==`, `Draw` appends, and a hand of
-- named cards is worth a point or more for each card.
pub record IsCardLibrary (lib : CardLibrary) : Type 0 where
  pub rank_eq-rank : (r s : RankName) → lib.rank_eq (lib.rank r) (lib.rank s) ≡ same_rank r s
  pub suit_eq-suit : (s t : SuitName) → lib.suit_eq (lib.suit s) (lib.suit t) ≡ same_suit s t
  pub draw_appends :
      (h : List (Card lib.Rank lib.Suit)) (c : Card lib.Rank lib.Suit) → lib.draw h c ≡ h ++ c ∷ []
  pub value_ge_length :
      (names : List (RankName × SuitName))
      → length names
        ≤ lib.value (map (λ n. record { suit_of = lib.suit n.1; rank_of = lib.rank n.0 }) names)

module _ (lib : CardLibrary) where
  open lib use {Rank, Suit, rank, rankless, rank_eq, suit, suitless, suit_eq}

  unfoldable pub to_rank : String → Rank
  to_rank v =
      if str_eq v "A"
      then rank ace
      else if str_eq v "2"
      then rank two
      else if str_eq v "3"
      then rank three
      else if str_eq v "4"
      then rank four
      else if str_eq v "5"
      then rank five
      else if str_eq v "6"
      then rank six
      else if str_eq v "7"
      then rank seven
      else if str_eq v "8"
      then rank eight
      else if str_eq v "9"
      then rank nine
      else if str_eq v "10"
      then rank ten
      else if str_eq v "J"
      then rank jack
      else if str_eq v "Q"
      then rank queen
      else if str_eq v "K"
      then rank king
      else rankless

  unfoldable pub to_suit : String → Suit
  to_suit v =
      if str_eq v "S"
      then suit spades
      else if str_eq v "H"
      then suit hearts
      else if str_eq v "D"
      then suit diamonds
      else if str_eq v "C"
      then suit clubs
      else suitless

  unfoldable pub rank_to_string : Rank → String
  rank_to_string r =
      if rank_eq r (rank ace)
      then "A"
      else if rank_eq r (rank two)
      then "2"
      else if rank_eq r (rank three)
      then "3"
      else if rank_eq r (rank four)
      then "4"
      else if rank_eq r (rank five)
      then "5"
      else if rank_eq r (rank six)
      then "6"
      else if rank_eq r (rank seven)
      then "7"
      else if rank_eq r (rank eight)
      then "8"
      else if rank_eq r (rank nine)
      then "9"
      else if rank_eq r (rank ten)
      then "10"
      else if rank_eq r (rank jack)
      then "J"
      else if rank_eq r (rank queen)
      then "Q"
      else if rank_eq r (rank king)
      then "K"
      else "2"

  unfoldable pub suit_to_string : Suit → String
  suit_to_string s =
      if suit_eq s (suit spades)
      then "S"
      else if suit_eq s (suit hearts)
      then "H"
      else if suit_eq s (suit diamonds)
      then "D"
      else if suit_eq s (suit clubs)
      then "C"
      else "S"

  -- The loop body of `toBlackjackHand`.
  unfoldable pub to_card : StoredCard → Card Rank Suit
  unfolding to_rank to_suit
  to_card c = record { suit_of = to_suit c.suit; rank_of = to_rank c.rank }

  unfoldable pub to_blackjack_hand : List StoredCard → List (Card Rank Suit)
  unfolding to_card
  to_blackjack_hand [] = []
  to_blackjack_hand (c ∷ hand) = to_card c ∷ to_blackjack_hand hand

  unfoldable pub card_to_stored : Card Rank Suit → StoredCard
  unfolding rank_to_string suit_to_string
  card_to_stored c = record { rank = rank_to_string c.rank_of; suit = suit_to_string c.suit_of }

  unfoldable pub from_blackjack_hand : List (Card Rank Suit) → List StoredCard
  unfolding card_to_stored
  from_blackjack_hand [] = []
  from_blackjack_hand (c ∷ h) = card_to_stored c ∷ from_blackjack_hand h

-- The text of a named rank and suit in a stored card.
abbrev pub rank_text : RankName → String
rank_text ace = "A"
rank_text two = "2"
rank_text three = "3"
rank_text four = "4"
rank_text five = "5"
rank_text six = "6"
rank_text seven = "7"
rank_text eight = "8"
rank_text nine = "9"
rank_text ten = "10"
rank_text jack = "J"
rank_text queen = "Q"
rank_text king = "K"

abbrev pub suit_text : SuitName → String
suit_text spades = "S"
suit_text hearts = "H"
suit_text diamonds = "D"
suit_text clubs = "C"

abbrev pub named_card : RankName × SuitName → StoredCard
named_card (r, s) = record { rank = rank_text r; suit = suit_text s }

-- One of the 52 cards.
pub record IsStandard (c : StoredCard) : Type 0 where
  pub name : RankName × SuitName
  pub named : c ≡ named_card name
