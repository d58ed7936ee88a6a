-- ===== src/Tests/Table.antt =====
-- A card library in which every rank has a fixed worth, and two rounds dealt from the sorted deck.
use mathlib.Core.List.Perm
use blackjack.Prelude.{
  ℕ, ◌+◌, ◌≤◌, ◌≡◌, refl, String, Bool, true, false, ◌||◌, List, [], ◌∷◌, ◌++◌, map, Option, none,
  some, arith, length, take,
}
use blackjack.Prelude.Int.{pos}
use blackjack.Model.Status.{SessionStatus, player_turn, dealer_turn, PlayerStatus}
use blackjack.Model.Room.{Time}
use blackjack.Model.Session.{StoredCard, GameSession}
use blackjack.Model.Player.{PlayerState, DealerState}
use blackjack.Model.Hand.{HandEvaluator, RoundEngine}
use blackjack.Adapter.Convert.{
  RankName, SuitName, same_rank, same_suit, Card, CardLibrary, IsCardLibrary,
}
use blackjack.Adapter.Evaluator.{lib_evaluator, lib_round_engine}
use blackjack.Adapter.Rules.{IsHandRules, lib-IsHandRules}
use blackjack.Round.Deck.{sorted_deck, deck_of_suits, cards_of_suit}
use blackjack.Round.Deal.{Round}
use blackjack.Round.Shuffle.{sorted_deck-IsStandard, length-sorted_deck}
use blackjack.Round.Invariant.{Cards, Inv}

abbrev worth : RankName → ℕ
worth RankName.ace = 11
worth RankName.two = 2
worth RankName.three = 3
worth RankName.four = 4
worth RankName.five = 5
worth RankName.six = 6
worth RankName.seven = 7
worth RankName.eight = 8
worth RankName.nine = 9
worth _ = 10

abbrev worth_of : Option RankName → ℕ
worth_of none = 0
worth_of (some r) = worth r

abbrev sum : List (Card (Option RankName) (Option SuitName)) → ℕ
sum [] = 0
sum (c ∷ cs) = worth_of c.rank_of + sum cs

abbrev rank_eq : Option RankName → Option RankName → Bool
rank_eq none none = true
rank_eq (some r) (some s) = same_rank r s
rank_eq _ _ = false

abbrev suit_eq : Option SuitName → Option SuitName → Bool
suit_eq none none = true
suit_eq (some r) (some s) = same_suit r s
suit_eq _ _ = false

abbrev is_ace : Option RankName → Bool
is_ace (some RankName.ace) = true
is_ace _ = false

abbrev any_ace : List (Card (Option RankName) (Option SuitName)) → Bool
any_ace [] = false
any_ace (c ∷ cs) = is_ace c.rank_of || any_ace cs

-- Every ace counts eleven here.
abbrev pub library : CardLibrary
library = record {
  Rank = Option RankName;
  Suit = Option SuitName;
  rank = some;
  rankless = none;
  rank_eq = rank_eq;
  suit = some;
  suitless = none;
  suit_eq = suit_eq;
  draw = λ h c. h ++ c ∷ [];
  value = sum;
  has_ace = any_ace;
}

worth_pos : (r : RankName) → 1 ≤ worth r
worth_pos r = grind arith

sum-ge-length :
    (names : List (RankName × SuitName))
    → length names ≤ sum (map (λ n. record { suit_of = some n.1; rank_of = some n.0 }) names)
sum-ge-length [] = omega arith
sum-ge-length ((r, s) ∷ names) = omega (arith, worth_pos r, sum-ge-length names)

pub library_laws : IsCardLibrary library
library_laws = record {
  rank_eq-rank = λ r s. refl;
  suit_eq-suit = λ r s. refl;
  draw_appends = λ h c. refl;
  value_ge_length = sum-ge-length;
}

abbrev pub evaluator : HandEvaluator
evaluator = lib_evaluator library

abbrev pub engine : RoundEngine
engine = lib_round_engine library

pub rules : IsHandRules evaluator engine
rules = lib-IsHandRules library library_laws

abbrev card : String → StoredCard
card rank = record { rank = rank; suit = "S" }

abbrev session : SessionStatus → Option Time → GameSession
session status deadline = record {
  id = "s";
  room_id = "r";
  round_no = pos 1;
  status = status;
  version = pos 1;
  turn_seat = pos 1;
  deck = sorted_deck;
  draw_index = pos 4;
  turn_deadline_at = deadline;
  result_snapshot = none;
  rematch_deadline_at = none;
  created_at = 1;
  updated_at = 1;
}

abbrev player : PlayerStatus → PlayerState
player status = record {
  session_id = "s";
  user_id = "u";
  seat_no = pos 1;
  hand = card "A" ∷ card "3" ∷ [];
  status = status;
  outcome = none;
  final_score = none;
}

abbrev dealer : DealerState
dealer = record {
  session_id = "s";
  hand = card "2" ∷ card "4" ∷ [];
  hole_hidden = true;
  final_score = none;
}

-- The player's turn, and the dealer's.
abbrev pub open_round : Round
open_round = record {
  session = session player_turn (some 100);
  player = player PlayerStatus.active;
  dealer = dealer;
}

abbrev pub closed_round : Round
closed_round = record {
  session = session dealer_turn none;
  player = player PlayerStatus.stand;
  dealer = dealer;
}

first_four : take 4 sorted_deck ≡ card "A" ∷ card "2" ∷ card "3" ∷ card "4" ∷ []
unfolding sorted_deck deck_of_suits cards_of_suit
first_four = refl

on_table : Cards sorted_deck (pos 4) (card "A" ∷ card "3" ∷ []) (card "2" ∷ card "4" ∷ [])
on_table = record {
  full = Perm.refl sorted_deck;
  deck_size = length-sorted_deck;
  deck_standard = sorted_deck-IsStandard;
  player_standard = (
    record { name = (RankName.ace, SuitName.spades); named = refl },
    (record { name = (RankName.three, SuitName.spades); named = refl }, tt),
  );
  dealer_standard = (
    record { name = (RankName.two, SuitName.spades); named = refl },
    (record { name = (RankName.four, SuitName.spades); named = refl }, tt),
  );
  drawn = refl;
  dealt = rw first_four (Perm.cons (card "A") (Perm.swap (card "2") (card "3") (card "4" ∷ [])));
}

pub open_round-Inv : Inv open_round
open_round-Inv = record {
  cards = on_table;
  player_size = omega arith;
  dealer_size = omega arith;
  turn_size = λ _. omega arith;
  turn_active = λ _. refl;
  turn_deadline = refl;
}

pub closed_round-Inv : Inv closed_round
closed_round-Inv = record {
  cards = on_table;
  player_size = omega arith;
  dealer_size = omega arith;
  turn_size = λ _. omega arith;
  turn_active = λ e. cc e;
  turn_deadline = refl;
}
