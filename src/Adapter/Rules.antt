-- ===== src/Adapter/Rules.antt =====
-- The interface between the hand rules and the rounds that are played by them, and the adapter of
-- backend/adapter/blackjackadapter behind it.
use blackjack.Prelude.{
  suc, ◌≤◌, ◌≡◌, refl, sym, ap, ◌∙◌, subst, ◌&&◌, List, [], ◌∷◌, ◌++◌, map, arith, length, All, ltb,
  ◌==◌,
}
use blackjack.Prelude.Result.{ok}
use blackjack.Model.Session.{StoredCard}
use blackjack.Model.Hand.{HandEvaluator, RoundEngine, resolve_round_outcome}
use blackjack.Adapter.Convert.{
  RankName, ace, SuitName, spades, Card, CardLibrary, IsCardLibrary, to_rank, to_suit,
  rank_to_string, suit_to_string, to_card, to_blackjack_hand, card_to_stored, from_blackjack_hand,
  rank_text, suit_text, named_card, IsStandard,
}
use blackjack.Adapter.Evaluator.{lib_evaluator, lib_round_engine}

-- What a round relies on.
pub record IsHandRules (ev : HandEvaluator) (engine : RoundEngine) : Type 0 where
  pub hit_appends :
      (hand : List StoredCard) (c : StoredCard)
      → All IsStandard hand
      → IsStandard c
      → engine.apply_player_hit hand c ≡ ok (hand ++ c ∷ [])
  pub resolves :
      (p d : List StoredCard) → engine.resolve_outcome ev p d ≡ resolve_round_outcome ev p d
  pub value_ge_length : (hand : List StoredCard) → All IsStandard hand → length hand ≤ ev.value hand
  pub is_bust_lem : (hand : List StoredCard) → ev.is_bust hand ≡ ltb 21 (ev.value hand)
  pub is_blackjack_lem :
      (hand : List StoredCard) → ev.is_blackjack hand ≡ (length hand == 2 && ev.value hand == 21)

module _ (lib : CardLibrary) (laws : IsCardLibrary lib) where
  rank_round_trip : (r : RankName) → rank_to_string lib (to_rank lib (rank_text r)) ≡ rank_text r
  unfolding rank_to_string to_rank
  rank_round_trip ace = simp laws.rank_eq-rank
  rank_round_trip _ = simp laws.rank_eq-rank

  suit_round_trip : (s : SuitName) → suit_to_string lib (to_suit lib (suit_text s)) ≡ suit_text s
  unfolding suit_to_string to_suit
  suit_round_trip spades = simp laws.suit_eq-suit
  suit_round_trip _ = simp laws.suit_eq-suit

  named_round_trip :
      (n : RankName × SuitName) → card_to_stored lib (to_card lib (named_card n)) ≡ named_card n
  unfolding card_to_stored to_card
  named_round_trip (r, s) = λ i. record { rank = rank_round_trip r i; suit = suit_round_trip s i }

  -- A named card survives the way to the library and back.
  card_to_stored-to_card : (c : StoredCard) → IsStandard c → card_to_stored lib (to_card lib c) ≡ c
  card_to_stored-to_card c st =
      subst (λ x. card_to_stored lib (to_card lib x) ≡ x) (sym st.named) (named_round_trip st.name)

  -- A hand of named cards that is converted for the card library and back is the same hand, if the
  -- library keeps its laws.
  pub from-to :
      (hand : List StoredCard)
      → All IsStandard hand
      → from_blackjack_hand lib (to_blackjack_hand lib hand) ≡ hand
  unfolding from_blackjack_hand to_blackjack_hand
  from-to [] h = refl
  from-to (c ∷ hand) h = cc (card_to_stored-to_card c h.0, from-to hand h.1)

  from-append :
      (h : List (Card lib.Rank lib.Suit)) (c : Card lib.Rank lib.Suit)
      → from_blackjack_hand lib (h ++ c ∷ [])
        ≡ from_blackjack_hand lib h ++ card_to_stored lib c ∷ []
  unfolding from_blackjack_hand
  from-append [] c = refl
  from-append (d ∷ h) c = ap (λ ds. card_to_stored lib d ∷ ds) (from-append h c)

  -- On named cards the engine's hit returns the hand with the drawn card appended, if the library keeps
  -- its laws.
  pub apply_player_hit-append :
      (hand : List StoredCard) (c : StoredCard)
      → All IsStandard hand
      → IsStandard c
      → (lib_round_engine lib).apply_player_hit hand c ≡ ok (hand ++ c ∷ [])
  unfolding lib_round_engine
  apply_player_hit-append hand c hs cs = ap ok (
      ap (from_blackjack_hand lib) (laws.draw_appends _ _)
      ∙ (from-append (to_blackjack_hand lib hand) (to_card lib c)
          ∙ cc (from-to hand hs, card_to_stored-to_card c cs)))

  to_rank-rank_text : (r : RankName) → to_rank lib (rank_text r) ≡ lib.rank r
  unfolding to_rank
  to_rank-rank_text ace = refl
  to_rank-rank_text _ = refl

  to_suit-suit_text : (s : SuitName) → to_suit lib (suit_text s) ≡ lib.suit s
  unfolding to_suit
  to_suit-suit_text spades = refl
  to_suit-suit_text _ = refl

  abbrev library_card : RankName × SuitName → Card lib.Rank lib.Suit
  library_card n = record { suit_of = lib.suit n.1; rank_of = lib.rank n.0 }

  to_card-named_card : (n : RankName × SuitName) → to_card lib (named_card n) ≡ library_card n
  unfolding to_card
  to_card-named_card (r, s) =
      λ i. record { suit_of = to_suit-suit_text s i; rank_of = to_rank-rank_text r i }

  names : (hand : List StoredCard) → All IsStandard hand → List (RankName × SuitName)
  names [] h = []
  names (c ∷ hand) h = h.0.name ∷ names hand h.1

  to_blackjack_hand-names :
      (hand : List StoredCard) (h : All IsStandard hand)
      → to_blackjack_hand lib hand ≡ map library_card (names hand h)
  unfolding to_blackjack_hand names
  to_blackjack_hand-names [] h = refl
  to_blackjack_hand-names (c ∷ hand) h =
      cc (ap (to_card lib) h.0.named, to_card-named_card h.0.name, to_blackjack_hand-names hand h.1)

  length-names :
      (hand : List StoredCard) (h : All IsStandard hand) → length (names hand h) ≡ length hand
  unfolding names
  length-names [] h = refl
  length-names (c ∷ hand) h = ap suc (length-names hand h.1)

  hand_value-ge-length :
      (hand : List StoredCard) → All IsStandard hand → length hand ≤ (lib_evaluator lib).value hand
  unfolding lib_evaluator
  hand_value-ge-length hand h = omega (
    arith,
    length-names hand h,
    ap lib.value (to_blackjack_hand-names hand h),
    laws.value_ge_length (names hand h),
  )

  length-to_blackjack_hand :
      (hand : List StoredCard) → length (to_blackjack_hand lib hand) ≡ length hand
  unfolding to_blackjack_hand
  length-to_blackjack_hand [] = refl
  length-to_blackjack_hand (c ∷ hand) = ap suc (length-to_blackjack_hand hand)

  blackjack_lem :
      (hand : List StoredCard)
      → (lib_evaluator lib).is_blackjack hand
        ≡ (length hand == 2 && (lib_evaluator lib).value hand == 21)
  unfolding lib_evaluator
  blackjack_lem hand = rw (length-to_blackjack_hand hand)

  -- The adapter over a card library that keeps its laws implements the hand rules of the game: a hit
  -- appends, the engine's outcome is `resolve_round_outcome`, a hand is worth a point or more for each
  -- card, a bust is a value above 21, and a blackjack is two cards worth 21.
  pub lib-IsHandRules : IsHandRules (lib_evaluator lib) (lib_round_engine lib)
  unfolding lib_evaluator lib_round_engine
  lib-IsHandRules = record {
    hit_appends = apply_player_hit-append;
    resolves = λ p d. refl;
    value_ge_length = hand_value-ge-length;
    is_bust_lem = λ hand. refl;
    is_blackjack_lem = blackjack_lem;
  }
