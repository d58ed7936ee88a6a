-- ===== src/Round/Start.antt =====
-- The start of a round in backend/usecase/game_usecase.go, with the deck, the deal and the turn that it leaves.
use mathlib.Core.List.{Perm}
use blackjack.Prelude.{
  if◌then◌else◌, ℕ, ◌+◌, ◌≡◌, refl, ◌∙◌, inl, inr, ◌⊎◌, true, false, List, [], ◌∷◌, Option, none,
  some, String, str_eq, arith, Bool-cases,
}
use blackjack.Prelude.Int.{ℤ, pos, leb_ℤ}
use blackjack.Prelude.Result.{ok}
use blackjack.Model.Status.{player_turn, dealer_turn, PlayerStatus}
use blackjack.Model.Room.{Time}
use blackjack.Model.Session.{StoredCard}
use blackjack.Model.Hand.{HandEvaluator, RoundEngine}
use blackjack.Adapter.Rules.{IsHandRules}
use blackjack.Round.Deck.{sorted_deck}
use blackjack.Round.Deal.{Round, new_round, player_turn_timeout}
use blackjack.Round.Invariant.{Inv}
use blackjack.Round.Shuffle.{BelowBound, new_shuffled_deck-Rearranged, length-sorted_deck}
use blackjack.Round.FirstCards.{after_deal, Dealt, initial_deal_lem}
use blackjack.Round.Fresh.{
  fresh_session, fresh_player, fresh_dealer, opened, natural, new_round_steps,
}

-- What a round that has just started is like: a shuffled deck, the deal, and the turn. A natural 21
-- hands the turn to the dealer at once.
pub record Started (ev : HandEvaluator) (now : Time) (r : Round) : Type 0 where
  pub shuffled : Perm r.session.deck sorted_deck
  pub cards : StoredCard × StoredCard × StoredCard × StoredCard
  pub dealt : Dealt r.session.deck cards
  pub player_hand : r.player.hand ≡ cards.0 ∷ cards.2 ∷ []
  pub dealer_hand : r.dealer.hand ≡ cards.1 ∷ cards.3 ∷ []
  pub hole : r.dealer.hole_hidden ≡ true
  pub version : r.session.version ≡ pos 1
  pub turn :
      ((ev.is_blackjack r.player.hand ≡ true)
        × (r.session.status ≡ dealer_turn)
        × (r.player.status ≡ PlayerStatus.blackjack_hand)
        × (r.session.turn_deadline_at ≡ none))
      ⊎ ((ev.is_blackjack r.player.hand ≡ false)
          × (r.session.status ≡ player_turn)
          × (r.player.status ≡ PlayerStatus.active)
          × (r.session.turn_deadline_at ≡ some (now + player_turn_timeout)))

module _ {ev : HandEvaluator} {engine : RoundEngine} (rules : IsHandRules ev engine) (now : Time)
    (id room_id user_id : String) (round_no : ℤ) (deck : List StoredCard)
    (four : StoredCard × StoredCard × StoredCard × StoredCard) (shuffled : Perm deck sorted_deck)
    (dealt : Dealt deck four) where
  abbrev base : Round
  base =
      after_deal (fresh_session id room_id round_no now deck) (fresh_player id user_id)
        (fresh_dealer id) four

  opened-Starts :
      ev.is_blackjack base.player.hand ≡ false
      → Inv (opened now base) × Started ev now (opened now base)
  opened-Starts plain = (
    record {
      cards = dealt.on_table;
      player_size = omega arith;
      dealer_size = omega arith;
      turn_size = λ e. omega arith;
      turn_active = λ e. refl;
      turn_deadline = refl;
    },
    record {
      shuffled = shuffled;
      cards = four;
      dealt = dealt;
      player_hand = refl;
      dealer_hand = refl;
      hole = refl;
      version = refl;
      turn = inr (plain, refl, refl, refl);
    },
  )

  natural-Starts :
      ev.is_blackjack base.player.hand ≡ true
      → Inv (natural now base) × Started ev now (natural now base)
  natural-Starts twenty_one = (
    record {
      cards = dealt.on_table;
      player_size = omega arith;
      dealer_size = omega arith;
      turn_size = λ e. cc;
      turn_active = λ e. cc;
      turn_deadline = refl;
    },
    record {
      shuffled = shuffled;
      cards = four;
      dealt = dealt;
      player_hand = refl;
      dealer_hand = refl;
      hole = refl;
      version = refl;
      turn = inl (twenty_one, refl, refl, refl);
    },
  )

  settled-Starts :
      (r : Round) × ((if ev.is_blackjack base.player.hand
          then ok (natural now base)
          else ok (opened now base))
        ≡ ok r)
      × Inv r
      × Started ev now r
  settled-Starts = elim (Bool-cases (ev.is_blackjack base.player.hand)) [
    | inl twenty_one ↦
        let (v, s) = natural-Starts twenty_one in rw twenty_one (natural now base, refl, v, s)
    | inr plain ↦ let (v, s) = opened-Starts plain in rw plain (opened now base, refl, v, s)
  ]

-- With ids, a positive round number and a random source that answers below its bound or fails, a new
-- round always starts. It satisfies the invariant: its deck is a rearrangement of the sorted deck, the
-- first four cards are dealt in turn to the player and the dealer, the version is 1, and the turn is the
-- player's with a deadline or, on a blackjack, the dealer's.
pub new_round-Starts :
    {ev : HandEvaluator} {engine : RoundEngine} (rules : IsHandRules ev engine)
    (rand : ℕ → Option ℕ) (now : Time) (id room_id user_id : String) (round_no : ℤ)
    → BelowBound rand
    → str_eq id "" ≡ false
    → str_eq room_id "" ≡ false
    → str_eq user_id "" ≡ false
    → leb_ℤ round_no (pos 0) ≡ false
    → (r : Round) × (new_round ev engine rand now id room_id round_no user_id ≡ ok r)
      × Inv r
      × Started ev now r
new_round-Starts {ev} {engine} rules rand now id room_id user_id round_no below hid hroom huser
      hround =
    let (deck, hdeck, perm, size, standard) = new_shuffled_deck-Rearranged rand below in
    let (four, hdeal, dealt) =
      initial_deal_lem rules (fresh_session id room_id round_no now deck) (fresh_player id user_id)
        (fresh_dealer id) perm (size ∙ length-sorted_deck) standard refl in
    rw
      (new_round_steps ev engine rand now id room_id user_id round_no deck _ hid hroom huser hround
        hdeck hdeal refl)
      (settled-Starts rules now id room_id user_id round_no deck four perm dealt)
