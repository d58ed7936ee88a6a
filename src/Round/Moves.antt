-- ===== src/Round/Moves.antt =====
-- The moves of the player in `playerTurn` of backend/usecase/game_usecase.go and the invariant of the round.
use blackjack.Prelude.{
  suc, ◌+◌, ◌≤◌, ◌≡◌, refl, if◌then◌else◌, inl, inr, Bool, true, false, [], ◌∷◌, ◌++◌, none, arith,
  length, Bool-cases, ltb,
}
use blackjack.Prelude.Int.{pos}
use blackjack.Prelude.Result.{Result, ok}
use blackjack.Model.Status.{dealer_turn, is_player_turn, PlayerStatus, player_status_is_valid}
use blackjack.Model.Room.{Time}
use blackjack.Model.Session.{transition_to, set_turn_deadline, increment_version, touch_session}
use blackjack.Model.Player.{set_player_status}
use blackjack.Model.Hand.{HandEvaluator, RoundEngine}
use blackjack.Adapter.Rules.{IsHandRules}
use blackjack.Round.Deal.{Round}
use blackjack.Round.Turn.{
  end_turn, hit_round, stand_round, extend_deadline, next_version, player_move,
}
use blackjack.Round.Invariant.{Inv, CardsOf}
use blackjack.Round.Draw.{length-snoc, Draws, Cards-Draws, Cards-player}

-- The computation ends with a round that satisfies the invariant.
abbrev pub Keeps : Result Round → Type 0
Keeps m = (r : Round) × (m ≡ ok r) × Inv r

-- The round after `end_turn`.
abbrev pub turn_ended : PlayerStatus → Round → Round
turn_ended status r = record r {
  session = record (r.session) { status = dealer_turn; turn_deadline_at = none };
  player = record (r.player) { status = status };
}

pub end_turn_lem :
    (status : PlayerStatus) (r : Round)
    → player_status_is_valid status ≡ true
    → is_player_turn r.session.status ≡ true
    → end_turn status r ≡ ok (turn_ended status r)
unfolding end_turn set_player_status transition_to set_turn_deadline
end_turn_lem status r valid turn = ground arith

-- The bookkeeping after a move.
pub bookkeeping-Inv :
    (now : Time) (r : Round)
    → Inv r
    → Inv (record r { session = next_version now (extend_deadline now r.session) })
unfolding next_version extend_deadline set_turn_deadline increment_version touch_session
bookkeeping-Inv now r v = ground arith

module _ {ev : HandEvaluator} {engine : RoundEngine} (rules : IsHandRules ev engine) (r : Round)
    (v : Inv r) (turn : is_player_turn r.session.status ≡ true) where
  -- The round with the drawn card in the player's hand.
  abbrev hit_drawn : Draws r.session (length r.player.hand + length r.dealer.hand) → Round
  hit_drawn d = record r {
    session = record (r.session) {
      draw_index = pos (suc (length r.player.hand + length r.dealer.hand));
    };
    player = record (r.player) { hand = r.player.hand ++ d.card ∷ [] };
  }

  abbrev AtDraw : Type 0
  AtDraw = Draws r.session (length r.player.hand + length r.dealer.hand)

  ended-Inv : (d : AtDraw) (status : PlayerStatus) → Inv (turn_ended status (hit_drawn d))
  ended-Inv d status = record {
    cards = Cards-player v.cards d;
    player_size = omega (arith, v.turn_size turn, length-snoc r.player.hand d.card);
    dealer_size = v.dealer_size;
    turn_size = λ e. cc;
    turn_active = λ e. cc;
    turn_deadline = refl;
  }

  -- The hand is not bust, so it has at most 21 cards.
  goes_on-Inv :
      (d : AtDraw) → ltb 21 (ev.value (r.player.hand ++ d.card ∷ [])) ≡ false → Inv (hit_drawn d)
  goes_on-Inv d low = record {
    cards = new_cards;
    player_size = omega (arith, small);
    dealer_size = v.dealer_size;
    turn_size = λ e. small;
    turn_active = v.turn_active;
    turn_deadline = v.turn_deadline;
  }
    where
      new_cards : CardsOf (hit_drawn d)
      new_cards = Cards-player v.cards d

      small : length (r.player.hand ++ d.card ∷ []) ≤ 21
      small =
          ground
            (arith, rules.value_ge_length (r.player.hand ++ d.card ∷ []) new_cards.player_standard)

  hit_round-Keeps : Keeps (hit_round ev engine r)
  unfolding hit_round
  hit_round-Keeps =
      let d : AtDraw = Cards-Draws r.session _ _ v.cards (omega (arith, v.turn_size turn)) in
      rw (d.draws, rules.hit_appends r.player.hand d.card v.cards.player_standard d.standard)
        (elim (Bool-cases (ltb 21 (ev.value (r.player.hand ++ d.card ∷ [])))) [
          | inl high ↦ rw high (
            turn_ended PlayerStatus.bust (hit_drawn d),
            end_turn_lem _ _ refl turn,
            ended-Inv d _,
          )
          | inr low ↦ rw low (elim (Bool-cases (ev.is_blackjack (r.player.hand ++ d.card ∷ []))) [
            | inl natural ↦ rw natural (
              turn_ended PlayerStatus.blackjack_hand (hit_drawn d),
              end_turn_lem _ _ refl turn,
              ended-Inv d _,
            )
            | inr plain ↦ rw plain (hit_drawn d, refl, goes_on-Inv d low)
          ])
        ])

  stand_round-Keeps : (now : Time) → Keeps (stand_round now r)
  unfolding stand_round set_turn_deadline
  stand_round-Keeps now = (
    turn_ended PlayerStatus.stand r,
    end_turn_lem _ _ refl turn,
    record {
      cards = v.cards;
      player_size = v.player_size;
      dealer_size = v.dealer_size;
      turn_size = λ e. cc;
      turn_active = λ e. cc;
      turn_deadline = refl;
    },
  )

  act-Keeps :
      (hit : Bool) (now : Time) → Keeps (if hit then hit_round ev engine r else stand_round now r)
  act-Keeps true now = hit_round-Keeps
  act-Keeps false now = stand_round-Keeps now

  -- In the player's turn of a round that satisfies the invariant a hit and a stand both succeed, and the
  -- round that they lead to satisfies the invariant.
  pub player_move-Keeps : (hit : Bool) (now : Time) → Keeps (player_move ev engine hit now r)
  unfolding player_move
  player_move-Keeps hit now =
      let (moved, e, w) = act-Keeps hit now in
      rw e (
        record moved { session = next_version now (extend_deadline now moved.session) },
        refl,
        bookkeeping-Inv now moved w,
      )
