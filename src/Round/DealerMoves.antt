-- ===== src/Round/DealerMoves.antt =====
-- The moves of the dealer in `dealerTurn` of backend/usecase/game_usecase.go and the invariant of the round.
use blackjack.Prelude.{
  suc, ◌+◌, ◌≤◌, ◌<◌, ◌≡◌, refl, ◌⊎◌, inl, inr, true, [], ◌∷◌, ◌++◌, Option, none, some, String,
  arith, length, Bool-cases, leb, is_some,
}
use blackjack.Prelude.Int.{pos}
use blackjack.Prelude.Result.{Result, ok, ◌>>=◌}
use blackjack.Model.Status.{is_dealer_turn, Outcome, outcome_is_valid}
use blackjack.Model.Room.{Time}
use blackjack.Model.Session.{transition_to}
use blackjack.Model.Player.{set_outcome, reveal_hole, set_final_score}
use blackjack.Model.Hand.{HandEvaluator, RoundEngine, resolve_round_outcome}
use blackjack.Model.Log.{RoundLog}
use blackjack.Adapter.Rules.{IsHandRules}
use blackjack.Round.Deal.{Round}
use blackjack.Round.Turn.{next_version}
use blackjack.Round.Dealer.{
  round_result, Marshal, dealer_result, dealer_draw, dealer_act, dealer_move,
}
use blackjack.Round.Invariant.{Inv}
use blackjack.Round.Draw.{length-snoc, Draws, Cards-Draws, Cards-dealer}
use blackjack.Round.Settle.{
  MarshalTotal, resolved, Settled, settled_round, settled_round-Inv, settled_round-Settled,
  stops_iff, dealer_turn-not_player, next_version-Inv, next_version-status, next_version-Settled,
}

module _ {ev : HandEvaluator} {engine : RoundEngine} {marshal : Marshal}
    (rules : IsHandRules ev engine) (total : MarshalTotal marshal) (now : Time) (r : Round)
    (v : Inv r) where
  -- The log entry of the settled round.
  abbrev log_of : Outcome → String → RoundLog
  log_of o text = record {
    id = "";
    session_id = (settled_round ev now o r).session.id;
    round_no = (settled_round ev now o r).session.round_no;
    result_payload = text;
    created_at = now;
  }

  dealer_result_lem :
      (o : Outcome)
      → is_dealer_turn r.session.status ≡ true
      → resolve_round_outcome ev r.player.hand r.dealer.hand ≡ ok o
      → outcome_is_valid o ≡ true
      → (text : String) × (dealer_result ev engine marshal now r
          ≡ ok (settled_round ev now o r, log_of o text))
  unfolding dealer_result transition_to set_outcome reveal_hole set_final_score
  dealer_result_lem o turn outcome valid =
      let (text, e) = total (round_result (ev.value r.player.hand) (ev.value r.dealer.hand) o) in
      (text, ground (arith, rules.resolves r.player.hand r.dealer.hand))

  dealer_draw_lem :
      (d : Draws r.session (length r.player.hand + length r.dealer.hand))
      → dealer_draw engine r
        ≡ ok (record r {
          session = record (r.session) {
            draw_index = pos (suc (length r.player.hand + length r.dealer.hand));
          };
          dealer = record (r.dealer) { hand = r.dealer.hand ++ d.card ∷ [] };
        })
  unfolding dealer_draw
  dealer_draw_lem d =
      rw (d.draws, rules.hit_appends r.dealer.hand d.card v.cards.dealer_standard d.standard)

  -- Either the dealer stood at 17 or more and the round is settled and logged, or he was below 17,
  -- took one card and goes on.
  abbrev pub DealerStep : Round → Option RoundLog → Type 0
  DealerStep r' log =
      ((17 ≤ ev.value r.dealer.hand)
        × (is_some log ≡ true)
        × ((o : Outcome) × (resolve_round_outcome ev r.player.hand r.dealer.hand ≡ ok o)
            × Settled ev o r r'))
      ⊎ ((ev.value r.dealer.hand < 17)
          × (log ≡ none)
          × (is_dealer_turn r'.session.status ≡ true)
          × (r'.player ≡ r.player)
          × (length r'.dealer.hand ≡ suc (length r.dealer.hand)))

  abbrev pub DealerMoved : Result (Round × Option RoundLog) → Type 0
  DealerMoved m =
      (r' : Round) × (log : Option RoundLog) × (m ≡ ok (r', log)) × Inv r' × DealerStep r' log

  dealer_act-settles :
      is_dealer_turn r.session.status ≡ true
      → 17 ≤ ev.value r.dealer.hand
      → DealerMoved
          (dealer_result ev engine marshal now r >>= λ settled. ok (settled.0, some settled.1))
  dealer_act-settles turn high =
      let (o, outcome, valid) = resolved ev r.player.hand r.dealer.hand in
      let (text, e) = dealer_result_lem o turn outcome valid in
      rw e (
        settled_round ev now o r,
        some (log_of o text),
        refl,
        settled_round-Inv ev now o r v (dealer_turn-not_player r.session turn),
        inl (high, refl, (o, outcome, settled_round-Settled ev now o r)),
      )

  abbrev AtDealerDraw : Type 0
  AtDealerDraw = Draws r.session (length r.player.hand + length r.dealer.hand)

  abbrev dealer_drawn : AtDealerDraw → Round
  dealer_drawn d = record r {
    session = record (r.session) {
      draw_index = pos (suc (length r.player.hand + length r.dealer.hand));
    };
    dealer = record (r.dealer) { hand = r.dealer.hand ++ d.card ∷ [] };
  }

  -- Below 17 the dealer has at most 16 cards.
  dealer_drawn-Inv :
      (d : AtDealerDraw)
      → is_dealer_turn r.session.status ≡ true
      → ev.value r.dealer.hand < 17
      → Inv (dealer_drawn d)
  dealer_drawn-Inv d turn low = record {
    cards = Cards-dealer v.cards d;
    player_size = v.player_size;
    dealer_size = omega (
      arith,
      length-snoc r.dealer.hand d.card,
      rules.value_ge_length r.dealer.hand v.cards.dealer_standard,
    );
    turn_size = v.turn_size;
    turn_active = v.turn_active;
    turn_deadline = v.turn_deadline;
  }

  dealer_act-draws :
      is_dealer_turn r.session.status ≡ true
      → ev.value r.dealer.hand < 17
      → DealerMoved (dealer_draw engine r >>= λ drawn. ok (drawn, none))
  dealer_act-draws turn low =
      let d : AtDealerDraw = Cards-Draws r.session _ _ v.cards (omega arith) in
      rw (dealer_draw_lem d) (
        dealer_drawn d,
        none,
        refl,
        dealer_drawn-Inv d turn low,
        inr (low, refl, turn, refl, length-snoc r.dealer.hand d.card),
      )

  dealer_act-moves :
      is_dealer_turn r.session.status ≡ true → DealerMoved (dealer_act ev engine marshal now r)
  unfolding dealer_act
  dealer_act-moves turn =
      let decision = stops_iff ev r.dealer.hand (rules.is_bust_lem r.dealer.hand) in
      elim (Bool-cases (leb 17 (ev.value r.dealer.hand))) [
        | inl high ↦ rw (decision, high) (dealer_act-settles turn (ground arith))
        | inr low ↦ rw (decision, low) (dealer_act-draws turn (ground arith))
      ]

  next_version-DealerStep :
      (r' : Round) (log : Option RoundLog)
      → DealerStep r' log
      → DealerStep (record r' { session = next_version now r'.session }) log
  next_version-DealerStep r' log (inl (high, logged, (o, outcome, settled))) =
      inl (high, logged, (o, outcome, next_version-Settled ev o now r r' settled))
  next_version-DealerStep r' log (inr (low, unlogged, turn, same, one)) =
      inr (low, unlogged, rw (next_version-status now r'.session) turn, same, one)

  -- In the dealer's turn of a round that satisfies the invariant his move succeeds and keeps the
  -- invariant. With 17 or more the round is settled by the outcome of the hands and logged; with less he
  -- takes one card and the turn stays his.
  pub dealer_move-moves :
      is_dealer_turn r.session.status ≡ true → DealerMoved (dealer_move ev engine marshal now r)
  unfolding dealer_move
  dealer_move-moves turn =
      let (moved, log, e, w, step) = dealer_act-moves turn in
      rw e (
        record moved { session = next_version now moved.session },
        log,
        refl,
        next_version-Inv now moved w,
        next_version-DealerStep moved log step,
      )
