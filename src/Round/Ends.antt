-- ===== src/Round/Ends.antt =====
-- The runs of a round by the moves of backend/usecase/game_usecase.go, and the time forfeit of `playerStand`.
use mathlib.Core.List.{Nodup}
use mathlib.Core.List.Nodup.{of_append_left}
use mathlib.Core.List.Perm
use blackjack.Prelude.{
  ◌+◌, ◌≡◌, refl, sym, ap, subst, Bool, true, ◌++◌, Option, arith, length, drop, take-append-drop,
}
use blackjack.Prelude.Result.{ok, ok_unique}
use blackjack.Model.Status.{lose, is_player_turn, is_dealer_turn, PlayerStatus, Outcome}
use blackjack.Model.Room.{Time}
use blackjack.Model.Session.{transition_to, set_turn_deadline}
use blackjack.Model.Player.{set_player_status, set_outcome, reveal_hole, set_final_score}
use blackjack.Model.Hand.{HandEvaluator, RoundEngine}
use blackjack.Model.Log.{RoundLog}
use blackjack.Adapter.Rules.{IsHandRules}
use blackjack.Round.Deal.{Round}
use blackjack.Round.Turn.{next_version, player_move}
use blackjack.Round.Dealer.{
  Marshal, forfeit_result, dealer_result_time_forfeit, dealer_move, time_forfeit,
}
use blackjack.Round.Invariant.{Inv}
use blackjack.Round.Shuffle.{sorted_deck-Nodup}
use blackjack.Round.Moves.{player_move-Keeps, turn_ended}
use blackjack.Round.Settle.{
  MarshalTotal, Settled, settled_round, settled_round-Inv, settled_round-Settled, next_version-Inv,
  next_version-Settled,
}
use blackjack.Round.DealerMoves.{dealer_move-moves}

-- One move of the game. The code makes each only in the turn that it belongs to.
pub data Step (ev : HandEvaluator) (engine : RoundEngine) (marshal : Marshal) (r s : Round)
    : Type 0 where
  player_moves :
      (hit : Bool) (now : Time)
      → is_player_turn r.session.status ≡ true
      → player_move ev engine hit now r ≡ ok s
      → Step ev engine marshal r s
  time_runs_out :
      (now : Time) (log : RoundLog)
      → is_player_turn r.session.status ≡ true
      → time_forfeit ev marshal now r ≡ ok (s, log)
      → Step ev engine marshal r s
  dealer_moves :
      (now : Time) (log : Option RoundLog)
      → is_dealer_turn r.session.status ≡ true
      → dealer_move ev engine marshal now r ≡ ok (s, log)
      → Step ev engine marshal r s

-- A run of a round from its start.
pub data Run (ev : HandEvaluator) (engine : RoundEngine) (marshal : Marshal) (r : Round)
    : Round → Type 0 where
  here : Run ev engine marshal r r
  next :
      {s t : Round}
      → Run ev engine marshal r s
      → Step ev engine marshal s t
      → Run ev engine marshal r t

-- The scores are written and the round is lost, whatever the hands are.
pub time_forfeit_lem :
    (ev : HandEvaluator) (marshal : Marshal) (now : Time) (r : Round)
    → MarshalTotal marshal
    → is_player_turn r.session.status ≡ true
    → (log : RoundLog) × (time_forfeit ev marshal now r
        ≡ ok (
          let s = settled_round ev now lose (turn_ended PlayerStatus.stand r) in
              record s { session = next_version now s.session },
          log,
        ))
unfolding time_forfeit dealer_result_time_forfeit set_player_status transition_to set_turn_deadline
    set_outcome reveal_hole set_final_score
time_forfeit_lem ev marshal now r total turn =
    let (text, e) =
      total (forfeit_result (ev.value r.player.hand) (ev.value r.dealer.hand) lose true) in
    (
      record {
        id = "";
        session_id = (settled_round ev now lose (turn_ended PlayerStatus.stand r)).session.id;
        round_no = (settled_round ev now lose (turn_ended PlayerStatus.stand r)).session.round_no;
        result_payload = text;
        created_at = now;
      },
      ground arith,
    )

ended-Inv : (status : PlayerStatus) (r : Round) → Inv r → Inv (turn_ended status r)
ended-Inv status r v = record {
  cards = v.cards;
  player_size = v.player_size;
  dealer_size = v.dealer_size;
  turn_size = λ e. cc;
  turn_active = λ e. cc;
  turn_deadline = refl;
}

-- The end of the turn changes no hand.
same_before :
    {ev : HandEvaluator} {o : Outcome} {status : PlayerStatus} {r s : Round}
    → Settled ev o (turn_ended status r) s
    → Settled ev o r s
same_before n = record {
  resetting_status = n.resetting_status;
  outcome = n.outcome;
  player_score = n.player_score;
  dealer_score = n.dealer_score;
  shown = n.shown;
  same_hands = n.same_hands;
}

module _ {ev : HandEvaluator} {engine : RoundEngine} {marshal : Marshal}
    (rules : IsHandRules ev engine) (total : MarshalTotal marshal) where
  -- In the player's turn of a round that satisfies the invariant the time forfeit succeeds, keeps the
  -- invariant and settles the round as lost, whatever the hands are.
  pub time_forfeit-Settled :
      (now : Time) (r : Round)
      → Inv r
      → is_player_turn r.session.status ≡ true
      → (s : Round) × (log : RoundLog) × (time_forfeit ev marshal now r ≡ ok (s, log))
        × Inv s
        × Settled ev lose r s
  time_forfeit-Settled now r v turn =
      let (log, e) = time_forfeit_lem ev marshal now r total turn in
      let ended : Round = turn_ended PlayerStatus.stand r in
      let lost : Round = settled_round ev now lose ended in
      let settled : Settled ev lose ended lost = settled_round-Settled ev now lose ended in
      (
        record lost { session = next_version now lost.session },
        log,
        e,
        next_version-Inv now lost
            (settled_round-Inv ev now lose ended (ended-Inv PlayerStatus.stand r v) refl),
        same_before (next_version-Settled ev lose now ended lost settled),
      )

  pub Step-Inv : {r s : Round} → Step ev engine marshal r s → Inv r → Inv s
  Step-Inv {r} (player_moves hit now turn e) v =
      let (moved, f, w) = player_move-Keeps rules r v turn hit now in subst Inv (ok_unique f e) w
  Step-Inv {r} (time_runs_out now log turn e) v =
      let (lost, _, f, w, _) = time_forfeit-Settled now r v turn in
      subst Inv (ap (λ (p : Round × RoundLog). p.0) (ok_unique f e)) w
  Step-Inv {r} (dealer_moves now log turn e) v =
      let (moved, _, f, w, _) = dealer_move-moves rules total now r v turn in
      subst Inv (ap (λ (p : Round × Option RoundLog). p.0) (ok_unique f e)) w

  -- A round that is reached by moves from one that satisfies the invariant satisfies it.
  pub Run-Inv : {r s : Round} → Inv r → Run ev engine marshal r s → Inv s
  Run-Inv v here = v
  Run-Inv v (next run step) = Step-Inv step (Run-Inv v run)

  -- In a round that is reached by moves from one that satisfies the invariant no card lies on the table
  -- twice.
  pub Run-Nodup :
      {r s : Round} → Inv r → Run ev engine marshal r s → Nodup (s.player.hand ++ s.dealer.hand)
  Run-Nodup {r} {s} v run =
      let w : Inv s = Run-Inv v run in
      let n = length s.player.hand + length s.dealer.hand in
      Perm.nodup (Perm.symm w.cards.dealt) (
        of_append_left (drop n s.session.deck) (
          subst Nodup (sym (take-append-drop n s.session.deck))
            (Perm.nodup (Perm.symm w.cards.full) sorted_deck-Nodup)))
