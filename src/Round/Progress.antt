-- ===== src/Round/Progress.antt =====
-- Every round of backend/usecase/game_usecase.go ends, in whatever order its moves come.
use blackjack.Prelude.{
  ℕ, suc, ◌+◌, ◌-◌, ◌≤◌, ◌≡◌, refl, sym, ap, ◌∙◌, subst, Bool, true, false, Bool-cases, ◌⊎◌, inl,
  inr, [], ◌∷◌, ◌++◌, Option, if◌then◌else◌, ltb, length, arith,
}
use blackjack.Prelude.Result.{ok, ok_unique, >>=-eq-ok}
use blackjack.Model.Status.{
  SessionStatus, player_turn, dealer_turn, is_player_turn, is_dealer_turn, is_resetting,
  PlayerStatus, lose,
}
use blackjack.Model.Room.{Time}
use blackjack.Model.Log.{RoundLog}
use blackjack.Model.Session.{GameSession, set_turn_deadline, increment_version, touch_session}
use blackjack.Model.Hand.{HandEvaluator, RoundEngine}
use blackjack.Adapter.Rules.{IsHandRules}
use blackjack.Round.Deal.{Round}
use blackjack.Round.Turn.{hit_round, stand_round, extend_deadline, next_version, player_move}
use blackjack.Round.Dealer.{Marshal}
use blackjack.Round.Invariant.{Inv}
use blackjack.Round.Draw.{length-snoc, Draws, Cards-Draws}
use blackjack.Round.Moves.{end_turn_lem, player_move-Keeps}
use blackjack.Round.Settle.{MarshalTotal, Settled}
use blackjack.Round.DealerMoves.{dealer_move-moves}
use blackjack.Round.Ends.{
  Step, player_moves, time_runs_out, dealer_moves, Run, here, next, Run-Inv, Step-Inv,
  time_forfeit-Settled,
}

cards : Round → ℕ
cards r = length r.player.hand + length r.dealer.hand

-- The player's turn is followed by the dealer's, and that by the settlement.
turns_left : SessionStatus → ℕ
turns_left player_turn = 2
turns_left dealer_turn = 1
turns_left _ = 0

-- What each move uses up: a turn, or a card.
left : Round → ℕ
unfolding cards turns_left
left r = turns_left r.session.status + (39 - cards r)

turns_of_player : (s : SessionStatus) → is_player_turn s ≡ true → turns_left s ≡ 2
unfolding turns_left
turns_of_player s h = ground arith

turns_of_dealer : (s : SessionStatus) → is_dealer_turn s ≡ true → turns_left s ≡ 1
unfolding turns_left
turns_of_dealer s h = ground arith

turns_of_resetting : (s : SessionStatus) → is_resetting s ≡ true → turns_left s ≡ 0
unfolding turns_left
turns_of_resetting s h = ground arith

-- After a move of the player the turn is the dealer's, or it goes on with one card more.
abbrev Advances : Round → Round → Type 0
Advances r s =
    ((is_dealer_turn s.session.status ≡ true) × (cards r ≤ cards s))
    ⊎ ((is_player_turn s.session.status ≡ true) × (cards s ≡ suc (cards r)))

noted :
    (now : Time) (s : GameSession) → (next_version now (extend_deadline now s)).status ≡ s.status
unfolding next_version extend_deadline set_turn_deadline increment_version touch_session
noted now s = ground arith

module _ {ev : HandEvaluator} {engine : RoundEngine} (rules : IsHandRules ev engine) (r : Round)
    (v : Inv r) (turn : is_player_turn r.session.status ≡ true) where
  stand_round-Advances : (now : Time) (s : Round) → stand_round now r ≡ ok s → Advances r s
  unfolding stand_round set_turn_deadline cards
  stand_round-Advances now s e =
      subst (Advances r) (ok_unique (end_turn_lem PlayerStatus.stand _ refl turn) e)
        (inl (refl, (omega arith)))

  hit_round-Advances : (s : Round) → hit_round ev engine r ≡ ok s → Advances r s
  unfolding hit_round cards
  hit_round-Advances s e =
      let d : Draws r.session (length r.player.hand + length r.dealer.hand) =
        Cards-Draws r.session _ _ v.cards (omega (arith, v.turn_size turn, v.dealer_size)) in
      let e1 =
        rw (d.draws, rules.hit_appends r.player.hand d.card v.cards.player_standard d.standard) at
          e in
      elim (Bool-cases (ltb 21 (ev.value (r.player.hand ++ d.card ∷ [])))) [
        | inl high ↦
            subst (Advances r)
              (ok_unique (end_turn_lem PlayerStatus.bust _ refl turn) (rw high at e1))
              (inl (refl, (omega (arith, length-snoc r.player.hand d.card))))
        | inr low ↦ elim (Bool-cases (ev.is_blackjack (r.player.hand ++ d.card ∷ []))) [
          | inl natural ↦
              subst (Advances r)
                (ok_unique (end_turn_lem PlayerStatus.blackjack_hand _ refl turn)
                  (rw (low, natural) at e1))
                (inl (refl, (omega (arith, length-snoc r.player.hand d.card))))
          | inr plain ↦
              subst (Advances r) (ok_unique refl (rw (low, plain) at e1))
                (inr (turn, (omega (arith, length-snoc r.player.hand d.card))))
        ]
      ]

  act-Advances :
      (hit : Bool) (now : Time) (s : Round)
      → (if hit then hit_round ev engine r else stand_round now r) ≡ ok s
      → Advances r s
  act-Advances true now s e = hit_round-Advances s e
  act-Advances false now s e = stand_round-Advances now s e

  player_move-Advances :
      (hit : Bool) (now : Time) (s : Round) → player_move ev engine hit now r ≡ ok s → Advances r s
  unfolding player_move cards
  player_move-Advances hit now s e =
      let (moved, p, q) =
        >>=-eq-ok (if hit then hit_round ev engine r else stand_round now r) _ s e in
      let status = noted now moved.session in
      subst (Advances r) (ok_unique refl q) (elim (act-Advances hit now moved p) [
        | inl (dealer, more) ↦ inl (rw (status) dealer, more)
        | inr (player, one) ↦ inr (rw (status) player, one)
      ])

fewer_cards :
    (r s : Round) (p d : ℕ)
    → length s.player.hand ≤ 22
    → length s.dealer.hand ≤ 17
    → cards r ≤ cards s
    → turns_left r.session.status ≡ suc p + d
    → turns_left s.session.status ≡ p
    → suc (left s) ≤ left r
unfolding left cards
fewer_cards r s p d h k more a b = omega arith

one_card :
    (r s : Round)
    → length s.player.hand ≤ 22
    → length s.dealer.hand ≤ 17
    → cards s ≡ suc (cards r)
    → turns_left r.session.status ≡ turns_left s.session.status
    → suc (left s) ≤ left r
unfolding left cards
one_card r s h k more a = omega arith

same_hands :
    (r s : Round)
    → (s.player.hand ≡ r.player.hand) × (s.dealer.hand ≡ r.dealer.hand)
    → cards r ≤ cards s
unfolding cards
same_hands r s (p, q) = rw (p, q) (omega arith)

dealer_card :
    (r s : Round)
    → s.player ≡ r.player
    → length s.dealer.hand ≡ suc (length r.dealer.hand)
    → cards s ≡ suc (cards r)
unfolding cards
dealer_card r s same one = rw (same) (omega (arith, one))

-- It is somebody's turn, or the round is settled.
abbrev pub IsInPlay : Round → Type 0
IsInPlay r =
    (is_player_turn r.session.status ≡ true)
    ⊎ ((is_dealer_turn r.session.status ≡ true) ⊎ (is_resetting r.session.status ≡ true))

abbrev Uses : Round → Round → Type 0
Uses r s = (suc (left s) ≤ left r) × IsInPlay s

-- The moves of a run.
pub moves :
    {ev : HandEvaluator} {engine : RoundEngine} {marshal : Marshal} {r s : Round}
    → Run ev engine marshal r s
    → ℕ
moves here = 0
moves (next run step) = suc (moves run)

left_bound : (r : Round) → left r ≤ 41
unfolding left cards turns_left
left_bound r = ground arith

module _ {ev : HandEvaluator} {engine : RoundEngine} {marshal : Marshal}
    (rules : IsHandRules ev engine) (total : MarshalTotal marshal) where
  -- Every move uses something up, and leaves the turn to somebody or the round settled.
  Step-Uses : {r s : Round} → Step ev engine marshal r s → Inv r → Uses r s
  Step-Uses {r} {s} (player_moves hit now turn e) v =
      let w : Inv s = Step-Inv rules total (player_moves hit now turn e) v in
      elim (player_move-Advances rules r v turn hit now s e) [
        | inl (dealer, more) ↦ (
          fewer_cards r s 1 0 w.player_size w.dealer_size more (turns_of_player _ turn)
              (turns_of_dealer _ dealer),
          inr (inl dealer),
        )
        | inr (player, one) ↦ (
          one_card r s w.player_size w.dealer_size one
              (turns_of_player _ turn ∙ sym (turns_of_player _ player)),
          inl player,
        )
      ]
  Step-Uses {r} {s} (time_runs_out now log turn e) v =
      let w : Inv s = Step-Inv rules total (time_runs_out now log turn e) v in
      let (lost, text, f, x, settled) = time_forfeit-Settled rules total now r v turn in
      let same : lost ≡ s = ap (λ (p : Round × RoundLog). p.0) (ok_unique f e) in
      let after : Settled ev lose r s = subst (Settled ev lose r) same settled in
      (
        fewer_cards r s 0 1 w.player_size w.dealer_size (same_hands r s after.same_hands)
            (turns_of_player _ turn) (turns_of_resetting _ after.resetting_status),
        inr (inr after.resetting_status),
      )
  Step-Uses {r} {s} (dealer_moves now log turn e) v =
      let (moved, text, f, w, step) = dealer_move-moves rules total now r v turn in
      let same : moved ≡ s = ap (λ (p : Round × Option RoundLog). p.0) (ok_unique f e) in
      subst (Uses r) same (elim step [
        | inl (high, logged, (o, outcome, settled)) ↦ (
          fewer_cards r moved 0 0 w.player_size w.dealer_size
              (same_hands r moved settled.same_hands) (turns_of_dealer _ turn)
              (turns_of_resetting _ settled.resetting_status),
          inr (inr settled.resetting_status),
        )
        | inr (low, unlogged, again, player, one) ↦ (
          one_card r moved w.player_size w.dealer_size (dealer_card r moved player one)
              (turns_of_dealer _ turn ∙ sym (turns_of_dealer _ again)),
          inr (inl again),
        )
      ])

  Run-Uses :
      {r s : Round}
      → Inv r
      → IsInPlay r
      → (run : Run ev engine marshal r s) → (moves run + left s ≤ left r) × IsInPlay s
  unfolding moves
  Run-Uses v p here = ((omega arith), p)
  Run-Uses v p (next run step) =
      let (used, before) = Run-Uses v p run in
      let (less, after) = Step-Uses step (Run-Inv rules total v run) in ((omega arith), after)

  -- Whoever's turn it is can move.
  can_move :
      (now : Time) (r : Round)
      → Inv r
      → IsInPlay r
      → (is_resetting r.session.status ≡ true) ⊎ ((s : Round) × Step ev engine marshal r s)
  can_move now r v (inl turn) =
      let (s, e, w) = player_move-Keeps rules r v turn false now in
      inr (s, player_moves false now turn e)
  can_move now r v (inr (inl turn)) =
      let (s, log, e, w, step) = dealer_move-moves rules total now r v turn in
      inr (s, dealer_moves now log turn e)
  can_move now r v (inr (inr settled)) = inl settled

  -- In whatever order the moves come, a round that is in play ends: a run of it has at most 41 moves, and
  -- where it has come to the round is settled or there is a next move.
  pub Run-ends :
      {r s : Round} (now : Time)
      → Inv r
      → IsInPlay r
      → (run : Run ev engine marshal r s)
      → (moves run ≤ 41)
        × ((is_resetting s.session.status ≡ true) ⊎ ((t : Round) × Step ev engine marshal s t))
  Run-ends {r} {s} now v p run =
      let (used, after) = Run-Uses v p run in
      ((omega (arith, left_bound r)), can_move now s (Run-Inv rules total v run) after)
