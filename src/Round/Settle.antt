-- ===== src/Round/Settle.antt =====
-- The settled round of `dealerresult` in backend/usecase/game_usecase.go, and the dealer's policy of
-- backend/model/dealer_policy.go.
use blackjack.Prelude.{
  ◌≡◌, refl, ◌⊎◌, inl, inr, true, false, ◌||◌, List, some, String, arith, ltb, leb,
}
use blackjack.Prelude.Result.{ok}
use blackjack.Model.Status.{
  resetting, is_player_turn, is_dealer_turn, is_resetting, Outcome, win, lose, push,
  outcome_is_valid,
}
use blackjack.Model.Room.{Time}
use blackjack.Model.Session.{
  StoredCard, GameSession, set_rematch_deadline, increment_version, touch_session,
}
use blackjack.Model.Hand.{HandEvaluator, next_dealer_action, resolve_round_outcome, is_stand}
use blackjack.Round.Deal.{Round}
use blackjack.Round.Turn.{next_version}
use blackjack.Round.Dealer.{Payload, Marshal}
use blackjack.Round.Invariant.{Inv}

-- json.Marshal does not fail on a map of numbers and texts.
abbrev pub MarshalTotal : Marshal → Type 0
MarshalTotal marshal = (p : Payload) → (text : String) × (marshal p ≡ ok text)

-- A round is won, lost or drawn: `BUST` and the texts that are no outcome never come up.
pub resolve_round_outcome_cases :
    (ev : HandEvaluator) (p d : List StoredCard)
    → (resolve_round_outcome ev p d ≡ ok win)
      ⊎ ((resolve_round_outcome ev p d ≡ ok lose) ⊎ (resolve_round_outcome ev p d ≡ ok push))
unfolding resolve_round_outcome
resolve_round_outcome_cases ev p d = ground arith

pub resolved :
    (ev : HandEvaluator) (p d : List StoredCard)
    → (o : Outcome) × (resolve_round_outcome ev p d ≡ ok o) × (outcome_is_valid o ≡ true)
resolved ev p d = elim (resolve_round_outcome_cases ev p d) [
  | inl e ↦ (win, e, refl)
  | inr (inl e) ↦ (lose, e, refl)
  | inr (inr e) ↦ (push, e, refl)
]

-- A settled round: the deal is over, the hole card is shown and the scores stand.
pub record Settled (ev : HandEvaluator) (o : Outcome) (before after : Round) : Type 0 where
  pub resetting_status : is_resetting after.session.status ≡ true
  pub outcome : after.player.outcome ≡ some o
  pub player_score : after.player.final_score ≡ some (ev.value before.player.hand)
  pub dealer_score : after.dealer.final_score ≡ some (ev.value before.dealer.hand)
  pub shown : after.dealer.hole_hidden ≡ false
  pub same_hands :
      (after.player.hand ≡ before.player.hand) × (after.dealer.hand ≡ before.dealer.hand)

-- The round with the outcome `o` written to it.
abbrev pub settled_round : HandEvaluator → Time → Outcome → Round → Round
settled_round ev now o r = record {
  session = set_rematch_deadline now (record (r.session) { status = resetting });
  player = record (r.player) { outcome = some o; final_score = some (ev.value r.player.hand) };
  dealer = record (r.dealer) { hole_hidden = false; final_score = some (ev.value r.dealer.hand) };
}

pub settled_round-Inv :
    (ev : HandEvaluator) (now : Time) (o : Outcome) (r : Round)
    → Inv r
    → is_player_turn r.session.status ≡ false
    → Inv (settled_round ev now o r)
unfolding set_rematch_deadline
settled_round-Inv ev now o r v e = ground arith

pub settled_round-Settled :
    (ev : HandEvaluator) (now : Time) (o : Outcome) (r : Round)
    → Settled ev o r (settled_round ev now o r)
unfolding set_rematch_deadline
settled_round-Settled ev now o r = ground arith

-- The dealer stops exactly when his hand is worth 17 or more, soft or hard, if the evaluator calls a hand
-- bust exactly above 21.
pub stops_iff :
    (ev : HandEvaluator) (hand : List StoredCard)
    → ev.is_bust hand ≡ ltb 21 (ev.value hand)
    → ((next_dealer_action ev hand).1 || is_stand (next_dealer_action ev hand).0)
      ≡ leb 17 (ev.value hand)
unfolding next_dealer_action
stops_iff ev hand e = ground arith

pub dealer_turn-not_player :
    (s : GameSession) → is_dealer_turn s.status ≡ true → is_player_turn s.status ≡ false
dealer_turn-not_player s e = ground arith

pub next_version-Inv :
    (now : Time) (r : Round) → Inv r → Inv (record r { session = next_version now r.session })
unfolding next_version increment_version touch_session
next_version-Inv now r v = ground arith

pub next_version-status : (now : Time) (s : GameSession) → (next_version now s).status ≡ s.status
unfolding next_version increment_version touch_session
next_version-status now s = ground arith

pub next_version-Settled :
    (ev : HandEvaluator) (o : Outcome) (now : Time) (before after : Round)
    → Settled ev o before after
    → Settled ev o before (record after { session = next_version now after.session })
unfolding next_version increment_version touch_session
next_version-Settled ev o now before after s = ground arith
