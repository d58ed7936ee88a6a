-- ===== src/Round/Version.antt =====
-- The id and the version of the session in the player's move of backend/usecase/game_usecase.go.
use blackjack.Prelude.{
  ◌≡◌, ◌≢◌, refl, ap, sym, ◌∙◌, ◌+◌, Bool, true, false, some, if◌then◌else◌, arith, ltb, zero, suc,
}
use blackjack.Prelude.Int.{ℤ, pos, negsuc, neg_part, inc64}
use blackjack.Prelude.Result.{ok, >>=-eq-ok, ok_unique}
use blackjack.Model.Status.{SessionStatus, dealer_turn, PlayerStatus}
use blackjack.Model.Room.{Time}
use blackjack.Model.Session.{
  StoredCard, GameSession, draw_card, transition_to, set_turn_deadline, increment_version,
  touch_session,
}
use blackjack.Model.Player.{set_player_status}
use blackjack.Model.Hand.{HandEvaluator, RoundEngine}
use blackjack.Round.Deal.{Round, player_turn_timeout}
use blackjack.Round.Turn.{
  end_turn, hit_round, stand_round, extend_deadline, next_version, player_move,
}

-- The id and the version are the same.
abbrev pub SameRow : GameSession → GameSession → Type 0
SameRow s t = (t.id ≡ s.id) × (t.version ≡ s.version)

transition_to-SameRow :
    (s : GameSession) (next : SessionStatus) (t : GameSession)
    → transition_to s next ≡ ok t
    → SameRow s t
unfolding transition_to
transition_to-SameRow s next t h = ground arith

draw_card-SameRow :
    (s : GameSession) (c : StoredCard) (t : GameSession) → draw_card s ≡ ok (c, t) → SameRow s t
unfolding draw_card
draw_card-SameRow s c t h = ground arith

end_turn-SameRow :
    (status : PlayerStatus) (r r' : Round)
    → end_turn status r ≡ ok r'
    → SameRow r.session r'.session
unfolding end_turn set_turn_deadline
end_turn-SameRow status r r' h =
    let (player, _, h) = >>=-eq-ok (set_player_status r.player status) _ _ h in
    let (session, e, h) = >>=-eq-ok (transition_to r.session dealer_turn) _ _ h in
    let (same_id, same_version) = transition_to-SameRow r.session dealer_turn session e in
    (cc (same_id, h), cc (same_version, h))

pub inc64_apart : (n : ℤ) → inc64 n ≢ n
unfolding inc64
inc64_apart (pos n) = ground arith
inc64_apart (negsuc zero) = λ e. cc e
inc64_apart (negsuc (suc n)) = λ e. omega (arith, ap neg_part e)

bookkeeping-row :
    (now : Time) (s : GameSession)
    → ((next_version now (extend_deadline now s)).id ≡ s.id)
      × ((next_version now (extend_deadline now s)).version ≡ inc64 s.version)
unfolding next_version extend_deadline set_turn_deadline increment_version touch_session
bookkeeping-row now s = ground arith

-- The three ends of a hit.
settled-SameRow :
    (over natural : Bool) (drawn r' : Round)
    → (if over
        then end_turn PlayerStatus.bust drawn
        else if natural
        then end_turn PlayerStatus.blackjack_hand drawn
        else ok drawn)
      ≡ ok r'
    → SameRow drawn.session r'.session
settled-SameRow true natural drawn r' h = end_turn-SameRow PlayerStatus.bust drawn r' h
settled-SameRow false true drawn r' h = end_turn-SameRow PlayerStatus.blackjack_hand drawn r' h
settled-SameRow false false drawn r' h = (cc h, cc h)

module _ (ev : HandEvaluator) (engine : RoundEngine) where
  hit_round-SameRow : (r r' : Round) → hit_round ev engine r ≡ ok r' → SameRow r.session r'.session
  unfolding hit_round
  hit_round-SameRow r r' h =
      let ((card, session), e, h) = >>=-eq-ok (draw_card r.session) _ _ h in
      let (next_hand, _, h) = >>=-eq-ok (engine.apply_player_hit r.player.hand card) _ _ h in
      let (id, version) = draw_card-SameRow r.session card session e in
      let (id', version') =
        settled-SameRow (ltb 21 (ev.value next_hand)) (ev.is_blackjack next_hand)
          (record r { session = session; player = record (r.player) { hand = next_hand } }) r' h in
      (id' ∙ id, version' ∙ version)

  stand_round-SameRow :
      (now : Time) (r r' : Round) → stand_round now r ≡ ok r' → SameRow r.session r'.session
  unfolding stand_round set_turn_deadline
  stand_round-SameRow now r r' h =
      end_turn-SameRow PlayerStatus.stand
        (record r { session = set_turn_deadline (some (now + player_turn_timeout)) r.session }) r' h

  moved-SameRow :
      (hit : Bool) (now : Time) (r r' : Round)
      → (if hit then hit_round ev engine r else stand_round now r) ≡ ok r'
      → SameRow r.session r'.session
  moved-SameRow true now r r' h = hit_round-SameRow r r' h
  moved-SameRow false now r r' h = stand_round-SameRow now r r' h

  -- A hit or a stand that succeeds leaves the session's id and raises its version by one, with the wrap
  -- of 64 bits.
  pub player_move-version :
      (hit : Bool) (now : Time) (r r' : Round)
      → player_move ev engine hit now r ≡ ok r'
      → (r'.session.id ≡ r.session.id) × (r'.session.version ≡ inc64 r.session.version)
  unfolding player_move
  player_move-version hit now r r' h =
      let (moved, e, h) =
        >>=-eq-ok (if hit then hit_round ev engine r else stand_round now r) _ _ h in
      let (id, version) = moved-SameRow hit now r moved e in
      let (id', version') = bookkeeping-row now moved.session in
      let same = ok_unique refl h in
      (
        ap (λ (x : Round). x.session.id) (sym same) ∙ id' ∙ id,
        ap (λ (x : Round). x.session.version) (sym same) ∙ version' ∙ ap inc64 version,
      )
