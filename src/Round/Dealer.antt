-- ===== src/Round/Dealer.antt =====
-- The dealer's move and the settlement of a round: `dealerresult`, `dealerresultTimeForfeit`, and what
-- `dealerTurn` and `playerStand` of backend/usecase/game_usecase.go do to the round between their
-- reads and their transactions. `marshal` stands for `marshalGameJSON` (json.Marshal).
use blackjack.Prelude.{ℕ, String, Bool, true, ◌||◌, Option, none, some, if◌then◌else◌}
use blackjack.Prelude.Int.{ℤ}
use blackjack.Prelude.Result.{Result, ok, ◌>>=◌}
use blackjack.Model.Status.{dealer_turn, result, resetting, Outcome, lose, PlayerStatus}
use blackjack.Model.Room.{Time}
use blackjack.Model.Session.{draw_card, transition_to, set_turn_deadline, set_rematch_deadline}
use blackjack.Model.Player.{set_player_status, set_outcome, reveal_hole, set_final_score}
use blackjack.Model.Hand.{HandEvaluator, RoundEngine, is_stand, next_dealer_action}
use blackjack.Model.Log.{RoundLog}
use blackjack.Round.Deal.{Round}
use blackjack.Round.Turn.{next_version}

-- The maps that the code marshals.
pub data Payload : Type 0 where
  round_result : ℕ → ℕ → Outcome → Payload
  forfeit_result : ℕ → ℕ → Outcome → Bool → Payload
  snapshot : String → String → ℤ → Payload

abbrev pub Marshal : Type 0
Marshal = Payload → Result String

-- A settled round with its log entry. The entry's id is given by the database.
unfoldable pub dealer_result :
    HandEvaluator → RoundEngine → Marshal → Time → Round → Result (Round × RoundLog)
dealer_result ev engine marshal now r = do
  shown ← transition_to r.session result
  resetting_session ← transition_to shown resetting
  let session = set_rematch_deadline now resetting_session
  let p_score = ev.value r.player.hand
  let d_score = ev.value r.dealer.hand
  outcome ← engine.resolve_outcome ev r.player.hand r.dealer.hand
  player ← set_outcome r.player p_score outcome
  payload ← marshal (round_result p_score d_score outcome)
  ok (
    record {
      session = session;
      player = player;
      dealer = set_final_score d_score (reveal_hole r.dealer);
    },
    record {
      id = "";
      session_id = session.id;
      round_no = session.round_no;
      result_payload = payload;
      created_at = now;
    },
  )

unfoldable pub dealer_result_time_forfeit :
    HandEvaluator → Marshal → Time → Round → Result (Round × RoundLog)
dealer_result_time_forfeit ev marshal now r = do
  shown ← transition_to r.session result
  resetting_session ← transition_to shown resetting
  let session = set_rematch_deadline now resetting_session
  let p_score = ev.value r.player.hand
  let d_score = ev.value r.dealer.hand
  player ← set_outcome r.player p_score lose
  payload ← marshal (forfeit_result p_score d_score lose true)
  ok (
    record {
      session = session;
      player = player;
      dealer = set_final_score d_score (reveal_hole r.dealer);
    },
    record {
      id = "";
      session_id = session.id;
      round_no = session.round_no;
      result_payload = payload;
      created_at = now;
    },
  )

-- One card for the dealer.
unfoldable pub dealer_draw : RoundEngine → Round → Result Round
dealer_draw engine r = do
  (card, session) ← draw_card r.session
  next_hand ← engine.apply_player_hit r.dealer.hand card
  ok (record r { session = session; dealer = record (r.dealer) { hand = next_hand } })

-- One card or the result; the log entry is there if the round was settled.
unfoldable pub dealer_act :
    HandEvaluator → RoundEngine → Marshal → Time → Round → Result (Round × Option RoundLog)
unfolding dealer_result dealer_draw
dealer_act ev engine marshal now r =
    let (action, terminal) = next_dealer_action ev r.dealer.hand in
    if terminal || is_stand action
    then (do (settled, log) ← dealer_result ev engine marshal now r; ok (settled, some log))
    else (do drawn ← dealer_draw engine r; ok (drawn, none))

unfoldable pub dealer_move :
    HandEvaluator → RoundEngine → Marshal → Time → Round → Result (Round × Option RoundLog)
unfolding dealer_act
dealer_move ev engine marshal now r = do
  (moved, log) ← dealer_act ev engine marshal now r
  ok (record moved { session = next_version now moved.session }, log)

-- The player ran out of time: the turn ends and the round is lost.
unfoldable pub time_forfeit : HandEvaluator → Marshal → Time → Round → Result (Round × RoundLog)
unfolding dealer_result_time_forfeit
time_forfeit ev marshal now r = do
  player ← set_player_status r.player PlayerStatus.stand
  session ← transition_to r.session dealer_turn
  settled ←
      dealer_result_time_forfeit ev marshal now
        (record r { session = set_turn_deadline none session; player = player })
  ok (record (settled.0) { session = next_version now settled.0.session }, settled.1)
