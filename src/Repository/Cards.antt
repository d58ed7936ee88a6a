-- ===== src/Repository/Cards.antt =====
-- backend/repository/game_repository_map.go: the rows that hold cards. The cards are stored as JSON;
-- the codec of encoding/json for a list of cards is a parameter.
use blackjack.Prelude.{
  String, str_eq, ◌≡◌, ◌≢◌, not, List, [], ◌∷◌, Option, none, some, if◌then◌else◌,
}
use Prim.Native.String.{◌++◌}
use blackjack.Prelude.Result.{Error, Result, ok, err, ◌>>=◌}
use blackjack.Model.Status.{
  session_status_is_valid, player_status_is_valid, Outcome, outcome_is_valid,
}
use blackjack.Model.Session.{StoredCard, GameSession}
use blackjack.Model.Player.{PlayerState, DealerState}
use blackjack.Repository.Text.{
  session_status_text, to_session_status, player_status_text, to_player_status, outcome_text,
  to_outcome,
}
use blackjack.Repository.Rows.{GameSessionRecord, PlayerStateRecord, DealerStateRecord}

-- json.Marshal on a list with a card and json.Unmarshal.
pub record CardCodec : Type 0 where
  pub marshal : List StoredCard → Result String
  pub unmarshal : String → Result (List StoredCard)

-- What the rows rely on: what was written is read again, and is never the empty text.
pub record IsCardCodec (json : CardCodec) : Type 0 where
  pub written : (cards : List StoredCard) (b : String) → json.marshal cards ≡ ok b → b ≢ ""
  pub read_again :
      (cards : List StoredCard) (b : String)
      → json.marshal cards ≡ ok b
      → json.unmarshal b ≡ ok cards
  pub read_empty : json.unmarshal "[]" ≡ ok []

-- A column that may be NULL, which is read as the empty text.
unfoldable pub to_snapshot : String → Option String
to_snapshot b = if str_eq b "" then none else some b

unfoldable pub snapshot_text : Option String → String
snapshot_text none = ""
snapshot_text (some s) = s

unfoldable pub outcome_column : Option Outcome → Option String
outcome_column none = none
outcome_column (some o) = some (outcome_text o)

unfoldable pub read_outcome : Option String → Result (Option Outcome)
read_outcome none = ok none
read_outcome (some s) =
    let o = to_outcome s in
    if not (outcome_is_valid o) then err (Error.other ("invalid outcome: " ++ s)) else ok (some o)

module _ (json : CardCodec) where
  -- The nil list and the empty list are both written as "[]".
  unfoldable pub marshal_stored_cards : List StoredCard → Result String
  marshal_stored_cards [] = ok "[]"
  marshal_stored_cards (c ∷ cards) = json.marshal (c ∷ cards)

  unfoldable pub unmarshal_stored_cards : String → Result (List StoredCard)
  unmarshal_stored_cards b = if str_eq b "" then ok [] else json.unmarshal b

  unfoldable pub game_session_record_from_domain : GameSession → Result GameSessionRecord
  game_session_record_from_domain s = marshal_stored_cards s.deck >>= λ deck. ok (record {
    id = s.id;
    room_id = s.room_id;
    round_no = s.round_no;
    status = session_status_text s.status;
    version = s.version;
    deck = deck;
    draw_index = s.draw_index;
    turn_seat = s.turn_seat;
    turn_deadline_at = s.turn_deadline_at;
    result_snapshot = snapshot_text s.result_snapshot;
    rematch_deadline_at = s.rematch_deadline_at;
    created_at = s.created_at;
    updated_at = s.updated_at;
  })

  unfoldable pub game_session_record_to_domain : GameSessionRecord → Result GameSession
  game_session_record_to_domain m =
      let st = to_session_status m.status in
      if not (session_status_is_valid st)
      then err (Error.other ("invalid session status: " ++ m.status))
      else unmarshal_stored_cards m.deck >>= λ deck. ok (record {
        id = m.id;
        room_id = m.room_id;
        round_no = m.round_no;
        status = st;
        version = m.version;
        turn_seat = m.turn_seat;
        deck = deck;
        draw_index = m.draw_index;
        turn_deadline_at = m.turn_deadline_at;
        result_snapshot = to_snapshot m.result_snapshot;
        rematch_deadline_at = m.rematch_deadline_at;
        created_at = m.created_at;
        updated_at = m.updated_at;
      })

  unfoldable pub player_state_record_from_domain : PlayerState → Result PlayerStateRecord
  player_state_record_from_domain p = marshal_stored_cards p.hand >>= λ hand. ok (record {
    session_id = p.session_id;
    user_id = p.user_id;
    seat_no = p.seat_no;
    hand = hand;
    status = player_status_text p.status;
    outcome = outcome_column p.outcome;
    final_score = p.final_score;
  })

  unfoldable pub player_state_record_to_domain : PlayerStateRecord → Result PlayerState
  player_state_record_to_domain m =
      let st = to_player_status m.status in
      if not (player_status_is_valid st)
      then err (Error.other ("invalid player status: " ++ m.status))
      else unmarshal_stored_cards m.hand >>= λ hand. read_outcome m.outcome >>= λ oc. ok (record {
        session_id = m.session_id;
        user_id = m.user_id;
        seat_no = m.seat_no;
        hand = hand;
        status = st;
        outcome = oc;
        final_score = m.final_score;
      })

  unfoldable pub dealer_state_record_from_domain : DealerState → Result DealerStateRecord
  dealer_state_record_from_domain d = marshal_stored_cards d.hand >>= λ hand. ok (record {
    session_id = d.session_id;
    hand = hand;
    hole_hidden = d.hole_hidden;
    final_score = d.final_score;
  })

  unfoldable pub dealer_state_record_to_domain : DealerStateRecord → Result DealerState
  dealer_state_record_to_domain m = unmarshal_stored_cards m.hand >>= λ hand. ok (record {
    session_id = m.session_id;
    hand = hand;
    hole_hidden = m.hole_hidden;
    final_score = m.final_score;
  })
