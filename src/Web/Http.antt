-- ===== src/Web/Http.antt =====
-- The handlers of backend/controller/room_controller.go, game_controller.go and user_controller.go. A handler
-- answers with JSON and, after a change, has the state of the room sent to its connections. Reading the
-- request off HTTP, the audit log and the sending itself are left out; `user_id` is the one of the token,
-- empty without one.
use blackjack.Prelude.{ℕ, String, str_eq, Bool, not, List, map, Option, none, some, if◌then◌else◌}
use blackjack.Prelude.Int.{ℤ, pos, leb_ℤ}
use blackjack.Prelude.Result.{Error, Result, ok, err}
use blackjack.Model.Room.{Time, Room}
use blackjack.Model.Session.{GameSession}
use blackjack.Model.Log.{RoundLog}
use blackjack.Usecase.Service.{Service, Moment}
use blackjack.Usecase.Seats as Seats
use blackjack.Usecase.Access as Access
use blackjack.Usecase.Start as Start
use blackjack.Usecase.Turn as Turn
use blackjack.Web.Payload.{
  RoomDetailJson, SessionJson, room_detail_json, session_from_domain, option_map,
}
use blackjack.Web.Errors.{
  Failure, failure, create_room_error, join_room_error, leave_room_error, get_room_error,
  play_hint_error, start_room_error, reset_room_error, write_turn_mutation_error,
}

-- `broadcast` is the room whose connections are sent its state.
pub data Reply (A : Type 0) : Type 0 where
  json : ℕ → A → Option String → Reply A
  fail : Failure → Reply A

-- The answer of a request that is made: its error by the table, or 200 with what is shown of its value
-- and the room that changed.
abbrev pub respond :
    {A B Db : Type 0}
    → (Error → Failure)
    → (A → B)
    → (A → Option String)
    → Result A × Db
    → Reply B × Db
respond table show changed (ok a, db) = (json 200 (show a) (changed a), db)
respond table show changed (err e, db) = (fail (table e), db)

abbrev pub silent : {A : Type 0} → A → Option String
silent a = none

pub record RoundLogJson : Type 0 where
  pub session_id : String
  pub round_no : ℤ
  pub result_payload : String
  pub created_at : String

pub record TurnActionRequest : Type 0 where
  pub expected_version : ℤ
  pub action_id : String

module _ (u : Service) (others : u.store.Db → u.store.Db) (m : Moment)
    (format : Time → String) where
  unfoldable pub create_room : String → u.store.Db → Reply RoomDetailJson × u.store.Db
  create_room user_id db =
      respond create_room_error room_detail_json silent (Seats.create_room u others user_id m db)

  unfoldable pub join_room : String → String → u.store.Db → Reply RoomDetailJson × u.store.Db
  join_room room_id user_id db =
      respond join_room_error room_detail_json (λ room. some room.id)
        (Seats.join_room u others room_id user_id m db)

  unfoldable pub leave_room : String → String → u.store.Db → Reply RoomDetailJson × u.store.Db
  leave_room room_id user_id db =
      respond leave_room_error (λ x. room_detail_json x.0) (λ x. some x.0.id)
        (Seats.leave_room u others room_id user_id m db)

  -- `enabled` is BLACKJACK_DEBUG_ROOM_RESET=true.
  unfoldable pub reset_room_debug :
      Bool → String → String → u.store.Db → Reply RoomDetailJson × u.store.Db
  reset_room_debug enabled room_id user_id db =
      if not enabled
      then (fail (failure 403 "debug_disabled" "room reset is disabled"), others db)
      else respond reset_room_error room_detail_json (λ room. some room_id)
          (Seats.reset_room_for_debug u others room_id user_id m db)

  abbrev pub game_json : Room × GameSession → RoomDetailJson × SessionJson
  game_json (room, sess) = (room_detail_json room, session_from_domain format sess)

  unfoldable pub start_room :
      String → String → u.store.Db → Reply (RoomDetailJson × SessionJson) × u.store.Db
  start_room room_id user_id db =
      respond start_room_error game_json (λ x. some x.0.id)
        (Start.start_room u others room_id user_id m db)

  -- A request whose body cannot be read is `none`.
  unfoldable pub turn_action :
      Bool
      → Option TurnActionRequest
      → String
      → String
      → u.store.Db
      → Reply (RoomDetailJson × SessionJson) × u.store.Db
  turn_action hit none room_id user_id db =
      (fail (failure 400 "invalid_input" "expected_version is required"), others db)
  turn_action hit (some req) room_id user_id db =
      if leb_ℤ req.expected_version (pos 0)
      then (fail (failure 400 "invalid_input" "expected_version is required"), others db)
      else if str_eq req.action_id ""
      then (fail (failure 400 "invalid_input" "action_id is required"), others db)
      else respond (write_turn_mutation_error "room id and expected_version are required" "")
          game_json (λ x. some x.0.id)
          (if hit
            then Turn.hit u others room_id user_id req.expected_version req.action_id m db
            else Turn.stand u others room_id user_id req.expected_version req.action_id m db)

  -- The reads.
  unfoldable pub get_room :
      String → String → u.store.Db → Reply (RoomDetailJson × Option SessionJson) × u.store.Db
  get_room room_id user_id db =
      respond get_room_error
        (λ x. (room_detail_json x.0, option_map (session_from_domain format) x.1)) silent
        (Access.get_room u room_id user_id db, db)

  unfoldable pub list_rooms : String → u.store.Db → Reply (List RoomDetailJson) × u.store.Db
  list_rooms user_id db =
      respond create_room_error (map room_detail_json) silent (Access.list_rooms u user_id db, db)

  abbrev pub room_history_item_from_domain : RoundLog → RoundLogJson
  room_history_item_from_domain h = record {
    session_id = h.session_id;
    round_no = h.round_no;
    result_payload = h.result_payload;
    created_at = format h.created_at;
  }

  unfoldable pub get_room_history :
      String → String → u.store.Db → Reply (String × List RoundLogJson) × u.store.Db
  get_room_history room_id user_id db =
      respond get_room_error (λ logs. (room_id, map room_history_item_from_domain logs)) silent
        (Access.get_room_history u room_id user_id db, db)

  unfoldable pub get_play_hint : String → String → u.store.Db → Reply Access.PlayHint × u.store.Db
  get_play_hint room_id user_id db =
      respond play_hint_error (λ h. h) silent
        (Access.suggest_player_action u room_id user_id db, db)
