-- ===== src/Web/Errors.antt =====
-- The errors of the use cases as answers: the switches of backend/controller/game_controller.go,
-- room_controller.go and user_controller.go over HTTP, and `mapWSError` of game_ws_controller.go.
use blackjack.Prelude.{ℕ, String, str_eq, if◌then◌else◌}
use blackjack.Prelude.Result

-- `err.Error()`
unfoldable pub error_text : Result.Error → String
error_text Result.not_found = "not found"
error_text Result.already_exists = "already exists"
error_text Result.unauthorized_user = "unauthorized"
error_text Result.invalid_game_state = "invalid_game_state"
error_text Result.forbidden_action = "forbidden"
error_text Result.unauthorized = "unauthorized"
error_text Result.invalid_input = "invalid_input"
error_text Result.username_taken = "username_taken"
error_text Result.invalid_status = "invalid status"
error_text Result.invalid_transition = "invalid transition"
error_text Result.invalid_version = "invalid version"
error_text Result.version_conflict = "version_conflict"
error_text Result.room_full = "room_full"
error_text Result.invalid_seat = "invalid seat"
error_text Result.invalid_player_status = "invalid player status"
error_text Result.invalid_deck = "invalid deck"
error_text Result.deck_exhausted = "deck exhausted"
error_text Result.not_player_turn = "not player turn"
error_text Result.not_your_turn = "not your turn"
error_text Result.cannot_join = "cannot join room in current state"
error_text Result.forbidden_start = "forbidden start"
error_text Result.duplicate_action = "duplicate_action"
error_text (Result.other s) = s
error_text Result.panic = "panic"

-- A status code with dto.Fail.
pub record Failure : Type 0 where
  pub status : ℕ
  pub code : String
  pub message : String

abbrev pub failure : ℕ → String → String → Failure
failure status code message = record { status = status; code = code; message = message }

abbrev pub login_required : Failure
login_required = failure 401 "unauthorized" "login required"

unfoldable pub internal : Result.Error → Failure
unfolding error_text
internal e = failure 500 "internal_error" (error_text e)

abbrev pub bad_room_id : Failure
bad_room_id = failure 400 "invalid_input" "room id is required"

abbrev pub no_room : Failure
no_room = failure 404 "room_not_found" "room not found"

unfoldable pub create_room_error : Result.Error → Failure
unfolding internal
create_room_error Result.unauthorized_user = login_required
create_room_error e = internal e

unfoldable pub join_room_error : Result.Error → Failure
unfolding internal
join_room_error Result.unauthorized_user = login_required
join_room_error Result.forbidden_action = failure 403 "forbidden" "only host can join own room"
join_room_error Result.room_full = failure 409 "room_full" "room is full"
join_room_error Result.invalid_game_state = failure 409 "invalid_game_state" "room is not joinable"
join_room_error Result.invalid_input = bad_room_id
join_room_error e = internal e

unfoldable pub leave_room_error : Result.Error → Failure
unfolding internal
leave_room_error Result.unauthorized_user = login_required
leave_room_error Result.invalid_input = bad_room_id
leave_room_error Result.invalid_game_state =
    failure 409 "invalid_game_state" "cannot leave during active session"
leave_room_error Result.not_found = failure 404 "not_found" "room or membership not found"
leave_room_error e = internal e

-- GetRoom and GetRoomHistory
unfoldable pub get_room_error : Result.Error → Failure
unfolding internal
get_room_error Result.unauthorized_user = login_required
get_room_error Result.forbidden_action = failure 403 "forbidden" "room access denied"
get_room_error Result.invalid_input = bad_room_id
get_room_error Result.not_found = no_room
get_room_error e = internal e

unfoldable pub play_hint_error : Result.Error → Failure
unfolding internal
play_hint_error Result.unauthorized_user = login_required
play_hint_error Result.forbidden_action = failure 403 "forbidden" "room access denied"
play_hint_error Result.invalid_input = bad_room_id
play_hint_error Result.invalid_game_state =
    failure 409 "invalid_game_state" "hint is only available on your turn when you can hit"
play_hint_error Result.not_found = failure 404 "not_found" "room or session not found"
play_hint_error e = internal e

unfoldable pub start_room_error : Result.Error → Failure
unfolding internal
start_room_error Result.unauthorized_user = login_required
start_room_error Result.forbidden_action = failure 403 "forbidden" "only host can start room"
start_room_error Result.invalid_input = bad_room_id
start_room_error Result.invalid_game_state =
    failure 409 "invalid_game_state" "room is not startable"
start_room_error Result.not_found = no_room
start_room_error e = internal e

unfoldable pub reset_room_error : Result.Error → Failure
unfolding internal
reset_room_error Result.unauthorized_user = login_required
reset_room_error Result.forbidden_action = failure 403 "forbidden" "only host can reset room"
reset_room_error Result.invalid_input = bad_room_id
reset_room_error Result.not_found = no_room
reset_room_error e = internal e

-- The text of a wrong state: the given one, or the error's own where none is given.
unfoldable pub invalid_state : String → Result.Error → Failure
unfolding error_text
invalid_state invalid_state_default e =
    failure 409 "invalid_game_state"
      (if str_eq invalid_state_default "" then error_text e else invalid_state_default)

unfoldable pub write_turn_mutation_error : String → String → Result.Error → Failure
unfolding internal invalid_state
write_turn_mutation_error bad state Result.unauthorized_user = login_required
write_turn_mutation_error bad state Result.forbidden_action =
    failure 403 "forbidden" "room access denied"
write_turn_mutation_error bad state Result.invalid_input = failure 400 "invalid_input" bad
write_turn_mutation_error bad state Result.invalid_game_state =
    invalid_state state Result.invalid_game_state
write_turn_mutation_error bad state Result.not_player_turn =
    invalid_state state Result.not_player_turn
write_turn_mutation_error bad state Result.not_your_turn = invalid_state state Result.not_your_turn
write_turn_mutation_error bad state Result.invalid_player_status =
    invalid_state state Result.invalid_player_status
write_turn_mutation_error bad state Result.version_conflict =
    failure 409 "version_conflict" "session version conflict"
write_turn_mutation_error bad state Result.duplicate_action =
    failure 409 "duplicate_action" "action id already used with different payload"
write_turn_mutation_error bad state Result.not_found =
    failure 404 "not_found" "room or session not found"
write_turn_mutation_error bad state e = internal e

-- The code and the message of an ERROR event.
unfoldable pub map_ws_error : Result.Error → String × String
unfolding error_text
map_ws_error Result.unauthorized_user = ("unauthorized", "login required")
map_ws_error Result.forbidden_action = ("forbidden", "room access denied")
map_ws_error Result.invalid_input = ("invalid_input", "action_id and expected_version are required")
map_ws_error Result.invalid_game_state =
    ("invalid_game_state", error_text Result.invalid_game_state)
map_ws_error Result.not_player_turn = ("invalid_game_state", error_text Result.not_player_turn)
map_ws_error Result.not_your_turn = ("invalid_game_state", error_text Result.not_your_turn)
map_ws_error Result.invalid_player_status =
    ("invalid_game_state", error_text Result.invalid_player_status)
map_ws_error Result.room_full = ("room_full", "room is full")
map_ws_error Result.version_conflict = ("version_conflict", "session version conflict")
map_ws_error Result.duplicate_action =
    ("duplicate_action", "action id already used with different payload")
map_ws_error Result.not_found = ("not_found", "room or session not found")
map_ws_error e = ("internal_error", error_text e)
