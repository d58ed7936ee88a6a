-- ===== src/Web/Codes.antt =====
-- The error codes of a turn over HTTP and over the WebSocket (backend/controller/game_controller.go and
-- game_ws_controller.go).
use blackjack.Prelude.{String, ◌≡◌, ◌≢◌, refl}
use blackjack.Prelude.Result.{Error, room_full}
use blackjack.Prelude.Result
use blackjack.Web.Errors.{write_turn_mutation_error, map_ws_error, internal, invalid_state}

-- An error of a hit, a stand or a vote has the same code over HTTP as over the WebSocket, unless it is
-- that the room is full.
pub write_turn_mutation_error-map_ws_error :
    (bad state : String) (e : Error)
    → e ≢ room_full
    → (write_turn_mutation_error bad state e).code ≡ (map_ws_error e).0
unfolding write_turn_mutation_error map_ws_error internal invalid_state
write_turn_mutation_error-map_ws_error bad state Result.not_found h = refl
write_turn_mutation_error-map_ws_error bad state Result.already_exists h = refl
write_turn_mutation_error-map_ws_error bad state Result.unauthorized_user h = refl
write_turn_mutation_error-map_ws_error bad state Result.invalid_game_state h = refl
write_turn_mutation_error-map_ws_error bad state Result.forbidden_action h = refl
write_turn_mutation_error-map_ws_error bad state Result.unauthorized h = refl
write_turn_mutation_error-map_ws_error bad state Result.invalid_input h = refl
write_turn_mutation_error-map_ws_error bad state Result.username_taken h = refl
write_turn_mutation_error-map_ws_error bad state Result.invalid_status h = refl
write_turn_mutation_error-map_ws_error bad state Result.invalid_transition h = refl
write_turn_mutation_error-map_ws_error bad state Result.invalid_version h = refl
write_turn_mutation_error-map_ws_error bad state Result.version_conflict h = refl
write_turn_mutation_error-map_ws_error bad state Result.room_full h = absurd (h refl)
write_turn_mutation_error-map_ws_error bad state Result.invalid_seat h = refl
write_turn_mutation_error-map_ws_error bad state Result.invalid_player_status h = refl
write_turn_mutation_error-map_ws_error bad state Result.invalid_deck h = refl
write_turn_mutation_error-map_ws_error bad state Result.deck_exhausted h = refl
write_turn_mutation_error-map_ws_error bad state Result.not_player_turn h = refl
write_turn_mutation_error-map_ws_error bad state Result.not_your_turn h = refl
write_turn_mutation_error-map_ws_error bad state Result.cannot_join h = refl
write_turn_mutation_error-map_ws_error bad state Result.forbidden_start h = refl
write_turn_mutation_error-map_ws_error bad state Result.duplicate_action h = refl
write_turn_mutation_error-map_ws_error bad state Result.panic h = refl
write_turn_mutation_error-map_ws_error bad state (Result.other t) h = refl
