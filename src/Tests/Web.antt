-- ===== src/Tests/Web.antt =====
-- Witnesses for the properties of the answers: a player who asks too late, and a hidden card.
use blackjack.Prelude.{
  str_eq, Option, ℕ, String, In, inl, ◌≡◌, ◌≢◌, refl, true, false, ◌⊎◌, List, [], ◌∷◌, map, none,
  some, length,
}
use blackjack.Prelude.Int.{pos}
use blackjack.Prelude.Result.{ok, version_conflict, room_full}
use blackjack.Model.Room.{Time}
use blackjack.Model.Session.{StoredCard}
use blackjack.Usecase.Access.{RoomState}
use blackjack.Usecase.Requests.{serve, forget, unit_of}
use blackjack.Usecase.Turn as Turn
use blackjack.Usecase.Turn.{turn_prepare, current_round}
use blackjack.Usecase.Service.{finish}
use blackjack.Model.Session.{check_version}
use blackjack.Web.Payload.{build_room_dto}
use blackjack.Web.Hidden.{with_hole, with_hands, build_room_dto-hides}
use blackjack.Web.Errors.{failure, map_ws_error, write_turn_mutation_error}
use blackjack.Web.Ws.{WsActionRequest, error_event, ws_turn, handle_game_ws_action}
use blackjack.Web.Http.{TurnActionRequest, turn_action}
use blackjack.Web.Route.{turn, handle, handle_failed}
use blackjack.Web.Middleware.{
  HttpRequest, needs_csrf, has_bearer_auth, csrf_middleware, check_cookie, csrf_middleware-passes,
}
use blackjack.Limits.Keys.{holds}
use blackjack.Web.Hub.{Hub, empty_hub, add, snapshot, is_latest}
use blackjack.Web.Latest.{empty, added, Reached-one_connection}
use blackjack.Web.Errors.{Failure}
use blackjack.Web.Route.{create}
use blackjack.Web.Pipeline.{Gate, IsGuarded, api, api-IsGuarded}
use blackjack.Tests.Limits.{naturals, bucket}
use blackjack.Tests.Memory.{Db, memory_laws}
use blackjack.Tests.Requests.{service, opened, stood, idle, moment}

abbrev format : Time → String
format t = "2026-01-01T00:00:00Z"

abbrev late : WsActionRequest
late = record { event = "STAND"; action_id = "a"; expected_version = pos 1; agree = none }

late_event :
    (handle_game_ws_action service idle moment late "r" "u" stood).0
    ≡ error_event "version_conflict" "session version conflict"
unfolding handle_game_ws_action ws_turn serve forget unit_of Turn.stand Turn.player_turn
    turn_prepare current_round check_version finish map_ws_error
late_event = refl

abbrev late_request : TurnActionRequest
late_request = record { expected_version = pos 1; action_id = "a" }

late_failure :
    (handle service idle moment format (turn false (some late_request) "r") "u" stood).0
    ≡ some (failure 409 "version_conflict" "session version conflict")
unfolding handle turn_action Turn.stand Turn.player_turn turn_prepare current_round check_version
    finish write_turn_mutation_error
late_failure = refl

handle_failed_example :
    (handle service idle moment format (turn false (some late_request) "r") "u" stood).1 ≡ stood
handle_failed_example =
    handle_failed service idle moment format memory_laws (turn false (some late_request) "r") "u"
      stood (failure 409 "version_conflict" "session version conflict") late_failure

version_conflict≢room_full : version_conflict ≢ room_full
version_conflict≢room_full h = cc

abbrev state : RoomState
state = record {
  room = opened.room;
  session = some opened.session;
  dealer = some opened.dealer;
  players = opened.player ∷ [];
  can_hit = true;
  can_stand = true;
  can_rematch = false;
}

abbrev ace : StoredCard
ace = record { rank = "A"; suit = "S" }

abbrev aces : List StoredCard → List StoredCard
aces [] = []
aces (c ∷ hand) = ace ∷ aces hand

length-aces : (hand : List StoredCard) → length (aces hand) ≡ length hand
length-aces [] = refl
length-aces (c ∷ hand) = rw (length-aces hand) refl

build_room_dto-hides_example :
    build_room_dto format
      (record state {
        dealer = some (with_hole ace opened.dealer);
        players = map (with_hands "v" (λ p. aces p.hand)) state.players;
      })
      "v"
    ≡ build_room_dto format state "v"
build_room_dto-hides_example =
    build_room_dto-hides format state "v" opened.dealer ace (λ p. aces p.hand) refl refl
      (λ p. length-aces p.hand)

abbrev sent : HttpRequest
sent = record {
  method = "POST";
  path = "/api/rooms";
  authorization = "";
  csrf_cookie = some "c";
  csrf_header = "c";
  user_id = "u";
}

sent_passes : csrf_middleware (λ a b. false) sent ≡ none
unfolding csrf_middleware needs_csrf has_bearer_auth check_cookie
sent_passes = refl

csrf_middleware-passes_example :
    (needs_csrf sent ≡ false)
    ⊎ ((has_bearer_auth (λ a b. false) sent ≡ true)
        ⊎ ((sent.csrf_cookie ≡ some sent.csrf_header) × (sent.csrf_header ≢ "")))
csrf_middleware-passes_example = csrf_middleware-passes (λ a b. false) sent sent_passes

-- A player who comes back on the connection 8 after the connection 7.
abbrev came_back : Hub
came_back = (add "1" 8 "u" (add "1" 7 "u" empty_hub).1).1

came_back_in : In (8, "u") (snapshot "1" came_back)
unfolding snapshot add
came_back_in = inl refl

Reached-one_connection_example : (◌≡◌ {A = ℕ} 8 8) × (is_latest "1" "u" 8 came_back ≡ true)
unfolding holds
Reached-one_connection_example =
    Reached-one_connection came_back "1" "u" 8 8
      (added "1" "u" 8 (add "1" 7 "u" empty_hub).1 refl (added "1" "u" 7 empty_hub refl empty)) refl
      came_back_in came_back_in

abbrev gate : Gate
gate = record {
  echo_jwt =
      λ secret header now. ok (record { subject = "u"; id = "j"; issued_at = 0; expires_at = 9 });
  secret = "sixteen bytes or more";
  floats = naturals;
  buckets = bucket;
  to_lower = λ s. s;
  has_limiter = true;
  equal_fold = str_eq;
}

abbrev creating : HttpRequest → Db → Option Failure × Db
creating r db = handle service idle moment format create r.user_id db

api-IsGuarded_example :
    IsGuarded gate creating sent 5 (pos 0) 5 opened (api gate creating sent 5 (pos 0) 5 opened)
api-IsGuarded_example = api-IsGuarded gate creating sent 5 (pos 0) 5 opened
