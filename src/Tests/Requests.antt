-- ===== src/Tests/Requests.antt =====
-- The theorems on requests, applied to requests to the store in memory.
use blackjack.Prelude.{◌≡◌, refl, sym, ap, true, false, [], ◌∷◌, none, some}
use blackjack.Prelude.Int.{pos, inc64}
use blackjack.Prelude.Result.{ok_unique, ok, err, invalid_game_state, version_conflict}
use blackjack.Model.Status.{RoomStatus, RoomPlayerStatus, dealer_turn, PlayerStatus}
use blackjack.Model.Room.{
  Room, RoomPlayer, touch_room, recalculate_status, can_join_as_human_player,
}
use blackjack.Model.Session.{
  GameSession, Votes, check_version, transition_to, set_turn_deadline, increment_version,
  touch_session,
}
use blackjack.Model.Player.{assert_can_hit_or_stand, can_act, set_player_status}
use blackjack.Model.Log.{validate_action_log}
use blackjack.Round.Turn.{player_move, stand_round, end_turn, extend_deadline, next_version}
use blackjack.Usecase.Service as Service
use blackjack.Usecase.Service.{Moment, finish}
use blackjack.Usecase.Idempotency.{
  ensure_action_idempotency, replay_of, save_action_success_snapshot,
}
use blackjack.Usecase.Seats as Seats
use blackjack.Usecase.Start.{playing_room}
use blackjack.Usecase.Turn as Turn
use blackjack.Usecase.Turn.{
  turn_prepare, turn_commit, current_round, decide_turn, player_action_log, swap_session,
  save_snapshot,
}
use blackjack.Usecase.Winner.{player_turn-one_winner}
use blackjack.Usecase.Rematch.{ballot_of}
use blackjack.Usecase.Ballot.{BallotMeans, ballot_of-means}
use blackjack.Usecase.Requests as Requests
use blackjack.Usecase.Requests.{serve, serve_failed}
use blackjack.Tests.Table.{evaluator, engine, open_round}
use blackjack.Model.Account.{User}
use blackjack.Tests.Memory.{Db, memory, memory_laws}

abbrev pub service : Service.Service
service = record {
  store = memory;
  evaluator = evaluator;
  engine = engine;
  marshal = λ p. ok "text";
  sha256_hex = λ text. "hash";
}

abbrev room : Room
room = record {
  id = "r";
  host_user_id = "u";
  status = RoomStatus.playing;
  current_session_id = some "s";
  created_at = 1;
  updated_at = 1;
}

abbrev pub seat : RoomPlayer
seat = record {
  room_id = "r";
  user_id = "u";
  seat_no = pos 1;
  status = RoomPlayerStatus.active;
  joined_at = 1;
  left_at = none;
}

abbrev account : User
account = record {
  id = "u";
  username = "anna";
  password_hash = "secret";
  created_at = 1;
  updated_at = 1;
}

abbrev pub opened : Db
opened = record {
  room = room;
  seat = seat;
  session = open_round.session;
  player = open_round.player;
  dealer = open_round.dealer;
  account = account;
}

abbrev pub moment : Moment
moment = record { now = 5; fresh_id = "n"; rand = λ i. none }

abbrev pub idle : Db → Db
idle db = db

-- What a stand leaves.
abbrev stood_session : GameSession
stood_session = record (open_round.session) {
  status = dealer_turn;
  turn_deadline_at = none;
  version = pos 2;
  updated_at = 5;
}

abbrev stood_room : Room
stood_room = record room { updated_at = 5 }

abbrev pub stood : Db
stood = record opened {
  room = stood_room;
  session = stood_session;
  player = record (open_round.player) { status = PlayerStatus.stand };
}

stand_answer :
    Turn.player_turn service idle "r" "u" (pos 1) "a" false moment opened
    ≡ (ok (stood_room, stood_session), stood)
unfolding Turn.player_turn turn_prepare current_round check_version assert_can_hit_or_stand can_act
    ensure_action_idempotency validate_action_log replay_of player_action_log decide_turn
    player_move stand_round end_turn set_player_status transition_to set_turn_deadline
    extend_deadline next_version increment_version touch_session inc64 playing_room
    recalculate_status touch_room turn_commit swap_session save_snapshot
    save_action_success_snapshot finish
stand_answer = refl

-- A second stand with the same version that read the open round.
late_answer :
    (Turn.player_turn service (λ _. stood) "r" "u" (pos 1) "b" false moment opened).0
    ≡ err version_conflict
unfolding Turn.player_turn turn_prepare current_round check_version assert_can_hit_or_stand can_act
    ensure_action_idempotency validate_action_log replay_of player_action_log decide_turn
    player_move stand_round end_turn set_player_status transition_to set_turn_deadline
    extend_deadline next_version increment_version touch_session inc64 playing_room
    recalculate_status touch_room turn_commit swap_session save_snapshot
    save_action_success_snapshot finish
late_answer = refl

next_of_one : stood_session.version ≡ inc64 (pos 1)
unfolding inc64
next_of_one = refl

same_session :
    (room' : Room) (sess' : GameSession)
    → Turn.current_round service "r" (pos 1) opened ≡ ok (room', sess')
    → sess'.id ≡ stood_session.id
unfolding current_round check_version
same_session room' sess' h = ap (λ (p : Room × GameSession). p.1.id) (sym (ok_unique refl h))

player_turn-one_winner_example :
    (Turn.player_turn service (λ _. stood) "r" "u" (pos 1) "b" false moment opened).1 ≡ stood
player_turn-one_winner_example =
    player_turn-one_winner service memory_laws idle (λ _. stood) "r" "u" "u" (pos 1) "a" "b" false
      false moment moment opened stood opened stood_room stood_session stand_answer next_of_one
      same_session refl

stand_move :
    player_move evaluator engine false 5 open_round
    ≡ ok (record open_round {
      session = stood_session;
      player = record (open_round.player) { status = PlayerStatus.stand };
    })
unfolding player_move stand_round end_turn set_player_status transition_to set_turn_deadline
    extend_deadline next_version increment_version touch_session inc64
stand_move = refl

-- To join a room that plays is refused.
refused : (serve service idle moment (Requests.join_room "r" "u") opened).0 ≡ err invalid_game_state
unfolding serve Requests.forget Seats.join_room Seats.join_prepare can_join_as_human_player finish
refused = refl

serve_failed_example : (serve service idle moment (Requests.join_room "r" "u") opened).1 ≡ opened
serve_failed_example =
    serve_failed service memory_laws idle moment (Requests.join_room "r" "u") opened
      invalid_game_state refused

abbrev votes : Votes
votes = ("u", true) ∷ []

ballot_of-means_example : BallotMeans ("u" ∷ []) votes (ballot_of ("u" ∷ []) votes)
ballot_of-means_example = ballot_of-means ("u" ∷ []) votes
