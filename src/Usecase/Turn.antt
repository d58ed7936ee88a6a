-- ===== src/Usecase/Turn.antt =====
-- Hit, Stand and `playerTurn` of backend/usecase/game_usecase.go.
use Prim.Native.String.{◌++◌}
use blackjack.Prelude.{String, str_eq, Bool, true, false, ◌||◌, Option, none, some, if◌then◌else◌}
use blackjack.Prelude.Int.{ℤ, pos, leb_ℤ}
use blackjack.Prelude.Text.{format_int}
use blackjack.Prelude.Result.{
  Result, ok, err, unauthorized_user, invalid_input, invalid_game_state, version_conflict, fail_if,
  ◌>>=◌, ◌>>◌,
}
use blackjack.Model.Status.{ActorType}
use blackjack.Model.Room.{Room}
use blackjack.Model.Session.{GameSession, check_version}
use blackjack.Model.Player.{assert_can_hit_or_stand}
use blackjack.Model.Log.{ActionLog}
use blackjack.Round.Deal.{Round}
use blackjack.Round.Turn.{player_move}
use blackjack.Round.Dealer.{Payload}
use blackjack.Store.{Read, Write}
use blackjack.Usecase.Service.{
  Service, Moment, Prepared, done, todo, finish, ◌>>>=◌, ◌>>>◌, lift, or_forbidden,
}
use blackjack.Usecase.Idempotency.{ensure_action_idempotency, save_action_success_snapshot}
use blackjack.Usecase.Start.{playing_room}

-- `if room.CurrentSessionID == nil { return ErrInvalidGameState }`
abbrev pub required_session : Option String → Result String
required_session none = err invalid_game_state
required_session (some id) = ok id

-- What is to be written: the room, the round, the version it replaces and the log entry.
pub record Change : Type 0 where
  pub room : Room
  pub round : Round
  pub expected : ℤ
  pub log : ActionLog

module _ (u : Service) where
  abbrev pub move_name : Bool → String
  move_name hit = if hit then "HIT" else "STAND"

  unfoldable pub player_action_log : Bool → String → String → ℤ → String → ActionLog
  player_action_log hit session_id user_id expected_version action_id = record {
    session_id = session_id;
    actor_type = ActorType.user;
    actor_user_id = user_id;
    target_user_id = user_id;
    action_id = action_id;
    request_type = move_name hit;
    request_payload_hash = u.sha256_hex (move_name hit ++ ":" ++ format_int expected_version);
    response_snapshot = "";
  }

  -- The compare-and-swap on the version, with its failure.
  unfoldable pub swap_session : GameSession → ℤ → Write u.store.Db (Unit {0})
  swap_session sess expected = u.store.update_session_if_version sess expected >>>= λ swapped.
      lift (if swapped then ok tt else err version_conflict)

  unfoldable pub save_snapshot : ActionLog → String → GameSession → Write u.store.Db (Unit {0})
  save_snapshot log room_id sess =
      lift (u.marshal (Payload.snapshot room_id sess.id sess.version)) >>>= λ snapshot.
      save_action_success_snapshot u.store log snapshot

  -- The room and the session, the session at the expected version.
  unfoldable pub current_round : String → ℤ → Read u.store.Db (Room × GameSession)
  current_round room_id expected_version db = do
    room ← u.store.get_room room_id db
    id ← required_session room.current_session_id
    sess ← u.store.get_session id db
    check_version sess expected_version
    ok (room, sess)

  -- The move itself, if the request is not a replay.
  unfoldable pub decide_turn :
      Moment
      → Bool
      → ℤ
      → Room
      → Round
      → ActionLog
      → Bool
      → Result (Prepared Change (Room × GameSession))
  unfolding playing_room
  decide_turn m hit expected_version room r log true = ok (done (room, r.session))
  decide_turn m hit expected_version room r log false = do
    moved ← player_move u.evaluator u.engine hit m.now r
    shown ← playing_room u m moved.session room
    ok (todo (record { room = shown; round = moved; expected = expected_version; log = log }))

  unfoldable pub turn_prepare :
      String
      → String
      → ℤ
      → String
      → Bool
      → Moment
      → Read u.store.Db (Prepared Change (Room × GameSession))
  unfolding current_round decide_turn player_action_log
  turn_prepare room_id user_id expected_version action_id hit m db = do
    fail_if (str_eq user_id "") unauthorized_user
    fail_if (str_eq room_id "" || leb_ℤ expected_version (pos 0) || str_eq action_id "")
        invalid_input
    (room, sess) ← current_round room_id expected_version db
    player ← or_forbidden (u.store.get_player_state sess.id user_id db)
    dealer ← u.store.get_dealer_state sess.id db
    assert_can_hit_or_stand player (some sess) user_id
    let log = player_action_log hit sess.id user_id expected_version action_id
    (snapshot, replay) ← ensure_action_idempotency u.store log db
    decide_turn m hit expected_version room
        (record { session = sess; player = player; dealer = dealer }) log replay

  unfoldable pub turn_commit : Change → Write u.store.Db (Room × GameSession)
  unfolding swap_session save_snapshot
  turn_commit c =
      swap_session c.round.session c.expected
      >>> u.store.update_player_state c.round.player
      >>> u.store.update_dealer_state c.round.dealer
      >>> u.store.update_room c.room
      >>> save_snapshot c.log c.room.id c.round.session
      >>> lift (ok (c.room, c.round.session))

  unfoldable pub player_turn :
      (u.store.Db → u.store.Db)
      → String
      → String
      → ℤ
      → String
      → Bool
      → Moment
      → Write u.store.Db (Room × GameSession)
  unfolding turn_prepare turn_commit
  player_turn others room_id user_id expected_version action_id hit m db =
      finish u.store others turn_commit
        (turn_prepare room_id user_id expected_version action_id hit m db) db

  unfoldable pub hit :
      (u.store.Db → u.store.Db)
      → String
      → String
      → ℤ
      → String
      → Moment
      → Write u.store.Db (Room × GameSession)
  unfolding player_turn
  hit others room_id user_id expected_version action_id m =
      player_turn others room_id user_id expected_version action_id true m

  unfoldable pub stand :
      (u.store.Db → u.store.Db)
      → String
      → String
      → ℤ
      → String
      → Moment
      → Write u.store.Db (Room × GameSession)
  unfolding player_turn
  stand others room_id user_id expected_version action_id m =
      player_turn others room_id user_id expected_version action_id false m
