-- ===== src/Usecase/Lock.antt =====
-- The optimistic lock of Hit and Stand in backend/usecase/game_usecase.go: what a request that is answered did.
use blackjack.Prelude.{◌≡◌, subst, sym, refl, String, str_eq, Bool, true, false, ◌||◌, some}
use blackjack.Prelude.Int.{ℤ, pos, leb_ℤ}
use blackjack.Prelude.Result.{
  Result, ok, err, not_found, unauthorized_user, invalid_input, fail_if, >>=-eq-ok, ok_unique,
}
use blackjack.Model.Room.{Room}
use blackjack.Model.Session.{GameSession}
use blackjack.Model.Log.{ActionLog}
use blackjack.Round.Deal.{Round}
use blackjack.Round.Turn.{player_move}
use blackjack.Model.Player.{assert_can_hit_or_stand}
use blackjack.Store.{IsStore}
use blackjack.Usecase.Service.{Service, Moment, Prepared, done, todo, finish, or_forbidden}
use blackjack.Usecase.Idempotency.{ensure_action_idempotency}
use blackjack.Usecase.Turn.{
  Change, current_round, decide_turn, turn_prepare, turn_commit, player_turn, player_action_log,
}
use blackjack.Usecase.Start.{playing_room}
use blackjack.Usecase.Swap.{Swapped, Ran}
use blackjack.Usecase.Replays.{IsLoggedAction, ensure-replay, ensure-new}
use blackjack.Usecase.MoveWrites.{move_writes, turn_commit-writes}

-- A request for a move.
module _ (u : Service) (laws : IsStore u.store) (room_id user_id : String) (version : ℤ)
    (action_id : String) (hit : Bool) (m : Moment) where
  abbrev pub move_log : GameSession → ActionLog
  move_log sess = player_action_log u hit sess.id user_id version action_id

  -- The rows of the round that the request is about, as they are read.
  pub record IsRead (db : u.store.Db) (room : Room) (r : Round) : Type 0 where
    pub current : current_round u room_id version db ≡ ok (room, r.session)
    pub player : u.store.get_player_state r.session.id user_id db ≡ ok r.player
    pub dealer : u.store.get_dealer_state r.session.id db ≡ ok r.dealer

  record Decided (db : u.store.Db) (p : Prepared Change (Room × GameSession)) : Type 0 where
    room : Room
    round : Round
    read : IsRead db room round
    snapshot : String
    replay : Bool
    asked : ensure_action_idempotency u.store (move_log round.session) db ≡ ok (snapshot, replay)
    decision : decide_turn u m hit version room round (move_log round.session) replay ≡ ok p

  -- What a move that is answered did. Either the log has an entry of this action, and the answer is the
  -- session as it was read and nothing was written; or the log had none, the rules made the move from the round
  -- that was read, the row of the session was replaced under the expected version, and the hands, the room and
  -- the log were written after it.
  pub data MoveDone (db begun ended : u.store.Db) (answer : Room × GameSession) : Type 0 where
    replayed :
        current_round u room_id version db ≡ ok answer
        → IsLoggedAction u.store (move_log answer.1) db
        → ended ≡ begun
        → MoveDone db begun ended answer
    moved :
        (room : Room) (before after : Round)
        → IsRead db room before
        → u.store.get_action_log_by_action_id before.session.id user_id action_id db ≡ err not_found
        → player_move u.evaluator u.engine hit m.now before ≡ ok after
        → playing_room u m after.session room ≡ ok answer.0
        → after.session ≡ answer.1
        → Swapped u.store laws after.session version begun ended
        → Ran u.store
            (move_writes u laws (move_log before.session) answer.0 after)
            (u.store.update_session_if_version after.session version begun).1
            ended
        → MoveDone db begun ended answer

  or_forbidden-ok : {A : Type 0} (r : Result A) (a : A) → or_forbidden r ≡ ok a → r ≡ ok a
  or_forbidden-ok (ok b) a h = h
  or_forbidden-ok (err not_found) a h = cc
  or_forbidden-ok (err e) a h = cc

  turn_prepare-Decided :
      (db : u.store.Db) (p : Prepared Change (Room × GameSession))
      → turn_prepare u room_id user_id version action_id hit m db ≡ ok p
      → Decided db p
  unfolding turn_prepare
  turn_prepare-Decided db p h =
      let (_, _, h) = >>=-eq-ok (fail_if (str_eq user_id "") unauthorized_user) _ _ h in
      let (_, _, h) =
        >>=-eq-ok
          (fail_if (str_eq room_id "" || leb_ℤ version (pos 0) || str_eq action_id "")
            invalid_input)
          _ _ h in
      let ((room, sess), current, h) = >>=-eq-ok (current_round u room_id version db) _ _ h in
      let (player, seat, h) =
        >>=-eq-ok (or_forbidden (u.store.get_player_state sess.id user_id db)) _ _ h in
      let (dealer, rows, h) = >>=-eq-ok (u.store.get_dealer_state sess.id db) _ _ h in
      let (_, _, h) = >>=-eq-ok (assert_can_hit_or_stand player (some sess) user_id) _ _ h in
      let ((snapshot, replay), asked, h) =
        >>=-eq-ok (ensure_action_idempotency u.store (move_log sess) db) _ _ h in
      record {
        room = room;
        round = record { session = sess; player = player; dealer = dealer };
        read = record { current = current; player = or_forbidden-ok _ player seat; dealer = rows };
        snapshot = snapshot;
        replay = replay;
        asked = asked;
        decision = h;
      }

  decided_done :
      (db begun : u.store.Db) (answer : Room × GameSession) (room : Room) (r : Round)
      (snapshot : String) (replay : Bool)
      → IsRead db room r
      → ensure_action_idempotency u.store (move_log r.session) db ≡ ok (snapshot, replay)
      → decide_turn u m hit version room r (move_log r.session) replay ≡ ok (done answer)
      → MoveDone db begun begun answer
  unfolding decide_turn
  decided_done db begun answer room r snapshot true read asked h =
      let same : (room, r.session) ≡ answer = cc h in
      subst (MoveDone db begun begun) same
        (replayed read.current (ensure-replay u.store (move_log r.session) db snapshot asked) refl)
  decided_done db begun answer room r snapshot false read asked h =
      let (after, e, h1) = >>=-eq-ok (player_move u.evaluator u.engine hit m.now r) _ _ h in
      let (shown, e2, h2) = >>=-eq-ok (playing_room u m after.session room) _ _ h1 in cc h2

  todo_inj :
      {a c : Change}
      → ◌≡◌ {A = Result (Prepared Change (Room × GameSession))} (ok (todo a)) (ok (todo c))
      → a ≡ c
  todo_inj h = cc

  decided_todo :
      (db begun : u.store.Db) (c : Change) (answer : Room × GameSession) (room : Room) (r : Round)
      (snapshot : String) (replay : Bool)
      → IsRead db room r
      → ensure_action_idempotency u.store (move_log r.session) db ≡ ok (snapshot, replay)
      → decide_turn u m hit version room r (move_log r.session) replay ≡ ok (todo c)
      → (turn_commit u c begun).0 ≡ ok answer
      → MoveDone db begun (turn_commit u c begun).1 answer
  unfolding decide_turn player_action_log
  decided_todo db begun c answer room r snapshot true read asked h committed = cc
  decided_todo db begun c answer room r snapshot false read asked h committed =
      let (after, e, h1) = >>=-eq-ok (player_move u.evaluator u.engine hit m.now r) _ _ h in
      let (shown, e2, h2) = >>=-eq-ok (playing_room u m after.session room) _ _ h1 in
      let change : Change = record {
        room = shown;
        round = after;
        expected = version;
        log = move_log r.session;
      } in
      let same : change ≡ c = todo_inj h2 in
      subst (λ x. MoveDone db begun (turn_commit u x begun).1 answer) same
        (change_MoveDone room r snapshot read asked after shown e e2
          (subst (λ x. (turn_commit u x begun).0 ≡ ok answer) (sym same) committed))
    where
      change_MoveDone :
          (room : Room) (r : Round) (snapshot : String)
          → IsRead db room r
          → ensure_action_idempotency u.store (move_log r.session) db ≡ ok (snapshot, false)
          → (after : Round) (shown : Room) → player_move u.evaluator u.engine hit m.now r ≡ ok after
          → playing_room u m after.session room ≡ ok shown
          → (turn_commit u
              (record { room = shown; round = after; expected = version; log = move_log r.session })
              begun).0
            ≡ ok answer
          → MoveDone db begun
              (turn_commit u
                (record {
                  room = shown;
                  round = after;
                  expected = version;
                  log = move_log r.session;
                })
                begun).1
              answer
      change_MoveDone room r snapshot read asked after shown e e2 answered =
          let (swapped, ran, same) =
            turn_commit-writes u laws
              (record { room = shown; round = after; expected = version; log = move_log r.session })
              begun answer answered in
          subst
            (MoveDone db begun
              (turn_commit u
                (record {
                  room = shown;
                  round = after;
                  expected = version;
                  log = move_log r.session;
                })
                begun).1)
            same
            (moved room r after read (ensure-new u.store (move_log r.session) db snapshot asked) e
              e2 refl swapped ran)

  pub player_turn-swaps :
      (others : u.store.Db → u.store.Db) (db : u.store.Db) (answer : Room × GameSession)
      → (player_turn u others room_id user_id version action_id hit m db).0 ≡ ok answer
      → MoveDone db
          (others db)
          (player_turn u others room_id user_id version action_id hit m db).1
          answer
  unfolding player_turn finish
  player_turn-swaps others db answer h =
      finished (turn_prepare u room_id user_id version action_id hit m db) refl h
    where
      finished :
          (p : Result (Prepared Change (Room × GameSession)))
          → turn_prepare u room_id user_id version action_id hit m db ≡ p
          → (finish u.store others (turn_commit u) p db).0 ≡ ok answer
          → MoveDone db (others db) (finish u.store others (turn_commit u) p db).1 answer
      finished (err e) prepared h = cc
      finished (ok (done x)) prepared h =
          let d = turn_prepare-Decided db (done x) prepared in
          subst (MoveDone db (others db) (others db)) (ok_unique refl h) (
            decided_done db (others db) x d.room d.round d.snapshot d.replay d.read d.asked
              d.decision)
      finished (ok (todo c)) prepared h =
          let d = turn_prepare-Decided db (todo c) prepared in
          let done_as = laws.transaction_done (turn_commit u c) (others db) answer h in
          rw (done_as) (
            decided_todo db (others db) c answer d.room d.round d.snapshot d.replay d.read d.asked
              d.decision (cc (done_as, h)))
