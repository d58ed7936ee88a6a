-- ===== src/Usecase/Ticks.antt =====
-- AutoStandDueSessions and `processRematchDeadline` of backend/usecase/game_usecase.go: the work of the
-- scheduler. Each session that is visited has a moment of its own.
use blackjack.Prelude.{
  String, Bool, false, not, ◌||◌, List, [], ◌∷◌, ◌++◌, Option, none, some, if◌then◌else◌, str_eq,
}
use blackjack.Prelude.Result.{Result, ok, err, is_not_found, is_version_conflict, ◌>>=◌}
use blackjack.Model.Status.{player_turn, dealer_turn, is_resetting}
use blackjack.Model.Room.{Time, Room}
use blackjack.Model.Session.{GameSession, rematch_unanimous, Votes}
use blackjack.Store.{Read, Write}
use blackjack.Usecase.Service.{Service, Moment, ◌>>>=◌, ◌>>>◌, lift, or_else}
use blackjack.Usecase.Rematch.{
  rematch_eligible_user_ids, rematch_agree_map_at_deadline, finalize_rematch_failure_tx,
  rematch_unanimous_success_tx, mem_id,
}
use blackjack.Usecase.Forfeit.{is_due, player_stand}
use blackjack.Usecase.DealerTurn as Dealer

-- The session that a room plays.
shows : Option String → String → Bool
shows none id = false
shows (some current) id = str_eq current id

-- What the deadline finds: nothing to do, or a room with its voters and their votes.
pub data Due : Type 0 where
  nothing_due : Due
  vote_closes : Room → List String → Votes → Due

module _ (u : Service) where
  unfoldable pub decide_deadline : Moment → GameSession → Read u.store.Db Due
  unfolding shows
  decide_deadline m sess db =
      if not (is_resetting sess.status) || not (is_due sess.rematch_deadline_at m.now)
      then ok nothing_due
      else (do
        room ← u.store.get_room sess.room_id db
        if not (shows room.current_session_id sess.id) then ok nothing_due else (do
          players ← u.store.list_room_players_by_room_id room.id db
          votes ← or_else [] (u.store.list_rematch_votes sess.id db)
          let eligible = rematch_eligible_user_ids players
          ok (vote_closes room eligible (rematch_agree_map_at_deadline eligible votes))))

  unfoldable pub close_vote : Moment → GameSession → Due → Write u.store.Db (Unit {0})
  close_vote m sess nothing_due = lift (ok tt)
  close_vote m sess (vote_closes room [] agree_map) =
      finalize_rematch_failure_tx u m room >>> lift (ok tt)
  close_vote m sess (vote_closes room (uid ∷ uids) agree_map) =
      if rematch_unanimous (uid ∷ uids) agree_map
      then rematch_unanimous_success_tx u m room sess uid sess.version >>> lift (ok tt)
      else finalize_rematch_failure_tx u m room >>> lift (ok tt)

  deadline_body : Moment → String → Write u.store.Db (Unit {0})
  unfolding decide_deadline close_vote
  deadline_body m session_id tx =
      (lift (u.store.get_session_for_update session_id tx) >>>= λ sess.
      lift (decide_deadline m sess tx) >>>= close_vote m sess)
        tx

  -- All of it is one transaction.
  unfoldable pub process_rematch_deadline :
      (u.store.Db → u.store.Db) → Moment → String → Write u.store.Db (Unit {0})
  unfolding deadline_body
  process_rematch_deadline others m session_id db =
      u.store.transaction (deadline_body m session_id) (others db)

  -- A session that is gone or was changed meanwhile does not stop the scheduler.
  forgiven : Result (Unit {0}) → Result (Unit {0})
  forgiven (ok a) = ok tt
  forgiven (err e) = if is_not_found e || is_version_conflict e then ok tt else err e

  add_room : String → List String → List String
  add_room id rooms = if mem_id id rooms then rooms else rooms ++ id ∷ []

  -- One of the three loops: each session in turn, and the rooms that were visited, each once.
  unfoldable pub visit :
      (GameSession → Write u.store.Db (Unit {0}))
      → List GameSession
      → List String
      → Write u.store.Db (List String)
  unfolding forgiven add_room
  visit f [] rooms db = (ok rooms, db)
  visit f (s ∷ sessions) rooms db =
      let (r, db') = f s db in
      (lift (forgiven r) >>> visit f sessions (add_room s.room_id rooms)) db'

  unfoldable pub auto_stand_due_sessions :
      (u.store.Db → u.store.Db) → Bool → Time → (String → Moment) → Write u.store.Db (List String)
  unfolding visit
  auto_stand_due_sessions others heuristic now moment_of =
      (λ db.
        (lift (u.store.list_sessions_by_status_and_deadline_before player_turn now db) >>>= λ due.
        visit (λ s. player_stand u others heuristic (moment_of s.id) s.id) due [])
          db)
      >>>= λ rooms.
          (λ db.
            (lift (u.store.list_sessions_by_status dealer_turn db) >>>= λ due.
            visit (λ s. Dealer.dealer_turn u others (moment_of s.id) s.id) due rooms)
              db)
          >>>= λ rooms. (λ db.
            (lift (u.store.list_resetting_sessions_due_by now db) >>>= λ due.
            visit (λ s. process_rematch_deadline others (moment_of s.id) s.id) due rooms)
              db)
