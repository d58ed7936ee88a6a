-- ===== src/Usecase/Vote.antt =====
-- VoteRematch of backend/usecase/game_usecase.go: a vote is cast and counted in one transaction, on the
-- room that was read before it.
use blackjack.Prelude.{String, str_eq, Bool, true, false, not, ◌||◌, List, [], ◌∷◌}
use blackjack.Prelude.Int.{ℤ, pos, leb_ℤ}
use blackjack.Prelude.Result.{
  ok, unauthorized_user, invalid_input, invalid_game_state, forbidden_action, fail_if, ◌>>=◌, ◌>>◌,
}
use blackjack.Model.Status.{is_resetting}
use blackjack.Model.Room.{Room}
use blackjack.Model.Session.{GameSession, Votes, check_version}
use blackjack.Model.Log.{ActionLog}
use blackjack.Store.{Read, Write}
use blackjack.Usecase.Service.{
  Service, Moment, Prepared, todo, finish, ◌>>>=◌, ◌>>>◌, lift, or_forbidden, or_else,
}
use blackjack.Usecase.Idempotency.{ensure_action_idempotency}
use blackjack.Usecase.Rematch.{
  rematch_eligible_user_ids, votes_by_user, mem_id, ballot_of, with_deadline, settle_ballot,
  vote_action_log,
}
use blackjack.Usecase.Turn.{save_snapshot}

-- The arguments of a request.
pub record VoteRequest : Type 0 where
  pub room_id : String
  pub user_id : String
  pub agree : Bool
  pub expected_version : ℤ
  pub action_id : String

-- What the transaction has read: the session and whether the request is a replay; then the voters.
module _ (u : Service) (m : Moment) (q : VoteRequest) where
  unfoldable pub request_log : String → ActionLog
  unfolding vote_action_log
  request_log session_id =
      vote_action_log u session_id q.user_id q.agree q.expected_version q.action_id

  -- Reads the session with its lock, and finds out whether the request is a replay.
  unfoldable pub locked_session : String → Read u.store.Db (GameSession × Bool)
  unfolding request_log
  locked_session session_id db = do
    locked ← u.store.get_session_for_update session_id db
    fail_if (not (is_resetting locked.status)) invalid_game_state
    check_version locked q.expected_version
    (snapshot, replay) ← ensure_action_idempotency u.store (request_log locked.id) db
    ok (locked, replay)

  -- The users who may vote, and all votes with this one.
  unfoldable pub electorate : GameSession → Read u.store.Db (List String × Votes)
  unfolding votes_by_user rematch_eligible_user_ids mem_id
  electorate sess db = do
    players ← u.store.list_room_players_by_room_id q.room_id db
    let eligible = rematch_eligible_user_ids players
    fail_if (not (mem_id q.user_id eligible)) forbidden_action
    votes ← or_else [] (u.store.list_rematch_votes sess.id db)
    ok (eligible, (q.user_id, q.agree) ∷ votes_by_user votes [])

  unfoldable pub cast_vote :
      Room → GameSession → List String × Votes → Write u.store.Db (Room × GameSession)
  unfolding with_deadline settle_ballot ballot_of request_log
  cast_vote room locked (eligible, agree_map) =
      let sess = with_deadline locked.rematch_deadline_at m.now locked in
      u.store.upsert_rematch_vote
        (record { session_id = sess.id; user_id = q.user_id; agree = q.agree })
      >>> (settle_ballot u m room sess eligible q.expected_version (ballot_of eligible agree_map)
          >>>= λ (shown, after).
              save_snapshot u (request_log sess.id) shown.id after >>> lift (ok (shown, after)))

  unfoldable pub vote_after_lock : Room → GameSession × Bool → Write u.store.Db (Room × GameSession)
  unfolding electorate cast_vote
  vote_after_lock room (locked, true) db = (ok (room, locked), db)
  vote_after_lock room (locked, false) db =
      (lift (electorate locked db) >>>= cast_vote room locked) db

  unfoldable pub vote_commit : Room × String → Write u.store.Db (Room × GameSession)
  unfolding locked_session vote_after_lock
  vote_commit (room, session_id) db =
      (lift (locked_session session_id db) >>>= vote_after_lock room) db

  unfoldable pub vote_prepare : Read u.store.Db (Prepared (Room × String) (Room × GameSession))
  vote_prepare db = do
    fail_if (str_eq q.user_id "") unauthorized_user
    fail_if (str_eq q.room_id "" || leb_ℤ q.expected_version (pos 0) || str_eq q.action_id "")
        invalid_input
    room ← u.store.get_room q.room_id db
    member ← or_forbidden (u.store.get_room_player q.room_id q.user_id db)
    sess ← u.store.get_latest_session_by_room_id q.room_id db
    ok (todo (room, sess.id))

  unfoldable pub vote_rematch : (u.store.Db → u.store.Db) → Write u.store.Db (Room × GameSession)
  unfolding vote_prepare vote_commit
  vote_rematch others db = finish u.store others vote_commit (vote_prepare db) db
