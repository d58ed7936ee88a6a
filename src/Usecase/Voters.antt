-- ===== src/Usecase/Voters.antt =====
-- Whose votes `VoteRematch` of backend/usecase/game_usecase.go counts, and when.
use blackjack.Prelude.{String, ◌≡◌, true, In, ◌⊎◌, List}
use blackjack.Prelude.Result.{Result, ok, err, not_found}
use blackjack.Model.Status.{is_resetting, is_seated}
use blackjack.Model.Room.{Room, RoomPlayer}
use blackjack.Model.Session.{GameSession, check_version}
use blackjack.Store.{IsStore}
use blackjack.Usecase.Service.{Service, Moment}
use blackjack.Usecase.Replays.{IsLoggedAction}
use blackjack.Usecase.Vote.{VoteRequest, request_log}

-- A player with the id sits at the table.
abbrev pub SitsIn : String → List RoomPlayer → Type 0
SitsIn id players = (p : RoomPlayer) × In p players × (p.user_id ≡ id) × (is_seated p.status ≡ true)

module _ (u : Service) (laws : IsStore u.store) (m : Moment) (q : VoteRequest) where
  -- A new action whose player sits at the table and whose vote was stored.
  pub record IsCast (locked : GameSession) (begun : u.store.Db) : Type 0 where
    pub unlogged :
        u.store.get_action_log_by_action_id locked.id q.user_id q.action_id begun ≡ err not_found
    pub players : List RoomPlayer
    pub found : u.store.list_room_players_by_room_id q.room_id begun ≡ ok players
    pub sits : SitsIn q.user_id players
    pub stored :
        (u.store.upsert_rematch_vote
          (record { session_id = locked.id; user_id = q.user_id; agree = q.agree })
          begun).0
        ≡ ok tt

  -- The vote is on the session that was the room's latest one: its round is over and it has the expected
  -- version. It is a replay that wrote nothing, or a vote that was cast.
  pub record IsCounted (db begun ended : u.store.Db) : Type 0 where
    pub latest : GameSession
    pub of_room : u.store.get_latest_session_by_room_id q.room_id db ≡ ok latest
    pub locked : GameSession
    pub read : u.store.get_session_for_update latest.id begun ≡ ok locked
    pub over : is_resetting locked.status ≡ true
    pub version : check_version locked q.expected_version ≡ ok tt
    pub voter :
        (IsLoggedAction u.store (request_log u m q locked.id) begun × (ended ≡ begun))
        ⊎ IsCast locked begun
