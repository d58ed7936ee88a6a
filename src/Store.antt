-- ===== src/Store.antt =====
-- backend/repository/repository_ports.go: the store that the use cases are written against, as an
-- interface with the laws that they rely on. A read sees the database and cannot change it; a write
-- returns the database that it leaves. `Transaction` hands its body a store over the same database.
use blackjack.Prelude.{ℕ, String, ◌≡◌, Bool, true, List, Option, some}
use blackjack.Prelude.Int.{ℤ}
use blackjack.Prelude.Result.{Error, Result, ok, err}
use blackjack.Model.Status.{SessionStatus}
use blackjack.Model.Room.{Time, Room, RoomPlayer}
use blackjack.Model.Session.{GameSession}
use blackjack.Model.Player.{PlayerState, DealerState}
use blackjack.Model.Account.{User, Session}
use blackjack.Model.Log.{ActionLog, RematchVote, RoundLog}

abbrev pub Read : Type 0 → Type 0 → Type 0
Read Db A = Db → Result A

abbrev pub Write : Type 0 → Type 0 → Type 0
Write Db A = Db → Result A × Db

pub record Store : Type 1 where
  pub Db : Type 0
  -- RoomRepository
  pub create_room : Room → Write Db (Unit {0})
  pub update_room : Room → Write Db (Unit {0})
  pub get_room : String → Read Db Room
  pub list_rooms_by_user_id : String → Read Db (List Room)
  pub delete_room_players_by_room_id : String → Write Db (Unit {0})
  pub count_rooms : Read Db ℕ
  -- GameSessionRepository
  pub create_session : GameSession → Write Db (Unit {0})
  pub update_session : GameSession → Write Db (Unit {0})
  pub update_session_if_version : GameSession → ℤ → Write Db Bool
  pub get_session : String → Read Db GameSession
  pub get_session_for_update : String → Read Db GameSession
  pub get_latest_session_by_room_id : String → Read Db GameSession
  pub list_sessions_by_status_and_deadline_before :
      SessionStatus → Time → Read Db (List GameSession)
  pub list_resetting_sessions_due_by : Time → Read Db (List GameSession)
  pub list_sessions_by_status : SessionStatus → Read Db (List GameSession)
  pub delete_game_sessions_by_room_id : String → Write Db (Unit {0})
  pub count_sessions : Read Db ℕ
  -- RoomPlayerRepository
  pub create_room_player : RoomPlayer → Write Db (Unit {0})
  pub update_room_player : RoomPlayer → Write Db (Unit {0})
  pub get_room_player : String → String → Read Db RoomPlayer
  pub list_room_players_by_room_id : String → Read Db (List RoomPlayer)
  -- PlayerStateRepository
  pub create_player_state : PlayerState → Write Db (Unit {0})
  pub update_player_state : PlayerState → Write Db (Unit {0})
  pub get_player_state : String → String → Read Db PlayerState
  pub list_player_states_by_session_id : String → Read Db (List PlayerState)
  -- DealerStateRepository
  pub create_dealer_state : DealerState → Write Db (Unit {0})
  pub update_dealer_state : DealerState → Write Db (Unit {0})
  pub get_dealer_state : String → Read Db DealerState
  -- AuthRepository
  pub create_user : User → Write Db (Unit {0})
  pub get_user_by_username : String → Read Db User
  pub get_user_by_id : String → Read Db User
  pub upsert_session : Session → Write Db (Unit {0})
  pub get_auth_session : String → Read Db Session
  pub delete_session : String → Write Db (Unit {0})
  pub delete_sessions_by_user_id : String → Write Db (Unit {0})
  pub delete_expired_sessions : Write Db (Unit {0})
  -- ActionLogRepository
  pub create_action_log : ActionLog → Write Db (Unit {0})
  pub get_action_log_by_action_id : String → String → String → Read Db ActionLog
  -- RematchVoteRepository
  pub upsert_rematch_vote : RematchVote → Write Db (Unit {0})
  pub list_rematch_votes : String → Read Db (List RematchVote)
  -- RoundLogRepository
  pub create_round_log : RoundLog → Write Db (Unit {0})
  pub get_round_log : String → ℤ → Read Db RoundLog
  pub list_round_logs_by_room_id : String → Read Db (List RoundLog)
  pub transaction : {A : Type 0} → Write Db A → Write Db A

-- What the use cases rely on: a transaction that fails changes nothing, one that succeeds did what
-- its body did, the conditional update is a compare-and-swap on the version column, and the writes to
-- the other tables leave that column alone. Nothing is said of the other columns: the database keeps
-- times to the microsecond and JSON in a normal form.
pub record IsStore (s : Store) : Type 1 where
  -- The version in the row of a session, if there is one.
  pub version_in : String → s.Db → Option ℤ
  pub transaction_failed :
      {A : Type 0} (body : Write s.Db A) (db : s.Db) (e : Error)
      → (s.transaction body db).0 ≡ err e
      → (s.transaction body db).1 ≡ db
  pub transaction_done :
      {A : Type 0} (body : Write s.Db A) (db : s.Db) (a : A)
      → (s.transaction body db).0 ≡ ok a
      → s.transaction body db ≡ body db
  pub swapped :
      (session : GameSession) (version : ℤ) (db : s.Db)
      → (s.update_session_if_version session version db).0 ≡ ok true
      → (version_in session.id db ≡ some version)
        × (version_in session.id (s.update_session_if_version session version db).1
            ≡ some session.version)
  -- A single statement that fails changes nothing.
  pub update_room_player_failed :
      (p : RoomPlayer) (db : s.Db) (e : Error)
      → (s.update_room_player p db).0 ≡ err e
      → (s.update_room_player p db).1 ≡ db
  pub update_room-keeps :
      (r : Room) (id : String) (db : s.Db) → version_in id (s.update_room r db).1 ≡ version_in id db
  pub update_player_state-keeps :
      (p : PlayerState) (id : String) (db : s.Db)
      → version_in id (s.update_player_state p db).1 ≡ version_in id db
  pub update_dealer_state-keeps :
      (d : DealerState) (id : String) (db : s.Db)
      → version_in id (s.update_dealer_state d db).1 ≡ version_in id db
  pub create_action_log-keeps :
      (a : ActionLog) (id : String) (db : s.Db)
      → version_in id (s.create_action_log a db).1 ≡ version_in id db
  pub create_round_log-keeps :
      (l : RoundLog) (id : String) (db : s.Db)
      → version_in id (s.create_round_log l db).1 ≡ version_in id db

-- A write leaves the versions of all sessions alone.
abbrev pub KeepsVersions : (s : Store) → IsStore s → {A : Type 0} → Write s.Db A → Type 0
KeepsVersions s laws write =
    (id : String) (db : s.Db) → laws.version_in id (write db).1 ≡ laws.version_in id db
