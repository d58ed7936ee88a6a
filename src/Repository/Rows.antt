-- ===== src/Repository/Rows.antt =====
-- backend/repository/game_repository_schema.go: the rows of the tables. A `[]byte` column holds text, a
-- nullable column is an option; the surrogate keys that the database counts up (action_logs, rematch_votes)
-- are left out, since no code reads them.
use blackjack.Prelude.{ℕ, String, Bool, Option}
use blackjack.Prelude.Int.{ℤ}
use blackjack.Model.Room.{Time}

pub record RoomRecord : Type 0 where
  pub id : String
  pub host_user_id : String
  pub status : String
  pub current_session_id : Option String
  pub created_at : Time
  pub updated_at : Time

pub record RoomPlayerRecord : Type 0 where
  pub room_id : String
  pub user_id : String
  pub seat_no : ℤ
  pub status : String
  pub joined_at : Time
  pub left_at : Option Time

pub record GameSessionRecord : Type 0 where
  pub id : String
  pub room_id : String
  pub round_no : ℤ
  pub status : String
  pub version : ℤ
  pub deck : String
  pub draw_index : ℤ
  pub turn_seat : ℤ
  pub turn_deadline_at : Option Time
  pub result_snapshot : String
  pub rematch_deadline_at : Option Time
  pub created_at : Time
  pub updated_at : Time

pub record PlayerStateRecord : Type 0 where
  pub session_id : String
  pub user_id : String
  pub seat_no : ℤ
  pub hand : String
  pub status : String
  pub outcome : Option String
  pub final_score : Option ℕ

pub record DealerStateRecord : Type 0 where
  pub session_id : String
  pub hand : String
  pub hole_hidden : Bool
  pub final_score : Option ℕ

pub record ActionLogRecord : Type 0 where
  pub session_id : String
  pub actor_type : String
  pub actor_user_id : String
  pub target_user_id : String
  pub action_id : String
  pub request_type : String
  pub request_payload_hash : String
  pub response_snapshot : String

pub record RematchVoteRecord : Type 0 where
  pub session_id : String
  pub user_id : String
  pub agree : Bool
  pub created_at : Time
  pub updated_at : Time

pub record RoundLogRecord : Type 0 where
  pub id : ℕ
  pub session_id : String
  pub round_no : ℤ
  pub result_payload : String
  pub created_at : Time

pub record UserRecord : Type 0 where
  pub id : String
  pub username : String
  pub password_hash : String
  pub created_at : Time
  pub updated_at : Time

pub record SessionRecord : Type 0 where
  pub id : String
  pub user_id : String
  pub expires_at : Time
  pub created_at : Time
