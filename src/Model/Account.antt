-- ===== src/Model/Account.antt =====
-- backend/model/auth.go: the account of a user and a stored login.
use blackjack.Prelude.{String}
use blackjack.Model.Room.{Time}

pub record User : Type 0 where
  pub id : String
  pub username : String
  pub password_hash : String
  pub created_at : Time
  pub updated_at : Time

pub record Session : Type 0 where
  pub id : String
  pub user_id : String
  pub expires_at : Time
  pub created_at : Time
