-- ===== src/Repository/Laws.antt =====
-- `pgStore` of backend/repository/game_repository.go keeps the laws that the use cases rely on.
use blackjack.Prelude.{◌≡◌}
use blackjack.Prelude.Result.{Error, Result, ok, err}
use blackjack.Store.{Write}
use blackjack.Repository.Rows.{
  RoomRecord, RoomPlayerRecord, PlayerStateRecord, DealerStateRecord, ActionLogRecord,
  RoundLogRecord,
}
use blackjack.Repository.Gorm.{Database, DbError, failed}
use blackjack.Repository.Table.{IsTable}
use blackjack.Repository.Rooms
use blackjack.Repository.Hands
use blackjack.Repository.Logs

-- What GORM over PostgreSQL documents of the database: a transaction whose body returns an error is rolled
-- back, one that is committed did what its body did, a statement that fails changes nothing, and a
-- statement on one table leaves the rows of another one.
pub record IsDatabase (g : Database) : Type 1 where
  pub game_sessions : IsTable g.game_sessions
  pub rolled_back :
      {A : Type 0} (body : Write g.Db A) (db : g.Db) (e : Error)
      → (g.transaction body db).0 ≡ err e
      → (g.transaction body db).1 ≡ db
  pub committed :
      {A : Type 0} (body : Write g.Db A) (db : g.Db) (a : A)
      → (g.transaction body db).0 ≡ ok a
      → g.transaction body db ≡ body db
  pub room_player_failed :
      (row : RoomPlayerRecord) (db : g.Db) (e : DbError)
      → (g.room_players.save row db).0 ≡ failed e
      → (g.room_players.save row db).1 ≡ db
  pub room_apart :
      (row : RoomRecord) (db : g.Db)
      → game_sessions.rows (g.rooms.save row db).1 ≡ game_sessions.rows db
  pub player_state_apart :
      (row : PlayerStateRecord) (db : g.Db)
      → game_sessions.rows (g.player_states.save row db).1 ≡ game_sessions.rows db
  pub dealer_state_apart :
      (row : DealerStateRecord) (db : g.Db)
      → game_sessions.rows (g.dealer_states.save row db).1 ≡ game_sessions.rows db
  pub action_log_apart :
      (row : ActionLogRecord) (db : g.Db)
      → game_sessions.rows (g.action_logs.create row db).1 ≡ game_sessions.rows db
  pub round_log_apart :
      (row : RoundLogRecord) (db : g.Db)
      → game_sessions.rows (g.round_logs.create row db).1 ≡ game_sessions.rows db
