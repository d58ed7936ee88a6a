-- ===== src/Repository/Gorm.antt =====
-- The relational mapper (GORM over PostgreSQL) that backend/repository/game_repository.go calls, as a
-- parameter: a table for each kind of row, with the operations that the code uses. A `Where` clause is
-- a test on rows and an `Updates` map a function on rows.
use blackjack.Prelude.{ℕ, String, str_eq, Bool, List, [], ◌∷◌, Option, if◌then◌else◌}
use blackjack.Prelude.Int.{ℤ}
use blackjack.Prelude.Result.{Error, not_found, already_exists, Result, ok, err, ◌>>=◌}
use blackjack.Store.{Write}
use blackjack.Repository.Rows.{
  RoomRecord, RoomPlayerRecord, GameSessionRecord, PlayerStateRecord, DealerStateRecord,
  ActionLogRecord, RematchVoteRecord, RoundLogRecord, UserRecord, SessionRecord,
}

-- gorm.ErrRecordNotFound, a *pgconn.PgError with its code and text, and every other error by its text.
pub data DbError : Type 0 where
  record_not_found : DbError
  pg_error : String → String → DbError
  failure : String → DbError

pub data Answer (A : Type 0) : Type 0 where
  done : A → Answer A
  failed : DbError → Answer A

-- A key of `none` is a NULL column.
pub data Order (Row : Type 0) : Type 0 where
  unordered : Order Row
  ascending : (Row → Option ℤ) → Order Row
  descending : (Row → Option ℤ) → Order Row

pub record Table (Db Row : Type 0) : Type 0 where
  pub create : Row → Db → Answer (Unit {0}) × Db
  -- `Save`: insert, or overwrite the row with the same primary key
  pub save : Row → Db → Answer (Unit {0}) × Db
  -- `Model(..).Where(..).Updates(..)` with the number of rows it changed
  pub updates : (Row → Bool) → (Row → Row) → Db → Answer ℕ × Db
  pub delete : (Row → Bool) → Db → Answer (Unit {0}) × Db
  -- `Where(..).Assign(..).FirstOrCreate(..)`
  pub first_or_create : (Row → Bool) → (Row → Row) → Row → Db → Answer (Unit {0}) × Db
  pub first : (Row → Bool) → Order Row → Db → Answer Row
  -- `First` with `FOR UPDATE`
  pub first_locked : (Row → Bool) → Order Row → Db → Answer Row
  pub find : (Row → Bool) → Order Row → Db → Answer (List Row)
  pub count : Db → Answer ℕ

pub record Database : Type 1 where
  pub Db : Type 0
  pub rooms : Table Db RoomRecord
  pub room_players : Table Db RoomPlayerRecord
  pub game_sessions : Table Db GameSessionRecord
  pub player_states : Table Db PlayerStateRecord
  pub dealer_states : Table Db DealerStateRecord
  pub action_logs : Table Db ActionLogRecord
  pub rematch_votes : Table Db RematchVoteRecord
  pub round_logs : Table Db RoundLogRecord
  pub users : Table Db UserRecord
  pub sessions : Table Db SessionRecord
  -- the round logs joined with the sessions
  pub find_round_logs :
      (RoundLogRecord → GameSessionRecord → Bool)
      → Order RoundLogRecord
      → Db
      → Answer (List RoundLogRecord)
  pub transaction : {A : Type 0} → Write Db A → Write Db A

-- An error as it is when the code passes it on.
abbrev pub raw : DbError → Error
raw record_not_found = Error.other "record not found"
raw (pg_error code text) = Error.other text
raw (failure text) = Error.other text

unfoldable pub map_err : DbError → Error
map_err record_not_found = not_found
map_err (pg_error code text) = if str_eq code "23505" then already_exists else Error.other text
map_err (failure text) = Error.other text

abbrev pub unmapped : {A : Type 0} → Answer A → Result A
unmapped (done a) = ok a
unmapped (failed e) = err (raw e)

abbrev pub mapped : {A : Type 0} → Answer A → Result A
mapped (done a) = ok a
mapped (failed e) = err (map_err e)

abbrev pub written : {A Db : Type 0} → Answer A × Db → Result A × Db
written (a, db) = (unmapped a, db)

-- A row that is converted first and written if that succeeds.
abbrev pub write_row :
    {Row Db : Type 0} → Result Row → (Row → Db → Answer (Unit {0}) × Db) → Write Db (Unit {0})
write_row (ok row) write db = written (write row db)
write_row (err e) write db = (err e, db)

-- The rows converted one after the other; the first that cannot be stops.
unfoldable pub all_to_domain : {Row A : Type 0} → (Row → Result A) → List Row → Result (List A)
all_to_domain f [] = ok []
all_to_domain f (row ∷ rows) = f row >>= λ item. all_to_domain f rows >>= λ out. ok (item ∷ out)
