-- ===== src/Repository/Sessions.antt =====
-- backend/repository/game_repository.go: the operations of pgStore on the sessions.
use blackjack.Prelude.{ℕ, String, str_eq, Bool, false, ◌&&◌, List, Option, none, some, ◌==◌, leb}
use blackjack.Prelude.Int.{ℤ, pos, eqb_ℤ}
use blackjack.Prelude.Result.{Result, ok, err, ◌>>=◌}
use blackjack.Model.Status.{SessionStatus, resetting}
use blackjack.Model.Room.{Time}
use blackjack.Model.Session.{GameSession}
use blackjack.Store.{Read, Write}
use blackjack.Repository.Text.{session_status_text}
use blackjack.Repository.Rows.{GameSessionRecord}
use blackjack.Repository.Cards.{
  CardCodec, game_session_record_from_domain, game_session_record_to_domain,
}
use blackjack.Repository.Gorm.{
  Database, Answer, done, failed, Order, unordered, ascending, descending, raw, unmapped, mapped,
  written, write_row, all_to_domain,
}

-- The columns that the conditional update sets.
abbrev pub assign_columns : GameSessionRecord → GameSessionRecord → GameSessionRecord
assign_columns row rec = record rec {
  status = row.status;
  version = row.version;
  deck = row.deck;
  draw_index = row.draw_index;
  turn_seat = row.turn_seat;
  turn_deadline_at = row.turn_deadline_at;
  result_snapshot = row.result_snapshot;
  rematch_deadline_at = row.rematch_deadline_at;
  updated_at = row.updated_at;
}

abbrev pub at_version : String → ℤ → GameSessionRecord → Bool
at_version id version rec = str_eq rec.id id && eqb_ℤ rec.version version

-- `column IS NOT NULL AND column <= deadline`
abbrev pub is_due_by : Option Time → Time → Bool
is_due_by none deadline = false
is_due_by (some t) deadline = leb t deadline

abbrev pub time_key : Option Time → Option ℤ
time_key none = none
time_key (some t) = some (pos t)

-- `RowsAffected == 1`
abbrev pub one_row : {Db : Type 0} → Answer ℕ × Db → Result Bool × Db
one_row (done n, db) = (ok (n == 1), db)
one_row (failed e, db) = (err (raw e), db)

module _ (g : Database) (json : CardCodec) where
  unfoldable pub swap_row : Result GameSessionRecord → ℤ → Write g.Db Bool
  swap_row (err e) expected_version db = (err e, db)
  swap_row (ok row) expected_version db =
      one_row (g.game_sessions.updates (at_version row.id expected_version) (assign_columns row) db)

  unfoldable pub update_session_if_version : GameSession → ℤ → Write g.Db Bool
  unfolding swap_row
  update_session_if_version session expected_version db =
      swap_row (game_session_record_from_domain json session) expected_version db

  unfoldable pub create_session : GameSession → Write g.Db (Unit {0})
  create_session session db =
      write_row (game_session_record_from_domain json session) g.game_sessions.create db

  unfoldable pub update_session : GameSession → Write g.Db (Unit {0})
  update_session session db =
      write_row (game_session_record_from_domain json session) g.game_sessions.save db

  unfoldable pub get_session : String → Read g.Db GameSession
  get_session id db =
      mapped (g.game_sessions.first (λ rec. str_eq rec.id id) unordered db)
      >>= game_session_record_to_domain json

  unfoldable pub get_session_for_update : String → Read g.Db GameSession
  get_session_for_update id db =
      mapped (g.game_sessions.first_locked (λ rec. str_eq rec.id id) unordered db)
      >>= game_session_record_to_domain json

  unfoldable pub get_latest_session_by_room_id : String → Read g.Db GameSession
  get_latest_session_by_room_id room_id db =
      mapped (
        g.game_sessions.first (λ rec. str_eq rec.room_id room_id)
          (descending (λ rec. some (pos rec.created_at))) db)
      >>= game_session_record_to_domain json

  -- The three lists of sessions differ in the condition and in the order.
  abbrev pub list_sessions :
      (GameSessionRecord → Bool) → Order GameSessionRecord → Read g.Db (List GameSession)
  list_sessions condition order db =
      mapped (g.game_sessions.find condition order db)
      >>= all_to_domain (game_session_record_to_domain json)

  unfoldable pub list_sessions_by_status_and_deadline_before :
      SessionStatus → Time → Read g.Db (List GameSession)
  list_sessions_by_status_and_deadline_before status deadline db =
      list_sessions
        (λ rec.
          str_eq rec.status (session_status_text status) && is_due_by rec.turn_deadline_at deadline)
        (ascending (λ rec. time_key rec.turn_deadline_at)) db

  unfoldable pub list_resetting_sessions_due_by : Time → Read g.Db (List GameSession)
  list_resetting_sessions_due_by deadline db =
      list_sessions
        (λ rec.
          str_eq rec.status (session_status_text resetting)
          && is_due_by rec.rematch_deadline_at deadline)
        (ascending (λ rec. time_key rec.rematch_deadline_at)) db

  unfoldable pub list_sessions_by_status : SessionStatus → Read g.Db (List GameSession)
  list_sessions_by_status status db =
      list_sessions (λ rec. str_eq rec.status (session_status_text status))
        (ascending (λ rec. some (pos rec.updated_at))) db

  unfoldable pub count_sessions : Read g.Db ℕ
  count_sessions db = unmapped (g.game_sessions.count db)

  unfoldable pub delete_game_sessions_by_room_id : String → Write g.Db (Unit {0})
  delete_game_sessions_by_room_id room_id db =
      written (g.game_sessions.delete (λ rec. str_eq rec.room_id room_id) db)
