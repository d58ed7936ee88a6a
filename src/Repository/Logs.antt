-- ===== src/Repository/Logs.antt =====
-- backend/repository/game_repository.go: the operations of pgStore on action logs, votes and round logs.
use blackjack.Prelude.{String, str_eq, ◌&&◌, List, map, some}
use blackjack.Prelude.Int.{ℤ, pos, eqb_ℤ}
use blackjack.Prelude.Result.{ok, ◌>>=◌}
use blackjack.Model.Room.{Time}
use blackjack.Model.Log.{ActionLog, RematchVote, RoundLog}
use blackjack.Store.{Read, Write}
use blackjack.Repository.Convert.{
  action_log_record_from_domain, action_log_record_to_domain, rematch_vote_record_from_domain,
  rematch_vote_record_to_domain, round_log_record_from_domain, round_log_record_to_domain,
}
use blackjack.Repository.Gorm.{
  Database, unordered, descending, unmapped, mapped, written, write_row,
}

module _ (g : Database) where
  unfoldable pub create_action_log : ActionLog → Write g.Db (Unit {0})
  create_action_log a db = written (g.action_logs.create (action_log_record_from_domain a) db)

  unfoldable pub get_action_log_by_action_id : String → String → String → Read g.Db ActionLog
  get_action_log_by_action_id session_id actor_user_id action_id db =
      mapped (
        g.action_logs.first
          (λ rec.
            str_eq rec.session_id session_id
            && str_eq rec.actor_user_id actor_user_id
            && str_eq rec.action_id action_id)
          unordered db)
      >>= action_log_record_to_domain

  -- `now` is the time that is written when the voter's row is there already, and over the new row too.
  unfoldable pub upsert_rematch_vote : Time → RematchVote → Write g.Db (Unit {0})
  upsert_rematch_vote now vote db =
      let row = rematch_vote_record_from_domain vote in
      written (
        g.rematch_votes.first_or_create
          (λ rec. str_eq rec.session_id row.session_id && str_eq rec.user_id row.user_id)
          (λ rec. record rec { agree = row.agree; updated_at = now }) row db)

  unfoldable pub list_rematch_votes : String → Read g.Db (List RematchVote)
  list_rematch_votes session_id db =
      unmapped (g.rematch_votes.find (λ rec. str_eq rec.session_id session_id) unordered db)
      >>= λ rows. ok (map rematch_vote_record_to_domain rows)

  unfoldable pub create_round_log : RoundLog → Write g.Db (Unit {0})
  create_round_log log db = write_row (round_log_record_from_domain log) g.round_logs.create db

  unfoldable pub get_round_log : String → ℤ → Read g.Db RoundLog
  get_round_log session_id round_no db =
      mapped (
        g.round_logs.first (λ rec. str_eq rec.session_id session_id && eqb_ℤ rec.round_no round_no)
          unordered db)
      >>= λ rec. ok (round_log_record_to_domain rec)

  unfoldable pub list_round_logs_by_room_id : String → Read g.Db (List RoundLog)
  list_round_logs_by_room_id room_id db =
      mapped (
        g.find_round_logs
          (λ log session. str_eq session.id log.session_id && str_eq session.room_id room_id)
          (descending (λ log. some (pos log.created_at))) db)
      >>= λ rows. ok (map round_log_record_to_domain rows)
