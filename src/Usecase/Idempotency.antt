-- ===== src/Usecase/Idempotency.antt =====
-- backend/usecase/idempotency.go.
use blackjack.Prelude.{String, str_eq, Bool, true, false, if◌then◌else◌}
use blackjack.Prelude.Result.{Result, ok, err, not_found, duplicate_action, ◌>>◌}
use blackjack.Model.Log.{ActionLog, validate_action_log}
use blackjack.Store.{Store, Read, Write}

module _ (store : Store) where
  -- The row that was found decides: the same payload is a replay, another is refused.
  unfoldable pub replay_of : ActionLog → Result ActionLog → Result (String × Bool)
  replay_of action_log (ok prev) =
      if str_eq prev.request_payload_hash action_log.request_payload_hash
      then ok (prev.response_snapshot, true)
      else err duplicate_action
  replay_of action_log (err not_found) = ok ("", false)
  replay_of action_log (err e) = err e

  unfoldable pub ensure_action_idempotency : ActionLog → Read store.Db (String × Bool)
  unfolding replay_of
  ensure_action_idempotency a db =
      validate_action_log a
      >> replay_of a (store.get_action_log_by_action_id a.session_id a.actor_user_id a.action_id db)

  unfoldable pub save_action_success_snapshot : ActionLog → String → Write store.Db (Unit {0})
  save_action_success_snapshot a response_snapshot =
      store.create_action_log (record a { response_snapshot = response_snapshot })
