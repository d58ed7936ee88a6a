-- ===== src/Usecase/Replays.antt =====
-- EnsureActionIdempotency of backend/usecase/idempotency.go: when a request is taken for a replay.
use blackjack.Prelude.{◌≡◌, refl, sym, true, false, Bool-cases, inl, inr, str_eq, eq_iff, String}
use blackjack.Prelude.Result.{Result, ok, err, not_found, >>=-eq-ok, ok≢err}
use blackjack.Model.Log.{ActionLog, validate_action_log}
use blackjack.Store.{Store}
use blackjack.Usecase.Idempotency.{replay_of, ensure_action_idempotency}

module _ (store : Store) (a : ActionLog) (db : store.Db) where
  -- The log has an entry of the same session, user and action with the same payload.
  pub record IsLoggedAction : Type 0 where
    pub entry : ActionLog
    pub found :
        store.get_action_log_by_action_id a.session_id a.actor_user_id a.action_id db ≡ ok entry
    pub same_payload : entry.request_payload_hash ≡ a.request_payload_hash

  replay_of-true :
      (r : Result ActionLog) (snapshot : String)
      → replay_of store a r ≡ ok (snapshot, true)
      → (entry : ActionLog) × (r ≡ ok entry) × (entry.request_payload_hash ≡ a.request_payload_hash)
  unfolding replay_of
  replay_of-true (ok prev) snapshot h =
      elim (Bool-cases (str_eq prev.request_payload_hash a.request_payload_hash)) [
        | inl same ↦ (prev, refl, (eq_iff prev.request_payload_hash a.request_payload_hash).0 same)
        | inr other ↦ absurd (ok≢err (sym (rw other at h)))
      ]
  replay_of-true (err not_found) snapshot h = cc
  replay_of-true (err e) snapshot h = cc

  replay_of-false :
      (r : Result ActionLog) (snapshot : String)
      → replay_of store a r ≡ ok (snapshot, false)
      → r ≡ err not_found
  unfolding replay_of
  replay_of-false (ok prev) snapshot h =
      elim (Bool-cases (str_eq prev.request_payload_hash a.request_payload_hash)) [
        | inl same ↦ cc (rw same at h)
        | inr other ↦ absurd (ok≢err (sym (rw other at h)))
      ]
  replay_of-false (err not_found) snapshot h = refl
  replay_of-false (err e) snapshot h = cc

  pub ensure-replay :
      (snapshot : String)
      → ensure_action_idempotency store a db ≡ ok (snapshot, true)
      → IsLoggedAction
  unfolding ensure_action_idempotency
  ensure-replay snapshot h =
      let (x, y, h) = >>=-eq-ok (validate_action_log a) _ _ h in
      let (entry, found, same) = replay_of-true _ snapshot h in
      record { entry = entry; found = found; same_payload = same }

  pub ensure-new :
      (snapshot : String)
      → ensure_action_idempotency store a db ≡ ok (snapshot, false)
      → store.get_action_log_by_action_id a.session_id a.actor_user_id a.action_id db
        ≡ err not_found
  unfolding ensure_action_idempotency
  ensure-new snapshot h =
      let (x, y, h) = >>=-eq-ok (validate_action_log a) _ _ h in replay_of-false _ snapshot h
