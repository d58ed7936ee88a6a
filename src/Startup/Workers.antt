-- ===== src/Startup/Workers.antt =====
-- `runAutoStandWorker` and `runSnapshotMetricsWorker` of backend/main.go: one tick of each. What is logged is
-- left out; a tick that fails does nothing more.
use blackjack.Prelude.{ℕ, String, Bool, List, [], Option, none, some}
use blackjack.Prelude.Result.{Result, ok, err}
use blackjack.Model.Room.{Time}
use blackjack.Store.{Store}
use blackjack.Usecase.Service.{Moment}
use blackjack.Usecase.Ticks.{auto_stand_due_sessions}
use blackjack.Sockets.Site.{Site, World}
use blackjack.Sockets.Broadcast.{Sent}
use blackjack.Sockets.Sync.{SyncCodec, RoomSyncBroker}
use blackjack.Sockets.Announce.{sync_rooms}

abbrev pub rooms_of : Result (List String) → List String
rooms_of (err e) = []
rooms_of (ok rooms) = rooms

module _ (s : Site) (format : Time → String) (writes : ℕ → Bool) (codec : SyncCodec)
    (broker : RoomSyncBroker) where
  -- The due sessions are played on, and the rooms that were visited are sent again.
  unfoldable pub auto_stand_tick :
      (s.service.store.Db → s.service.store.Db)
      → Bool
      → Time
      → (String → Moment)
      → World s
      → Sent × List String × World s
  auto_stand_tick others heuristic now moment_of w =
      let (r, db) = auto_stand_due_sessions s.service others heuristic now moment_of w.db in
      sync_rooms s format writes codec broker (rooms_of r) (record w { db = db })

-- The values for the gauges of the rooms and of the sessions.
abbrev pub gauges : Result ℕ → Result ℕ → Option (ℕ × ℕ)
gauges (err e) sessions = none
gauges (ok rooms) (err e) = none
gauges (ok rooms) (ok sessions) = some (rooms, sessions)

unfoldable pub snapshot_metrics_tick : (store : Store) → store.Db → Option (ℕ × ℕ)
snapshot_metrics_tick store db = gauges (store.count_rooms db) (store.count_sessions db)
