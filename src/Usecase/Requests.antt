-- ===== src/Usecase/Requests.antt =====
-- The interface RoomUsecase of backend/usecase/game_usecase.go: the requests that change the store, as
-- data, and what serves them.
use blackjack.Prelude.{
  String, ◌≡◌, refl, ap, Bool, true, false, ◌||◌, str_eq, if◌then◌else◌, Option, none, some,
}
use blackjack.Prelude.Int.{ℤ}
use blackjack.Prelude.Result.{Error, Result, ok, err}
use blackjack.Model.Room.{RoomPlayer}
use blackjack.Store.{Write, IsStore}
use blackjack.Usecase.Service.{Service, Moment, Prepared, finish_failed, finish}
use blackjack.Usecase.Seats as Seats
use blackjack.Usecase.Connections as Connections
use blackjack.Usecase.Start as Start
use blackjack.Usecase.Turn as Turn
use blackjack.Usecase.Vote as Vote

pub data Request : Type 0 where
  create_room : String → Request
  join_room : String → String → Request
  leave_room : String → String → Request
  reset_room_for_debug : String → String → Request
  start_room : String → String → Request
  hit : String → String → ℤ → String → Request
  stand : String → String → ℤ → String → Request
  vote_rematch : Vote.VoteRequest → Request
  mark_connected : String → String → Request
  mark_disconnected : String → String → Request

-- The answer without its value.
unfoldable pub unit_of : {A : Type 0} → Result A → Result (Unit {0})
unit_of (ok a) = ok tt
unit_of (err e) = err e

unfoldable pub forget : {Db A : Type 0} → Write Db A → Write Db (Unit {0})
unfolding unit_of
forget m db = let (r, db') = m db in (unit_of r, db')

module _ (u : Service) (others : u.store.Db → u.store.Db) (m : Moment) where
  unfoldable pub serve : Request → Write u.store.Db (Unit {0})
  unfolding forget
  serve (create_room user_id) = forget (Seats.create_room u others user_id m)
  serve (join_room room_id user_id) = forget (Seats.join_room u others room_id user_id m)
  serve (leave_room room_id user_id) = forget (Seats.leave_room u others room_id user_id m)
  serve (reset_room_for_debug room_id user_id) =
      forget (Seats.reset_room_for_debug u others room_id user_id m)
  serve (start_room room_id user_id) = forget (Start.start_room u others room_id user_id m)
  serve (hit room_id user_id version action_id) =
      forget (Turn.hit u others room_id user_id version action_id m)
  serve (stand room_id user_id version action_id) =
      forget (Turn.stand u others room_id user_id version action_id m)
  serve (vote_rematch q) = forget (Vote.vote_rematch u m q others)
  serve (mark_connected room_id user_id) = Connections.mark_connected u others room_id user_id
  serve (mark_disconnected room_id user_id) = Connections.mark_disconnected u others room_id user_id

err_inj : {x e : Error} → ◌≡◌ {A = Result (Unit {0})} (err x) (err e) → x ≡ e
err_inj h = cc

unit_of-err : {A : Type 0} (r : Result A) (e : Error) → unit_of r ≡ err e → r ≡ err e
unfolding unit_of
unit_of-err (ok a) e h = cc
unit_of-err (err x) e h = ap err (err_inj h)

-- Forgetting the value keeps errors and the database.
forget_failed :
    {Db A : Type 0} (w : Write Db A) (db : Db) (e : Error)
    → (forget w db).0 ≡ err e
    → (w db).0 ≡ err e
unfolding forget
forget_failed w db e failed = unit_of-err (w db).0 e failed

forget-db : {Db A : Type 0} (w : Write Db A) (db : Db) → (forget w db).1 ≡ (w db).1
unfolding forget
forget-db w db = refl

module _ (u : Service) (laws : IsStore u.store) (others : u.store.Db → u.store.Db) where
  forgotten :
      {P A : Type 0} (commit : P → Write u.store.Db A)
      (prepare : u.store.Db → Result (Prepared P A)) (db : u.store.Db) (e : Error)
      → (forget (λ d. finish u.store others commit (prepare d) d) db).0 ≡ err e
      → (forget (λ d. finish u.store others commit (prepare d) d) db).1 ≡ others db
  unfolding forget
  forgotten commit prepare db e failed =
      finish_failed u.store laws others commit (prepare db) db e
        (forget_failed (λ d. finish u.store others commit (prepare d) d) db e failed)

  if_failed :
      {A : Type 0} {db : u.store.Db} (x : Error) {e : Error} {otherwise : Result A × u.store.Db}
      (b : Bool)
      → (if b then (err x, db) else otherwise).0 ≡ err e
      → (otherwise.0 ≡ err e → otherwise.1 ≡ db)
      → (if b then (err x, db) else otherwise).1 ≡ db
  if_failed x true h k = refl
  if_failed x false h k = k h

  change_failed :
      (r : Result (Option RoomPlayer)) (db : u.store.Db) (e : Error)
      → (Connections.store_change u r db).0 ≡ err e
      → (Connections.store_change u r db).1 ≡ db
  unfolding Connections.store_change
  change_failed (err x) db e h = refl
  change_failed (ok none) db e h = cc
  change_failed (ok (some p)) db e h = laws.update_room_player_failed p db e h

  reset_failed :
      (m : Moment) (room_id user_id : String) (db : u.store.Db) (e : Error)
      → (Seats.reset_room_for_debug u others room_id user_id m db).0 ≡ err e
      → (Seats.reset_room_for_debug u others room_id user_id m db).1 ≡ others db
  unfolding Seats.reset_room_for_debug
  reset_failed m room_id user_id db e h =
      if_failed _ (str_eq user_id "") h
        λ h. if_failed _ (str_eq room_id "") h λ h. laws.transaction_failed _ (others db) e h

  connected_failed :
      (room_id user_id : String) (db : u.store.Db) (e : Error)
      → (Connections.mark_connected u others room_id user_id db).0 ≡ err e
      → (Connections.mark_connected u others room_id user_id db).1 ≡ others db
  unfolding Connections.mark_connected
  connected_failed room_id user_id db e h =
      if_failed _ (str_eq room_id "" || str_eq user_id "") h λ h. change_failed _ (others db) e h

  disconnected_failed :
      (room_id user_id : String) (db : u.store.Db) (e : Error)
      → (Connections.mark_disconnected u others room_id user_id db).0 ≡ err e
      → (Connections.mark_disconnected u others room_id user_id db).1 ≡ others db
  unfolding Connections.mark_disconnected
  disconnected_failed room_id user_id db e h =
      if_failed _ (str_eq room_id "" || str_eq user_id "") h λ h. change_failed _ (others db) e h

  -- A request that is answered with an error has changed nothing: the database is as the other requests
  -- left it, if the store keeps the laws of `IsStore`, which `pgStore` does.
  pub serve_failed :
      (m : Moment) (q : Request) (db : u.store.Db) (e : Error)
      → (serve u others m q db).0 ≡ err e
      → (serve u others m q db).1 ≡ others db
  unfolding serve Seats.create_room Seats.join_room Seats.leave_room Seats.reset_room_for_debug
      Start.start_room Turn.hit Turn.stand Turn.player_turn Vote.vote_rematch
      Connections.mark_connected Connections.mark_disconnected
  serve_failed m (create_room user_id) db e h =
      forgotten (Seats.create_commit u) (λ _. Seats.create_prepare u user_id m) db e h
  serve_failed m (join_room room_id user_id) db e h =
      forgotten (Seats.join_commit u room_id user_id m) (Seats.join_prepare u room_id user_id m) db
        e h
  serve_failed m (leave_room room_id user_id) db e h =
      forgotten (Seats.leave_commit u) (Seats.leave_prepare u room_id user_id m) db e h
  serve_failed m (reset_room_for_debug room_id user_id) db e h =
      reset_failed m room_id user_id db e
        (forget_failed (Seats.reset_room_for_debug u others room_id user_id m) db e h)
  serve_failed m (start_room room_id user_id) db e h =
      forgotten (Start.start_commit u) (Start.start_prepare u room_id user_id m) db e h
  serve_failed m (hit room_id user_id version action_id) db e h =
      forgotten (Turn.turn_commit u) (Turn.turn_prepare u room_id user_id version action_id true m)
        db e h
  serve_failed m (stand room_id user_id version action_id) db e h =
      forgotten (Turn.turn_commit u) (Turn.turn_prepare u room_id user_id version action_id false m)
        db e h
  serve_failed m (vote_rematch q) db e h =
      forgotten (Vote.vote_commit u m q) (Vote.vote_prepare u m q) db e h
  serve_failed m (mark_connected room_id user_id) db e h = connected_failed room_id user_id db e h
  serve_failed m (mark_disconnected room_id user_id) db e h =
      disconnected_failed room_id user_id db e h
