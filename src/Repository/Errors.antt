-- ===== src/Repository/Errors.antt =====
-- What becomes of the database's errors in backend/repository: a read and `CreateUser` go through
-- `mapErr`, the other writes do not.
use blackjack.Prelude.{String, str_eq, ◌≡◌, ◌≢◌, refl, false, Bool-cases, inl, inr}
use blackjack.Prelude.Result.{err, already_exists, not_found, room_full}
use blackjack.Prelude.Space.{trim_space}
use blackjack.Model.Status.{system}
use blackjack.Model.Room.{Time, RoomPlayer}
use blackjack.Model.Account.{User}
use blackjack.Model.Log.{ActionLog}
use blackjack.Repository.Convert.{
  stored_actor, room_player_record_from_domain, user_record_from_domain,
}
use blackjack.Repository.Gorm.{
  Database, Answer, done, failed, record_not_found, pg_error, failure, unmapped, map_err,
}
use blackjack.Repository.Rooms.{create_room_player}
use blackjack.Repository.Users.{create_user}
use blackjack.Usecase.Service.{Service}
use blackjack.Usecase.Seats.{seat, full_if_exists}
use blackjack.Repository.Pg.{pg_store}
use blackjack.Repository.Cards.{CardCodec}

-- The step of `JoinRoom` that takes a seat for somebody who has none, after the checks on the other players,
-- never answers over pgStore that the room is full, whatever the database answers to the insert, also a
-- unique violation.
pub first_visit-never_full :
    (u : Service) (g : Database) (json : CardCodec) (clock now : Time) (joiner : RoomPlayer)
    (db : g.Db)
    → (seat (record u { store = pg_store g json clock }) joiner now (err not_found) db).0
      ≢ err room_full
unfolding seat create_room_player full_if_exists
first_visit-never_full u g json clock now joiner db =
    by_answer (g.room_players.create (room_player_record_from_domain joiner) db).0
  where
    by_answer :
        (a : Answer (Unit {0}))
        → full_if_exists (record u { store = pg_store g json clock }) (unmapped a) ≢ err room_full
    by_answer (done a) h = cc
    by_answer (failed record_not_found) h = cc
    by_answer (failed (pg_error code text)) h = cc
    by_answer (failed (failure text)) h = cc

-- The stored entry of the system always names an actor.
pub stored_actor-not_empty :
    (a : ActionLog) → a.actor_type ≡ system → str_eq (stored_actor a) "" ≡ false
unfolding stored_actor
stored_actor-not_empty a h = elim (Bool-cases (str_eq (trim_space a.actor_user_id) "")) [
  | inr e ↦ rw (e) e
  | inl e ↦ elim (Bool-cases (str_eq (trim_space a.target_user_id) "")) [
    | inl f ↦ rw (e, h, f) refl
    | inr f ↦ rw (e, h, f) f
  ]
]

-- A username that the database refuses with a unique violation is answered as one that exists.
pub create_user-taken :
    (g : Database) (user : User) (db : g.Db) (text : String)
    → (g.users.create (user_record_from_domain user) db).0 ≡ failed (pg_error "23505" text)
    → (create_user g user db).0 ≡ err already_exists
unfolding create_user map_err
create_user-taken g user db text h = rw (h) refl
