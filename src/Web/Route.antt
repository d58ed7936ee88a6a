-- ===== src/Web/Route.antt =====
-- The routes that change the store (`Register` of backend/controller/room_controller.go), and what a failure
-- answered by them means.
use blackjack.Prelude.{
  String, str_eq, ◌≡◌, refl, sym, ap, ◌∙◌, Bool, true, false, not, Option, none, some,
  if◌then◌else◌,
}
use blackjack.Prelude.Int.{pos, leb_ℤ}
use blackjack.Prelude.Result.{Error, Result, ok, err}
use blackjack.Model.Room.{Time}
use blackjack.Store.{Write, IsStore}
use blackjack.Usecase.Service.{Service, Moment}
use blackjack.Usecase.Requests
use blackjack.Usecase.Requests.{Request, serve, serve_failed, unit_of, forget}
use blackjack.Usecase.Seats as Seats
use blackjack.Usecase.Start as Start
use blackjack.Usecase.Turn as Turn
use blackjack.Web.Errors.{Failure}
use blackjack.Web.Http
use blackjack.Web.Http.{Reply, json, fail, respond, TurnActionRequest}

-- The path with its parameters and, for a turn, the body.
pub data Route : Type 0 where
  create : Route
  join leave start : String → Route
  reset : Bool → String → Route
  turn : Bool → Option TurnActionRequest → String → Route

abbrev pub failure_of : {A : Type 0} → Reply A → Option Failure
failure_of (json status a broadcast) = none
failure_of (fail f) = some f

abbrev pub outcome_of : {A Db : Type 0} → Reply A × Db → Option Failure × Db
outcome_of (reply, db) = (failure_of reply, db)

module _ (u : Service) (others : u.store.Db → u.store.Db) (m : Moment)
    (format : Time → String) where
  unfoldable pub handle : Route → String → u.store.Db → Option Failure × u.store.Db
  handle create user_id db = outcome_of (Http.create_room u others m format user_id db)
  handle (join room_id) user_id db =
      outcome_of (Http.join_room u others m format room_id user_id db)
  handle (leave room_id) user_id db =
      outcome_of (Http.leave_room u others m format room_id user_id db)
  handle (start room_id) user_id db =
      outcome_of (Http.start_room u others m format room_id user_id db)
  handle (reset enabled room_id) user_id db =
      outcome_of (Http.reset_room_debug u others m format enabled room_id user_id db)
  handle (turn hit req room_id) user_id db =
      outcome_of (Http.turn_action u others m format hit req room_id user_id db)

  abbrev IsQuiet : u.store.Db → Option Failure × u.store.Db → Type 0
  IsQuiet db answer = (f : Failure) → answer.0 ≡ some f → answer.1 ≡ others db

  if-IsQuiet :
      {A : Type 0} (db : u.store.Db) (b : Bool) (x y : Reply A × u.store.Db)
      → IsQuiet db (outcome_of x)
      → IsQuiet db (outcome_of y)
      → IsQuiet db (outcome_of (if b then x else y))
  if-IsQuiet db true x y hx hy = hx
  if-IsQuiet db false x y hx hy = hy

  respond-IsQuiet :
      {A B : Type 0} (db : u.store.Db) (table : Error → Failure) (show : A → B)
      (changed : A → Option String) (r : Result A × u.store.Db)
      → ((e : Error) → r.0 ≡ err e → r.1 ≡ others db)
      → IsQuiet db (outcome_of (respond table show changed r))
  respond-IsQuiet db table show changed (ok a, db') h f k = cc
  respond-IsQuiet db table show changed (err e, db') h f k = h e refl

  module _ (laws : IsStore u.store) where
    quiet_request :
        {A : Type 0} (q : Request) (w : Write u.store.Db A) (db : u.store.Db)
        → serve u others m q db ≡ forget w db
        → (e : Error) → (w db).0 ≡ err e
        → (w db).1 ≡ others db
    unfolding forget
    quiet_request q w db p e h =
        ap (λ (x : Result (Unit {0}) × u.store.Db). x.1) (sym p)
        ∙ serve_failed u laws others m q db e
            (ap (λ (x : Result (Unit {0}) × u.store.Db). x.0) p ∙ ap unit_of h)

    turn_action-IsQuiet :
        (hit : Bool) (req : Option TurnActionRequest) (room_id user_id : String) (db : u.store.Db)
        → IsQuiet db (outcome_of (Http.turn_action u others m format hit req room_id user_id db))
    unfolding Http.turn_action serve
    turn_action-IsQuiet hit none room_id user_id db = λ f h. refl
    turn_action-IsQuiet true (some req) room_id user_id db =
        if-IsQuiet db (leb_ℤ req.expected_version (pos 0)) _ _ (λ f h. refl)
          (if-IsQuiet db (str_eq req.action_id "") _ _ (λ f h. refl)
            (respond-IsQuiet db _ _ _ _ (
              quiet_request (Requests.hit room_id user_id req.expected_version req.action_id)
                (Turn.hit u others room_id user_id req.expected_version req.action_id m) db refl)))
    turn_action-IsQuiet false (some req) room_id user_id db =
        if-IsQuiet db (leb_ℤ req.expected_version (pos 0)) _ _ (λ f h. refl)
          (if-IsQuiet db (str_eq req.action_id "") _ _ (λ f h. refl)
            (respond-IsQuiet db _ _ _ _ (
              quiet_request (Requests.stand room_id user_id req.expected_version req.action_id)
                (Turn.stand u others room_id user_id req.expected_version req.action_id m) db
                refl)))

    -- A request over HTTP to create, join, leave, start or reset a room, or to hit or stand in it, that is
    -- answered with a failure has changed nothing in the database, if the store keeps the laws of `IsStore`,
    -- which `pgStore` does.
    pub handle_failed :
        (q : Route) (user_id : String) (db : u.store.Db) (f : Failure)
        → (handle q user_id db).0 ≡ some f
        → (handle q user_id db).1 ≡ others db
    unfolding handle serve Http.create_room Http.join_room Http.leave_room Http.start_room
        Http.reset_room_debug
    handle_failed create user_id db = respond-IsQuiet db _ _ _ _ (
        quiet_request (Requests.create_room user_id) (Seats.create_room u others user_id m) db refl)
    handle_failed (join room_id) user_id db = respond-IsQuiet db _ _ _ _ (
        quiet_request (Requests.join_room room_id user_id)
          (Seats.join_room u others room_id user_id m) db refl)
    handle_failed (leave room_id) user_id db = respond-IsQuiet db _ _ _ _ (
        quiet_request (Requests.leave_room room_id user_id)
          (Seats.leave_room u others room_id user_id m) db refl)
    handle_failed (start room_id) user_id db = respond-IsQuiet db _ _ _ _ (
        quiet_request (Requests.start_room room_id user_id)
          (Start.start_room u others room_id user_id m) db refl)
    handle_failed (reset enabled room_id) user_id db =
        if-IsQuiet db (not enabled) _ _ (λ f h. refl)
          (respond-IsQuiet db _ _ _ _ (
            quiet_request (Requests.reset_room_for_debug room_id user_id)
              (Seats.reset_room_for_debug u others room_id user_id m) db refl))
    handle_failed (turn hit req room_id) user_id db = turn_action-IsQuiet hit req room_id user_id db
