-- ===== src/Web/Ws.antt =====
-- `handleGameWSAction` of backend/controller/game_ws_controller.go: what a message of a player over the
-- WebSocket does and what is sent for it. The audit log and the sending itself are left out.
use blackjack.Prelude.{
  String, str_eq, ◌≡◌, refl, Bool, true, false, ◌||◌, Option, none, some, if◌then◌else◌,
}
use blackjack.Prelude.Int.{ℤ, pos, leb_ℤ}
use blackjack.Prelude.Result.{Error, Result, ok, err}
use blackjack.Store.{IsStore}
use blackjack.Usecase.Service.{Service, Moment}
use blackjack.Usecase.Requests.{Request, hit, stand, vote_rematch, serve, serve_failed}
use blackjack.Web.Errors.{map_ws_error}

-- `agree` is nil where it is `none`; the id of the request is only logged.
pub record WsActionRequest : Type 0 where
  pub event : String
  pub action_id : String
  pub expected_version : ℤ
  pub agree : Option Bool

-- What is sent: an ERROR event to the player, the state of the room to all its connections, or PONG.
pub data WsAnswer : Type 0 where
  error_event : String → String → WsAnswer
  room_state_sync : String → WsAnswer
  pong : WsAnswer

abbrev pub is_incomplete : WsActionRequest → Bool
is_incomplete req = str_eq req.action_id "" || leb_ℤ req.expected_version (pos 0)

module _ (u : Service) (others : u.store.Db → u.store.Db) (m : Moment) where
  abbrev pub answered : String → Result (Unit {0}) × u.store.Db → WsAnswer × u.store.Db
  answered room_id (ok x, db) = (room_state_sync room_id, db)
  answered room_id (err e, db) =
      let (code, message) = map_ws_error e in (error_event code message, db)

  unfoldable pub ws_turn : WsActionRequest → String → Request → u.store.Db → WsAnswer × u.store.Db
  ws_turn req room_id request db =
      if is_incomplete req
      then (error_event "invalid_input" "action_id and expected_version are required", others db)
      else answered room_id (serve u others m request db)

  unfoldable pub ws_vote :
      WsActionRequest → Option Bool → String → String → u.store.Db → WsAnswer × u.store.Db
  ws_vote req none room_id user_id db =
      (error_event "invalid_input" "agree, action_id and expected_version are required", others db)
  ws_vote req (some agree) room_id user_id db =
      if is_incomplete req
      then (
        error_event "invalid_input" "agree, action_id and expected_version are required",
        others db,
      )
      else answered room_id (
          serve u others m
            (vote_rematch (record {
              room_id = room_id;
              user_id = user_id;
              agree = agree;
              expected_version = req.expected_version;
              action_id = req.action_id;
            }))
            db)

  unfoldable pub handle_game_ws_action :
      WsActionRequest → String → String → u.store.Db → WsAnswer × u.store.Db
  unfolding ws_turn ws_vote
  handle_game_ws_action req room_id user_id db =
      if str_eq req.event "HIT"
      then ws_turn req room_id (hit room_id user_id req.expected_version req.action_id) db
      else if str_eq req.event "STAND"
      then ws_turn req room_id (stand room_id user_id req.expected_version req.action_id) db
      else if str_eq req.event "REMATCH_VOTE"
      then ws_vote req req.agree room_id user_id db
      else if str_eq req.event "ROOM_SYNC_REQUEST"
      then (room_state_sync room_id, others db)
      else if str_eq req.event "PING"
      then (pong, others db)
      else (error_event "invalid_input" "unsupported ws event type", others db)

  -- An answer that is an ERROR event comes with an unchanged database.
  abbrev pub IsQuiet : u.store.Db → WsAnswer × u.store.Db → Type 0
  IsQuiet db answer =
      (code message : String) → answer.0 ≡ error_event code message → answer.1 ≡ others db

  if-IsQuiet :
      (db : u.store.Db) (b : Bool) {x y : WsAnswer × u.store.Db}
      → IsQuiet db x
      → IsQuiet db y
      → IsQuiet db (if b then x else y)
  if-IsQuiet db true hx hy = hx
  if-IsQuiet db false hx hy = hy

  answered-IsQuiet :
      (db : u.store.Db) (room_id : String) (r : Result (Unit {0}) × u.store.Db)
      → ((e : Error) → r.0 ≡ err e → r.1 ≡ others db)
      → IsQuiet db (answered room_id r)
  answered-IsQuiet db room_id (ok x, db') h code message k = cc
  answered-IsQuiet db room_id (err e, db') h code message k = h e refl

  module _ (laws : IsStore u.store) where
    serve-IsQuiet :
        (db : u.store.Db) (room_id : String) (request : Request)
        → IsQuiet db (answered room_id (serve u others m request db))
    serve-IsQuiet db room_id request =
        answered-IsQuiet db room_id (serve u others m request db)
          (λ e. serve_failed u laws others m request db e)

    ws_turn-IsQuiet :
        (db : u.store.Db) (req : WsActionRequest) (room_id : String) (request : Request)
        → IsQuiet db (ws_turn req room_id request db)
    unfolding ws_turn
    ws_turn-IsQuiet db req room_id request =
        if-IsQuiet db (is_incomplete req) (λ code message h. refl)
          (serve-IsQuiet db room_id request)

    ws_vote-IsQuiet :
        (db : u.store.Db) (req : WsActionRequest) (agree : Option Bool) (room_id user_id : String)
        → IsQuiet db (ws_vote req agree room_id user_id db)
    unfolding ws_vote
    ws_vote-IsQuiet db req none room_id user_id = λ code message h. refl
    ws_vote-IsQuiet db req (some agree) room_id user_id =
        if-IsQuiet db (is_incomplete req) (λ code message h. refl) (serve-IsQuiet db room_id _)

    -- A message that is answered with an ERROR event has changed nothing in the database.
    pub handle_game_ws_action_failed :
        (req : WsActionRequest) (room_id user_id : String) (db : u.store.Db) (code message : String)
        → (handle_game_ws_action req room_id user_id db).0 ≡ error_event code message
        → (handle_game_ws_action req room_id user_id db).1 ≡ others db
    unfolding handle_game_ws_action
    handle_game_ws_action_failed req room_id user_id db =
        if-IsQuiet db (str_eq req.event "HIT") (ws_turn-IsQuiet db req room_id _) (
          if-IsQuiet db (str_eq req.event "STAND") (ws_turn-IsQuiet db req room_id _) (
            if-IsQuiet db (str_eq req.event "REMATCH_VOTE")
              (ws_vote-IsQuiet db req req.agree room_id user_id)
              (if-IsQuiet db (str_eq req.event "ROOM_SYNC_REQUEST") (λ code message h. refl)
                (if-IsQuiet db (str_eq req.event "PING") (λ code message h. refl)
                  (λ code message h. refl)))))
