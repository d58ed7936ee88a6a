-- ===== src/Usecase/Access.antt =====
-- The reads of backend/usecase/game_usecase.go: GetRoom, ListRooms, GetRoomHistory, GetRoomState and
-- SuggestPlayerAction.
use blackjack.Prelude.{
  String, str_eq, Bool, false, not, ◌&&◌, List, [], ◌∷◌, Option, none, some, length, ◌==◌,
  if◌then◌else◌,
}
use blackjack.Prelude.Int.{ℤ, eqb_ℤ}
use blackjack.Prelude.Result.{
  Result, ok, err, unauthorized_user, invalid_input, forbidden_action, invalid_game_state, fail_if,
  ◌>>=◌, ◌>>◌,
}
use blackjack.Model.Status.{has_left, is_active, is_player_turn, is_resetting}
use blackjack.Model.Room.{Room}
use blackjack.Model.Session.{StoredCard, GameSession}
use blackjack.Model.Player.{PlayerState, DealerState}
use blackjack.Model.Strategy.{recommend_hit_or_stand}
use blackjack.Model.Log.{RoundLog}
use blackjack.Store.{Read}
use blackjack.Usecase.Service.{Service, or_forbidden, or_else}

pub record RoomState : Type 0 where
  pub room : Room
  pub session : Option GameSession
  pub dealer : Option DealerState
  pub players : List PlayerState
  pub can_hit : Bool
  pub can_stand : Bool
  pub can_rematch : Bool

pub record PlayHint : Type 0 where
  pub recommendation : String
  pub session_version : ℤ
  pub rationale : String

-- The row of the first player with the id.
unfoldable pub find_player : String → List PlayerState → Option PlayerState
find_player user_id [] = none
find_player user_id (p ∷ ps) = if str_eq p.user_id user_id then some p else find_player user_id ps

-- Whether the player may move: he is active and it is his turn.
unfoldable pub may_hit : GameSession → PlayerState → Bool
may_hit sess p = is_active p.status && is_player_turn sess.status && eqb_ℤ sess.turn_seat p.seat_no

own_turn : String → GameSession → List PlayerState → Bool
unfolding find_player may_hit
own_turn user_id sess players = elim (find_player user_id players) [
  | some p ↦ may_hit sess p
  | none ↦ false
]

module _ (u : Service) where
  -- The room is open to its host and to everybody who sits in it.
  unfoldable pub check_access : Room → String → String → Read u.store.Db (Unit {0})
  check_access room room_id user_id db =
      if not (str_eq room.host_user_id user_id)
      then (do
        p ← or_forbidden (u.store.get_room_player room_id user_id db)
        fail_if (has_left p.status) forbidden_action)
      else ok tt

  current_session : Option String → Read u.store.Db (Option GameSession)
  current_session none db = ok none
  current_session (some id) db = or_else none (u.store.get_session id db >>= λ sess. ok (some sess))

  unfoldable pub get_room : String → String → Read u.store.Db (Room × Option GameSession)
  unfolding check_access current_session
  get_room room_id user_id db = do
    fail_if (str_eq user_id "") unauthorized_user
    fail_if (str_eq room_id "") invalid_input
    room ← u.store.get_room room_id db
    check_access room room_id user_id db
    sess ← current_session room.current_session_id db
    ok (room, sess)

  unfoldable pub list_rooms : String → Read u.store.Db (List Room)
  list_rooms user_id db =
      fail_if (str_eq user_id "") unauthorized_user >> u.store.list_rooms_by_user_id user_id db

  unfoldable pub get_room_history : String → String → Read u.store.Db (List RoundLog)
  unfolding check_access
  get_room_history room_id user_id db = do
    fail_if (str_eq user_id "") unauthorized_user
    fail_if (str_eq room_id "") invalid_input
    room ← u.store.get_room room_id db
    check_access room room_id user_id db
    u.store.list_round_logs_by_room_id room_id db

  room_state : String → Room → Option GameSession → Read u.store.Db RoomState
  unfolding own_turn
  room_state user_id room none db = ok (record {
    room = room;
    session = none;
    dealer = none;
    players = [];
    can_hit = false;
    can_stand = false;
    can_rematch = false;
  })
  room_state user_id room (some sess) db = do
    dealer ← or_else none (u.store.get_dealer_state sess.id db >>= λ d. ok (some d))
    players ← or_else [] (u.store.list_player_states_by_session_id sess.id db)
    let can_hit : Bool = own_turn user_id sess players
    ok (record {
      room = room;
      session = some sess;
      dealer = dealer;
      players = players;
      can_hit = can_hit;
      can_stand = can_hit;
      can_rematch = is_resetting sess.status;
    })

  unfoldable pub get_room_state : String → String → Read u.store.Db RoomState
  unfolding get_room room_state
  get_room_state room_id user_id db = do
    (room, sess) ← get_room room_id user_id db
    room_state user_id room sess db

  -- The first card of the dealer, and the player's hand.
  up_card : Option DealerState → Result StoredCard
  up_card none = err invalid_game_state
  up_card (some d) = elim d.hand [ [] ↦ err invalid_game_state | c ∷ rest ↦ ok c ]

  own_hand : Option PlayerState → Result (List StoredCard)
  own_hand none = err invalid_game_state
  own_hand (some p) = if length p.hand == 0 then err invalid_game_state else ok p.hand

  hint : Bool → ℤ → PlayHint
  hint want_hit version =
      if want_hit
      then record {
        recommendation = "HIT";
        session_version = version;
        rationale = "中級向け簡略ベーシック戦略（S17・ダブル/スプリットなし）に基づきヒット。";
      }
      else record {
        recommendation = "STAND";
        session_version = version;
        rationale = "中級向け簡略ベーシック戦略（S17・ダブル/スプリットなし）に基づきスタンド。";
      }

  hint_in : String → RoomState → Result PlayHint
  unfolding up_card own_hand find_player hint
  hint_in user_id state = elim state.session [
    | none ↦ err invalid_game_state
    | some sess ↦ (do
      fail_if (not state.can_hit) invalid_game_state
      up ← up_card state.dealer
      hand ← own_hand (find_player user_id state.players)
      ok (hint (recommend_hit_or_stand u.evaluator hand up) sess.version))
  ]

  unfoldable pub suggest_player_action : String → String → Read u.store.Db PlayHint
  unfolding get_room_state hint_in
  suggest_player_action room_id user_id db = do
    state ← get_room_state room_id user_id db
    hint_in user_id state
