-- ===== src/Usecase/Start.antt =====
-- StartRoom of backend/usecase/game_usecase.go.
use blackjack.Prelude.{String, str_eq, true, not, Option, none, some, is_some}
use blackjack.Prelude.Int.{ℤ, pos, inc64}
use blackjack.Prelude.Result.{
  Result, ok, unauthorized_user, invalid_input, forbidden_action, invalid_game_state, fail_if,
  ◌>>=◌, ◌>>◌,
}
use blackjack.Model.Status.{is_ready, is_seated}
use blackjack.Model.Room.{Room, touch_room, recalculate_status}
use blackjack.Model.Session.{GameSession, touch_session}
use blackjack.Round.Deal.{Round, new_round}
use blackjack.Store.{Read, Write}
use blackjack.Usecase.Service.{Service, Moment, Prepared, todo, finish, ◌>>>◌, lift, or_else}

-- The number of the next round of a room.
unfoldable pub next_round_no : Option GameSession → ℤ
next_round_no none = pos 1
next_round_no (some latest) = inc64 latest.round_no

module _ (u : Service) where
  -- The room as it shows the session that runs in it.
  unfoldable pub playing_room : Moment → GameSession → Room → Result Room
  playing_room m sess room = do
    counted ← recalculate_status (record room { current_session_id = some sess.id }) (pos 1) true
    ok (touch_room m.now counted)

  pub start_prepare :
      String → String → Moment → Read u.store.Db (Prepared (Room × Round) (Room × GameSession))
  unfolding next_round_no playing_room
  start_prepare room_id user_id m db = do
    fail_if (str_eq user_id "") unauthorized_user
    fail_if (str_eq room_id "") invalid_input
    room ← u.store.get_room room_id db
    fail_if (not (str_eq room.host_user_id user_id)) forbidden_action
    fail_if (not (is_ready room.status)) invalid_game_state
    player ← u.store.get_room_player room_id user_id db
    fail_if (not (is_seated player.status)) invalid_game_state
    fail_if (is_some room.current_session_id) invalid_game_state
    latest ← or_else none (u.store.get_latest_session_by_room_id room_id db >>= λ s. ok (some s))
    dealt ←
        new_round u.evaluator u.engine m.rand m.now m.fresh_id room_id (next_round_no latest)
          user_id
    shown ← playing_room m dealt.session room
    ok (todo (shown, record dealt { session = touch_session m.now dealt.session }))

  -- The rows of a round that begins.
  unfoldable pub create_round : Room → Round → Write u.store.Db (Unit {0})
  create_round room r =
      u.store.create_session r.session
      >>> u.store.create_player_state r.player
      >>> u.store.create_dealer_state r.dealer
      >>> u.store.update_room room

  pub start_commit : Room × Round → Write u.store.Db (Room × GameSession)
  unfolding create_round
  start_commit (room, r) = create_round room r >>> lift (ok (room, r.session))

  unfoldable pub start_room :
      (u.store.Db → u.store.Db) → String → String → Moment → Write u.store.Db (Room × GameSession)
  unfolding start_prepare start_commit
  start_room others room_id user_id m db =
      finish u.store others start_commit (start_prepare room_id user_id m db) db
