-- ===== src/Usecase/DealerTurn.antt =====
-- `dealerTurn` of backend/usecase/game_usecase.go: one step of the dealer, a card or the result.
use blackjack.Prelude.{String, not, Option, none, some, if◌then◌else◌}
use blackjack.Prelude.Result.{Result, ok, ◌>>=◌}
use blackjack.Model.Status.{is_dealer_turn}
use blackjack.Model.Room.{Room}
use blackjack.Model.Session.{GameSession}
use blackjack.Model.Log.{RoundLog}
use blackjack.Round.Deal.{Round}
use blackjack.Round.Dealer.{dealer_move}
use blackjack.Store.{Read, Write}
use blackjack.Usecase.Service.{Service, Moment, Prepared, done, todo, finish, ◌>>>◌, lift}
use blackjack.Usecase.Start.{playing_room}
use blackjack.Usecase.Turn.{swap_session}
use blackjack.Usecase.Forfeit.{Settlement, played_round}

module _ (u : Service) where
  -- The room changes only with the result.
  unfoldable pub settled_room : Moment → Round → Room → Option RoundLog → Result Room
  settled_room m r room none = ok room
  settled_room m r room (some log) = playing_room u m r.session room

  unfoldable pub decide_dealer :
      Moment → GameSession → Read u.store.Db (Prepared Settlement (Unit {0}))
  unfolding played_round settled_room
  decide_dealer m sess db = if not (is_dealer_turn sess.status) then ok (done tt) else (do
    (room, r) ← played_round u sess db
    (moved, log) ← dealer_move u.evaluator u.engine u.marshal m.now r
    shown ← settled_room m moved room log
    ok (todo (record { room = shown; round = moved; expected = sess.version; round_log = log })))

  -- The rows that only a result changes.
  unfoldable pub result_rows : Settlement → Option RoundLog → Write u.store.Db (Unit {0})
  result_rows c none = lift (ok tt)
  result_rows c (some log) =
      u.store.update_player_state c.round.player
      >>> u.store.create_round_log log
      >>> u.store.update_room c.room

  unfoldable pub dealer_commit : Settlement → Write u.store.Db (Unit {0})
  unfolding swap_session result_rows
  dealer_commit c =
      swap_session u c.round.session c.expected
      >>> u.store.update_dealer_state c.round.dealer
      >>> result_rows c c.round_log

  unfoldable pub dealer_prepare : Moment → String → Read u.store.Db (Prepared Settlement (Unit {0}))
  unfolding decide_dealer
  dealer_prepare m session_id db =
      u.store.get_session session_id db >>= λ sess. decide_dealer m sess db

  unfoldable pub dealer_turn :
      (u.store.Db → u.store.Db) → Moment → String → Write u.store.Db (Unit {0})
  unfolding dealer_prepare dealer_commit
  dealer_turn others m session_id db =
      finish u.store others dealer_commit (dealer_prepare m session_id db) db
