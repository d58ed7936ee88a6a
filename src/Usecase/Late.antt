-- ===== src/Usecase/Late.antt =====
-- What one tick of `playerStand` of backend/usecase/game_usecase.go does to the database.
use Prim.Native.String.{◌++◌}
use blackjack.Prelude.{String, ◌≡◌, Bool, true, false, ◌⊎◌}
use blackjack.Prelude.Text.{format_int}
use blackjack.Prelude.Result.{Error, Result, ok, err}
use blackjack.Model.Status.{is_player_turn}
use blackjack.Model.Room.{Room}
use blackjack.Model.Session.{GameSession}
use blackjack.Model.Log.{RoundLog}
use blackjack.Round.Deal.{Round}
use blackjack.Round.Dealer.{time_forfeit}
use blackjack.Store.{IsStore}
use blackjack.Usecase.Service.{Service, Moment, ◌>>>◌, lift}
use blackjack.Usecase.Swap.{Swapped, Ran}
use blackjack.Usecase.Turn.{hit}
use blackjack.Usecase.Forfeit.{is_due, Overdue, advises_hit, played_round}
use blackjack.Usecase.Start.{playing_room}
use blackjack.Usecase.Overdue.{lost_writes}

module _ (u : Service) (laws : IsStore u.store) (m : Moment) (heuristic : Bool) where
  -- The ends of a tick: an error and nothing changed; nothing to do, because it is not the player's turn or there is
  -- time left; the player's hit by the heuristic; or the round lost and stored.
  pub data Stood (others : u.store.Db → u.store.Db) (session_id : String) (db : u.store.Db)
      (end : Result (Unit {0}) × u.store.Db) : Type 0 where
    refused : (e : Error) → end.0 ≡ err e → end.1 ≡ others db → Stood others session_id db end
    waits :
        (sess : GameSession)
        → u.store.get_session session_id db ≡ ok sess
        → (is_player_turn sess.status ≡ false) ⊎ (is_due sess.turn_deadline_at m.now ≡ false)
        → end ≡ (ok tt, others db)
        → Stood others session_id db end
    hits :
        (sess : GameSession) (room : Room) (r : Round)
        → u.store.get_session session_id db ≡ ok sess
        → is_player_turn sess.status ≡ true
        → is_due sess.turn_deadline_at m.now ≡ true
        → played_round u sess db ≡ ok (room, r)
        → heuristic ≡ true
        → advises_hit u r.player r.dealer.hand ≡ true
        → end
          ≡ (hit u others room.id r.player.user_id sess.version
                  ("auto-heuristic-hit:" ++ session_id ++ ":" ++ format_int sess.version)
                  m
                >>> lift (ok tt))
              db
        → Stood others session_id db end
    loses :
        (sess : GameSession) (room : Room) (before after : Round) (log : RoundLog) (shown : Room)
        → u.store.get_session session_id db ≡ ok sess
        → is_player_turn sess.status ≡ true
        → is_due sess.turn_deadline_at m.now ≡ true
        → played_round u sess db ≡ ok (room, before)
        → time_forfeit u.evaluator u.marshal m.now before ≡ ok (after, log)
        → playing_room u m after.session room ≡ ok shown
        → end.0 ≡ ok tt
        → Swapped u.store laws after.session before.session.version (others db) end.1
        → Ran u.store
            (lost_writes u laws m session_id after shown log)
            (u.store.update_session_if_version after.session before.session.version (others db)).1
            end.1
        → Stood others session_id db end
