-- ===== src/Usecase/Forfeit.antt =====
-- `playerStand` of backend/usecase/game_usecase.go: what happens to a round whose player lets his time
-- pass. `heuristic` says whether BLACKJACK_PLAYER_TIMEOUT_POLICY is set to that policy.
use Prim.Native.String.{◌++◌}
use blackjack.Prelude.{
  String, Bool, false, not, ◌&&◌, ◌||◌, List, [], ◌∷◌, Option, none, some, ltb, if◌then◌else◌,
}
use blackjack.Prelude.Int.{ℤ}
use blackjack.Prelude.Text.{format_int}
use blackjack.Prelude.Result.{Result, ok, err, not_found, ◌>>=◌}
use blackjack.Model.Status.{ActorType, is_player_turn}
use blackjack.Model.Room.{Time, Room}
use blackjack.Model.Session.{StoredCard, GameSession}
use blackjack.Model.Player.{PlayerState}
use blackjack.Model.Strategy.{recommend_hit_or_stand}
use blackjack.Model.Log.{ActionLog, RoundLog}
use blackjack.Round.Deal.{Round}
use blackjack.Round.Dealer.{time_forfeit}
use blackjack.Store.{Read, Write}
use blackjack.Usecase.Service.{Service, Moment, ◌>>>◌, lift}
use blackjack.Usecase.Start.{playing_room}
use blackjack.Usecase.Turn.{hit, swap_session, save_snapshot}

-- `players[0]`, and the error for no player.
abbrev pub first_player : List PlayerState → Result PlayerState
first_player [] = err not_found
first_player (p ∷ ps) = ok p

-- A deadline that has come: it is not after now.
unfoldable pub is_due : Option Time → Time → Bool
is_due none now = false
is_due (some at) now = not (ltb now at)

-- What is to be written.
pub record Settlement : Type 0 where
  pub room : Room
  pub round : Round
  pub expected : ℤ
  pub round_log : Option RoundLog

-- What to do with a session whose player may be late.
pub data Overdue : Type 0 where
  in_time : Overdue
  play_hit : String → String → ℤ → Overdue
  forfeit : Settlement → Overdue

module _ (u : Service) where
  unfoldable pub advises_hit : PlayerState → List StoredCard → Bool
  advises_hit p [] = false
  advises_hit p (c ∷ cs) = recommend_hit_or_stand u.evaluator p.hand c

  -- The rows of a session that is being played, and its room.
  unfoldable pub played_round : GameSession → Read u.store.Db (Room × Round)
  played_round sess db = do
    room ← u.store.get_room sess.room_id db
    players ← u.store.list_player_states_by_session_id sess.id db
    player ← first_player players
    dealer ← u.store.get_dealer_state sess.id db
    ok (room, record { session = sess; player = player; dealer = dealer })

  unfoldable pub forfeit_round : Moment → Room → Round → Result Overdue
  forfeit_round m room r = do
    (lost, log) ← time_forfeit u.evaluator u.marshal m.now r
    shown ← playing_room u m lost.session room
    ok (
        forfeit (record {
          room = shown;
          round = lost;
          expected = r.session.version;
          round_log = some log;
        }))

  unfoldable pub decide_overdue : Bool → Moment → GameSession → Read u.store.Db Overdue
  unfolding played_round forfeit_round advises_hit
  decide_overdue heuristic m sess db =
      if not (is_player_turn sess.status) || not (is_due sess.turn_deadline_at m.now)
      then ok in_time
      else (do
        (room, r) ← played_round sess db
        if heuristic && advises_hit r.player r.dealer.hand
            then ok (play_hit room.id r.player.user_id sess.version)
            else forfeit_round m room r)

  unfoldable pub forfeit_log : String → Round → ActionLog
  forfeit_log session_id r = record {
    session_id = r.session.id;
    actor_type = ActorType.system;
    actor_user_id = r.player.user_id;
    target_user_id = r.player.user_id;
    action_id = "time-forfeit:" ++ session_id ++ ":" ++ format_int r.session.version;
    request_type = "TIME_FORFEIT";
    request_payload_hash = u.sha256_hex ("TIME_FORFEIT:" ++ format_int r.session.version);
    response_snapshot = "";
  }

  -- `CreateRoundLog` for a settled round.
  unfoldable pub log_round : Option RoundLog → Write u.store.Db (Unit {0})
  log_round none = lift (ok tt)
  log_round (some l) = u.store.create_round_log l

  unfoldable pub forfeit_commit : String → Settlement → Write u.store.Db (Unit {0})
  unfolding swap_session save_snapshot forfeit_log log_round
  forfeit_commit session_id c =
      swap_session u c.round.session c.expected
      >>> u.store.update_player_state c.round.player
      >>> u.store.update_dealer_state c.round.dealer
      >>> log_round c.round_log
      >>> u.store.update_room c.room
      >>> save_snapshot u (forfeit_log session_id c.round) c.room.id c.round.session

  -- A late hit goes through the use case of the player.
  unfoldable pub overdue_write :
      (u.store.Db → u.store.Db) → Moment → String → Result Overdue → Write u.store.Db (Unit {0})
  unfolding forfeit_commit
  overdue_write others m session_id (err e) db = (err e, others db)
  overdue_write others m session_id (ok in_time) db = (ok tt, others db)
  overdue_write others m session_id (ok (play_hit room_id user_id version)) db =
      (hit u others room_id user_id version
            ("auto-heuristic-hit:" ++ session_id ++ ":" ++ format_int version) m
          >>> lift (ok tt))
        db
  overdue_write others m session_id (ok (forfeit c)) db =
      u.store.transaction (forfeit_commit session_id c) (others db)

  unfoldable pub player_stand :
      (u.store.Db → u.store.Db) → Bool → Moment → String → Write u.store.Db (Unit {0})
  unfolding decide_overdue overdue_write
  player_stand others heuristic m session_id db =
      overdue_write others m session_id
        (u.store.get_session session_id db >>= λ sess. decide_overdue heuristic m sess db) db
