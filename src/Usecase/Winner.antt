-- ===== src/Usecase/Winner.antt =====
-- Concurrent requests of Hit and Stand in backend/usecase/game_usecase.go.
use blackjack.Prelude.{
  ◌≡◌, refl, sym, ◌∙◌, ap, subst, String, Bool, true, false, not, some, if◌then◌else◌,
}
use blackjack.Prelude.Int.{ℤ, pos, inc64, leb_ℤ, eqb_ℤ, eqb_ℤ-sound}
use blackjack.Prelude.Result.{
  Error, Result, ok, err, version_conflict, invalid_version, >>=-eq-ok, ok_unique,
}
use blackjack.Model.Room.{Room}
use blackjack.Model.Session.{GameSession, check_version}
use blackjack.Round.Version.{player_move-version, inc64_apart}
use blackjack.Store.{IsStore}
use blackjack.Usecase.Service.{Service, Moment, finish_failed}
use blackjack.Usecase.Turn.{player_turn, turn_prepare, turn_commit, current_round, required_session}
use blackjack.Usecase.Lock.{MoveDone, replayed, moved, player_turn-swaps}

abbrev version_answer : Bool → Bool → Result (Unit {0})
version_answer low same =
    if low then err invalid_version else if not same then err version_conflict else ok tt

version_tests : (low same : Bool) → version_answer low same ≡ ok tt → same ≡ true
version_tests true same h = cc
version_tests false true h = refl
version_tests false false h = cc

-- A version that passes the check is the session's.
check_version-same :
    (s : GameSession) (expected : ℤ) → check_version s expected ≡ ok tt → s.version ≡ expected
unfolding check_version
check_version-same s expected h = sym (
    eqb_ℤ-sound expected s.version
      (version_tests (leb_ℤ expected (pos 0)) (eqb_ℤ expected s.version) h))

some_inj : {a b : ℤ} → some a ≡ some b → a ≡ b
some_inj h = cc

module _ (u : Service) (laws : IsStore u.store) where
  -- The session that a request is about has the expected version.
  current_round-version :
      (room_id : String) (version : ℤ) (db : u.store.Db) (answer : Room × GameSession)
      → current_round u room_id version db ≡ ok answer
      → answer.1.version ≡ version
  unfolding current_round
  current_round-version room_id version db answer h =
      let (room', _, h) = >>=-eq-ok (u.store.get_room room_id db) _ _ h in
      let (id, _, h) = >>=-eq-ok (required_session room'.current_session_id) _ _ h in
      let (found, _, h) = >>=-eq-ok (u.store.get_session id db) _ _ h in
      let (_, checked, h) = >>=-eq-ok (check_version found version) _ _ h in
      subst (λ (p : Room × GameSession). p.1.version ≡ version) (ok_unique refl h)
        (check_version-same found version checked)

  -- A move that raised the version has left it in the row.
  MoveDone-raised :
      (room_id user_id : String) (version : ℤ) (action_id : String) (hit : Bool) (m : Moment)
      (db begun ended : u.store.Db) (answer : Room × GameSession)
      → MoveDone u laws room_id user_id version action_id hit m db begun ended answer
      → answer.1.version ≡ inc64 version
      → laws.version_in answer.1.id ended ≡ some (inc64 version)
  MoveDone-raised room_id user_id version action_id hit m db begun ended answer
        (replayed current entry same) raised =
      absurd
        (inc64_apart version (sym raised ∙ current_round-version room_id version db answer current))
  MoveDone-raised room_id user_id version action_id hit m db begun ended answer
        (moved room before after read new made shown same swapped ran) raised =
      subst (λ (s : GameSession). laws.version_in s.id ended ≡ some s.version) same swapped.stored
      ∙ ap some raised

  -- A move on a session whose row does not have the expected version writes nothing.
  MoveDone-quiet :
      (room_id user_id : String) (version : ℤ) (action_id : String) (hit : Bool) (m : Moment)
      (db begun ended : u.store.Db) (answer : Room × GameSession) (id : String)
      → MoveDone u laws room_id user_id version action_id hit m db begun ended answer
      → ((room : Room) (sess : GameSession)
          → current_round u room_id version db ≡ ok (room, sess)
          → sess.id ≡ id)
      → laws.version_in id begun ≡ some (inc64 version)
      → ended ≡ begun
  MoveDone-quiet room_id user_id version action_id hit m db begun ended answer id
        (replayed current entry same) about raised =
      same
  MoveDone-quiet room_id user_id version action_id hit m db begun ended answer id
        (moved room before after read new made shown same swapped ran) about raised =
      let (kept, _) = player_move-version u.evaluator u.engine hit m.now before after made in
      let held : laws.version_in id begun ≡ some version =
        subst (λ x. laws.version_in x begun ≡ some version)
          (kept ∙ about room before.session read.current) swapped.held in
      absurd (inc64_apart version (some_inj (sym raised ∙ held)))

  player_turn_failed :
      (others : u.store.Db → u.store.Db) (room_id user_id : String) (version : ℤ)
      (action_id : String) (hit : Bool) (m : Moment) (db : u.store.Db) (e : Error)
      → (player_turn u others room_id user_id version action_id hit m db).0 ≡ err e
      → (player_turn u others room_id user_id version action_id hit m db).1 ≡ others db
  unfolding player_turn
  player_turn_failed others room_id user_id version action_id hit m db e h =
      finish_failed u.store laws others (turn_commit u)
        (turn_prepare u room_id user_id version action_id hit m db) db e h

  -- When a hit or stand is answered with its session at the version after the expected one, a second one of
  -- the same room with the same expected version, whoever sends it and whatever it has read, writes nothing
  -- and leaves what the others have made of the database, if the session that it reads as the room's current
  -- one, if any, is the same session, and if the version in that session's row when its transaction begins is the
  -- one that the first has left; and if the store keeps the laws of `IsStore`, which `pgStore` does.
  pub player_turn-one_winner :
      (others others' : u.store.Db → u.store.Db) (room_id user_id user_id' : String) (version : ℤ)
      (action_id action_id' : String) (hit hit' : Bool) (m m' : Moment) (db db' db'' : u.store.Db)
      (room : Room) (sess : GameSession)
      → player_turn u others room_id user_id version action_id hit m db ≡ (ok (room, sess), db')
      → sess.version ≡ inc64 version
      → ((room' : Room) (sess' : GameSession)
          → current_round u room_id version db'' ≡ ok (room', sess')
          → sess'.id ≡ sess.id)
      → laws.version_in sess.id (others' db'') ≡ laws.version_in sess.id db'
      → (player_turn u others' room_id user_id' version action_id' hit' m' db'').1 ≡ others' db''
  player_turn-one_winner others others' room_id user_id user_id' version action_id action_id' hit
        hit' m m' db db' db'' room sess won raised about kept =
      settle (player_turn u others' room_id user_id' version action_id' hit' m' db'').0 refl
    where
      first : laws.version_in sess.id db' ≡ some (inc64 version)
      first =
          MoveDone-raised room_id user_id version action_id hit m db (others db) db' (room, sess)
            (subst
              (λ x.
                MoveDone u laws room_id user_id version action_id hit m db (others db) x
                  (room, sess))
              (ap (λ p. p.1) won)
              (player_turn-swaps u laws room_id user_id version action_id hit m others db
                (room, sess) (ap (λ p. p.0) won)))
            raised

      settle :
          (r : Result (Room × GameSession))
          → (player_turn u others' room_id user_id' version action_id' hit' m' db'').0 ≡ r
          → (player_turn u others' room_id user_id' version action_id' hit' m' db'').1
            ≡ others' db''
      settle (err e) h =
          player_turn_failed others' room_id user_id' version action_id' hit' m' db'' e h
      settle (ok answer) h =
          MoveDone-quiet room_id user_id' version action_id' hit' m' db'' (others' db'') _ answer
            sess.id
            (player_turn-swaps u laws room_id user_id' version action_id' hit' m' others' db''
              answer h)
            about (kept ∙ first)
