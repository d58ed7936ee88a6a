-- ===== src/Usecase/DealerStep.antt =====
-- What one tick of `dealerTurn` of backend/usecase/game_usecase.go does to the database.
use blackjack.Prelude.{
  String, ◌≡◌, refl, sym, ap, subst, ◌∙◌, List, [], ◌∷◌, true, false, Bool-cases, ◌⊎◌, inl, inr,
  Option, none, some,
}
use blackjack.Prelude.Result.{Error, Result, ok, err, >>=-eq-ok, ok_unique}
use blackjack.Model.Status.{is_dealer_turn}
use blackjack.Model.Room.{Room}
use blackjack.Model.Session.{GameSession}
use blackjack.Model.Log.{RoundLog}
use blackjack.Round.Deal.{Round}
use blackjack.Round.Dealer.{dealer_move}
use blackjack.Store.{Write, IsStore, KeepsVersions}
use blackjack.Usecase.Service.{Service, Moment, Prepared, done, todo, finish, ◌>>>◌, lift}
use blackjack.Usecase.Start.{playing_room}
use blackjack.Usecase.Swap.{
  Swapped, Ran, >>>-ok, swap_session-then, swap_session-Swapped, >>>=-keeps, lift-keeps,
}
use blackjack.Usecase.Forfeit.{Settlement, played_round}
use blackjack.Usecase.DealerTurn.{
  settled_room, decide_dealer, result_rows, dealer_commit, dealer_prepare, dealer_turn,
}

pub ends : (r : Result (Unit {0})) → ((e : Error) × (r ≡ err e)) ⊎ (r ≡ ok tt)
ends (err e) = inl (e, refl)
ends (ok tt) = inr refl

todo_inj :
    {a c : Settlement}
    → ◌≡◌ {A = Result (Prepared Settlement (Unit {0}))} (ok (todo a)) (ok (todo c))
    → a ≡ c
todo_inj h = cc

todo-not_done :
    {c : Settlement} {a : Unit {0}} {B : Type 0}
    → ◌≡◌ {A = Result (Prepared Settlement (Unit {0}))} (ok (todo c)) (ok (done a))
    → B
todo-not_done h = cc

module _ (u : Service) (laws : IsStore u.store) (m : Moment) (session_id : String) where
  -- The writes of a move after the swap: a card changes the dealer's hand only, a result also the player's
  -- hand, the log of the rounds and the room.
  abbrev pub step_writes : Round → Room → Option RoundLog → List (Write u.store.Db (Unit {0}))
  step_writes after shown none = u.store.update_dealer_state after.dealer ∷ []
  step_writes after shown (some log) =
      u.store.update_dealer_state after.dealer
      ∷ u.store.update_player_state after.player
      ∷ u.store.create_round_log log
      ∷ u.store.update_room shown
      ∷ []

  -- With the result the room shows the session.
  abbrev pub IsShown : Round → Room → Option RoundLog → Room → Type 0
  IsShown after room none shown = shown ≡ room
  IsShown after room (some log) shown = playing_room u m after.session room ≡ ok shown

  -- The move of the dealer on the round that was read, made on the row of its session under the version that
  -- was read.
  pub record Stepped (db begun ended : u.store.Db) : Type 0 where
    pub sess : GameSession
    pub read : u.store.get_session session_id db ≡ ok sess
    pub turn : is_dealer_turn sess.status ≡ true
    pub room : Room
    pub before : Round
    pub rows : played_round u sess db ≡ ok (room, before)
    pub after : Round
    pub round_log : Option RoundLog
    pub moved : dealer_move u.evaluator u.engine u.marshal m.now before ≡ ok (after, round_log)
    pub shown : Room
    pub as_shown : IsShown after room round_log shown
    pub swapped : Swapped u.store laws after.session sess.version begun ended
    pub wrote :
        Ran u.store
          (step_writes after shown round_log)
          (u.store.update_session_if_version after.session sess.version begun).1
          ended

  -- The ends of a tick: an error and nothing changed, nothing to do because it is not the dealer's turn, or a
  -- move.
  pub data Ticked (db begun : u.store.Db) (end : Result (Unit {0}) × u.store.Db) : Type 0 where
    refused : (e : Error) → end.0 ≡ err e → end.1 ≡ begun → Ticked db begun end
    waits :
        (sess : GameSession)
        → u.store.get_session session_id db ≡ ok sess
        → is_dealer_turn sess.status ≡ false
        → end.0 ≡ ok tt
        → end.1 ≡ begun
        → Ticked db begun end
    steps : end.0 ≡ ok tt → Stepped db begun end.1 → Ticked db begun end

  result_rows-keeps :
      (c : Settlement) (log : Option RoundLog) → KeepsVersions u.store laws (result_rows u c log)
  unfolding result_rows
  result_rows-keeps c none = lift-keeps u.store laws (ok tt)
  result_rows-keeps c (some log) =
      >>>=-keeps u.store laws (u.store.update_player_state c.round.player) _
        (laws.update_player_state-keeps c.round.player)
        (λ x.
          >>>=-keeps u.store laws (u.store.create_round_log log) _ (laws.create_round_log-keeps log)
            (λ y. laws.update_room-keeps c.room))

  dealer_commit-Swapped :
      (c : Settlement) (db : u.store.Db) (b : Unit {0})
      → (dealer_commit u c db).0 ≡ ok b
      → Swapped u.store laws c.round.session c.expected db (dealer_commit u c db).1
  unfolding dealer_commit
  dealer_commit-Swapped c db b h =
      swap_session-Swapped u laws c.round.session c.expected
        (u.store.update_dealer_state c.round.dealer >>> result_rows u c c.round_log) db b
        (>>>=-keeps u.store laws (u.store.update_dealer_state c.round.dealer) _
          (laws.update_dealer_state-keeps c.round.dealer) (λ x. result_rows-keeps c c.round_log))
        h

  -- After the swap the rows of the move are written.
  rows-Ran :
      (c : Settlement) (log : Option RoundLog) (db : u.store.Db) (b : Unit {0})
      → ((u.store.update_dealer_state c.round.dealer >>> result_rows u c log) db).0 ≡ ok b
      → Ran u.store
          (step_writes c.round c.room log)
          db
          ((u.store.update_dealer_state c.round.dealer >>> result_rows u c log) db).1
  unfolding result_rows
  rows-Ran c none db b h =
      let (a1, e1) =
        >>>-ok u.store (u.store.update_dealer_state c.round.dealer) (lift (ok tt)) db b h in
      (a1, ap (λ p. p.1) e1)
  rows-Ran c (some log) db b h =
      let room : Write u.store.Db (Unit {0}) = u.store.update_room c.room in
      let logged : Write u.store.Db (Unit {0}) = u.store.create_round_log log >>> room in
      let rows : Write u.store.Db (Unit {0}) =
        u.store.update_player_state c.round.player >>> logged in
      let (a1, e1) = >>>-ok u.store (u.store.update_dealer_state c.round.dealer) rows db b h in
      let db1 = (u.store.update_dealer_state c.round.dealer db).1 in
      let (a2, e2) =
        >>>-ok u.store (u.store.update_player_state c.round.player) logged db1 b (cc (e1, h)) in
      let db2 = (u.store.update_player_state c.round.player db1).1 in
      let (a3, e3) = >>>-ok u.store (u.store.create_round_log log) room db2 b (cc (e1, e2, h)) in
      let all = e1 ∙ e2 ∙ e3 in (a1, (a2, (a3, (sym (ap (λ p. p.0) all) ∙ h, ap (λ p. p.1) all))))

  dealer_commit-Ran :
      (c : Settlement) (db : u.store.Db) (b : Unit {0})
      → (dealer_commit u c db).0 ≡ ok b
      → Ran u.store
          (step_writes c.round c.room c.round_log)
          (u.store.update_session_if_version c.round.session c.expected db).1
          (dealer_commit u c db).1
  unfolding dealer_commit
  dealer_commit-Ran c db b h =
      let rest : Write u.store.Db (Unit {0}) =
        u.store.update_dealer_state c.round.dealer >>> result_rows u c c.round_log in
      let (updated, e) = swap_session-then u c.round.session c.expected rest db b h in
      let db1 = (u.store.update_session_if_version c.round.session c.expected db).1 in
      subst (Ran u.store (step_writes c.round c.room c.round_log) db1) (sym (ap (λ p. p.1) e))
        (rows-Ran c c.round_log db1 b (cc (e, h)))

  settled_room-IsShown :
      (after : Round) (room shown : Room) (log : Option RoundLog)
      → settled_room u m after room log ≡ ok shown
      → IsShown after room log shown
  unfolding settled_room
  settled_room-IsShown after room shown none h = sym (ok_unique refl h)
  settled_room-IsShown after room shown (some log) h = h

  -- The settlement of a move that was decided.
  abbrev IsMove : GameSession → u.store.Db → Settlement → Type 0
  IsMove sess db c =
      (room : Room) × (before : Round) × (played_round u sess db ≡ ok (room, before))
      × (dealer_move u.evaluator u.engine u.marshal m.now before ≡ ok (c.round, c.round_log))
      × IsShown c.round room c.round_log c.room
      × (c.expected ≡ sess.version)

  shown-IsMove :
      (sess : GameSession) (db : u.store.Db) (c : Settlement) (room shown : Room)
      (before after : Round) (log : Option RoundLog)
      → played_round u sess db ≡ ok (room, before)
      → dealer_move u.evaluator u.engine u.marshal m.now before ≡ ok (after, log)
      → IsShown after room log shown
      → ◌≡◌ {A = Result (Prepared Settlement (Unit {0}))}
          (ok (
            todo
              (record { room = shown; round = after; expected = sess.version; round_log = log })))
          (ok (todo c))
      → IsMove sess db c
  shown-IsMove sess db c room shown before after log rows moved as_shown h =
      let same = todo_inj h in
      (
        room,
        before,
        rows,
        subst
            (λ (x : Settlement).
              dealer_move u.evaluator u.engine u.marshal m.now before ≡ ok (x.round, x.round_log))
            same moved,
        subst (λ (x : Settlement). IsShown x.round room x.round_log x.room) same as_shown,
        sym (ap (λ (x : Settlement). x.expected) same),
      )

  decide_dealer-IsMove :
      (sess : GameSession) (db : u.store.Db) (c : Settlement)
      → decide_dealer u m sess db ≡ ok (todo c)
      → (is_dealer_turn sess.status ≡ true) × IsMove sess db c
  unfolding decide_dealer
  decide_dealer-IsMove sess db c h = elim (Bool-cases (is_dealer_turn sess.status)) [
    | inr other ↦ cc (rw other at h)
    | inl turn ↦ (
      turn,
      let (x, rows, h) = >>=-eq-ok (played_round u sess db) _ _ (rw turn at h) in
          let (y, moved, h) =
            >>=-eq-ok (dealer_move u.evaluator u.engine u.marshal m.now x.1) _ _ h in
          let (shown, z, h) = >>=-eq-ok (settled_room u m y.0 x.0 y.1) _ _ h in
          shown-IsMove sess db c x.0 shown x.1 y.0 y.1 rows moved
            (settled_room-IsShown y.0 x.0 shown y.1 z) h,
    )
  ]

  decide_dealer-idle :
      (sess : GameSession) (db : u.store.Db) (a : Unit {0})
      → decide_dealer u m sess db ≡ ok (done a)
      → is_dealer_turn sess.status ≡ false
  unfolding decide_dealer
  decide_dealer-idle sess db a h = elim (Bool-cases (is_dealer_turn sess.status)) [
    | inr other ↦ other
    | inl turn ↦
        let (x, rows, h) = >>=-eq-ok (played_round u sess db) _ _ (rw turn at h) in
        let (y, moves, h) =
          >>=-eq-ok (dealer_move u.evaluator u.engine u.marshal m.now x.1) _ _ h in
        let (shown, z, h) = >>=-eq-ok (settled_room u m y.0 x.0 y.1) _ _ h in todo-not_done h
  ]

  transaction-Ticked :
      (others : u.store.Db → u.store.Db) (db : u.store.Db) (c : Settlement)
      → dealer_prepare u m session_id db ≡ ok (todo c)
      → Ticked db (others db) (u.store.transaction (dealer_commit u c) (others db))
  unfolding dealer_prepare
  transaction-Ticked others db c h =
      elim (ends (u.store.transaction (dealer_commit u c) (others db)).0) [
        | inl (e, failed) ↦
            refused e failed (laws.transaction_failed (dealer_commit u c) (others db) e failed)
        | inr answered ↦
            let (sess, read, h) = >>=-eq-ok (u.store.get_session session_id db) _ _ h in
            let (turn, move) = decide_dealer-IsMove sess db c h in
            let (room, before, rows, made, as_shown, expected) = move in
            let same = laws.transaction_done (dealer_commit u c) (others db) tt answered in
            steps answered (record {
              sess = sess;
              read = read;
              turn = turn;
              room = room;
              before = before;
              rows = rows;
              after = c.round;
              round_log = c.round_log;
              moved = made;
              shown = c.room;
              as_shown = as_shown;
              swapped =
                  rw (same, sym expected)
                    (dealer_commit-Swapped c (others db) tt (cc (same, answered)));
              wrote =
                  rw (same, sym expected)
                    (dealer_commit-Ran c (others db) tt (cc (same, answered)));
            })
      ]

  -- A tick of the dealer either reports an error and has changed nothing, or has found that it is not the
  -- dealer's turn and has changed nothing, or has made the dealer's move on the round that it read: the
  -- row of the session held the version that was read and was replaced by that of the move, the dealer's
  -- hand was written, and with a result also the player's hand, the log of the rounds and the room; if the
  -- store keeps the laws of `IsStore`, which `pgStore` does.
  pub dealer_turn-Ticked :
      (others : u.store.Db → u.store.Db) (db : u.store.Db)
      → Ticked db (others db) (dealer_turn u others m session_id db)
  unfolding dealer_turn dealer_prepare finish
  dealer_turn-Ticked others db = ticked (dealer_prepare u m session_id db) refl
    where
      ticked :
          (p : Result (Prepared Settlement (Unit {0})))
          → dealer_prepare u m session_id db ≡ p
          → Ticked db (others db) (finish u.store others (dealer_commit u) p db)
      ticked (err e) prepared = refused e refl refl
      ticked (ok (done a)) prepared =
          let (sess, read, h) = >>=-eq-ok (u.store.get_session session_id db) _ _ prepared in
          waits sess read (decide_dealer-idle sess db a h) refl refl
      ticked (ok (todo c)) prepared = transaction-Ticked others db c prepared
