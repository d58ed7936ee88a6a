-- ===== src/Usecase/Overdue.antt =====
-- What `playerStand` of backend/usecase/game_usecase.go decides on a session, and what the writes of a lost round do.
use blackjack.Prelude.{
  String, ◌≡◌, refl, sym, ap, subst, Bool, true, false, ◌&&◌, &&-true, ◌∙◌, List, [], ◌∷◌,
  Bool-cases, ◌⊎◌, inl, inr, Option, none, some,
}
use blackjack.Prelude.Result.{Result, ok, >>=-eq-ok, ok_unique}
use blackjack.Model.Status.{is_player_turn}
use blackjack.Model.Room.{Room}
use blackjack.Model.Session.{GameSession}
use blackjack.Model.Log.{RoundLog}
use blackjack.Round.Deal.{Round}
use blackjack.Round.Dealer.{time_forfeit}
use blackjack.Store.{Write, IsStore, KeepsVersions}
use blackjack.Usecase.Service.{Service, Moment, ◌>>>◌}
use blackjack.Usecase.Start.{playing_room}
use blackjack.Usecase.Swap.{
  Swapped, Ran, >>>-ok, swap_session-then, swap_session-Swapped, >>>=-keeps, lift-keeps,
}
use blackjack.Usecase.MoveWrites.{save_snapshot-keeps}
use blackjack.Usecase.Turn.{save_snapshot}
use blackjack.Usecase.Forfeit.{
  is_due, Settlement, Overdue, in_time, play_hit, forfeit, advises_hit, played_round, forfeit_round,
  decide_overdue, forfeit_log, log_round, forfeit_commit,
}

forfeit_inj :
    {a c : Settlement} → ◌≡◌ {A = Result Overdue} (ok (forfeit a)) (ok (forfeit c)) → a ≡ c
forfeit_inj h = cc

module _ (u : Service) (laws : IsStore u.store) (m : Moment) where
  log_round-keeps : (log : Option RoundLog) → KeepsVersions u.store laws (log_round u log)
  unfolding log_round
  log_round-keeps none = lift-keeps u.store laws (ok tt)
  log_round-keeps (some l) = laws.create_round_log-keeps l

  log_round-some :
      (c : Settlement) (log : RoundLog)
      → c.round_log ≡ some log
      → log_round u c.round_log ≡ u.store.create_round_log log
  unfolding log_round
  log_round-some c log h = ap (log_round u) h

  ends_well : (r : Result (Unit {0})) (b : Unit {0}) → r ≡ ok b → r ≡ ok tt
  ends_well r b h = h

  pub forfeit_commit-Swapped :
      (session_id : String) (c : Settlement) (db : u.store.Db) (b : Unit {0})
      → (forfeit_commit u session_id c db).0 ≡ ok b
      → Swapped u.store laws c.round.session c.expected db (forfeit_commit u session_id c db).1
  unfolding forfeit_commit
  forfeit_commit-Swapped session_id c db b h =
      let saved = save_snapshot u (forfeit_log u session_id c.round) c.room.id c.round.session in
      let showed : Write u.store.Db (Unit {0}) = u.store.update_room c.room >>> saved in
      let logged : Write u.store.Db (Unit {0}) = log_round u c.round_log >>> showed in
      let dealt : Write u.store.Db (Unit {0}) =
        u.store.update_dealer_state c.round.dealer >>> logged in
      swap_session-Swapped u laws c.round.session c.expected
        (u.store.update_player_state c.round.player >>> dealt) db b
        (>>>=-keeps u.store laws (u.store.update_player_state c.round.player) (λ x. dealt)
          (laws.update_player_state-keeps c.round.player)
          (λ x.
            >>>=-keeps u.store laws (u.store.update_dealer_state c.round.dealer) (λ y. logged)
              (laws.update_dealer_state-keeps c.round.dealer)
              (λ y.
                >>>=-keeps u.store laws (log_round u c.round_log) (λ z. showed)
                  (log_round-keeps c.round_log)
                  (λ z.
                    >>>=-keeps u.store laws (u.store.update_room c.room) (λ w. saved)
                      (laws.update_room-keeps c.room)
                      (λ w.
                        save_snapshot-keeps u laws (forfeit_log u session_id c.round) c.room.id
                          c.round.session)))))
        h

  -- The writes of a lost round after the swap.
  abbrev pub lost_writes : String → Round → Room → RoundLog → List (Write u.store.Db (Unit {0}))
  lost_writes session_id after shown log =
      u.store.update_player_state after.player
      ∷ u.store.update_dealer_state after.dealer
      ∷ u.store.create_round_log log
      ∷ u.store.update_room shown
      ∷ save_snapshot u (forfeit_log u session_id after) shown.id after.session
      ∷ []

  pub forfeit_commit-Ran :
      (session_id : String) (c : Settlement) (log : RoundLog) (db : u.store.Db) (b : Unit {0})
      → c.round_log ≡ some log
      → (forfeit_commit u session_id c db).0 ≡ ok b
      → Ran u.store
          (lost_writes session_id c.round c.room log)
          (u.store.update_session_if_version c.round.session c.expected db).1
          (forfeit_commit u session_id c db).1
  unfolding forfeit_commit
  forfeit_commit-Ran session_id c log db b logs h =
      let saved = save_snapshot u (forfeit_log u session_id c.round) c.room.id c.round.session in
      let showed : Write u.store.Db (Unit {0}) = u.store.update_room c.room >>> saved in
      let logged : Write u.store.Db (Unit {0}) = log_round u c.round_log >>> showed in
      let dealt : Write u.store.Db (Unit {0}) =
        u.store.update_dealer_state c.round.dealer >>> logged in
      let rest : Write u.store.Db (Unit {0}) =
        u.store.update_player_state c.round.player >>> dealt in
      let (updated, e) = swap_session-then u c.round.session c.expected rest db b h in
      let db0 = (u.store.update_session_if_version c.round.session c.expected db).1 in
      let (a1, e1) =
        >>>-ok u.store (u.store.update_player_state c.round.player) dealt db0 b (cc (e, h)) in
      let db1 = (u.store.update_player_state c.round.player db0).1 in
      let (a2, e2) =
        >>>-ok u.store (u.store.update_dealer_state c.round.dealer) logged db1 b (cc (e, e1, h)) in
      let db2 = (u.store.update_dealer_state c.round.dealer db1).1 in
      let (a3, e3) = >>>-ok u.store (log_round u c.round_log) showed db2 b (cc (e, e1, e2, h)) in
      let db3 = (log_round u c.round_log db2).1 in
      let (a4, e4) =
        >>>-ok u.store (u.store.update_room c.room) saved db3 b (cc (e, e1, e2, e3, h)) in
      let all = e ∙ e1 ∙ e2 ∙ e3 ∙ e4 in
      let written : log_round u c.round_log ≡ u.store.create_round_log log =
        log_round-some c log logs in
      (
        a1,
        (
          a2,
          subst
              (λ (w : Write u.store.Db (Unit {0})).
                ((w db2).0 ≡ ok tt)
                × Ran u.store
                    (u.store.update_room c.room
                      ∷ save_snapshot u (forfeit_log u session_id c.round) c.room.id c.round.session
                      ∷ [])
                    (w db2).1 (forfeit_commit u session_id c db).1)
              written
              (
                a3,
                (
                  a4,
                  (
                    ends_well (saved (u.store.update_room c.room db3).1).0 b
                        (sym (ap (λ p. p.0) all) ∙ h),
                    ap (λ p. p.1) all,
                  ),
                ),
              ),
        ),
      )

  -- The settlement of a lost round.
  abbrev pub IsLost : GameSession → u.store.Db → Settlement → Type 0
  IsLost sess db c =
      (room : Room) × (before : Round) × (played_round u sess db ≡ ok (room, before))
      × (log : RoundLog) × (time_forfeit u.evaluator u.marshal m.now before ≡ ok (c.round, log))
      × (c.expected ≡ before.session.version)
      × (playing_room u m c.round.session room ≡ ok c.room)
      × (c.round_log ≡ some log)

  forfeit_round-lost :
      (room : Room) (before : Round) (c : Settlement)
      → forfeit_round u m room before ≡ ok (forfeit c)
      → (log : RoundLog) × (time_forfeit u.evaluator u.marshal m.now before ≡ ok (c.round, log))
        × (c.expected ≡ before.session.version)
        × (playing_room u m c.round.session room ≡ ok c.room)
        × (c.round_log ≡ some log)
  unfolding forfeit_round
  forfeit_round-lost room before c h =
      let (x, lost, h) = >>=-eq-ok (time_forfeit u.evaluator u.marshal m.now before) _ _ h in
      let (shown, y, h) = >>=-eq-ok (playing_room u m x.0.session room) _ _ h in
      let same = forfeit_inj h in
      (
        x.1,
        subst
            (λ (s : Settlement).
              time_forfeit u.evaluator u.marshal m.now before ≡ ok (s.round, x.1))
            same lost,
        sym (ap (λ (s : Settlement). s.expected) same),
        subst (λ (s : Settlement). playing_room u m s.round.session room ≡ ok s.room) same y,
        sym (ap (λ (s : Settlement). s.round_log) same),
      )

  forfeit_round-only :
      (room : Room) (before : Round) (d : Overdue)
      → forfeit_round u m room before ≡ ok d
      → (c : Settlement) × (d ≡ forfeit c)
  unfolding forfeit_round
  forfeit_round-only room before d h =
      let (x, lost, h) = >>=-eq-ok (time_forfeit u.evaluator u.marshal m.now before) _ _ h in
      let (shown, y, h) = >>=-eq-ok (playing_room u m x.0.session room) _ _ h in
      (_, sym (ok_unique refl h))

  module _ (heuristic : Bool) where
    -- What is decided on a session.
    pub data Decided (sess : GameSession) (db : u.store.Db) (d : Overdue) : Type 0 where
      early :
          d ≡ in_time
          → (is_player_turn sess.status ≡ false) ⊎ (is_due sess.turn_deadline_at m.now ≡ false)
          → Decided sess db d
      advised :
          (room : Room) (r : Round)
          → d ≡ play_hit room.id r.player.user_id sess.version
          → is_player_turn sess.status ≡ true
          → is_due sess.turn_deadline_at m.now ≡ true
          → played_round u sess db ≡ ok (room, r)
          → heuristic ≡ true
          → advises_hit u r.player r.dealer.hand ≡ true
          → Decided sess db d
      late :
          (c : Settlement)
          → d ≡ forfeit c
          → is_player_turn sess.status ≡ true
          → is_due sess.turn_deadline_at m.now ≡ true
          → IsLost sess db c
          → Decided sess db d

    decide_overdue-late :
        (sess : GameSession) (db : u.store.Db) (d : Overdue)
        → is_player_turn sess.status ≡ true
        → is_due sess.turn_deadline_at m.now ≡ true
        → decide_overdue u heuristic m sess db ≡ ok d
        → Decided sess db d
    unfolding decide_overdue
    decide_overdue-late sess db d turn due h =
        let (x, rows, h) = >>=-eq-ok (played_round u sess db) _ _ (rw (turn, due) at h) in
        elim (Bool-cases (heuristic && advises_hit u x.1.player x.1.dealer.hand)) [
          | inl advice ↦
              let (on, said) =
                &&-true heuristic (advises_hit u x.1.player x.1.dealer.hand) advice in
              advised x.0 x.1 (sym (ok_unique refl (rw advice at h))) turn due rows on said
          | inr stands ↦
              let lost = rw stands at h in
              let (c, same) = forfeit_round-only x.0 x.1 d lost in
              let (log, made, expected, shown, logged) =
                forfeit_round-lost x.0 x.1 c (rw same at lost) in
              late c same turn due (x.0, x.1, rows, log, made, expected, shown, logged)
        ]

    not_turn :
        (sess : GameSession) (db : u.store.Db) (d : Overdue)
        → is_player_turn sess.status ≡ false
        → decide_overdue u heuristic m sess db ≡ ok d
        → d ≡ in_time
    unfolding decide_overdue
    not_turn sess db d other h = sym (ok_unique refl (rw other at h))

    not_due :
        (sess : GameSession) (db : u.store.Db) (d : Overdue)
        → is_player_turn sess.status ≡ true
        → is_due sess.turn_deadline_at m.now ≡ false
        → decide_overdue u heuristic m sess db ≡ ok d
        → d ≡ in_time
    unfolding decide_overdue
    not_due sess db d turn other h = sym (ok_unique refl (rw (turn, other) at h))

    pub decide_overdue-Decided :
        (sess : GameSession) (db : u.store.Db) (d : Overdue)
        → decide_overdue u heuristic m sess db ≡ ok d
        → Decided sess db d
    decide_overdue-Decided sess db d h = elim (Bool-cases (is_player_turn sess.status)) [
      | inr other ↦ early (not_turn sess db d other h) (inl other)
      | inl turn ↦ elim (Bool-cases (is_due sess.turn_deadline_at m.now)) [
        | inr other ↦ early (not_due sess db d turn other h) (inr other)
        | inl due ↦ decide_overdue-late sess db d turn due h
      ]
    ]
