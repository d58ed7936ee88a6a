-- ===== src/Usecase/MoveWrites.antt =====
-- The writes of Hit and Stand in backend/usecase/game_usecase.go: which of them ran when a move is answered.
use blackjack.Prelude.{◌≡◌, subst, sym, refl, ap, ◌∙◌, List, [], ◌∷◌, String}
use blackjack.Prelude.Result.{ok, ok_unique}
use blackjack.Model.Room.{Room}
use blackjack.Model.Session.{GameSession}
use blackjack.Model.Log.{ActionLog}
use blackjack.Round.Deal.{Round}
use blackjack.Round.Dealer.{Payload}
use blackjack.Store.{Write, IsStore, KeepsVersions}
use blackjack.Usecase.Service.{Service, ◌>>>◌, lift}
use blackjack.Usecase.Idempotency.{save_action_success_snapshot}
use blackjack.Usecase.Turn.{Change, turn_commit, save_snapshot}
use blackjack.Usecase.Swap.{
  Swapped, Ran, >>>-ok, >>>=-keeps, lift-keeps, swap_session-then, swap_session-Swapped,
}

module _ (u : Service) (laws : IsStore u.store) where
  pub save_snapshot-keeps :
      (log : ActionLog) (room_id : String) (sess : GameSession)
      → KeepsVersions u.store laws (save_snapshot u log room_id sess)
  unfolding save_snapshot save_action_success_snapshot
  save_snapshot-keeps log room_id sess =
      >>>=-keeps u.store laws _ _
        (lift-keeps u.store laws (u.marshal (Payload.snapshot room_id sess.id sess.version)))
        λ snapshot. laws.create_action_log-keeps _

  -- The writes of a move after the swap, last part first.
  abbrev saved : Change → Write u.store.Db (Room × GameSession)
  saved c = save_snapshot u c.log c.room.id c.round.session >>> lift (ok (c.room, c.round.session))

  abbrev room_saved : Change → Write u.store.Db (Room × GameSession)
  room_saved c = u.store.update_room c.room >>> saved c

  abbrev dealer_saved : Change → Write u.store.Db (Room × GameSession)
  dealer_saved c = u.store.update_dealer_state c.round.dealer >>> room_saved c

  abbrev after_swap : Change → Write u.store.Db (Room × GameSession)
  after_swap c = u.store.update_player_state c.round.player >>> dealer_saved c

  saved-keeps : (c : Change) → KeepsVersions u.store laws (saved c)
  saved-keeps c =
      >>>=-keeps u.store laws (save_snapshot u c.log c.room.id c.round.session)
        (λ _. lift (ok (c.room, c.round.session)))
        (save_snapshot-keeps c.log c.room.id c.round.session)
        λ _. lift-keeps u.store laws {A = Room × GameSession} (ok (c.room, c.round.session))

  after_swap-keeps : (c : Change) → KeepsVersions u.store laws (after_swap c)
  after_swap-keeps c =
      >>>=-keeps u.store laws (u.store.update_player_state c.round.player) (λ _. dealer_saved c)
        (laws.update_player_state-keeps c.round.player)
        λ _.
          >>>=-keeps u.store laws (u.store.update_dealer_state c.round.dealer) (λ _. room_saved c)
            (laws.update_dealer_state-keeps c.round.dealer)
            λ _.
              >>>=-keeps u.store laws (u.store.update_room c.room) (λ _. saved c)
                (laws.update_room-keeps c.room) λ _. saved-keeps c

  -- The writes of a move after the swap.
  abbrev pub move_writes : ActionLog → Room → Round → List (Write u.store.Db (Unit {0}))
  move_writes log shown after =
      u.store.update_player_state after.player
      ∷ u.store.update_dealer_state after.dealer
      ∷ u.store.update_room shown
      ∷ save_snapshot u log shown.id after.session
      ∷ []

  -- They all ran, and the answer is what was written.
  after_swap-Ran :
      (c : Change) (db : u.store.Db) (b : Room × GameSession)
      → (after_swap c db).0 ≡ ok b
      → Ran u.store (move_writes c.log c.room c.round) db (after_swap c db).1
        × ((c.room, c.round.session) ≡ b)
  after_swap-Ran c db b h =
      let (a1, e1) =
        >>>-ok u.store (u.store.update_player_state c.round.player) (dealer_saved c) db b h in
      let db1 = (u.store.update_player_state c.round.player db).1 in
      let (a2, e2) =
        >>>-ok u.store (u.store.update_dealer_state c.round.dealer) (room_saved c) db1 b
          (cc (e1, h)) in
      let db2 = (u.store.update_dealer_state c.round.dealer db1).1 in
      let (a3, e3) = >>>-ok u.store (u.store.update_room c.room) (saved c) db2 b (cc (e1, e2, h)) in
      let db3 = (u.store.update_room c.room db2).1 in
      let (a4, e4) =
        >>>-ok u.store (save_snapshot u c.log c.room.id c.round.session)
          (lift (ok (c.room, c.round.session))) db3 b (cc (e1, e2, e3, h)) in
      let all = e1 ∙ e2 ∙ e3 ∙ e4 in
      ((a1, (a2, (a3, (a4, ap (λ p. p.1) all)))), ok_unique refl (sym (ap (λ p. p.0) all) ∙ h))

  -- A move that is written replaces the row of its session under the version that it expected, and
  -- writes the hands, the room and the log.
  pub turn_commit-writes :
      (c : Change) (db : u.store.Db) (b : Room × GameSession)
      → (turn_commit u c db).0 ≡ ok b
      → Swapped u.store laws c.round.session c.expected db (turn_commit u c db).1
        × Ran u.store
            (move_writes c.log c.room c.round)
            (u.store.update_session_if_version c.round.session c.expected db).1
            (turn_commit u c db).1
        × ((c.room, c.round.session) ≡ b)
  unfolding turn_commit
  turn_commit-writes c db b h =
      let (updated, e) = swap_session-then u c.round.session c.expected (after_swap c) db b h in
      let db1 = (u.store.update_session_if_version c.round.session c.expected db).1 in
      let (ran, same) = after_swap-Ran c db1 b (cc (e, h)) in
      (
        swap_session-Swapped u laws c.round.session c.expected (after_swap c) db b
            (after_swap-keeps c) h,
        subst (Ran u.store (move_writes c.log c.room c.round) db1) (sym (ap (λ p. p.1) e)) ran,
        same,
      )
