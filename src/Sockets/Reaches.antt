-- ===== src/Sockets/Reaches.antt =====
-- Whom a broadcast reaches (backend/controller/room_ws_controller.go).
use blackjack.Prelude.{
  ℕ, String, ◌≡◌, refl, sym, ap, subst, ◌∙◌, Bool, true, Bool-cases, In, ◌⊎◌, inl, inr, [], ◌∷◌,
  Option, none, some,
}
use mathlib.Core.Logic.{◌↔◌}
use blackjack.Prelude.Result.{Result, ok, err}
use blackjack.Model.Room.{Time}
use blackjack.Usecase.Access.{RoomState, get_room_state}
use blackjack.Web.Hub.{Hub, Connections, remove, snapshot}
use blackjack.Web.Payload.{build_room_dto}
use blackjack.Sockets.Site.{Site, World}
use blackjack.Sockets.Broadcast.{
  WsRoomStateSyncEvent, Sent, event_of, message_for, deliver, send_all, broadcast_room_state_local,
}

module _ (s : Site) (format : Time → String) (writes : ℕ → Bool) (event room_id : String) where
  -- The player's view of the room on the connection `conn`, which can be written to.
  pub record IsView (connections : Connections) (db : s.service.store.Db) (conn : ℕ)
      (message : WsRoomStateSyncEvent) : Type 0 where
    pub user_id : String
    pub member : In (conn, user_id) connections
    pub state : RoomState
    pub reads : get_room_state s.service room_id user_id db ≡ ok state
    pub shown : message ≡ record { event = event; payload = build_room_dto format state user_id }
    pub written : writes conn ≡ true

  weaken :
      {connections : Connections} {db : s.service.store.Db} {conn : ℕ}
      {message : WsRoomStateSyncEvent} (x : ℕ × String)
      → IsView connections db conn message
      → IsView (x ∷ connections) db conn message
  weaken x v = record {
    user_id = v.user_id;
    member = inr v.member;
    state = v.state;
    reads = v.reads;
    shown = v.shown;
    written = v.written;
  }

  event_of-some :
      (user_id : String) (r : Result RoomState) (message : WsRoomStateSyncEvent)
      → event_of s format writes event room_id user_id r ≡ some message
      → (state : RoomState) × (r ≡ ok state)
        × (message ≡ record { event = event; payload = build_room_dto format state user_id })
  event_of-some user_id (ok state) message h = (state, refl, (cc))
  event_of-some user_id (err e) message h = cc

  delivered :
      (c : ℕ) (o : Option WsRoomStateSyncEvent) (rest : Hub → Sent × Hub) (hub : Hub) (conn : ℕ)
      (message : WsRoomStateSyncEvent)
      → In (conn, message) (deliver s format writes event room_id c o rest hub).0
      → ((conn ≡ c) × (o ≡ some message) × (writes c ≡ true))
        ⊎ ((hub' : Hub) × In (conn, message) (rest hub').0)
  unfolding deliver
  delivered c none rest hub conn message m = inr (hub, m)
  delivered c (some x) rest hub conn message m = elim (Bool-cases (writes c)) [
    | inl e ↦ first e (rw (e) at m)
    | inr e ↦ inr (remove room_id c hub, rw (e) at m)
  ]
    where
      first :
          writes c ≡ true
          → In (conn, message) ((c, x) ∷ (rest hub).0)
          → ((conn ≡ c)
              × (◌≡◌ {A = Option WsRoomStateSyncEvent} (some x) (some message))
              × (writes c ≡ true))
            ⊎ ((hub' : Hub) × In (conn, message) (rest hub').0)
      first e (inl p) = inl (
        ap (λ (y : ℕ × WsRoomStateSyncEvent). y.0) p,
        ap some (sym (ap (λ (y : ℕ × WsRoomStateSyncEvent). y.1) p)),
        e,
      )
      first e (inr n) = inr (hub, n)

  sent-IsView :
      (connections : Connections) (db : s.service.store.Db) (hub : Hub) (conn : ℕ)
      (message : WsRoomStateSyncEvent)
      → In (conn, message) (send_all s format writes event room_id connections db hub).0
      → IsView connections db conn message
  unfolding send_all message_for
  sent-IsView [] db hub conn message m = absurd m
  sent-IsView ((c, user_id) ∷ connections) db hub conn message m =
      here
        (delivered c _ (send_all s format writes event room_id connections db) hub conn message m)
        (λ hub'. sent-IsView connections db hub' conn message)
    where
      here :
          ((conn ≡ c)
              × (message_for s format writes event room_id user_id db ≡ some message)
              × (writes c ≡ true))
            ⊎ ((hub' : Hub) × In
                  (conn, message)
                  (send_all s format writes event room_id connections db hub').0)
          → ((hub' : Hub)
              → In (conn, message) (send_all s format writes event room_id connections db hub').0
              → IsView connections db conn message)
          → IsView ((c, user_id) ∷ connections) db conn message
      here (inl (p, q, e)) ih =
          let (state, r, shown) = event_of-some user_id _ message q in
          record {
            user_id = user_id;
            member = inl (ap (λ x. (x, user_id)) p);
            state = state;
            reads = r;
            shown = shown;
            written = ap writes p ∙ e;
          }
      here (inr (hub', n)) ih = weaken (c, user_id) (ih hub' n)

  deliver_first :
      (c : ℕ) (message : WsRoomStateSyncEvent) (rest : Hub → Sent × Hub) (hub : Hub)
      → writes c ≡ true
      → In (c, message) (deliver s format writes event room_id c (some message) rest hub).0
  unfolding deliver
  deliver_first c message rest hub e = rw (e) (inl refl)

  deliver_rest :
      (c : ℕ) (o : Option WsRoomStateSyncEvent) (rest : Hub → Sent × Hub) (hub : Hub) (conn : ℕ)
      (message : WsRoomStateSyncEvent)
      → ((hub' : Hub) → In (conn, message) (rest hub').0)
      → In (conn, message) (deliver s format writes event room_id c o rest hub).0
  unfolding deliver
  deliver_rest c none rest hub conn message h = h hub
  deliver_rest c (some x) rest hub conn message h = elim (Bool-cases (writes c)) [
    | inl e ↦ rw (e) (inr (h hub))
    | inr e ↦ rw (e) (h (remove room_id c hub))
  ]

  IsView-sent :
      (connections : Connections) (db : s.service.store.Db) (hub : Hub) (conn : ℕ)
      (user_id : String) (state : RoomState)
      → In (conn, user_id) connections
      → get_room_state s.service room_id user_id db ≡ ok state
      → writes conn ≡ true
      → In
          (conn, record { event = event; payload = build_room_dto format state user_id })
          (send_all s format writes event room_id connections db hub).0
  unfolding send_all message_for
  IsView-sent [] db hub conn user_id state m reads written = absurd m
  IsView-sent ((c, u) ∷ connections) db hub conn user_id state (inl p) reads written =
      let message : WsRoomStateSyncEvent = record {
        event = event;
        payload = build_room_dto format state user_id;
      } in
      let rest = send_all s format writes event room_id connections db in
      let e : message_for s format writes event room_id user_id db ≡ some message =
        ap (event_of s format writes event room_id user_id) reads in
      subst
        (λ (x : ℕ × String).
          In (conn, message)
            (deliver s format writes event room_id x.0
              (message_for s format writes event room_id x.1 db) rest hub).0)
        p
        (subst (λ o. In (conn, message) (deliver s format writes event room_id conn o rest hub).0)
          (sym e) (deliver_first conn message rest hub written))
  IsView-sent ((c, u) ∷ connections) db hub conn user_id state (inr n) reads written =
      deliver_rest c _ (send_all s format writes event room_id connections db) hub conn _
        (λ hub'. IsView-sent connections db hub' conn user_id state n reads written)

  -- A broadcast sends a message on a connection exactly when the connection is in the room's table and can
  -- be written to, the state of the room can be read for its player, and the message is his view of it.
  pub broadcast-IsView :
      (w : World s) (conn : ℕ) (message : WsRoomStateSyncEvent)
      → In (conn, message) (broadcast_room_state_local s format writes event room_id w).0
        ↔ IsView (snapshot room_id w.hub) w.db conn message
  unfolding broadcast_room_state_local
  broadcast-IsView w conn message = (
    sent-IsView (snapshot room_id w.hub) w.db w.hub conn message,
    λ v.
        subst
          (λ x.
            In (conn, x)
              (send_all s format writes event room_id (snapshot room_id w.hub) w.db w.hub).0)
          (sym v.shown)
          (IsView-sent (snapshot room_id w.hub) w.db w.hub conn v.user_id v.state v.member v.reads
            v.written),
  )
