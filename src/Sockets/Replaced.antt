-- ===== src/Sockets/Replaced.antt =====
-- A player who connects anew (backend/controller/room_ws_controller.go): what the end of the older
-- connection does.
use blackjack.Prelude.{
  ℕ, String, eq_refl, ◌≡◌, ◌≢◌, refl, subst, ◌∙◌, true, false, ◌==◌, In, inl, Option, arith,
}
use blackjack.Web.Hub.{Hub, hub_key, add, remove, snapshot, is_latest, delete_conn, forget_conn}
use blackjack.Sockets.Site.{Site, World, Connection, Opened, connected}
use blackjack.Sockets.Open.{Handshake, room_ws}
use blackjack.Sockets.Opens.{IsAdmitted, Outcome, room_ws-Outcome}
use blackjack.Sockets.Close.{close}

apart : (a b : ℕ) → a ≢ b → (a == b) ≡ false
apart a b h = ground arith

same : (a : ℕ) → (a == a) ≡ true
same a = ground arith

-- In a hub that has just taken the connection `conn`, the removal of another one leaves `conn` in place.
module _ (room user : String) (conn old : ℕ) (differ : conn ≢ old) (h : Hub) where
  added_latest : is_latest room user conn (add room conn user h).1 ≡ true
  unfolding is_latest add
  added_latest = rw (eq_refl (hub_key room user)) (same conn)

  old_not_latest : is_latest room user old (add room conn user h).1 ≡ false
  unfolding is_latest add
  old_not_latest = rw (eq_refl (hub_key room user)) (apart conn old differ)

  kept_latest : is_latest room user conn (remove room old (add room conn user h).1) ≡ true
  unfolding is_latest add remove forget_conn
  kept_latest = rw (eq_refl room, eq_refl (hub_key room user), apart conn old differ) (same conn)

  kept_in : In (conn, user) (snapshot room (remove room old (add room conn user h).1))
  unfolding snapshot add remove delete_conn
  kept_in = rw (eq_refl room, apart conn old differ, eq_refl room) (inl refl)

module _ (s : Site) where
  -- After the end of the older connection the newer one is in the hub as the latest one.
  abbrev pub IsInPlace : Connection → World s → Type 0
  IsInPlace c w =
      In (c.conn, c.user_id) (snapshot c.room_id w.hub)
      × (is_latest c.room_id c.user_id c.conn w.hub ≡ true)

  closed_quietly :
      (others : s.service.store.Db → s.service.store.Db) (c old : Connection) (w : World s)
      (h : Hub)
      → w.hub ≡ (add c.room_id c.conn c.user_id h).1
      → old.room_id ≡ c.room_id
      → old.user_id ≡ c.user_id
      → c.conn ≢ old.conn
      → ((close s others old w).db ≡ w.db) × IsInPlace c (close s others old w)
  unfolding close
  closed_quietly others c old w h e room user differ = (
    rw (room, user, e, old_not_latest c.room_id c.user_id c.conn old.conn differ h) refl,
    (
      rw (room, e) (kept_in c.room_id c.user_id c.conn old.conn differ h),
      rw (room, e) (kept_latest c.room_id c.user_id c.conn old.conn differ h),
    ),
  )

  entered :
      (h : Handshake) (v w : World s) (c : Connection) (replaced : Option ℕ)
      (game_session : Option String) (jti : String) (x : Opened × World s)
      → x ≡ (connected c replaced game_session jti, w)
      → Outcome s h v x
      → w.hub ≡ (add c.room_id c.conn c.user_id v.hub).1
  entered h v w c replaced game_session jti x e o =
      let a : IsAdmitted s h v w c replaced jti = subst (Outcome s h v) e o in a.entered

  -- A player who connects anew keeps his place: when his older connection ends, with the hub as the new
  -- one left it, nothing changes in the database, and the new connection stays in the room's table as the
  -- latest one.
  pub room_ws-close :
      (others others' : s.service.store.Db → s.service.store.Db) (h : Handshake)
      (v w later : World s) (c old : Connection) (replaced : Option ℕ)
      (game_session : Option String) (jti : String)
      → room_ws s others h v ≡ (connected c replaced game_session jti, w)
      → later.hub ≡ w.hub
      → old.room_id ≡ c.room_id
      → old.user_id ≡ c.user_id
      → c.conn ≢ old.conn
      → ((close s others' old later).db ≡ later.db) × IsInPlace c (close s others' old later)
  room_ws-close others others' h v w later c old replaced game_session jti e unchanged room user
        differ =
      closed_quietly others' c old later v.hub
        (unchanged ∙ entered h v w c replaced game_session jti _ e (room_ws-Outcome s others h v))
        room user differ
