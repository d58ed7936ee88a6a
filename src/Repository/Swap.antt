-- ===== src/Repository/Swap.antt =====
-- `UpdateSessionIfVersion` of backend/repository/game_repository.go over a table of rows: the
-- compare-and-swap that the use cases rely on.
use blackjack.Prelude.{
  In, ℕ, String, str_eq, eq_iff, ◌≡◌, refl, sym, ap, ◌∙◌, subst, Bool, true, Bool-cases, &&-true,
  inl, inr, some, map, ◌&&◌, if◌then◌else◌, arith,
}
use blackjack.Prelude.Int.{ℤ, eqb_ℤ, eqb_ℤ-sound}
use blackjack.Prelude.Result.{Result, ok, err, >>=-eq-ok, ok_unique, ok≢err, ◌>>=◌}
use blackjack.Model.Status.{session_status_is_valid}
use blackjack.Model.Session.{GameSession}
use blackjack.Repository.Rows.{GameSessionRecord}
use blackjack.Repository.Text
use blackjack.Repository.Text.{to_session_status, session_status_text}
use blackjack.Repository.Cards.{
  CardCodec, marshal_stored_cards, unmarshal_stored_cards, game_session_record_from_domain,
  game_session_record_to_domain,
}
use blackjack.Repository.Table.{
  Kept, kept, IsTable, count_if-some, map-In, find_version, find_version-row,
}
use blackjack.Repository.Gorm.{Database, Answer, done, failed, unordered, mapped}
use blackjack.Repository.Sessions.{
  assign_columns, at_version, one_row, swap_row, update_session_if_version, get_session,
}

-- The kept columns of a session.
abbrev kept_session : GameSession → Kept
kept_session s = record {
  id = s.id;
  room_id = s.room_id;
  round_no = s.round_no;
  status = session_status_text s.status;
  version = s.version;
  draw_index = s.draw_index;
  turn_seat = s.turn_seat;
}

one_row-true :
    {Db : Type 0} (x : Answer ℕ × Db)
    → (one_row x).0 ≡ ok true
    → (x.0 ≡ done 1) × ((one_row x).1 ≡ x.1)
one_row-true (done n, db) h = (ground arith, refl)
one_row-true (failed e, db) h = cc

to_domain-ok :
    (json : CardCodec) (row : GameSessionRecord) (s : GameSession)
    → game_session_record_to_domain json row ≡ ok s
    → (s.id ≡ row.id)
      × (s.room_id ≡ row.room_id)
      × (s.round_no ≡ row.round_no)
      × (s.version ≡ row.version)
      × (s.created_at ≡ row.created_at)
unfolding game_session_record_to_domain
to_domain-ok json row s h =
    elim (Bool-cases (session_status_is_valid (to_session_status row.status))) [
      | inl e ↦
          let (deck, f, k) = >>=-eq-ok (unmarshal_stored_cards json row.deck) _ s (rw (e) at h) in
          let same = sym (ok_unique refl k) in
          (
            ap (λ (x : GameSession). x.id) same,
            ap (λ (x : GameSession). x.room_id) same,
            ap (λ (x : GameSession). x.round_no) same,
            ap (λ (x : GameSession). x.version) same,
            ap (λ (x : GameSession). x.created_at) same,
          )
      | inr e ↦ absurd (ok≢err (sym (rw (e) at h)))
    ]

-- What a read shows of the kept columns of a row.
to_domain-kept :
    (json : CardCodec) (row : GameSessionRecord) (s : GameSession)
    → game_session_record_to_domain json row ≡ ok s
    → (s.status ≡ to_session_status row.status)
      × (s.draw_index ≡ row.draw_index)
      × (s.turn_seat ≡ row.turn_seat)
unfolding game_session_record_to_domain
to_domain-kept json row s h =
    elim (Bool-cases (session_status_is_valid (to_session_status row.status))) [
      | inl e ↦
          let (deck, f, k) = >>=-eq-ok (unmarshal_stored_cards json row.deck) _ s (rw (e) at h) in
          let same = sym (ok_unique refl k) in
          (
            ap (λ (x : GameSession). x.status) same,
            ap (λ (x : GameSession). x.draw_index) same,
            ap (λ (x : GameSession). x.turn_seat) same,
          )
      | inr e ↦ absurd (ok≢err (sym (rw (e) at h)))
    ]

from_domain-kept :
    (json : CardCodec) (s : GameSession) (row : GameSessionRecord)
    → game_session_record_from_domain json s ≡ ok row
    → kept row ≡ kept_session s
unfolding game_session_record_from_domain
from_domain-kept json s row h =
    let (b, e, f) = >>=-eq-ok (marshal_stored_cards json s.deck) _ row h in
    ap kept (sym (ok_unique refl f))

from_domain-id :
    (json : CardCodec) (s : GameSession) (row : GameSessionRecord)
    → game_session_record_from_domain json s ≡ ok row
    → row.id ≡ s.id
unfolding game_session_record_from_domain
from_domain-id json s row h =
    let (b, e, f) = >>=-eq-ok (marshal_stored_cards json s.deck) _ row h in
    ap (λ (r : GameSessionRecord). r.id) (sym (ok_unique refl f))

-- The condition and the assignment of the update on the kept columns.
abbrev kept_at : String → ℤ → Kept → Bool
kept_at id version k = str_eq k.id id && eqb_ℤ k.version version

abbrev assign_kept : Kept → Kept → Kept
assign_kept new k = record k {
  status = new.status;
  version = new.version;
  draw_index = new.draw_index;
  turn_seat = new.turn_seat;
}

matches :
    (id : String) (version : ℤ) (k : Kept)
    → kept_at id version k ≡ true
    → (k.id ≡ id) × (k.version ≡ version)
matches id version k h =
    let (a, b) = &&-true (str_eq k.id id) (eqb_ℤ k.version version) h in
    ((eq_iff k.id id).0 a, eqb_ℤ-sound k.version version b)

module _ (g : Database) (json : CardCodec) where
  -- A row that answers a read by its id.
  read_row :
      (id : String) (db : g.Db) (s : GameSession)
      → get_session g json id db ≡ ok s
      → (row : GameSessionRecord) × (g.game_sessions.first (λ rec. str_eq rec.id id) unordered db
          ≡ done row)
        × (game_session_record_to_domain json row ≡ ok s)
  unfolding get_session
  read_row id db s h =
      from_answer (g.game_sessions.first (λ rec. str_eq rec.id id) unordered db) s h
    where
      from_answer :
          (a : Answer GameSessionRecord) (s : GameSession)
          → (mapped a >>= game_session_record_to_domain json) ≡ ok s
          → (row : GameSessionRecord) × (a ≡ done row)
            × (game_session_record_to_domain json row ≡ ok s)
      from_answer (done row) s h = (row, refl, h)
      from_answer (failed e) s h = cc

  swap_row-true :
      (r : Result GameSessionRecord) (version : ℤ) (db : g.Db)
      → (swap_row g json r version db).0 ≡ ok true
      → (row : GameSessionRecord) × (r ≡ ok row)
        × ((g.game_sessions.updates (at_version row.id version) (assign_columns row) db).0 ≡ done 1)
        × ((swap_row g json r version db).1
            ≡ (g.game_sessions.updates (at_version row.id version) (assign_columns row) db).1)
  unfolding swap_row
  swap_row-true (err e) version db h = cc
  swap_row-true (ok row) version db h =
      let (d, k) =
        one_row-true (g.game_sessions.updates (at_version row.id version) (assign_columns row) db)
          h in
      (row, refl, d, k)

  -- The one row that the update changed, before and after.
  updated_row :
      (t : IsTable g.game_sessions) (session : GameSession) (version : ℤ) (db : g.Db)
      → (update_session_if_version g json session version db).0 ≡ ok true
      → (k : Kept) × In k (t.rows db)
        × (k.id ≡ session.id)
        × (k.version ≡ version)
        × In
            (assign_kept (kept_session session) k)
            (t.rows (update_session_if_version g json session version db).1)
  unfolding update_session_if_version
  updated_row t session version db h =
      let (srow, c, d, moved) =
        swap_row-true (game_session_record_from_domain json session) version db h in
      let same = from_domain-kept json session srow c in
      let sid = ap (λ (k : Kept). k.id) same in
      let q = kept_at srow.id version in
      let f = assign_kept (kept srow) in
      let (n, stored) =
        t.updated (at_version srow.id version) (assign_columns srow) q f 1 db (λ r. refl)
          (λ r. refl) d in
      let (k, m, p) = count_if-some q (t.rows db) (sym n) in
      let (i, v) = matches srow.id version k p in
      let m' = map-In (λ r. if q r then f r else r) k (t.rows db) m in
      let m'' : In (assign_kept (kept srow) k) (map (λ r. if q r then f r else r) (t.rows db)) =
        subst (λ x. In x (map (λ r. if q r then f r else r) (t.rows db)))
          (ap (λ b. if b then f k else k) p) m' in
      (
        k,
        m,
        i ∙ sid,
        v,
        subst
            (λ x.
              In (assign_kept x k) (t.rows (update_session_if_version g json session version db).1))
            same (subst (In (assign_kept (kept srow) k)) (sym (ap t.rows moved ∙ stored)) m''),
      )

  -- A session that is read shows the kept columns of a row of the table.
  read_kept :
      (t : IsTable g.game_sessions) (id : String) (db : g.Db) (s : GameSession)
      → get_session g json id db ≡ ok s
      → (k : Kept) × In k (t.rows db)
        × (k.id ≡ id)
        × (s.room_id ≡ k.room_id)
        × (s.round_no ≡ k.round_no)
        × (s.version ≡ k.version)
        × (s.status ≡ to_session_status k.status)
        × (s.draw_index ≡ k.draw_index)
        × (s.turn_seat ≡ k.turn_seat)
  read_kept t id db s h =
      let (row, f, c) = read_row id db s h in
      let (m, p) = t.found _ row db f in
      let (_, room, round, version, _) = to_domain-ok json row s c in
      let (status, draw, seat) = to_domain-kept json row s c in
      (kept row, m, (eq_iff row.id id).0 p, room, round, version, status, draw, seat)

  -- When the conditional update answers `true`, the session had the expected version. Where it is read again
  -- afterwards, it has the version, the named status, the draw index and the seat of the new session and the
  -- room and the round number that it had; times and JSON are not claimed to be read as they were written.
  pub update_session_if_version-swaps :
      (t : IsTable g.game_sessions) (session prev next : GameSession) (version : ℤ) (db : g.Db)
      → session_status_is_valid session.status ≡ true
      → get_session g json session.id db ≡ ok prev
      → (update_session_if_version g json session version db).0 ≡ ok true
      → get_session g json session.id (update_session_if_version g json session version db).1
        ≡ ok next
      → (prev.version ≡ version)
        × (next.version ≡ session.version)
        × (next.status ≡ session.status)
        × (next.draw_index ≡ session.draw_index)
        × (next.turn_seat ≡ session.turn_seat)
        × (next.room_id ≡ prev.room_id)
        × (next.round_no ≡ prev.round_no)
  update_session_if_version-swaps t session prev next version db valid before h after =
      let db' = (update_session_if_version g json session version db).1 in
      let (k, m, i, v, m') = updated_row t session version db h in
      let (k0, m0, i0, room0, round0, version0, _, _, _) = read_kept t session.id db prev before in
      let (k1, m1, i1, room1, round1, version1, status1, draw1, seat1) =
        read_kept t session.id db' next after in
      let old : k0 ≡ k = t.primary_key k0 k db m0 m (i0 ∙ sym i) in
      let new : k1 ≡ assign_kept (kept_session session) k =
        t.primary_key k1 (assign_kept (kept_session session) k) db' m1 m' (i1 ∙ sym i) in
      (
        version0 ∙ ap (λ (x : Kept). x.version) old ∙ v,
        version1 ∙ ap (λ (x : Kept). x.version) new,
        status1
            ∙ ap (λ (x : Kept). to_session_status x.status) new
            ∙ Text.to_session_status-text session.status valid,
        draw1 ∙ ap (λ (x : Kept). x.draw_index) new,
        seat1 ∙ ap (λ (x : Kept). x.turn_seat) new,
        room1
            ∙ ap (λ (x : Kept). x.room_id) new
            ∙ sym (ap (λ (x : Kept). x.room_id) old)
            ∙ sym room0,
        round1
            ∙ ap (λ (x : Kept). x.round_no) new
            ∙ sym (ap (λ (x : Kept). x.round_no) old)
            ∙ sym round0,
      )

  -- The update on the version that an id finds.
  pub update_session_if_version-version :
      (t : IsTable g.game_sessions) (session : GameSession) (version : ℤ) (db : g.Db)
      → (update_session_if_version g json session version db).0 ≡ ok true
      → (find_version session.id (t.rows db) ≡ some version)
        × (find_version session.id (t.rows (update_session_if_version g json session version db).1)
            ≡ some session.version)
  update_session_if_version-version t session version db h =
      let (k, m, i, v, m') = updated_row t session version db h in
      (
        subst (λ id. find_version id (t.rows db) ≡ some version) i
            (find_version-row t k db m ∙ ap some v),
        subst
            (λ id.
              find_version id (t.rows (update_session_if_version g json session version db).1)
              ≡ some session.version)
            i (find_version-row t (assign_kept (kept_session session) k) _ m'),
      )
