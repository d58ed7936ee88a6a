-- ===== src/Tests/Memory.antt =====
-- A store in memory with one room, one seat and one round, and the proof that it is a store.
use blackjack.Prelude.{
  ◌≡◌, refl, ap, Option, none, some, String, str_eq, Bool, true, false, ◌&&◌, [], ◌∷◌,
  if◌then◌else◌,
}
use blackjack.Prelude.Int.{ℤ, eqb_ℤ, eqb_ℤ-sound}
use blackjack.Prelude.Result.{Error, Result, ok, err, not_found, already_exists}
use blackjack.Model.Room.{Room, RoomPlayer}
use blackjack.Model.Session.{GameSession}
use blackjack.Model.Player.{PlayerState, DealerState}
use blackjack.Model.Account.{User}
use blackjack.Store.{Store, Write, IsStore}

pub record Db : Type 0 where
  pub room : Room
  pub seat : RoomPlayer
  pub session : GameSession
  pub player : PlayerState
  pub dealer : DealerState
  pub account : User

abbrev found : {A : Type 0} → String → String → A → Result A
found key id row = if str_eq key id then ok row else err not_found

abbrev unchanged : {A : Type 0} → A → Write Db (Unit {0})
unchanged row db = (ok tt, db)

abbrev matches : GameSession → GameSession → ℤ → Bool
matches prev session version = str_eq prev.id session.id && eqb_ℤ prev.version version

-- The row that `UpdateSessionIfVersion` leaves: every column of the new session but the room, the
-- round number and the time of creation.
abbrev overwritten : GameSession → GameSession → GameSession
overwritten prev s = record prev {
  status = s.status;
  version = s.version;
  deck = s.deck;
  draw_index = s.draw_index;
  turn_seat = s.turn_seat;
  turn_deadline_at = s.turn_deadline_at;
  result_snapshot = s.result_snapshot;
  rematch_deadline_at = s.rematch_deadline_at;
  updated_at = s.updated_at;
}

abbrev update_if : Bool → GameSession → Db → Result Bool × Db
update_if true session db = (ok true, record db { session = overwritten db.session session })
update_if false session db = (ok false, db)

abbrev commit : {A : Type 0} → Db → Result A × Db → Result A × Db
commit db (ok a, db') = (ok a, db')
commit db (err e, db') = (err e, db)

abbrev pub memory : Store
memory = record {
  Db = Db;
  create_room = λ r db. (ok tt, record db { room = r });
  update_room = λ r db. (ok tt, record db { room = r });
  get_room = λ id db. found db.room.id id db.room;
  list_rooms_by_user_id = λ user_id db. ok (db.room ∷ []);
  delete_room_players_by_room_id = unchanged;
  count_rooms = λ db. ok 1;
  create_session = λ s db. (ok tt, record db { session = s });
  update_session = λ s db. (ok tt, record db { session = s });
  update_session_if_version = λ s version db. update_if (matches db.session s version) s db;
  get_session = λ id db. found db.session.id id db.session;
  get_session_for_update = λ id db. found db.session.id id db.session;
  get_latest_session_by_room_id = λ id db. ok db.session;
  list_sessions_by_status_and_deadline_before = λ status at db. ok (db.session ∷ []);
  list_resetting_sessions_due_by = λ at db. ok (db.session ∷ []);
  list_sessions_by_status = λ status db. ok (db.session ∷ []);
  delete_game_sessions_by_room_id = unchanged;
  count_sessions = λ db. ok 1;
  create_room_player = λ p db. (ok tt, record db { seat = p });
  update_room_player = λ p db. (ok tt, record db { seat = p });
  get_room_player = λ room_id user_id db. found db.seat.user_id user_id db.seat;
  list_room_players_by_room_id = λ room_id db. ok (db.seat ∷ []);
  create_player_state = λ p db. (ok tt, record db { player = p });
  update_player_state = λ p db. (ok tt, record db { player = p });
  get_player_state = λ session_id user_id db. found db.player.user_id user_id db.player;
  list_player_states_by_session_id = λ session_id db. ok (db.player ∷ []);
  create_dealer_state = λ d db. (ok tt, record db { dealer = d });
  update_dealer_state = λ d db. (ok tt, record db { dealer = d });
  get_dealer_state = λ session_id db. ok db.dealer;
  create_user = λ u db.
      if str_eq db.account.username u.username
      then (err already_exists, db)
      else (ok tt, record db { account = u });
  get_user_by_username = λ username db. found db.account.username username db.account;
  get_user_by_id = λ id db. found db.account.id id db.account;
  upsert_session = unchanged;
  get_auth_session = λ id db. err not_found;
  delete_session = unchanged;
  delete_sessions_by_user_id = unchanged;
  delete_expired_sessions = λ db. (ok tt, db);
  create_action_log = unchanged;
  get_action_log_by_action_id = λ session_id user_id action_id db. err not_found;
  upsert_rematch_vote = unchanged;
  list_rematch_votes = λ session_id db. ok [];
  create_round_log = unchanged;
  get_round_log = λ session_id round_no db. err not_found;
  list_round_logs_by_room_id = λ room_id db. ok [];
  transaction = λ body db. commit db (body db);
}

commit_failed :
    {A : Type 0} (db : Db) (r : Result A × Db) (e : Error)
    → (commit db r).0 ≡ err e
    → (commit db r).1 ≡ db
commit_failed db (ok a, db') e h = cc
commit_failed db (err x, db') e h = refl

commit_done :
    {A : Type 0} (db : Db) (r : Result A × Db) (a : A) → (commit db r).0 ≡ ok a → commit db r ≡ r
commit_done db (ok b, db') a h = refl
commit_done db (err x, db') a h = cc

abbrev version_at : String → Db → Option ℤ
version_at id db = if str_eq db.session.id id then some db.session.version else none

update_if-swapped :
    (same_id same_version : Bool) (session : GameSession) (version : ℤ) (db : Db)
    → str_eq db.session.id session.id ≡ same_id
    → eqb_ℤ db.session.version version ≡ same_version
    → (update_if (same_id && same_version) session db).0 ≡ ok true
    → (version_at session.id db ≡ some version)
      × (version_at session.id (update_if (same_id && same_version) session db).1
          ≡ some session.version)
update_if-swapped true true session version db hid hversion h =
    (rw hid (ap some (eqb_ℤ-sound _ _ hversion)), rw hid refl)
update_if-swapped true false session version db hid hversion h = cc
update_if-swapped false true session version db hid hversion h = cc
update_if-swapped false false session version db hid hversion h = cc

pub memory_laws : IsStore memory
memory_laws = record {
  version_in = version_at;
  transaction_failed = λ body db e h. commit_failed db (body db) e h;
  transaction_done = λ body db a h. commit_done db (body db) a h;
  swapped = λ session version db h.
      update_if-swapped (str_eq db.session.id session.id) (eqb_ℤ db.session.version version) session
        version db refl refl h;
  update_room_player_failed = λ p db e h. cc h;
  update_room-keeps = λ r id db. refl;
  update_player_state-keeps = λ p id db. refl;
  update_dealer_state-keeps = λ d id db. refl;
  create_action_log-keeps = λ a id db. refl;
  create_round_log-keeps = λ l id db. refl;
}
