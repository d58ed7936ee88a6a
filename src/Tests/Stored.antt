-- ===== src/Tests/Stored.antt =====
-- Witnesses for the properties of the repository: a database with one row of sessions and a codec that
-- knows one deck.
use blackjack.Prelude.{
  In, String, str_eq, eq_iff, ◌≡◌, ◌≢◌, refl, sym, ap, ◌∙◌, Bool, true, false, &&-true, true≢false,
  ◌&&◌, inl, inr, List, [], ◌∷◌, Option, none, some, if◌then◌else◌,
}
use blackjack.Prelude.Int.{pos}
use blackjack.Prelude.Result.{Error, Result, ok, err, ok_unique, not_found, room_full, ◌>>=◌}
use blackjack.Model.Status.{SessionStatus, system}
use blackjack.Model.Session.{StoredCard, GameSession}
use blackjack.Model.Log.{ActionLog}
use blackjack.Repository.Rows.{GameSessionRecord}
use blackjack.Repository.Cards
use blackjack.Repository.Cards.{CardCodec, IsCardCodec}
use blackjack.Repository.Gorm.{Table, Database, done, failed, record_not_found, pg_error}
use blackjack.Repository.Table.{Kept, kept, IsTable}
use blackjack.Repository.Laws
use blackjack.Repository.RoundTrip
use blackjack.Repository.Sessions
use blackjack.Repository.Swap
use blackjack.Repository.Errors
use blackjack.Repository.Pg
use blackjack.Repository.Text
use blackjack.Usecase.Seats
use blackjack.Tests.Requests.{service, seat as joiner}

abbrev card : StoredCard
card = record { rank = "A"; suit = "H" }

abbrev is_card : List StoredCard → Bool
is_card (c ∷ []) = str_eq c.rank "A" && str_eq c.suit "H"
is_card _ = false

is_card_sound : (cards : List StoredCard) → is_card cards ≡ true → cards ≡ card ∷ []
is_card_sound [] h = cc
is_card_sound (c ∷ []) h =
    let (p, q) = &&-true (str_eq c.rank "A") (str_eq c.suit "H") h in
    cc ((eq_iff c.rank "A").0 p, (eq_iff c.suit "H").0 q)
is_card_sound (c ∷ d ∷ cards) h = cc

-- The codec of the deck of one ace.
abbrev codec : CardCodec
codec = record {
  marshal = λ cards. if is_card cards then ok "[ace]" else err (Error.other "too long");
  unmarshal = λ b. if str_eq b "[]" then ok [] else ok (card ∷ []);
}

abbrev encoded : Bool → Result String
encoded b = if b then ok "[ace]" else err (Error.other "too long")

encoded-text : (e : Bool) (b : String) → encoded e ≡ ok b → (e ≡ true) × ("[ace]" ≡ b)
encoded-text true b h = (refl, ok_unique refl h)
encoded-text false b h = cc

codec_laws : IsCardCodec codec
codec_laws = record {
  written = λ cards b h e.
      let (p, q) = encoded-text (is_card cards) b h in
      true≢false (ap (λ t. str_eq t "") (sym (q ∙ e)));
  read_again = λ cards b h.
      let (p, q) = encoded-text (is_card cards) b h in
      ap codec.unmarshal (sym q) ∙ ap ok (sym (is_card_sound cards p));
  read_empty = refl;
}

-- A table that nothing can be written to.
abbrev closed : {Row : Type 0} → Table GameSessionRecord Row
closed = record {
  create = λ row db. (failed (pg_error "23505" "duplicate key"), db);
  save = λ row db. (failed record_not_found, db);
  updates = λ p f db. (done 0, db);
  delete = λ p db. (done tt, db);
  first_or_create = λ p f row db. (failed record_not_found, db);
  first = λ p order db. failed record_not_found;
  first_locked = λ p order db. failed record_not_found;
  find = λ p order db. done [];
  count = λ db. done 0;
}

-- A table of one row, which is the database.
abbrev one_row : Table GameSessionRecord GameSessionRecord
one_row = record {
  create = λ row db. (done tt, row);
  save = λ row db. (done tt, row);
  updates = λ p f db. (done (if p db then 1 else 0), if p db then f db else db);
  delete = λ p db. (done tt, db);
  first_or_create = λ p f row db. (done tt, db);
  first = λ p order db. if p db then done db else failed record_not_found;
  first_locked = λ p order db. if p db then done db else failed record_not_found;
  find = λ p order db. done (if p db then db ∷ [] else []);
  count = λ db. done 1;
}

done_unique : {A : Type 0} {a b : A} → done a ≡ done b → a ≡ b
done_unique h = cc

same_place : {A : Type 0} (a b c : A) → In a (c ∷ []) → In b (c ∷ []) → a ≡ b
same_place a b c (inl p) (inl q) = p ∙ sym q
same_place a b c (inl p) (inr q) = absurd q
same_place a b c (inr p) m = absurd p

found_row :
    (b : Bool) (db row : GameSessionRecord)
    → (if b then done db else failed record_not_found) ≡ done row
    → (row ≡ db) × (b ≡ true)
found_row true db row h = (sym (done_unique h), refl)
found_row false db row h = cc

updated_row :
    (b c : Bool) (db : GameSessionRecord) (f : GameSessionRecord → GameSessionRecord)
    (h : Kept → Kept)
    → b ≡ c
    → kept (f db) ≡ h (kept db)
    → kept (if b then f db else db) ≡ (if c then h (kept db) else kept db)
updated_row true true db f h e k = k
updated_row true false db f h e k = cc
updated_row false true db f h e k = cc
updated_row false false db f h e k = refl

one_row_laws : IsTable one_row
one_row_laws = record {
  rows = λ db. kept db ∷ [];
  updated = λ p f q h n db same new d. (
    sym (done_unique d) ∙ ap (λ b. if b then 1 else 0) (same db),
    ap (λ k. k ∷ []) (updated_row (p db) (q (kept db)) db f h (same db) (new db)),
  );
  found = λ p row db h. let (e, q) = found_row (p db) db row h in (inl (ap kept e), ap p e ∙ q);
  primary_key = λ a b db m n e. same_place a b (kept db) m n;
}

abbrev session : GameSession
session = record {
  id = "s";
  room_id = "r";
  round_no = pos 1;
  status = SessionStatus.player_turn;
  version = pos 1;
  turn_seat = pos 1;
  deck = card ∷ [];
  draw_index = pos 0;
  turn_deadline_at = some 7;
  result_snapshot = none;
  rematch_deadline_at = none;
  created_at = 1;
  updated_at = 1;
}

abbrev moved : GameSession
moved = record session { version = pos 2; draw_index = pos 1; updated_at = 5 }

abbrev stored : GameSessionRecord
stored = record {
  id = "s";
  room_id = "r";
  round_no = pos 1;
  status = "PLAYER_TURN";
  version = pos 1;
  deck = "[ace]";
  draw_index = pos 0;
  turn_seat = pos 1;
  turn_deadline_at = some 7;
  result_snapshot = "";
  rematch_deadline_at = none;
  created_at = 1;
  updated_at = 1;
}

abbrev commit :
    {A : Type 0} → GameSessionRecord → Result A × GameSessionRecord → Result A × GameSessionRecord
commit db (ok a, db') = (ok a, db')
commit db (err e, db') = (err e, db)

abbrev database : Database
database = record {
  Db = GameSessionRecord;
  rooms = closed;
  room_players = closed;
  game_sessions = one_row;
  player_states = closed;
  dealer_states = closed;
  action_logs = closed;
  rematch_votes = closed;
  round_logs = closed;
  users = closed;
  sessions = closed;
  find_round_logs = λ p order db. done [];
  transaction = λ body db. commit db (body db);
}

none≢some : {A : Type 0} {a : A} → ◌≡◌ {A = Option A} none (some a) → ⊥
none≢some h = cc

game_session_record-back_example :
    (Cards.game_session_record_from_domain codec session
      >>= Cards.game_session_record_to_domain codec)
    ≡ ok session
game_session_record-back_example =
    RoundTrip.game_session_record-back codec codec_laws session "[ace]" refl none≢some
      (unfold Cards.marshal_stored_cards in refl)

read_before : Sessions.get_session database codec "s" stored ≡ ok session
unfolding Sessions.get_session Cards.game_session_record_to_domain Cards.unmarshal_stored_cards
    Cards.to_snapshot Text.to_session_status
read_before = refl

update_done : (Sessions.update_session_if_version database codec moved (pos 1) stored).0 ≡ ok true
unfolding Sessions.update_session_if_version Sessions.swap_row Cards.game_session_record_from_domain
    Cards.marshal_stored_cards Cards.snapshot_text Text.session_status_text
update_done = refl

read_after :
    Sessions.get_session database codec "s"
      (Sessions.update_session_if_version database codec moved (pos 1) stored).1
    ≡ ok moved
unfolding Sessions.update_session_if_version Sessions.swap_row Sessions.get_session
    Cards.game_session_record_from_domain Cards.marshal_stored_cards Cards.snapshot_text
    Text.session_status_text Cards.game_session_record_to_domain Cards.unmarshal_stored_cards
    Cards.to_snapshot Text.to_session_status
read_after = refl

update_session_if_version-swaps_example :
    (session.version ≡ pos 1)
    × (moved.version ≡ moved.version)
    × (moved.status ≡ moved.status)
    × (moved.draw_index ≡ moved.draw_index)
    × (moved.turn_seat ≡ moved.turn_seat)
    × (moved.room_id ≡ session.room_id)
    × (moved.round_no ≡ session.round_no)
update_session_if_version-swaps_example =
    Swap.update_session_if_version-swaps database codec one_row_laws moved session moved (pos 1)
      stored refl read_before update_done read_after

first_visit-never_full_example :
    (Seats.seat
      (record service { store = Pg.pg_store database codec 9 })
      joiner
      9
      (err not_found)
      stored).0
    ≢ err room_full
first_visit-never_full_example =
    Errors.first_visit-never_full service database codec 9 9 joiner stored

abbrev log : ActionLog
log = record {
  session_id = "s";
  actor_type = system;
  actor_user_id = " ";
  target_user_id = "u";
  action_id = "a";
  request_type = "AUTO_STAND";
  request_payload_hash = "hash";
  response_snapshot = "{}";
}
