-- ===== src/Model/Session.antt =====
-- backend/model/entities.go (StoredCard, GameSession), deck.go and rematch.go. The nil deck and the
-- empty deck are one list; ids, versions and indices are 64-bit integers.
use blackjack.Prelude.{
  ℕ, ◌+◌, ◌-◌, String, str_eq, Bool, true, false, not, ◌||◌, List, [], ◌∷◌, Option, none, some,
  ◌==◌, if◌then◌else◌, length, get_elem?,
}
use blackjack.Prelude.Int.{ℤ, pos, pos_part, ltb_ℤ, leb_ℤ, eqb_ℤ, inc64}
use blackjack.Prelude.Result.{
  Error, invalid_version, version_conflict, invalid_status, invalid_transition, invalid_deck,
  deck_exhausted, panic, Result, ok, err,
}
use blackjack.Model.Status.{
  SessionStatus, dealing, player_turn, dealer_turn, result, resetting, session_status_is_valid,
  is_player_turn, is_dealer_turn, is_result, is_resetting,
}
use blackjack.Model.Room.{Time}

pub record StoredCard : Type 0 where
  pub rank : String
  pub suit : String

pub record GameSession : Type 0 where
  pub id : String
  pub room_id : String
  pub round_no : ℤ
  pub status : SessionStatus
  pub version : ℤ
  pub turn_seat : ℤ
  pub deck : List StoredCard
  pub draw_index : ℤ
  pub turn_deadline_at : Option Time
  pub result_snapshot : Option String
  pub rematch_deadline_at : Option Time
  pub created_at : Time
  pub updated_at : Time

unfoldable pub new_game_session : String → String → ℤ → Time → Time → Result GameSession
new_game_session id room_id round_no at clock =
    let now = if at == 0 then clock else at in
    if str_eq id "" || str_eq room_id ""
    then err (Error.other "session id and room id are required")
    else if leb_ℤ round_no (pos 0)
    then err (Error.other "roundNo must be > 0")
    else ok (record {
      id = id;
      room_id = room_id;
      round_no = round_no;
      status = dealing;
      version = pos 1;
      turn_seat = pos 1;
      deck = [];
      draw_index = pos 0;
      turn_deadline_at = none;
      result_snapshot = none;
      rematch_deadline_at = none;
      created_at = now;
      updated_at = now;
    })

unfoldable pub touch_session : Time → GameSession → GameSession
touch_session at s = if not (at == 0) then record s { updated_at = at } else s

unfoldable pub set_turn_deadline : Option Time → GameSession → GameSession
set_turn_deadline at s = record s { turn_deadline_at = at }

unfoldable pub check_version : GameSession → ℤ → Result (Unit {0})
check_version s expected =
    if leb_ℤ expected (pos 0)
    then err invalid_version
    else if not (eqb_ℤ expected s.version)
    then err version_conflict
    else ok tt

unfoldable pub increment_version : GameSession → GameSession
increment_version s = record s { version = inc64 s.version }

-- The one status that may follow a status; `RESETTING` has none.
unfoldable pub transition_to : GameSession → SessionStatus → Result GameSession
transition_to s next =
    if not (session_status_is_valid next) then err invalid_status else elim s.status [
      | dealing ↦ if not (is_player_turn next) then err invalid_transition else moved
      | player_turn ↦ if not (is_dealer_turn next) then err invalid_transition else moved
      | dealer_turn ↦ if not (is_result next) then err invalid_transition else moved
      | result ↦ if not (is_resetting next) then err invalid_transition else moved
      | resetting ↦ err invalid_transition
      | SessionStatus.other text ↦ err invalid_status
    ]
  where
    moved : Result GameSession
    moved = ok (record s { status = next })

unfoldable pub set_deck : List StoredCard → GameSession → GameSession
set_deck cards s = record s { deck = cards; draw_index = pos 0 }

-- The last case is Go's index fault; the two tests before it rule it out.
unfoldable pub draw_card : GameSession → Result (StoredCard × GameSession)
draw_card s =
    let n = pos (length s.deck) in
    if ltb_ℤ s.draw_index (pos 0) || ltb_ℤ n s.draw_index
    then err invalid_deck
    else if leb_ℤ n s.draw_index
    then err deck_exhausted
    else elim (get_elem? s.deck (pos_part s.draw_index)) [
      | some c ↦ ok (c, record s { draw_index = inc64 s.draw_index })
      | none ↦ err panic
    ]

unfoldable pub remaining_deck_cards : GameSession → ℕ
remaining_deck_cards s =
    let n = pos (length s.deck) in
    if ltb_ℤ s.draw_index (pos 0) || ltb_ℤ n s.draw_index
    then 0
    else length s.deck - pos_part s.draw_index

-- 30 seconds in nanoseconds.
abbrev pub default_rematch_deadline : ℕ
default_rematch_deadline = 30000000000

unfoldable pub set_rematch_deadline : Time → GameSession → GameSession
set_rematch_deadline now s =
    if now == 0
    then record s { rematch_deadline_at = none }
    else record s { rematch_deadline_at = some (now + default_rematch_deadline) }

-- A Go map of votes as an association list: the first entry of a key counts, and a missing key reads
-- as `false`.
abbrev pub Votes : Type 0
Votes = List (String × Bool)

unfoldable pub lookup_vote : String → Votes → Option Bool
lookup_vote uid [] = none
lookup_vote uid ((k, v) ∷ votes) = if str_eq k uid then some v else lookup_vote uid votes

unfoldable pub agrees : Votes → String → Bool
unfolding lookup_vote
agrees votes uid = elim (lookup_vote uid votes) [ some v ↦ v | none ↦ false ]

unfoldable pub all_agree : List String → Votes → Bool
all_agree [] votes = true
all_agree (uid ∷ uids) votes =
    let rest = all_agree uids votes in if not (agrees votes uid) then false else rest

unfoldable pub rematch_unanimous : List String → Votes → Bool
unfolding all_agree
rematch_unanimous [] votes = false
rematch_unanimous (uid ∷ uids) votes = all_agree (uid ∷ uids) votes
