-- ===== src/Repository/RoundTrip.antt =====
-- The conversions of backend/repository/game_repository_map.go against each other.
use blackjack.Prelude.{
  ℕ, String, str_eq, eq_iff, subst, ◌≡◌, ◌≢◌, refl, sym, ap, ◌∙◌, true, false, Bool-cases, inl, inr,
  List, [], ◌∷◌, Option, none, some, ◌≤◌,
}
use blackjack.Prelude.Result.{ok, ◌>>=◌, ok_unique, ok≢err}
use blackjack.Prelude.Decimal.{max_uint64, format_uint, parse_uint, parse_uint-format}
use blackjack.Model.Status.{
  room_status_is_valid, session_status_is_valid, player_status_is_valid, Outcome, outcome_is_valid,
  room_player_status_is_valid,
}
use blackjack.Model.Room.{Room, RoomPlayer}
use blackjack.Model.Session.{StoredCard, GameSession}
use blackjack.Model.Player.{PlayerState, DealerState}
use blackjack.Repository.Text
use blackjack.Repository.Rows.{RoundLogRecord}
use blackjack.Repository.Convert.{
  room_record_from_domain, room_record_to_domain, room_player_record_from_domain,
  room_player_record_to_domain, round_log_record_from_domain, round_log_record_to_domain,
}
use blackjack.Repository.Cards.{
  CardCodec, IsCardCodec, to_snapshot, snapshot_text, outcome_column, read_outcome,
  marshal_stored_cards, unmarshal_stored_cards, game_session_record_from_domain,
  game_session_record_to_domain, player_state_record_from_domain, player_state_record_to_domain,
  dealer_state_record_from_domain, dealer_state_record_to_domain,
}

-- A room with a named status is read back as it was written.
pub room_record-back :
    (r : Room)
    → room_status_is_valid r.status ≡ true
    → room_record_to_domain (room_record_from_domain r) ≡ ok r
unfolding room_record_to_domain room_record_from_domain
room_record-back r h = rw (Text.to_room_status-text r.status h, h) refl

-- A room player with a named status is read back as it was written.
pub room_player_record-back :
    (p : RoomPlayer)
    → room_player_status_is_valid p.status ≡ true
    → room_player_record_to_domain (room_player_record_from_domain p) ≡ ok p
unfolding room_player_record_to_domain room_player_record_from_domain
room_player_record-back p h = rw (Text.to_room_player_status-text p.status h, h) refl

pub to_snapshot-text : (o : Option String) → o ≢ some "" → to_snapshot (snapshot_text o) ≡ o
unfolding to_snapshot snapshot_text
to_snapshot-text none h = refl
to_snapshot-text (some s) h = elim (Bool-cases (str_eq s "")) [
  | inl p ↦ absurd (h (ap some ((eq_iff s "").0 p)))
  | inr p ↦ rw (p) refl
]

abbrev pub IsNamed : Option Outcome → Type 0
IsNamed none = Unit
IsNamed (some o) = outcome_is_valid o ≡ true

read_outcome-column : (o : Option Outcome) → IsNamed o → read_outcome (outcome_column o) ≡ ok o
unfolding read_outcome outcome_column
read_outcome-column none h = refl
read_outcome-column (some o) h = rw (Text.to_outcome-text o h, h) refl

number-is_not_empty : (s : String) (n : ℕ) → parse_uint s ≡ ok n → str_eq s "" ≡ false
unfolding parse_uint
number-is_not_empty s n h = elim (Bool-cases (str_eq s "")) [
  | inl p ↦ absurd (ok≢err (sym h ∙ ap parse_uint ((eq_iff s "").0 p)))
  | inr p ↦ p
]

-- The row of a round log is the row of the entry that it is read as.
pub round_log_record-again :
    (m : RoundLogRecord)
    → m.id ≤ max_uint64
    → round_log_record_from_domain (round_log_record_to_domain m) ≡ ok m
unfolding round_log_record_from_domain round_log_record_to_domain
round_log_record-again m h =
    let p = parse_uint-format m.id h in rw (number-is_not_empty (format_uint m.id) m.id p, p) refl

module _ (json : CardCodec) (laws : IsCardCodec json) where
  -- A list of cards that was written is read again.
  pub unmarshal_stored_cards-marshal :
      (cards : List StoredCard) (b : String)
      → marshal_stored_cards json cards ≡ ok b
      → unmarshal_stored_cards json b ≡ ok cards
  unfolding marshal_stored_cards unmarshal_stored_cards
  unmarshal_stored_cards-marshal [] b h =
      subst (λ t. unmarshal_stored_cards json t ≡ ok []) (ok_unique refl h) laws.read_empty
  unmarshal_stored_cards-marshal (c ∷ cards) b h = elim (Bool-cases (str_eq b "")) [
    | inl p ↦ absurd (laws.written (c ∷ cards) b h ((eq_iff b "").0 p))
    | inr p ↦ rw (p) (laws.read_again (c ∷ cards) b h)
  ]

  -- A session with a named status and no empty snapshot, whose deck can be encoded, is read back as it
  -- was written.
  pub game_session_record-back :
      (s : GameSession) (b : String)
      → session_status_is_valid s.status ≡ true
      → s.result_snapshot ≢ some ""
      → marshal_stored_cards json s.deck ≡ ok b
      → (game_session_record_from_domain json s >>= game_session_record_to_domain json) ≡ ok s
  unfolding game_session_record_from_domain game_session_record_to_domain
  game_session_record-back s b valid snap h =
      rw
        (
          h,
          Text.to_session_status-text s.status valid,
          valid,
          unmarshal_stored_cards-marshal s.deck b h,
          to_snapshot-text s.result_snapshot snap,
        )
        refl

  -- A player's state with a named status and outcome, whose hand can be encoded, is read back as it was
  -- written.
  pub player_state_record-back :
      (p : PlayerState) (b : String)
      → player_status_is_valid p.status ≡ true
      → IsNamed p.outcome
      → marshal_stored_cards json p.hand ≡ ok b
      → (player_state_record_from_domain json p >>= player_state_record_to_domain json) ≡ ok p
  unfolding player_state_record_from_domain player_state_record_to_domain
  player_state_record-back p b valid named h =
      rw
        (
          h,
          Text.to_player_status-text p.status valid,
          valid,
          unmarshal_stored_cards-marshal p.hand b h,
          read_outcome-column p.outcome named,
        )
        refl

  -- A dealer's state whose hand can be encoded is read back as it was written.
  pub dealer_state_record-back :
      (d : DealerState) (b : String)
      → marshal_stored_cards json d.hand ≡ ok b
      → (dealer_state_record_from_domain json d >>= dealer_state_record_to_domain json) ≡ ok d
  unfolding dealer_state_record_from_domain dealer_state_record_to_domain
  dealer_state_record-back d b h = rw (h, unmarshal_stored_cards-marshal d.hand b h) refl
