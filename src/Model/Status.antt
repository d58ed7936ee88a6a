-- ===== src/Model/Status.antt =====
-- backend/model/types.go and the status type of room_player.go. Each Go type is a string with named
-- constants: here a constructor for each constant, and `other` for every other text.
use blackjack.Prelude.{String, Bool, true, false}

pub data RoomStatus : Type 0 where
  waiting ready playing : RoomStatus
  other : String → RoomStatus

abbrev pub room_status_is_valid : RoomStatus → Bool
room_status_is_valid (RoomStatus.other s) = false
room_status_is_valid _ = true

abbrev pub is_waiting : RoomStatus → Bool
is_waiting waiting = true
is_waiting _ = false

abbrev pub is_ready : RoomStatus → Bool
is_ready ready = true
is_ready _ = false

pub data SessionStatus : Type 0 where
  dealing player_turn dealer_turn result resetting : SessionStatus
  other : String → SessionStatus

abbrev pub session_status_is_valid : SessionStatus → Bool
session_status_is_valid (SessionStatus.other s) = false
session_status_is_valid _ = true

abbrev pub is_player_turn : SessionStatus → Bool
is_player_turn player_turn = true
is_player_turn _ = false

abbrev pub is_dealer_turn : SessionStatus → Bool
is_dealer_turn dealer_turn = true
is_dealer_turn _ = false

abbrev pub is_result : SessionStatus → Bool
is_result result = true
is_result _ = false

abbrev pub is_resetting : SessionStatus → Bool
is_resetting resetting = true
is_resetting _ = false

pub data PlayerStatus : Type 0 where
  active stand bust blackjack_hand disconnected left : PlayerStatus
  other : String → PlayerStatus

abbrev pub player_status_is_valid : PlayerStatus → Bool
player_status_is_valid (PlayerStatus.other s) = false
player_status_is_valid _ = true

abbrev pub is_active : PlayerStatus → Bool
is_active PlayerStatus.active = true
is_active _ = false

pub data Outcome : Type 0 where
  win lose push bust : Outcome
  other : String → Outcome

abbrev pub outcome_is_valid : Outcome → Bool
outcome_is_valid (Outcome.other s) = false
outcome_is_valid _ = true

pub data ActorType : Type 0 where
  user system : ActorType
  other : String → ActorType

abbrev pub is_user : ActorType → Bool
is_user user = true
is_user _ = false

abbrev pub actor_type_is_valid : ActorType → Bool
actor_type_is_valid (ActorType.other s) = false
actor_type_is_valid _ = true

pub data RoomPlayerStatus : Type 0 where
  active disconnected left : RoomPlayerStatus
  other : String → RoomPlayerStatus

abbrev pub room_player_status_is_valid : RoomPlayerStatus → Bool
room_player_status_is_valid (RoomPlayerStatus.other s) = false
room_player_status_is_valid _ = true

-- ACTIVE or DISCONNECTED: the two statuses that still hold a seat.
abbrev pub is_seated : RoomPlayerStatus → Bool
is_seated RoomPlayerStatus.active = true
is_seated RoomPlayerStatus.disconnected = true
is_seated _ = false

abbrev pub has_left : RoomPlayerStatus → Bool
has_left RoomPlayerStatus.left = true
has_left _ = false

abbrev pub is_at_table : RoomPlayerStatus → Bool
is_at_table RoomPlayerStatus.active = true
is_at_table _ = false

abbrev pub is_disconnected : RoomPlayerStatus → Bool
is_disconnected RoomPlayerStatus.disconnected = true
is_disconnected _ = false
