-- ===== src/Repository/Text.antt =====
-- The texts that the statuses of backend/model/types.go and room_player.go are stored as: the Go types
-- are strings, so a conversion to text prints the constant and one from text always succeeds.
use blackjack.Prelude.{String, str_eq, ◌≡◌, refl, true, if◌then◌else◌}
use blackjack.Model.Status.{
  RoomStatus, room_status_is_valid, SessionStatus, session_status_is_valid, PlayerStatus,
  player_status_is_valid, Outcome, outcome_is_valid, ActorType, actor_type_is_valid,
  RoomPlayerStatus, room_player_status_is_valid,
}

unfoldable pub room_status_text : RoomStatus → String
room_status_text RoomStatus.waiting = "WAITING"
room_status_text RoomStatus.ready = "READY"
room_status_text RoomStatus.playing = "PLAYING"
room_status_text (RoomStatus.other s) = s

unfoldable pub to_room_status : String → RoomStatus
to_room_status s =
    if str_eq s "WAITING"
    then RoomStatus.waiting
    else if str_eq s "READY"
    then RoomStatus.ready
    else if str_eq s "PLAYING"
    then RoomStatus.playing
    else RoomStatus.other s

pub to_room_status-text :
    (s : RoomStatus) → room_status_is_valid s ≡ true → to_room_status (room_status_text s) ≡ s
unfolding room_status_text to_room_status
to_room_status-text RoomStatus.waiting h = refl
to_room_status-text RoomStatus.ready h = refl
to_room_status-text RoomStatus.playing h = refl
to_room_status-text (RoomStatus.other s) h = cc

unfoldable pub session_status_text : SessionStatus → String
session_status_text SessionStatus.dealing = "DEALING"
session_status_text SessionStatus.player_turn = "PLAYER_TURN"
session_status_text SessionStatus.dealer_turn = "DEALER_TURN"
session_status_text SessionStatus.result = "RESULT"
session_status_text SessionStatus.resetting = "RESETTING"
session_status_text (SessionStatus.other s) = s

unfoldable pub to_session_status : String → SessionStatus
to_session_status s =
    if str_eq s "DEALING"
    then SessionStatus.dealing
    else if str_eq s "PLAYER_TURN"
    then SessionStatus.player_turn
    else if str_eq s "DEALER_TURN"
    then SessionStatus.dealer_turn
    else if str_eq s "RESULT"
    then SessionStatus.result
    else if str_eq s "RESETTING"
    then SessionStatus.resetting
    else SessionStatus.other s

pub to_session_status-text :
    (s : SessionStatus)
    → session_status_is_valid s ≡ true
    → to_session_status (session_status_text s) ≡ s
unfolding session_status_text to_session_status
to_session_status-text SessionStatus.dealing h = refl
to_session_status-text SessionStatus.player_turn h = refl
to_session_status-text SessionStatus.dealer_turn h = refl
to_session_status-text SessionStatus.result h = refl
to_session_status-text SessionStatus.resetting h = refl
to_session_status-text (SessionStatus.other s) h = cc

unfoldable pub player_status_text : PlayerStatus → String
player_status_text PlayerStatus.active = "ACTIVE"
player_status_text PlayerStatus.stand = "STAND"
player_status_text PlayerStatus.bust = "BUST"
player_status_text PlayerStatus.blackjack_hand = "BLACKJACK"
player_status_text PlayerStatus.disconnected = "DISCONNECTED"
player_status_text PlayerStatus.left = "LEFT"
player_status_text (PlayerStatus.other s) = s

unfoldable pub to_player_status : String → PlayerStatus
to_player_status s =
    if str_eq s "ACTIVE"
    then PlayerStatus.active
    else if str_eq s "STAND"
    then PlayerStatus.stand
    else if str_eq s "BUST"
    then PlayerStatus.bust
    else if str_eq s "BLACKJACK"
    then PlayerStatus.blackjack_hand
    else if str_eq s "DISCONNECTED"
    then PlayerStatus.disconnected
    else if str_eq s "LEFT"
    then PlayerStatus.left
    else PlayerStatus.other s

pub to_player_status-text :
    (s : PlayerStatus)
    → player_status_is_valid s ≡ true
    → to_player_status (player_status_text s) ≡ s
unfolding player_status_text to_player_status
to_player_status-text PlayerStatus.active h = refl
to_player_status-text PlayerStatus.stand h = refl
to_player_status-text PlayerStatus.bust h = refl
to_player_status-text PlayerStatus.blackjack_hand h = refl
to_player_status-text PlayerStatus.disconnected h = refl
to_player_status-text PlayerStatus.left h = refl
to_player_status-text (PlayerStatus.other s) h = cc

unfoldable pub outcome_text : Outcome → String
outcome_text Outcome.win = "WIN"
outcome_text Outcome.lose = "LOSE"
outcome_text Outcome.push = "PUSH"
outcome_text Outcome.bust = "BUST"
outcome_text (Outcome.other s) = s

unfoldable pub to_outcome : String → Outcome
to_outcome s =
    if str_eq s "WIN"
    then Outcome.win
    else if str_eq s "LOSE"
    then Outcome.lose
    else if str_eq s "PUSH"
    then Outcome.push
    else if str_eq s "BUST"
    then Outcome.bust
    else Outcome.other s

pub to_outcome-text : (o : Outcome) → outcome_is_valid o ≡ true → to_outcome (outcome_text o) ≡ o
unfolding outcome_text to_outcome
to_outcome-text Outcome.win h = refl
to_outcome-text Outcome.lose h = refl
to_outcome-text Outcome.push h = refl
to_outcome-text Outcome.bust h = refl
to_outcome-text (Outcome.other s) h = cc

unfoldable pub actor_type_text : ActorType → String
actor_type_text ActorType.user = "USER"
actor_type_text ActorType.system = "SYSTEM"
actor_type_text (ActorType.other s) = s

unfoldable pub to_actor_type : String → ActorType
to_actor_type s =
    if str_eq s "USER"
    then ActorType.user
    else if str_eq s "SYSTEM"
    then ActorType.system
    else ActorType.other s

pub to_actor_type-text :
    (a : ActorType) → actor_type_is_valid a ≡ true → to_actor_type (actor_type_text a) ≡ a
unfolding actor_type_text to_actor_type
to_actor_type-text ActorType.user h = refl
to_actor_type-text ActorType.system h = refl
to_actor_type-text (ActorType.other s) h = cc

unfoldable pub room_player_status_text : RoomPlayerStatus → String
room_player_status_text RoomPlayerStatus.active = "ACTIVE"
room_player_status_text RoomPlayerStatus.disconnected = "DISCONNECTED"
room_player_status_text RoomPlayerStatus.left = "LEFT"
room_player_status_text (RoomPlayerStatus.other s) = s

unfoldable pub to_room_player_status : String → RoomPlayerStatus
to_room_player_status s =
    if str_eq s "ACTIVE"
    then RoomPlayerStatus.active
    else if str_eq s "DISCONNECTED"
    then RoomPlayerStatus.disconnected
    else if str_eq s "LEFT"
    then RoomPlayerStatus.left
    else RoomPlayerStatus.other s

pub to_room_player_status-text :
    (s : RoomPlayerStatus)
    → room_player_status_is_valid s ≡ true
    → to_room_player_status (room_player_status_text s) ≡ s
unfolding room_player_status_text to_room_player_status
to_room_player_status-text RoomPlayerStatus.active h = refl
to_room_player_status-text RoomPlayerStatus.disconnected h = refl
to_room_player_status-text RoomPlayerStatus.left h = refl
to_room_player_status-text (RoomPlayerStatus.other s) h = cc
