-- ===== src/Web/Payload.antt =====
-- backend/dto/state.go, mapper.go and room.go, and `buildRoomDTO` of backend/controller/room_ws_controller.go:
-- what a player is sent of a room. `format` is time.Time.Format with RFC 3339 in UTC.
use Prim.Native.String.{◌++◌}
use blackjack.Prelude.{
  ℕ, suc, String, str_eq, Bool, false, ◌&&◌, List, [], ◌∷◌, map, Option, none, some, length, ◌==◌,
  if◌then◌else◌,
}
use blackjack.Prelude.Int.{ℤ}
use blackjack.Model.Room.{Time, Room}
use blackjack.Model.Session.{StoredCard, GameSession}
use blackjack.Model.Player.{PlayerState, DealerState}
use blackjack.Usecase.Access.{RoomState}
use blackjack.Repository.Text.{
  room_status_text, session_status_text, player_status_text, outcome_text,
}

pub record RoomJson : Type 0 where
  pub id : String
  pub status : String

pub record RoomDetailJson : Type 0 where
  pub id : String
  pub host_user_id : String
  pub status : String

pub record SessionJson : Type 0 where
  pub id : String
  pub status : String
  pub version : ℤ
  pub round_no : ℤ
  pub turn_seat : ℤ
  pub turn_deadline_at : Option String
  pub rematch_deadline_at : Option String

pub record DealerJson : Type 0 where
  pub visible_cards : List String
  pub hidden : Bool
  pub card_count : ℕ

-- The hand is left out where it is the nil slice: here `none`.
pub record PlayerJson : Type 0 where
  pub user_id : String
  pub seat_no : ℤ
  pub status : String
  pub is_me : Bool
  pub hand : Option (List String)
  pub card_count : ℕ
  pub outcome : Option String
  pub final_score : Option ℕ

pub record MyActionsJson : Type 0 where
  pub can_hit : Bool
  pub can_stand : Bool
  pub can_rematch_vote : Bool

pub record RoomStateSyncSessionJson : Type 0 where
  pub id : Option String
  pub status : Option String
  pub version : Option ℤ
  pub round_no : Option ℤ
  pub turn_seat : Option ℤ
  pub turn_deadline_at : Option String
  pub rematch_deadline_at : Option String

pub record RoomStateSyncPayload : Type 0 where
  pub room : RoomJson
  pub session : RoomStateSyncSessionJson
  pub dealer : DealerJson
  pub players : List PlayerJson
  pub my_actions : MyActionsJson

abbrev pub option_map : {A B : Type 0} → (A → B) → Option A → Option B
option_map f none = none
option_map f (some a) = some (f a)

unfoldable pub room_detail_json : Room → RoomDetailJson
room_detail_json room = record {
  id = room.id;
  host_user_id = room.host_user_id;
  status = room_status_text room.status;
}

abbrev pub card_text : StoredCard → String
card_text c = c.rank ++ c.suit

-- The loop over the dealer's hand from an index on: the second card is left out while it is hidden.
unfoldable pub visible_from : Bool → ℕ → List StoredCard → List String
visible_from hidden i [] = []
visible_from hidden i (c ∷ hand) =
    let rest = visible_from hidden (suc i) hand in
    if hidden && (i == 1) then rest else card_text c ∷ rest

unfoldable pub dealer_json : Option DealerState → DealerJson
unfolding visible_from
dealer_json none = record { visible_cards = []; hidden = false; card_count = 0 }
dealer_json (some d) = record {
  visible_cards = visible_from d.hole_hidden 0 d.hand;
  hidden = d.hole_hidden;
  card_count = length d.hand;
}

unfoldable pub player_json : String → PlayerState → PlayerJson
player_json user_id p =
    let is_me = str_eq p.user_id user_id in
    record {
      user_id = p.user_id;
      seat_no = p.seat_no;
      status = player_status_text p.status;
      is_me = is_me;
      hand = if is_me then some (map card_text p.hand) else none;
      card_count = length p.hand;
      outcome = option_map outcome_text p.outcome;
      final_score = p.final_score;
    }

module _ (format : Time → String) where
  unfoldable pub session_from_domain : GameSession → SessionJson
  session_from_domain s = record {
    id = s.id;
    status = session_status_text s.status;
    version = s.version;
    round_no = s.round_no;
    turn_seat = s.turn_seat;
    turn_deadline_at = option_map format s.turn_deadline_at;
    rematch_deadline_at = option_map format s.rematch_deadline_at;
  }

  unfoldable pub session_json : Option GameSession → RoomStateSyncSessionJson
  session_json none = record {
    id = none;
    status = none;
    version = none;
    round_no = none;
    turn_seat = none;
    turn_deadline_at = none;
    rematch_deadline_at = none;
  }
  session_json (some s) = record {
    id = some s.id;
    status = some (session_status_text s.status);
    version = some s.version;
    round_no = some s.round_no;
    turn_seat = some s.turn_seat;
    turn_deadline_at = option_map format s.turn_deadline_at;
    rematch_deadline_at = option_map format s.rematch_deadline_at;
  }

  unfoldable pub build_room_dto : RoomState → String → RoomStateSyncPayload
  unfolding dealer_json player_json session_json
  build_room_dto s user_id = record {
    room = record { id = s.room.id; status = room_status_text s.room.status };
    session = session_json s.session;
    dealer = dealer_json s.dealer;
    players = map (player_json user_id) s.players;
    my_actions = record {
      can_hit = s.can_hit;
      can_stand = s.can_stand;
      can_rematch_vote = s.can_rematch;
    };
  }
