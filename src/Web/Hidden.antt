-- ===== src/Web/Hidden.antt =====
-- What `buildRoomDTO` of backend/controller/room_ws_controller.go keeps from a player.
use blackjack.Prelude.{
  String, str_eq, ◌≡◌, refl, ap, true, Bool-cases, inl, inr, List, [], ◌∷◌, map, some, length,
  if◌then◌else◌,
}
use blackjack.Model.Room.{Time}
use blackjack.Model.Session.{StoredCard}
use blackjack.Model.Player.{PlayerState, DealerState}
use blackjack.Usecase.Access.{RoomState}
use blackjack.Web.Payload.{visible_from, dealer_json, player_json, build_room_dto}

-- Another second card.
abbrev pub replace_hole : StoredCard → List StoredCard → List StoredCard
replace_hole x [] = []
replace_hole x (up ∷ []) = up ∷ []
replace_hole x (up ∷ hole ∷ hand) = up ∷ x ∷ hand

abbrev pub with_hole : StoredCard → DealerState → DealerState
with_hole x d = record d { hand = replace_hole x d.hand }

-- Other hands for all players but one.
abbrev pub with_hands : String → (PlayerState → List StoredCard) → PlayerState → PlayerState
with_hands viewer hands p = if str_eq p.user_id viewer then p else record p { hand = hands p }

dealer_json-with_hole :
    (x : StoredCard) (d : DealerState)
    → d.hole_hidden ≡ true
    → dealer_json (some (with_hole x d)) ≡ dealer_json (some d)
unfolding dealer_json visible_from
dealer_json-with_hole x d h = by_hand d.hand
  where
    by_hand :
        (hand : List StoredCard)
        → dealer_json (some (record d { hand = replace_hole x hand }))
          ≡ dealer_json (some (record d { hand = hand }))
    by_hand [] = refl
    by_hand (up ∷ []) = refl
    by_hand (up ∷ hole ∷ hand) = rw (h) refl

player_json-with_hands :
    (viewer : String) (hands : PlayerState → List StoredCard)
    → ((p : PlayerState) → length (hands p) ≡ length p.hand)
    → (p : PlayerState) → player_json viewer (with_hands viewer hands p) ≡ player_json viewer p
unfolding player_json
player_json-with_hands viewer hands same p = elim (Bool-cases (str_eq p.user_id viewer)) [
  | inl e ↦ ap (player_json viewer) {x = with_hands viewer hands p} {y = p} (rw (e) refl)
  | inr e ↦ rw (e, e, same p) refl
]

-- While the hole card is hidden, what a player is sent depends neither on that card nor on the cards in
-- the hands of the others, only on how many these are.
pub build_room_dto-hides :
    (format : Time → String) (s : RoomState) (viewer : String) (d : DealerState) (x : StoredCard)
    (hands : PlayerState → List StoredCard)
    → s.dealer ≡ some d
    → d.hole_hidden ≡ true
    → ((p : PlayerState) → length (hands p) ≡ length p.hand)
    → build_room_dto format
        (record s {
          dealer = some (with_hole x d);
          players = map (with_hands viewer hands) s.players;
        })
        viewer
      ≡ build_room_dto format s viewer
unfolding build_room_dto
build_room_dto-hides format s viewer d x hands dealt hidden same =
    rw (dealt, dealer_json-with_hole x d hidden, all_players s.players) refl
  where
    all_players :
        (ps : List PlayerState)
        → map (player_json viewer) (map (with_hands viewer hands) ps) ≡ map (player_json viewer) ps
    all_players [] = refl
    all_players (p ∷ ps) = rw (player_json-with_hands viewer hands same p, all_players ps) refl
