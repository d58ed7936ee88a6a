-- ===== src/Tests/Servers.antt =====
-- Witnesses for the properties of what runs between the servers and at their start.
use blackjack.Prelude.{String, List, ◌≡◌, refl, true, [], ◌∷◌, ◌++◌, some, none}
use blackjack.Prelude.{◌⊎◌}
use mathlib.Core.Logic.{◌↔◌}
use blackjack.Prelude.Result.{ok}
use blackjack.Prelude.Space.{trim_space, is_space}
use blackjack.Sockets.Sync.{
  SyncCodec, IsSyncCodec, RoomSyncMessage, RoomSyncBroker, publish, run_subscriber,
  run_subscriber-publish,
}
use blackjack.Startup.Environment.{Environment, parse_ws_allowed_origins}
use blackjack.Startup.Origins.{check_origin, Names, check_origin-allowed}
use blackjack.Tests.Accounts.{pack, unpack, unpack-pack}

abbrev message : String × String → String → RoomSyncMessage
message (event, origin) room_id = record { room_id = room_id; event_type = event; origin = origin }

abbrev codec : SyncCodec
codec = record {
  marshal = λ m. ok (pack m.room_id (pack m.event_type m.origin));
  unmarshal = λ text. let (room_id, rest) = unpack text in ok (message (unpack rest) room_id);
}

codec_laws : IsSyncCodec codec
codec_laws = record {
  round_trip = λ m. (
    pack m.room_id (pack m.event_type m.origin),
    refl,
    rw (unpack-pack m.room_id (pack m.event_type m.origin), unpack-pack m.event_type m.origin) refl,
  );
}

abbrev one : RoomSyncBroker
one = record { connected = true; server_id = "1" }

abbrev two : RoomSyncBroker
two = record { connected = true; server_id = "2" }

abbrev note : String
note = pack "r" (pack "" "1")

published : publish codec one "r" "" ≡ ok (some note)
unfolding publish
published = refl

run_subscriber-publish_example :
    run_subscriber codec two ([] ++ (some note ∷ (none ∷ [])))
    ≡ run_subscriber codec two []
      ++ (("r", "ROOM_STATE_SYNC") ∷ [] ++ run_subscriber codec two (none ∷ []))
run_subscriber-publish_example =
    run_subscriber-publish codec codec_laws one two "r" "" note [] (none ∷ []) refl published

abbrev env : Environment
env name = " https://a.example, https://b.example,"

-- The parts of the variable.
abbrev named : List String
named = " https://a.example" ∷ " https://b.example" ∷ "" ∷ []

check_origin-allowed_example :
    (check_origin (parse_ws_allowed_origins env) "https://b.example" ≡ true)
    ↔ (((o : String) → Names named o → ⊥) ⊎ Names named "https://b.example")
check_origin-allowed_example =
    check_origin-allowed env "https://b.example" " https://a.example"
      (" https://b.example" ∷ "" ∷ []) (refl, (refl, (refl, tt))) refl

parsed : parse_ws_allowed_origins env ≡ "https://a.example" ∷ "https://b.example" ∷ []
unfolding parse_ws_allowed_origins trim_space is_space
parsed = refl
