-- ===== src/Web/Hub.antt =====
-- `roomHub` of backend/controller/room_ws_controller.go: the connections of each room and the latest one of
-- each player in a room. A connection is a number; the maps are functions, an absent room has no connections.
-- The lock makes each operation one step; the epoch and the lock of a connection are left out.
use Prim.Native.String.{◌++◌}
use blackjack.Prelude.{
  ℕ, String, str_eq, Bool, true, false, List, [], ◌∷◌, Option, none, some, ◌==◌, if◌then◌else◌,
}

abbrev pub Connections : Type 0
Connections = List (ℕ × String)

pub record Hub : Type 0 where
  pub rooms : String → Connections
  pub latest : String → Option ℕ

abbrev pub empty_hub : Hub
empty_hub = record { rooms = λ room. []; latest = λ key. none }

abbrev pub hub_key : String → String → String
hub_key room user = room ++ ":" ++ user

unfoldable pub delete_conn : ℕ → Connections → Connections
delete_conn conn [] = []
delete_conn conn ((c, user) ∷ rest) =
    let kept = delete_conn conn rest in if c == conn then kept else (c, user) ∷ kept

unfoldable pub delete_old : Option ℕ → Connections → Connections
unfolding delete_conn
delete_old none rest = rest
delete_old (some old) rest = delete_conn old rest

-- `add`, which also answers the player's older connection.
unfoldable pub add : String → ℕ → String → Hub → Option ℕ × Hub
unfolding delete_old delete_conn
add room conn user h =
    let key = hub_key room user in
    let old = h.latest key in
    (
      old,
      record {
        rooms = λ r.
            if str_eq r room
            then (conn, user) ∷ delete_conn conn (delete_old old (h.rooms room))
            else h.rooms r;
        latest = λ k. if str_eq k key then some conn else h.latest k;
      },
    )

unfoldable pub forget_conn : ℕ → Option ℕ → Option ℕ
forget_conn conn none = none
forget_conn conn (some c) = if c == conn then none else some c

abbrev pub is_empty : Connections → Bool
is_empty [] = true
is_empty (c ∷ rest) = false

unfoldable pub remove : String → ℕ → Hub → Hub
unfolding delete_conn forget_conn
remove room conn h = if is_empty (h.rooms room) then h else record {
  rooms = λ r. if str_eq r room then delete_conn conn (h.rooms room) else h.rooms r;
  latest = λ k. forget_conn conn (h.latest k);
}

unfoldable pub snapshot : String → Hub → Connections
snapshot room h = h.rooms room

abbrev pub is_conn : ℕ → Option ℕ → Bool
is_conn conn none = false
is_conn conn (some c) = c == conn

unfoldable pub is_latest : String → String → ℕ → Hub → Bool
is_latest room user conn h = is_conn conn (h.latest (hub_key room user))
