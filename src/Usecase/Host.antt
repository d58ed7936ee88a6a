-- ===== src/Usecase/Host.antt =====
-- The host of a room in backend/usecase/game_usecase.go: `selectNextHost`, and the transfer in `LeaveRoom`.
use Prim.Native.String.{compare}
use text.Mathlib.Text.{is_lt}
use blackjack.Prelude.{
  ℕ, ◌+◌, String, str_eq, Bool, not, List, [], ◌∷◌, Option, none, some, if◌then◌else◌,
}
use blackjack.Prelude.Int.{ltb_ℤ, eqb_ℤ}
use blackjack.Model.Status.{is_seated}
use blackjack.Model.Room.{Room, RoomPlayer}

pub record HostTransfer : Type 0 where
  pub room_id : String
  pub previous_host_user_id : String
  pub new_host_user_id : String

-- The loops that count the players who hold a seat.
unfoldable pub count_seated : List RoomPlayer → ℕ
count_seated [] = 0
count_seated (p ∷ ps) = let rest = count_seated ps in if is_seated p.status then rest + 1 else rest

-- The loop of `LeaveRoom`, which passes over the player who leaves.
unfoldable pub count_others : String → List RoomPlayer → ℕ
count_others user_id [] = 0
count_others user_id (p ∷ ps) =
    let rest = count_others user_id ps in
    if str_eq p.user_id user_id then rest else if is_seated p.status then rest + 1 else rest

unfoldable pub host_candidates : String → List RoomPlayer → List RoomPlayer
host_candidates user_id [] = []
host_candidates user_id (p ∷ ps) =
    let rest = host_candidates user_id ps in
    if str_eq p.user_id user_id then rest else if is_seated p.status then p ∷ rest else rest

-- The order of `sort.Slice`: by seat, then by user id.
unfoldable pub sits_before : RoomPlayer → RoomPlayer → Bool
sits_before p q =
    if not (eqb_ℤ p.seat_no q.seat_no)
    then ltb_ℤ p.seat_no q.seat_no
    else is_lt (compare p.user_id q.user_id)

-- `sort.Slice(candidates, …)`, and then `candidates[0]`.
unfoldable pub insert_candidate : RoomPlayer → List RoomPlayer → List RoomPlayer
unfolding sits_before
insert_candidate p [] = p ∷ []
insert_candidate p (q ∷ qs) =
    let later = q ∷ insert_candidate p qs in if sits_before q p then later else p ∷ q ∷ qs

unfoldable pub sort_candidates : List RoomPlayer → List RoomPlayer
unfolding insert_candidate
sort_candidates [] = []
sort_candidates (p ∷ ps) = insert_candidate p (sort_candidates ps)

unfoldable pub first_candidate : List RoomPlayer → Option RoomPlayer
first_candidate [] = none
first_candidate (p ∷ ps) = some p

unfoldable pub select_next_host : List RoomPlayer → String → Option RoomPlayer
unfolding host_candidates sort_candidates first_candidate
select_next_host players leaving_user_id =
    first_candidate (sort_candidates (host_candidates leaving_user_id players))

transfer_host : String → String → Room → Option RoomPlayer → Room × Option HostTransfer
transfer_host room_id user_id room none = (room, none)
transfer_host room_id user_id room (some next_host) = (
  record room { host_user_id = next_host.user_id },
  some (record {
    room_id = room_id;
    previous_host_user_id = user_id;
    new_host_user_id = next_host.user_id;
  }),
)

unfoldable pub host_after_leave :
    String → String → Room → List RoomPlayer → Room × Option HostTransfer
unfolding transfer_host
host_after_leave room_id user_id room players =
    if str_eq room.host_user_id user_id
    then transfer_host room_id user_id room (select_next_host players user_id)
    else (room, none)
