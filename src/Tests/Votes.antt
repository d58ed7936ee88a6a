-- ===== src/Tests/Votes.antt =====
-- Witnesses for the properties of the choice of the host and of the votes.
use blackjack.Prelude.{String, ◌≡◌, true, false, List, [], ◌∷◌, none}
use blackjack.Prelude.Int.{pos}
use blackjack.Model.Status.{RoomStatus, RoomPlayerStatus}
use blackjack.Model.Room.{Room, RoomPlayer}
use blackjack.Model.Session.{rematch_unanimous}
use blackjack.Model.Log.{RematchVote}
use blackjack.Usecase.Host.{select_next_host}
use blackjack.Usecase.Rematch.{rematch_agree_map_at_deadline, votes_by_user}
use blackjack.Usecase.NextHost.{IsNextHost, select_next_host-IsNextHost}
use blackjack.Model.Status.{resetting}
use blackjack.Usecase.Vote.{VoteRequest}
use blackjack.Tests.Memory.{Db}
use blackjack.Tests.Requests.{opened}
use blackjack.Usecase.Deadline.{rematch_agree_map_at_deadline-unanimous}

abbrev sitting : String → RoomPlayer
sitting id = record {
  room_id = "r";
  user_id = id;
  seat_no = pos 1;
  status = RoomPlayerStatus.active;
  joined_at = 1;
  left_at = none;
}

abbrev players : List RoomPlayer
players = sitting "anna" ∷ sitting "carl" ∷ sitting "bert" ∷ []

select_next_host-IsNextHost_example : IsNextHost "anna" players (select_next_host players "anna")
select_next_host-IsNextHost_example = select_next_host-IsNextHost players "anna"

abbrev votes : List RematchVote
votes = record { session_id = "s"; user_id = "anna"; agree = true } ∷ []

rematch_agree_map_at_deadline-unanimous_example :
    rematch_unanimous
      ("anna" ∷ "bert" ∷ [])
      (rematch_agree_map_at_deadline ("anna" ∷ "bert" ∷ []) votes)
    ≡ rematch_unanimous ("anna" ∷ "bert" ∷ []) (votes_by_user votes [])
rematch_agree_map_at_deadline-unanimous_example =
    rematch_agree_map_at_deadline-unanimous ("anna" ∷ "bert" ∷ []) votes

-- The player at the table votes against a rematch after the round.
abbrev over : Db
over = record opened { session = record (opened.session) { status = resetting } }

abbrev vote : VoteRequest
vote = record {
  room_id = "r";
  user_id = "u";
  agree = false;
  expected_version = pos 1;
  action_id = "v";
}

abbrev seen : Room
seen = record (over.room) { status = RoomStatus.ready; current_session_id = none; updated_at = 5 }
