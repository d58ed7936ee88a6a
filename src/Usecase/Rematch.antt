-- ===== src/Usecase/Rematch.antt =====
-- VoteRematch of backend/usecase/game_usecase.go with its helpers: who may vote, the votes as a map,
-- and the two ends of a vote, the next round and the room without a session.
use Prim.Native.String.{◌++◌}
use blackjack.Prelude.{
  String, str_eq, Bool, true, false, not, List, [], ◌∷◌, Option, none, some, if◌then◌else◌,
}
use blackjack.Prelude.Int.{ℤ, pos, inc64}
use blackjack.Prelude.Text.{format_int, format_bool}
use blackjack.Prelude.Result.{Result, ok, err, panic, ◌>>=◌}
use blackjack.Model.Status.{ActorType, is_seated}
use blackjack.Model.Room.{Time, Room, RoomPlayer, touch_room, recalculate_status}
use blackjack.Model.Session.{
  GameSession, Votes, lookup_vote, rematch_unanimous, set_rematch_deadline,
}
use blackjack.Model.Log.{ActionLog, RematchVote}
use blackjack.Round.Deal.{Round, new_round}
use blackjack.Round.Turn.{next_version}
use blackjack.Store.{Write}
use blackjack.Usecase.Service.{Service, Moment, ◌>>>=◌, ◌>>>◌, lift}
use blackjack.Usecase.Host.{count_seated}
use blackjack.Usecase.Start.{playing_room, create_round}
use blackjack.Usecase.Turn.{swap_session}

unfoldable pub rematch_eligible_user_ids : List RoomPlayer → List String
rematch_eligible_user_ids [] = []
rematch_eligible_user_ids (p ∷ ps) =
    let rest = rematch_eligible_user_ids ps in if is_seated p.status then p.user_id ∷ rest else rest

-- The votes as a map: a later vote of a user stands before the earlier ones.
unfoldable pub votes_by_user : List RematchVote → Votes → Votes
votes_by_user [] by_user = by_user
votes_by_user (v ∷ votes) by_user = votes_by_user votes ((v.user_id, v.agree) ∷ by_user)

unfoldable pub agree_map_from : List String → Votes → Votes
agree_map_from [] by_user = []
agree_map_from (uid ∷ uids) by_user =
    let rest = agree_map_from uids by_user in
    elim (lookup_vote uid by_user) [ some v ↦ (uid, v) ∷ rest | none ↦ (uid, false) ∷ rest ]

unfoldable pub rematch_agree_map_at_deadline : List String → List RematchVote → Votes
unfolding votes_by_user agree_map_from
rematch_agree_map_at_deadline eligible votes = agree_map_from eligible (votes_by_user votes [])

unfoldable pub denies : Option Bool → Bool
denies (some v) = not v
denies none = false

unfoldable pub has_explicit_rematch_denial : List String → Votes → Bool
unfolding denies
has_explicit_rematch_denial [] agree_map = false
has_explicit_rematch_denial (uid ∷ uids) agree_map =
    let rest = has_explicit_rematch_denial uids agree_map in
    if denies (lookup_vote uid agree_map) then true else rest

unfoldable pub mem_id : String → List String → Bool
mem_id id [] = false
mem_id id (x ∷ xs) = let rest = mem_id id xs in if str_eq x id then true else rest

-- `eligible[0]`
abbrev pub first_id : List String → Result String
first_id [] = err panic
first_id (x ∷ xs) = ok x

-- What `VoteRematch` does with the votes.
pub data Ballot : Type 0 where
  unanimous denied undecided : Ballot

unfoldable pub ballot_of : List String → Votes → Ballot
unfolding rematch_unanimous has_explicit_rematch_denial
ballot_of eligible agree_map =
    if rematch_unanimous eligible agree_map
    then unanimous
    else if has_explicit_rematch_denial eligible agree_map
    then denied
    else undecided

-- `if sess.RematchDeadlineAt == nil { sess.SetRematchDeadline(now) }`
unfoldable pub with_deadline : Option Time → Time → GameSession → GameSession
with_deadline none now sess = set_rematch_deadline now sess
with_deadline (some at) now sess = sess

module _ (u : Service) where
  unfoldable pub finalize_rematch_failure_tx : Moment → Room → Write u.store.Db Room
  finalize_rematch_failure_tx m room db =
      let freed = record room { current_session_id = none } in
      (lift (do
        players ← u.store.list_room_players_by_room_id room.id db
        counted ← recalculate_status freed (pos (count_seated players)) false
        ok (touch_room m.now counted))
          >>>= λ shown. u.store.update_room shown >>> lift (ok shown))
        db

  -- The round that follows a session, and the room that shows it.
  unfoldable pub next_round : Moment → Room → GameSession → String → Result (Room × Round)
  next_round m room prev player_user_id = do
    dealt ←
        new_round u.evaluator u.engine m.rand m.now m.fresh_id room.id (inc64 prev.round_no)
          player_user_id
    shown ← playing_room u m dealt.session room
    ok (shown, dealt)

  unfoldable pub rematch_unanimous_success_tx :
      Moment → Room → GameSession → String → ℤ → Write u.store.Db (Room × GameSession)
  unfolding next_round
  rematch_unanimous_success_tx m room prev player_user_id expected_version =
      swap_session u (next_version m.now prev) expected_version
      >>> (lift (next_round m room prev player_user_id) >>>= λ (shown, dealt).
          create_round u shown dealt >>> lift (ok (shown, dealt.session)))

  -- One of the three ends of a vote.
  unfoldable pub settle_ballot :
      Moment → Room → GameSession → List String → ℤ → Ballot → Write u.store.Db (Room × GameSession)
  unfolding rematch_unanimous_success_tx finalize_rematch_failure_tx
  settle_ballot m room sess eligible expected_version unanimous =
      lift (first_id eligible) >>>= λ uid.
      rematch_unanimous_success_tx m room sess uid expected_version
  settle_ballot m room sess eligible expected_version denied =
      finalize_rematch_failure_tx m room >>>= λ shown. lift (ok (shown, sess))
  settle_ballot m room sess eligible expected_version undecided =
      swap_session u (next_version m.now sess) expected_version
      >>> lift (ok (room, next_version m.now sess))

  unfoldable pub vote_action_log : String → String → Bool → ℤ → String → ActionLog
  vote_action_log session_id user_id agree expected_version action_id = record {
    session_id = session_id;
    actor_type = ActorType.user;
    actor_user_id = user_id;
    target_user_id = user_id;
    action_id = action_id;
    request_type = "REMATCH_VOTE";
    request_payload_hash =
        u.sha256_hex ("REMATCH_VOTE:" ++ format_bool agree ++ ":" ++ format_int expected_version);
    response_snapshot = "";
  }
