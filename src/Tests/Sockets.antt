-- ===== src/Tests/Sockets.antt =====
-- Witnesses for the properties of the connections: a Redis in memory, and a player who opens a room.
use blackjack.Prelude.{
  ℕ, suc, String, str_eq, eq_iff, eq_refl, ◌≡◌, ◌≢◌, refl, ap, true, false, Bool-cases, inl, inr,
  In, [], ◌∷◌, Option, none, some, if◌then◌else◌, arith,
}
use blackjack.Prelude.Int.{ℤ, pos, negsuc, ◌<ℤ◌}
use blackjack.Prelude.Result.{Result, ok, ok_unique, ◌>>=◌}
use blackjack.Prelude.Space.{trim_space, is_space}
use blackjack.Model.Room.{Time}
use blackjack.Accounts.Jwt.{Jwt, Claims, hs256, parse_and_validate}
use blackjack.Limits.Allow.{allow}
use blackjack.Usecase.Access.{RoomState, get_room, get_room_state}
use blackjack.Usecase.Connections.{mark_connected}
use blackjack.Web.Hub.{empty_hub, add, snapshot}
use blackjack.Web.Ws.{WsActionRequest}
use blackjack.Sockets.Epoch.{
  Redis, IsRedis, EpochStore, default_ttl, register_connection_epoch, ws_epoch_counter_key,
  ws_epoch_latest_key,
}
use blackjack.Sockets.Current.{here, register_grows}
use blackjack.Sockets.Site.{Site, World, Connection}
use blackjack.Sockets.Site
use blackjack.Sockets.Open.{
  Handshake, room_ws, limit_address, limit, read_auth, identify, see_room, limit_user, assign_epoch,
  sit_down, enter,
}
use blackjack.Sockets.Opens.{Outcome, room_ws-Outcome}
use mathlib.Core.Logic.{◌↔◌}
use blackjack.Web.Payload.{build_room_dto}
use blackjack.Sockets.Close.{close}
use blackjack.Sockets.Replaced.{IsInPlace, room_ws-close}
use blackjack.Sockets.Broadcast.{WsRoomStateSyncEvent, broadcast_room_state_local}
use blackjack.Sockets.Reaches.{IsView, broadcast-IsView}
use blackjack.Sockets.Receive.{receive, superseded}
use blackjack.Sockets.Stale.{receive-ne-superseded}
use blackjack.Tests.Limits.{naturals, bucket}
use blackjack.Tests.Requests.{service, opened, moment, idle}

abbrev Keys : Type 0
Keys = String → Option ℤ

abbrev put : String → ℤ → Keys → Keys
put key v db other = if str_eq other key then some v else db other

abbrev next : Option ℤ → ℤ
next none = pos 1
next (some (pos n)) = pos (suc n)
next (some (negsuc n)) = pos 0

abbrev redis : Redis
redis = record {
  Db = Keys;
  incr = λ key db. (ok (next (db key)), put key (next (db key)) db);
  set = λ key v ttl db. (ok tt, put key v db);
  get_int64 = λ key db. ok (db key);
}

next_grows :
    (o : Option ℤ) (v n : ℤ)
    → ◌≡◌ {A = Result (Option ℤ)} (ok o) (ok (some v))
    → ◌≡◌ {A = Result ℤ} (ok (next o)) (ok n)
    → v <ℤ n
next_grows none v n p q = cc
next_grows (some (pos k)) v n p q = ground arith
next_grows (some (negsuc k)) v n p q = ground arith

put_other : (key other : String) (v : ℤ) (db : Keys) → other ≢ key → put key v db other ≡ db other
put_other key other v db differ = elim (Bool-cases (str_eq other key)) [
  | inl e ↦ absurd (differ ((eq_iff other key).0 e))
  | inr e ↦ rw (e) refl
]

redis_laws : IsRedis redis
redis_laws = record {
  set-get = λ key v ttl db lives h. rw (eq_refl key) refl;
  set-other = λ key other v ttl db differ. ap ok (put_other key other v db differ);
  incr-get = λ key n db h. rw (eq_refl key) (ap (λ (r : ℤ). ok (some r)) (ok_unique refl h));
  incr_grows = λ key v n db p q. next_grows (db key) v n p q;
  incr_lost = λ key v e db p q. cc q;
  incr-other = λ key other db differ. ap ok (put_other key other _ db differ);
}

abbrev store : EpochStore
store = record { redis = redis; configured = true; ttl = default_ttl }

abbrev none_yet : Keys
none_yet key = none

abbrev first : Keys
first = (register_connection_epoch store "r" "u" none_yet).1

first_epoch : (register_connection_epoch store "r" "u" none_yet).0 ≡ ok (pos 1)
unfolding register_connection_epoch
first_epoch = refl

second_epoch : (register_connection_epoch store "r" "u" first).0 ≡ ok (pos 2)
unfolding register_connection_epoch ws_epoch_counter_key ws_epoch_latest_key
second_epoch = refl

register_grows_example : pos 1 <ℤ pos 2
register_grows_example =
    register_grows store redis_laws refl "r" "u" (pos 1) (pos 2) none_yet first first_epoch here
      second_epoch

-- The token is the id of its user.
abbrev claims : String → Claims
claims user_id = record { subject = user_id; id = "j"; issued_at = 0; expires_at = 9 }

abbrev tokens : Jwt
tokens = record {
  numeric_date = λ t. t;
  sign = λ m c secret. ok c.subject;
  parse = λ token key leeway now. key hs256 >>= λ secret. ok (claims token, true);
  method_of = λ token. some hs256;
}

abbrev site : Site
site = record {
  service = service;
  epochs = store;
  floats = naturals;
  buckets = bucket;
  limiter = true;
  to_lower = λ s. s;
  jwt = tokens;
  secret = "sixteen bytes or more";
  mark_disconnected = true;
}

abbrev start : World site
start = record { hub = empty_hub; epochs = none_yet; buckets = 9; db = opened }

abbrev visit : Handshake
visit = record {
  room_id = "r";
  real_ip = "10.0.0.1";
  remote_addr = "";
  upgrade = ok 7;
  first = some (ok (record { event = "AUTH"; access_token = "u" }));
  now_ms = pos 0;
  now = 5;
}

room_ws-Outcome_example : Outcome site visit start (room_ws site idle visit start)
room_ws-Outcome_example = room_ws-Outcome site idle visit start

abbrev joined : Connection
joined = record { room_id = "r"; user_id = "u"; conn = 7; epoch = pos 1 }

abbrev hit : WsActionRequest
hit = record { event = "PING"; action_id = ""; expected_version = pos 0; agree = none }

-- The connection with the epoch 1, after the epoch 2 was registered.
receive-ne-superseded_example :
    (receive site idle
      (λ d. d)
      moment
      joined
      (pos 0)
      (ok hit)
      (record start { epochs = (register_connection_epoch store "r" "u" first).1 })).0
    ≢ superseded
receive-ne-superseded_example =
    receive-ne-superseded site redis_laws (omega arith) idle (λ d. d) moment joined (λ d. refl)
      (pos 0) (ok hit) (record start { epochs = (register_connection_epoch store "r" "u" first).1 })

let_in :
    room_ws site idle visit start
    ≡ (Site.connected joined none (some "s") "j", (room_ws site idle visit start).1)
unfolding room_ws limit_address limit allow read_auth trim_space is_space identify
    parse_and_validate see_room get_room limit_user assign_epoch register_connection_epoch sit_down
    mark_connected enter add
let_in = refl

abbrev left : Connection
left = record { room_id = "r"; user_id = "u"; conn = 3; epoch = pos 1 }

room_ws-close_example :
    ((close site idle left (room_ws site idle visit start).1).db
      ≡ (room_ws site idle visit start).1.db)
    × IsInPlace site joined (close site idle left (room_ws site idle visit start).1)
room_ws-close_example =
    room_ws-close site idle idle visit start (room_ws site idle visit start).1
      (room_ws site idle visit start).1 joined left none (some "s") "j" let_in refl refl refl
      (λ (h : ◌≡◌ {A = ℕ} 7 3). omega arith)

abbrev format : Time → String
format t = "2026-01-01T00:00:00Z"

abbrev seated : World site
seated = record start { hub = (add "r" 7 "u" empty_hub).1 }

abbrev opened_state : RoomState
opened_state = record {
  room = opened.room;
  session = some opened.session;
  dealer = some opened.dealer;
  players = opened.player ∷ [];
  can_hit = true;
  can_stand = true;
  can_rematch = false;
}

abbrev view : RoomState → WsRoomStateSyncEvent
view state = record { event = "ROOM_STATE_SYNC"; payload = build_room_dto format state "u" }

opened_view :
    In
      (7, view opened_state)
      (broadcast_room_state_local site format (λ c. true) "ROOM_STATE_SYNC" "r" seated).0
unfolding broadcast_room_state_local get_room_state snapshot add
opened_view = inl refl

-- The player's view of the room goes to his connection.
broadcast-IsView_example :
    In
      (7, (view opened_state))
      (broadcast_room_state_local site format (λ c. true) "ROOM_STATE_SYNC" "r" seated).0
    ↔ IsView site format
        (λ c. true)
        "ROOM_STATE_SYNC"
        "r"
        (snapshot "r" seated.hub)
        opened
        7
        (view opened_state)
broadcast-IsView_example =
    broadcast-IsView site format (λ c. true) "ROOM_STATE_SYNC" "r" seated 7 (view opened_state)
