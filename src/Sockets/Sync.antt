-- ===== src/Sockets/Sync.antt =====
-- backend/realtime/room_sync.go: the servers tell one another over Redis Pub/Sub which rooms to send again.
-- The JSON of a message is a parameter; what Redis delivers is a list.
use blackjack.Prelude.{
  String, str_eq, ◌≡◌, refl, ap, ◌∙◌, Bool, true, false, not, ◌&&◌, ◌||◌, Bool-cases, &&-true,
  arith, inl, inr, List, [], ◌∷◌, ◌++◌, Option, none, some, if◌then◌else◌,
}
use blackjack.Prelude.Result.{Result, ok, err, ◌>>=◌, >>=-eq-ok, ok_unique}

pub record RoomSyncMessage : Type 0 where
  pub room_id : String
  pub event_type : String
  pub origin : String

-- json.Marshal and json.Unmarshal on these messages.
pub record SyncCodec : Type 0 where
  pub marshal : RoomSyncMessage → Result String
  pub unmarshal : String → Result RoomSyncMessage

-- What encoding/json documents: a message of strings in UTF-8 is written, and read back as it was.
pub record IsSyncCodec (codec : SyncCodec) : Type 0 where
  pub round_trip :
      (m : RoomSyncMessage)
      → (text : String) × (codec.marshal m ≡ ok text) × (codec.unmarshal text ≡ ok m)

-- `connected` is false where the broker or its client is nil.
pub record RoomSyncBroker : Type 0 where
  pub connected : Bool
  pub server_id : String

unfoldable pub new_room_sync_broker : Bool → String → RoomSyncBroker
new_room_sync_broker connected server_id = record {
  connected = connected;
  server_id = if str_eq server_id "" then "unknown" else server_id;
}

module _ (codec : SyncCodec) where
  -- The payload that goes to the channel, if any.
  unfoldable pub publish : RoomSyncBroker → String → String → Result (Option String)
  publish b room_id event_type =
      if b.connected && not (str_eq room_id "")
      then (codec.marshal
            (record { room_id = room_id; event_type = event_type; origin = b.server_id })
          >>= λ text. ok (some text))
      else ok none

  -- The call of `onRemoteSync` for a message, if any.
  unfoldable pub remote_sync : RoomSyncBroker → Result RoomSyncMessage → Option (String × String)
  remote_sync b (err e) = none
  remote_sync b (ok m) =
      if str_eq m.origin b.server_id || str_eq m.room_id ""
      then none
      else some (m.room_id, if str_eq m.event_type "" then "ROOM_STATE_SYNC" else m.event_type)

  abbrev pub keep : Option (String × String) → List (String × String) → List (String × String)
  keep none calls = calls
  keep (some call) calls = call ∷ calls

  unfoldable pub subscriber_loop : RoomSyncBroker → List (Option String) → List (String × String)
  unfolding remote_sync
  subscriber_loop b [] = []
  subscriber_loop b (none ∷ messages) = subscriber_loop b messages
  subscriber_loop b (some payload ∷ messages) =
      keep (remote_sync b (codec.unmarshal payload)) (subscriber_loop b messages)

  -- The calls for what the channel delivers until it is closed or the context ends; `none` is a nil message.
  unfoldable pub run_subscriber : RoomSyncBroker → List (Option String) → List (String × String)
  unfolding subscriber_loop
  run_subscriber b messages = if b.connected then subscriber_loop b messages else []

  keep-append :
      (o : Option (String × String)) (xs ys : List (String × String))
      → keep o (xs ++ ys) ≡ keep o xs ++ ys
  keep-append none xs ys = refl
  keep-append (some call) xs ys = refl

  loop-append :
      (b : RoomSyncBroker) (xs ys : List (Option String))
      → subscriber_loop b (xs ++ ys) ≡ subscriber_loop b xs ++ subscriber_loop b ys
  unfolding subscriber_loop
  loop-append b [] ys = refl
  loop-append b (none ∷ xs) ys = loop-append b xs ys
  loop-append b (some payload ∷ xs) ys =
      ap (keep (remote_sync b (codec.unmarshal payload))) (loop-append b xs ys)
      ∙ keep-append _ (subscriber_loop b xs) (subscriber_loop b ys)

  published :
      (a : RoomSyncBroker) (room_id event text : String)
      → publish a room_id event ≡ ok (some text)
      → (codec.marshal (record { room_id = room_id; event_type = event; origin = a.server_id })
          ≡ ok text)
        × (str_eq room_id "" ≡ false)
  unfolding publish
  published a room_id event text h = elim (Bool-cases (a.connected && not (str_eq room_id ""))) [
    | inl e ↦
        let (t, p, q) = >>=-eq-ok _ _ _ (rw (e) at h) in
        (p ∙ ap ok (same_text (ok_unique refl q)), named (&&-true a.connected _ e).1)
    | inr e ↦ absurd (nothing (ok_unique refl (rw (e) at h)))
  ]
    where
      named : {b : Bool} → not b ≡ true → b ≡ false
      named h = ground arith

      same_text : {t u : String} → ◌≡◌ {A = Option String} (some t) (some u) → t ≡ u
      same_text h = cc

      nothing : {t : String} → ◌≡◌ {A = Option String} none (some t) → ⊥
      nothing h = cc

  -- What a server makes of a message of the server `origin`.
  abbrev pub heard : RoomSyncBroker → String → String → String → List (String × String)
  heard b origin room_id event =
      if str_eq origin b.server_id
      then []
      else (room_id, if str_eq event "" then "ROOM_STATE_SYNC" else event) ∷ []

  module _ (laws : IsSyncCodec codec) where
    read_back :
        (a b : RoomSyncBroker) (room_id event text : String)
        → publish a room_id event ≡ ok (some text)
        → subscriber_loop b (some text ∷ []) ≡ heard b a.server_id room_id event
    unfolding subscriber_loop remote_sync
    read_back a b room_id event text h =
        let (p, named) = published a room_id event text h in
        let (t, q, r) =
          laws.round_trip
            (record { room_id = room_id; event_type = event; origin = a.server_id }) in
        let e = ap codec.unmarshal (ok_unique p q) ∙ r in
        rw (e, named) (branches _ (str_eq a.server_id b.server_id))
      where
        branches :
            (x : String × String) (own : Bool)
            → keep (if own || false then none else some x) [] ≡ (if own then [] else x ∷ [])
        branches x true = refl
        branches x false = refl

    -- What a server publishes, another server hears in its place among the other messages, with the event
    -- ROOM_STATE_SYNC for an empty one, and the server itself passes it over.
    pub run_subscriber-publish :
        (a b : RoomSyncBroker) (room_id event text : String) (before after : List (Option String))
        → b.connected ≡ true
        → publish a room_id event ≡ ok (some text)
        → run_subscriber b (before ++ (some text ∷ after))
          ≡ run_subscriber b before ++ (heard b a.server_id room_id event ++ run_subscriber b after)
    unfolding run_subscriber
    run_subscriber-publish a b room_id event text before after on h = rw (on) (
        loop-append b before (some text ∷ after)
        ∙ ap (λ x. subscriber_loop b before ++ x)
            (loop-append b (some text ∷ []) after
              ∙ ap (λ x. x ++ subscriber_loop b after) (read_back a b room_id event text h)))
