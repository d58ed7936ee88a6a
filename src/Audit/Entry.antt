-- ===== src/Audit/Entry.antt =====
-- backend/auditlog/entry.go: one line of the audit log as a Go map, and how it is written.
use blackjack.Prelude.{String, str_eq, List, [], ◌∷◌, ◌++◌, Option, none, some, if◌then◌else◌}
use blackjack.Prelude.Int.{ℤ}
use blackjack.Model.Room.{Time}

-- A value of type `any`, as far as the log has them. A nil pointer is `null`.
pub data Value : Type 0 where
  text : String → Value
  number : ℤ → Value
  null : Value

-- A Go map as an association list: the first entry of a key counts.
abbrev pub Entry : Type 0
Entry = List (String × Value)

unfoldable pub value_of : String → Entry → Option Value
value_of key [] = none
value_of key (e ∷ entry) =
    let rest = value_of key entry in if str_eq e.0 key then some e.1 else rest

abbrev pub number_or_null : Option ℤ → Value
number_or_null (some v) = number v
number_or_null none = null

-- The arguments of `BuildEntry`, the additional fields left out.
pub record Event : Type 0 where
  pub ts : Time
  pub req_id : String
  pub action_id : String
  pub room_id : String
  pub session_id : Value
  pub game_session_id : Value
  pub user_id : String
  pub actor_type : String
  pub request_type : String
  pub session_version_before : Option ℤ
  pub session_version_after : Option ℤ
  pub latency_ms : ℤ
  pub result : String
  pub error_code : String

-- `format_time` is the layout RFC3339Nano of the time in UTC. The additional fields replace those of the
-- same key.
unfoldable pub build_entry : (Time → String) → Event → Entry → Entry
build_entry format_time e extra =
    extra
    ++ ("timestamp", text (format_time e.ts))
      ∷ ("level", text "INFO")
      ∷ ("request_id", text e.req_id)
      ∷ ("action_id", text e.action_id)
      ∷ ("room_id", text e.room_id)
      ∷ ("session_id", e.session_id)
      ∷ ("game_session_id", e.game_session_id)
      ∷ ("user_id", text e.user_id)
      ∷ ("actor_type", text e.actor_type)
      ∷ ("request_type", text e.request_type)
      ∷ ("session_version_before", number_or_null e.session_version_before)
      ∷ ("session_version_after", number_or_null e.session_version_after)
      ∷ ("latency_ms", number e.latency_ms)
      ∷ ("result", text e.result)
      ∷ ("error_code", text e.error_code)
      ∷ []

-- What the log needs of Go's library: the text of a time, JSON, and the text of a status.
pub record Printer : Type 0 where
  pub format_time : Time → String
  pub marshal : Entry → Option String
  pub status_text : ℤ → String

-- The lines of the log, the last one first. An entry that has no JSON is passed over.
unfoldable pub info : Option String → List String → List String
info (some line) log = line ∷ log
info none log = log
