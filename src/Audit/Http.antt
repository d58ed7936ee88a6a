-- ===== src/Audit/Http.antt =====
-- backend/middleware/audit_log_middleware.go: the request id and the log line of a request.
use Prim.Native.String.{◌++◌}
use blackjack.Prelude.{String, str_eq, Bool, ◌||◌, List, [], ◌∷◌, Option, none, some, if◌then◌else◌}
use blackjack.Prelude.Int.{ℤ, pos, leb_ℤ, eqb_ℤ}
use blackjack.Model.Room.{Time}
use blackjack.Audit.Entry.{Value, text, null, Entry, Event, build_entry, Printer, info}

-- What `AuditLogMiddleware` reads of an echo.Context. A key that is not set, or that has a value of another
-- type, is `none`, and so is a pointer that is nil.
pub record Context : Type 0 where
  pub method : String
  pub path : String
  pub room_param : String
  pub request_id_header : String
  pub action_id_header : String
  pub response_request_id : String
  pub response_status : ℤ
  pub request_id : Option String
  pub audit_action_id : Option String
  pub user_id : Option String
  pub session_id : Value
  pub session_version_before : Option ℤ
  pub session_version_after : Option ℤ
  pub game_session_id : Option String
  pub extra : Entry

unfoldable pub set_audit_session_versions : Option ℤ → Option ℤ → Context → Context
set_audit_session_versions before after c = record c {
  session_version_before = before;
  session_version_after = after;
}

unfoldable pub set_audit_game_session_id : Option String → Context → Context
set_audit_game_session_id id c = record c { game_session_id = id }

unfoldable pub set_audit_extra : Entry → Context → Context
set_audit_extra [] c = c
set_audit_extra (field ∷ fields) c = record c { extra = field ∷ fields }

abbrev pub text_or_null : Option String → Value
text_or_null (some v) = text v
text_or_null none = null

abbrev pub or_empty : Option String → String
or_empty (some v) = v
or_empty none = ""

-- A handler gives whether it ends with an error, and the context and the state it leaves.
abbrev pub HandlerFunc : Type 0 → Type 0
HandlerFunc S = Context → S → Bool × Context × S

unfoldable pub request_id_of : String → Context → String
request_id_of fresh_id c = if str_eq c.request_id_header "" then fresh_id else c.request_id_header

unfoldable pub request_id_middleware : {S : Type 0} → String → HandlerFunc S → HandlerFunc S
unfolding request_id_of
request_id_middleware fresh_id next c s =
    let req_id = request_id_of fresh_id c in
    next (record c { request_id = some req_id; response_request_id = req_id }) s

unfoldable pub resolve_action_id : Context → String
resolve_action_id c =
    if str_eq (or_empty c.audit_action_id) ""
    then c.action_id_header
    else or_empty c.audit_action_id

unfoldable pub status_of : Context → ℤ
status_of c = if eqb_ℤ c.response_status (pos 0) then pos 200 else c.response_status

unfoldable pub is_failure : Bool → Context → Bool
unfolding status_of
is_failure failed c = leb_ℤ (pos 400) (status_of c) || failed

module _ (p : Printer) where
  unfoldable pub request_event : Time → ℤ → Bool → Context → Event
  unfolding status_of is_failure resolve_action_id
  request_event start latency_ms failed c = record {
    ts = start;
    req_id = or_empty c.request_id;
    action_id = resolve_action_id c;
    room_id = c.room_param;
    session_id = c.session_id;
    game_session_id = text_or_null c.game_session_id;
    user_id = or_empty c.user_id;
    actor_type = "USER";
    request_type = c.method ++ (" " ++ c.path);
    session_version_before = c.session_version_before;
    session_version_after = c.session_version_after;
    latency_ms = latency_ms;
    result = if is_failure failed c then "failure" else "success";
    error_code = if is_failure failed c then p.status_text (status_of c) else "";
  }

  -- The state of a server is the log and what the handlers work on.
  unfoldable pub audit_log_middleware :
      {S : Type 0} → Time → ℤ → HandlerFunc (List String × S) → HandlerFunc (List String × S)
  unfolding request_event build_entry info
  audit_log_middleware start latency_ms next c s =
      let (failed, c', (log, s')) = next c s in
      let entry = build_entry p.format_time (request_event start latency_ms failed c') c'.extra in
      (failed, c', (info (p.marshal entry) log, s'))
