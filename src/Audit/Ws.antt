-- ===== src/Audit/Ws.antt =====
-- backend/controller/ws_audit.go: the log line of a message on a WebSocket.
use Prim.Native.String.{◌++◌}
use blackjack.Prelude.{String, str_eq, List, Option, none, some, if◌then◌else◌}
use blackjack.Prelude.Int.{ℤ}
use blackjack.Model.Room.{Time}
use blackjack.Audit.Entry.{Value, Entry, Event, build_entry, Printer, info}
use blackjack.Audit.Http.{text_or_null}

pub record WsAuditLogContext : Type 0 where
  pub request_id : String
  pub session_id : Value

-- The arguments of `logWSEvent` on the message and its outcome.
pub record WsEvent : Type 0 where
  pub event_type : String
  pub request_id : String
  pub action_id : String
  pub room_id : String
  pub user_id : String
  pub game_session_id : Option String
  pub before : Option ℤ
  pub after : Option ℤ
  pub start : Time
  pub result : String
  pub error_code : String

unfoldable pub ws_event : WsAuditLogContext → ℤ → WsEvent → Event
ws_event ws latency_ms e = record {
  ts = e.start;
  req_id = if str_eq e.request_id "" then ws.request_id else e.request_id;
  action_id = e.action_id;
  room_id = e.room_id;
  session_id = ws.session_id;
  game_session_id = text_or_null e.game_session_id;
  user_id = e.user_id;
  actor_type = "USER";
  request_type = "WS " ++ e.event_type;
  session_version_before = e.before;
  session_version_after = e.after;
  latency_ms = latency_ms;
  result = e.result;
  error_code = e.error_code;
}

-- The measurement that follows is left out.
unfoldable pub log_ws_event :
    Printer → Option WsAuditLogContext → ℤ → WsEvent → Entry → List String → List String
unfolding ws_event build_entry info
log_ws_event p none latency_ms e extra log = log
log_ws_event p (some ws) latency_ms e extra log =
    info (p.marshal (build_entry p.format_time (ws_event ws latency_ms e) extra)) log
