-- ===== src/Tests/Audit.antt =====
-- A handler and the log line of its request.
use blackjack.Prelude.{
  String, ◌≡◌, ◌≢◌, refl, Bool, true, false, inl, inr, List, [], ◌∷◌, none, some,
}
use blackjack.Prelude.Int.{pos}
use blackjack.Audit.Entry.{Entry, text, null, Printer, info, value_of}
use blackjack.Audit.Http.{Context, set_audit_extra, request_id_middleware, audit_log_middleware}
use blackjack.Audit.Logged.{
  IsReserved, IsPlain, IsLogged, identified, audit_log_middleware-IsLogged,
}

abbrev printer : Printer
printer = record {
  format_time = λ t. "time";
  marshal = λ e. some "line";
  status_text = λ s. "status";
}

-- It answers 404 and names the host.
abbrev handler : Context → List String × Bool → Bool × Context × (List String × Bool)
handler c s = (
  false,
  set_audit_extra (("audit_event", text "HOST_TRANSFER") ∷ [])
      (record c { response_status = pos 404 }),
  s,
)

adds_event :
    (c : Context) (s : List String × Bool) (key : String)
    → IsReserved key
    → value_of key (handler c s).1.extra ≡ none
unfolding set_audit_extra value_of
adds_event c s key (inl is) = rw is refl
adds_event c s key (inr (inl is)) = rw is refl
adds_event c s key (inr (inr is)) = rw is refl

keeps_id : (c : Context) (s : List String × Bool) → (handler c s).1.request_id ≡ c.request_id
unfolding set_audit_extra
keeps_id c s = refl

keeps_answer :
    (c : Context) (s : List String × Bool)
    → (handler c s).1.response_request_id ≡ c.response_request_id
unfolding set_audit_extra
keeps_answer c s = refl

plain : IsPlain handler
plain = record { keeps_id = keeps_id; keeps_answer = keeps_answer; extra = adds_event }

abbrev request : Context
request = record {
  method = "POST";
  path = "/api/rooms/:id/leave";
  room_param = "r";
  request_id_header = "";
  action_id_header = "";
  response_request_id = "";
  response_status = pos 0;
  request_id = none;
  audit_action_id = none;
  user_id = some "u";
  session_id = null;
  session_version_before = none;
  session_version_after = none;
  game_session_id = none;
  extra = [];
}

abbrev fresh_id : String
fresh_id = "n"

fresh : fresh_id ≢ ""
fresh h = cc

audit_log_middleware-IsLogged_example :
    (entry : Entry) × (request_id_middleware fresh_id
        (audit_log_middleware printer 1 (pos 2) handler)
        request
        ([], true)
      ≡ (
        (handler (identified fresh_id request) ([], true)).0,
        (handler (identified fresh_id request) ([], true)).1,
        (info (printer.marshal entry) [], true),
      ))
    × IsLogged printer
        (handler (identified fresh_id request) ([], true)).0
        (handler (identified fresh_id request) ([], true)).1
        entry
audit_log_middleware-IsLogged_example =
    audit_log_middleware-IsLogged printer handler plain fresh_id 1 (pos 2) request ([], true) fresh
