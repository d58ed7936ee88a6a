-- ===== src/Audit/Logged.antt =====
-- What the log says of a request (backend/middleware/audit_log_middleware.go with
-- backend/auditlog/entry.go).
use blackjack.Prelude.{
  String, str_eq, eq_iff, ◌≡◌, ◌≢◌, refl, ◌∙◌, Bool, true, false, Bool-cases, ◌⊎◌, inl, inr, List,
  [], ◌∷◌, ◌++◌, none, some,
}
use blackjack.Prelude.Int.{ℤ, pos, leb_ℤ, eqb_ℤ, eqb_ℤ-sound}
use blackjack.Model.Room.{Time}
use blackjack.Audit.Entry.{text, Entry, value_of, build_entry, Printer, info}
use blackjack.Audit.Http.{
  Context, HandlerFunc, request_id_of, request_id_middleware, status_of, is_failure, request_event,
  audit_log_middleware,
}

value_of-append :
    (key : String) (extra entry : Entry)
    → value_of key extra ≡ none
    → value_of key (extra ++ entry) ≡ value_of key entry
unfolding value_of
value_of-append key [] entry h = refl
value_of-append key ((k, v) ∷ extra) entry h = elim (Bool-cases (str_eq k key)) [
  | inl same ↦ cc (rw same at h)
  | inr other ↦ rw other (value_of-append key extra entry (rw other at h))
]

-- The fields that a handler may not add.
abbrev pub IsReserved : String → Type 0
IsReserved key = (key ≡ "request_id") ⊎ ((key ≡ "result") ⊎ (key ≡ "error_code"))

-- A handler keeps the request id, also that of the answer, and adds no field that the log line has of itself.
pub record IsPlain {S : Type 0} (next : HandlerFunc S) : Type 0 where
  pub keeps_id : (c : Context) (s : S) → (next c s).1.request_id ≡ c.request_id
  pub keeps_answer :
      (c : Context) (s : S) → (next c s).1.response_request_id ≡ c.response_request_id
  pub extra :
      (c : Context) (s : S) (key : String) → IsReserved key → value_of key (next c s).1.extra ≡ none

-- The line has the id of the answer, which is not empty, and tells whether the request succeeded: it did if
-- the handler ended without an error and the status is below 400.
pub record IsLogged (p : Printer) (failed : Bool) (c : Context) (entry : Entry) : Type 0 where
  pub request_id : value_of "request_id" entry ≡ some (text c.response_request_id)
  pub has_id : c.response_request_id ≢ ""
  pub success :
      failed ≡ false
      → leb_ℤ (pos 400) c.response_status ≡ false
      → (value_of "result" entry ≡ some (text "success"))
        × (value_of "error_code" entry ≡ some (text ""))
  pub failure :
      (failed ≡ true) ⊎ (leb_ℤ (pos 400) c.response_status ≡ true)
      → (value_of "result" entry ≡ some (text "failure"))
        × (value_of "error_code" entry ≡ some (text (p.status_text (status_of c))))

status_of-high : (c : Context) → leb_ℤ (pos 400) (status_of c) ≡ leb_ℤ (pos 400) c.response_status
unfolding status_of
status_of-high c = elim (Bool-cases (eqb_ℤ c.response_status (pos 0))) [
  | inl zero ↦ rw (zero, eqb_ℤ-sound c.response_status (pos 0) zero) refl
  | inr other ↦ rw other refl
]

request_id_of-has_id :
    (fresh_id : String) (c : Context) → fresh_id ≢ "" → request_id_of fresh_id c ≢ ""
unfolding request_id_of
request_id_of-has_id fresh_id c fresh empty = elim (Bool-cases (str_eq c.request_id_header "")) [
  | inl without ↦ fresh (rw without at empty)
  | inr other ↦ cc (other, (eq_iff c.request_id_header "").1 (rw other at empty))
]

module _ (p : Printer) (failed : Bool) (c : Context) where
  is_failure-not :
      failed ≡ false → leb_ℤ (pos 400) c.response_status ≡ false → is_failure failed c ≡ false
  unfolding is_failure
  is_failure-not done low = rw (status_of-high c, done, low) refl

  is_failure-either :
      (failed ≡ true) ⊎ (leb_ℤ (pos 400) c.response_status ≡ true) → is_failure failed c ≡ true
  unfolding is_failure
  is_failure-either h = rw (status_of-high c) (elim h [
    | inl ended ↦ elim (Bool-cases (leb_ℤ (pos 400) c.response_status)) [
      | inl high ↦ rw (high) refl
      | inr low ↦ rw (low, ended) refl
    ]
    | inr high ↦ rw high refl
  ])

  build_entry-values :
      (start : Time) (latency_ms : ℤ) (extra : Entry) (key : String)
      → value_of key extra ≡ none
      → value_of key (build_entry p.format_time (request_event p start latency_ms failed c) extra)
        ≡ value_of key (build_entry p.format_time (request_event p start latency_ms failed c) [])
  unfolding build_entry
  build_entry-values start latency_ms extra key h = value_of-append key extra _ h

  -- The log line of a request that bears the id of its answer.
  request_event-IsLogged :
      (start : Time) (latency_ms : ℤ)
      → c.request_id ≡ some c.response_request_id
      → c.response_request_id ≢ ""
      → IsLogged p failed c
          (build_entry p.format_time (request_event p start latency_ms failed c) [])
  unfolding build_entry request_event value_of
  request_event-IsLogged start latency_ms same has_id = record {
    request_id = rw same refl;
    has_id = has_id;
    success = λ done low. rw (is_failure-not done low) (refl, refl);
    failure = λ h. rw (is_failure-either h) (refl, refl);
  }

-- The request as the handler sees it.
abbrev pub identified : String → Context → Context
identified fresh_id c = record c {
  request_id = some (request_id_of fresh_id c);
  response_request_id = request_id_of fresh_id c;
}

module _ {S : Type 0} (p : Printer) (next : HandlerFunc (List String × S))
    (plain : IsPlain next) where
  -- The audit log adds one line to those of the handler, unless it has no JSON, and changes nothing else. The
  -- line has the request id of the answer, which is not empty, and says "success" exactly if the handler ended
  -- without an error and with a status below 400; that holds if new ids are not empty and the handler keeps
  -- the request id and adds no field of those.
  pub audit_log_middleware-IsLogged :
      (fresh_id : String) (start : Time) (latency_ms : ℤ) (c : Context) (s : List String × S)
      → fresh_id ≢ ""
      → let handled = next (identified fresh_id c) s in
        let logged =
          request_id_middleware fresh_id (audit_log_middleware p start latency_ms next) c s in
        (entry : Entry) × (logged
          ≡ (handled.0, handled.1, (info (p.marshal entry) handled.2.0, handled.2.1)))
        × IsLogged p handled.0 handled.1 entry
  unfolding request_id_middleware audit_log_middleware
  audit_log_middleware-IsLogged fresh_id start latency_ms c s fresh =
      let handled = next (identified fresh_id c) s in
      let same = plain.keeps_id (identified fresh_id c) s in
      let answer = plain.keeps_answer (identified fresh_id c) s in
      let plainly =
        request_event-IsLogged p handled.0 handled.1 start latency_ms (cc (same, answer))
          (λ empty. request_id_of-has_id fresh_id c fresh (cc (answer, empty))) in
      let value = λ (key : String) (h : IsReserved key).
        build_entry-values p handled.0 handled.1 start latency_ms handled.1.extra key
          (plain.extra (identified fresh_id c) s key h) in
      (
        build_entry p.format_time (request_event p start latency_ms handled.0 handled.1)
            handled.1.extra,
        refl,
        record {
          request_id = value "request_id" (inl refl) ∙ plainly.request_id;
          has_id = plainly.has_id;
          success = λ done low. (
            value "result" (inr (inl refl)) ∙ (plainly.success done low).0,
            value "error_code" (inr (inr refl)) ∙ (plainly.success done low).1,
          );
          failure = λ h. (
            value "result" (inr (inl refl)) ∙ (plainly.failure h).0,
            value "error_code" (inr (inr refl)) ∙ (plainly.failure h).1,
          );
        },
      )
