-- ===== src/Connected/Closing.antt =====
-- How a session ends towards the client: `writeFinal` and `terminalFailure` of
-- internal/transport/websocket/connectedsession/module.go.
use ani_session_gateway.Prelude.{
  ℕ, ◌≡◌, ◌≢◌, ◌↔◌, inl, inr, Bool-cases, true, Option, none, some, [], Str, str, if◌then◌else◌,
  arith,
}
use ani_session_gateway.Session.Model.{Mode, is_vnc}
use ani_session_gateway.Connected.{
  Outcome, normal, client_closed, idle_timeout, max_duration, message_too_big,
  invalid_terminal_frame, invalid_vnc_frame, backpressure, runtime_unavailable, target_changed,
  runtime_failed, transport_failed, shutdown, invalid_start,
}
use ani_session_gateway.Connected.Frames.{ServerFrame, named}

-- What is written last: an error frame, and the close status with its reason.
pub record FinalWrite : Type 0 where
  pub error_frame : Option ServerFrame
  pub status : ℕ
  pub reason : Str

abbrev pub terminal_failure : Outcome → Str × Str
terminal_failure invalid_terminal_frame =
    (str "INVALID_TERMINAL_FRAME", str "invalid terminal frame")
terminal_failure backpressure = (str "BACKPRESSURE_LIMIT", str "terminal stream failed")
terminal_failure runtime_unavailable = (str "RUNTIME_UNAVAILABLE", str "terminal stream failed")
terminal_failure _ = (str "RUNTIME_STREAM_FAILED", str "terminal stream failed")

abbrev terminal_error : Str → Str → ServerFrame
terminal_error code message = record {
  type = str "error";
  contents = [];
  code = named code;
  message = message;
}

-- The last two branches: a console has no error frames.
abbrev failed_write : Mode → Outcome → FinalWrite
failed_write mode outcome =
    if is_vnc mode
    then record { error_frame = none; status = 1011; reason = str "console stream failed" }
    else let (code, message) = terminal_failure outcome in
      record { error_frame = some (terminal_error code message); status = 1011; reason = message }

abbrev plain : ℕ → Str → FinalWrite
plain status reason = record { error_frame = none; status = status; reason = reason }

abbrev final_write : Mode → Outcome → Option FinalWrite
final_write mode client_closed = none
final_write mode normal = some (plain 1000 [])
final_write mode idle_timeout = some (plain 1008 (str "idle timeout"))
final_write mode max_duration = some (plain 1008 (str "session expired"))
final_write mode message_too_big = some (plain 1009 (str "message too big"))
final_write mode shutdown = some (plain 1001 (str "server shutdown"))
final_write mode target_changed = some (plain 1008 (str "console target changed"))
final_write mode outcome = some (failed_write mode outcome)

-- `writeFinal`, where none for the socket is nil.
unfoldable pub write_final : Option Str → Mode → Outcome → Option FinalWrite
write_final none mode outcome = none
write_final (some socket) mode outcome = final_write mode outcome

-- What the close says: nothing is written exactly when the client has closed, the status is that of
-- success exactly for a normal end, and a console or a clean end gets no error frame.
pub record Tells (mode : Mode) (outcome : Outcome) (o : Option FinalWrite) : Type 0 where
  pub silent : (o ≡ none) ↔ (outcome ≡ client_closed)
  pub success : (w : FinalWrite) → o ≡ some w → (w.status ≡ 1000) ↔ (outcome ≡ normal)
  pub console : (w : FinalWrite) → o ≡ some w → is_vnc mode ≡ true → w.error_frame ≡ none
  pub clean : (w : FinalWrite) → o ≡ some w → w.status ≢ 1011 → w.error_frame ≡ none

plain-Tells :
    (mode : Mode) (outcome : Outcome) (status : ℕ) (reason : Str)
    → outcome ≢ client_closed
    → (status ≡ 1000) ↔ (outcome ≡ normal)
    → Tells mode outcome (some (plain status reason))
plain-Tells mode outcome status reason other same = record {
  silent = ground arith;
  success = λ w e. ground arith;
  console = λ w e v. ground arith;
  clean = λ w e n. ground arith;
}

failed_write-Tells :
    (mode : Mode) (outcome : Outcome)
    → outcome ≢ client_closed
    → outcome ≢ normal
    → Tells mode outcome (some (failed_write mode outcome))
failed_write-Tells mode outcome other failure = elim (Bool-cases (is_vnc mode)) [
  | inl console ↦ rw console (record {
    silent = ground arith;
    success = λ w e. ground arith;
    console = λ w e v. ground arith;
    clean = λ w e n. ground arith;
  })
  | inr terminal ↦ rw terminal (record {
    silent = ground arith;
    success = λ w e. ground arith;
    console = λ w e v. cc;
    clean = λ w e n. ground arith;
  })
]

final_write-Tells :
    (mode : Mode) (outcome : Outcome) → Tells mode outcome (final_write mode outcome)
final_write-Tells mode normal = plain-Tells mode normal 1000 [] (λ e. cc) (ground arith)
final_write-Tells mode client_closed = record {
  silent = ground arith;
  success = λ w e. cc;
  console = λ w e v. cc;
  clean = λ w e n. cc;
}
final_write-Tells mode idle_timeout =
    plain-Tells mode idle_timeout 1008 (str "idle timeout") (λ e. cc) (ground arith)
final_write-Tells mode max_duration =
    plain-Tells mode max_duration 1008 (str "session expired") (λ e. cc) (ground arith)
final_write-Tells mode message_too_big =
    plain-Tells mode message_too_big 1009 (str "message too big") (λ e. cc) (ground arith)
final_write-Tells mode invalid_terminal_frame =
    failed_write-Tells mode invalid_terminal_frame (λ e. cc) (λ e. cc)
final_write-Tells mode invalid_vnc_frame =
    failed_write-Tells mode invalid_vnc_frame (λ e. cc) (λ e. cc)
final_write-Tells mode backpressure = failed_write-Tells mode backpressure (λ e. cc) (λ e. cc)
final_write-Tells mode runtime_unavailable =
    failed_write-Tells mode runtime_unavailable (λ e. cc) (λ e. cc)
final_write-Tells mode target_changed =
    plain-Tells mode target_changed 1008 (str "console target changed") (λ e. cc) (ground arith)
final_write-Tells mode runtime_failed = failed_write-Tells mode runtime_failed (λ e. cc) (λ e. cc)
final_write-Tells mode transport_failed =
    failed_write-Tells mode transport_failed (λ e. cc) (λ e. cc)
final_write-Tells mode shutdown =
    plain-Tells mode shutdown 1001 (str "server shutdown") (λ e. cc) (ground arith)
final_write-Tells mode invalid_start = failed_write-Tells mode invalid_start (λ e. cc) (λ e. cc)

-- On an open socket nothing is written exactly when the client has closed; otherwise the close
-- status is that of success exactly for a normal end, and an error frame goes to terminals alone,
-- with the status of an internal error.
pub write_final-Tells :
    (socket : Str) (mode : Mode) (outcome : Outcome)
    → Tells mode outcome (write_final (some socket) mode outcome)
unfolding write_final
write_final-Tells socket mode outcome = final_write-Tells mode outcome
