-- ===== src/Tests/ConnectedTests.antt =====
-- internal/transport/websocket/connectedsession at concrete inputs.
use ani_session_gateway.Prelude.{
  ◌≡◌, ◌↔◌, refl, true, false, none, some, List, [], ◌∷◌, ◌++◌, str, str_eq, Occurs, ok, pos, arith,
}
use ani_session_gateway.Session.Model.{vnc}
use ani_session_gateway.Connected.{Outcome, normal, backpressure, shutdown, vnc_subprotocol}
use ani_session_gateway.Connected.Frames.{
  ClientFrame, IsClientFrame, text, binary, end_of_input, decode_client_frame,
  decode_client_frame_iff, check_frame, decode_byte_payload, encode_byte_payload,
}
use ani_session_gateway.Connected.Closing.{Tells, write_final, write_final-Tells}
use ani_session_gateway.Connected.Consoles
use ani_session_gateway.Connected.Consoles.Causes.{Cause, deadline, run-Cause}
use ani_session_gateway.Connected.Consoles.Ends.{run-leaves, run-outcome}
use ani_session_gateway.Connected.Terminals
use ani_session_gateway.Connected.Terminals.Phases.{IsComplete}
use ani_session_gateway.Connected.Terminals.Order.{run-IsComplete}
use ani_session_gateway.Connected.Terminals.Queues.{IsQueued, run-IsQueued, start-IsQueued}
use ani_session_gateway.Connected.Terminals.Progress.{HasEnd, run-HasEnd}
use ani_session_gateway.Tests.Samples.{typed_json, policy}

abbrev typed : ClientFrame
typed = record { type = str "stdin"; contents = str "ls"; rows = 0; cols = 0 }

decode_client_frame_iff_example : (decode_client_frame typed_json (str "ls") 16 ≡ ok typed) ↔ (
    (typed_json.decode (str "ls") ≡ some (typed, end_of_input)) × IsClientFrame typed_json 16 typed)
decode_client_frame_iff_example = decode_client_frame_iff typed_json (str "ls") 16 typed

write_final-Tells_example : Tells vnc shutdown (write_final (some vnc_subprotocol) vnc shutdown)
write_final-Tells_example = write_final-Tells vnc_subprotocol vnc shutdown

-- The client types, the console answers and ends, and the loop takes the outcome.
abbrev console_events : List Consoles.Event
console_events =
    Consoles.message binary (str "key") none
    ∷ Consoles.chunk (str "pixels") none (some Consoles.finished)
    ∷ Consoles.take_activity 4
    ∷ Consoles.take_outcome
    ∷ []

abbrev console_start : Consoles.Carry
console_start = Consoles.start typed_json policy vnc 3 50 false

abbrev console_end : Consoles.Carry
console_end = Consoles.run typed_json policy vnc console_events console_start

console_ends : console_end.outcome ≡ some normal
unfolding Consoles.run Consoles.step Consoles.on_message Consoles.on_chunk decode_byte_payload
    encode_byte_payload
console_ends = refl

run-Cause_example :
    (e : Consoles.Event) × Occurs e console_events
    × Cause typed_json policy vnc (deadline 3 50) normal e
run-Cause_example = run-Cause typed_json policy vnc 3 50 console_events console_ends

run-leaves_example :
    (o : Outcome) × ((Consoles.run typed_json policy vnc
        (console_events ++ (Consoles.max_fires 50 ∷ []))
        console_start).outcome
      ≡ some o)
run-leaves_example = run-leaves typed_json policy vnc 3 50 50 false console_events [] (omega arith)

run-outcome_example :
    (Consoles.run typed_json policy vnc (Consoles.idle_fires 90 ∷ []) console_end).outcome
    ≡ some normal
run-outcome_example =
    run-outcome typed_json policy vnc (Consoles.idle_fires 90 ∷ []) console_end normal console_ends

-- A command prints and exits.
abbrev terminal_events : List Terminals.Event
terminal_events =
    Terminals.message text (str "ls") false
    ∷ Terminals.feed none false
    ∷ Terminals.output Terminals.stdout (str "file") none false
    ∷ Terminals.write none false
    ∷ Terminals.output Terminals.stdout [] (some Terminals.finished) false
    ∷ Terminals.exit (some (pos 0)) false
    ∷ Terminals.take_completed false
    ∷ []

abbrev terminal_start : Terminals.Carry
terminal_start = Terminals.start typed_json policy true 3 50 false

abbrev ended_events : List Terminals.Event
ended_events = terminal_events ++ (Terminals.write none false ∷ Terminals.take_ack ∷ [])

abbrev terminal_waiting : Terminals.Carry
terminal_waiting = Terminals.run typed_json policy terminal_events terminal_start

abbrev terminal_end : Terminals.Carry
terminal_end = Terminals.run typed_json policy ended_events terminal_start

terminal_waits : terminal_waiting.phase ≡ Terminals.waiting
unfolding Terminals.run Terminals.step Terminals.on_message Terminals.accept Terminals.on_feed
    Terminals.on_write Terminals.on_output Terminals.on_exit Terminals.enqueue decode_client_frame
    check_frame str_eq
terminal_waits = refl

terminal_ends : terminal_end.phase ≡ Terminals.left normal
unfolding Terminals.run Terminals.step Terminals.on_message Terminals.accept Terminals.on_feed
    Terminals.on_write Terminals.on_output Terminals.on_exit Terminals.enqueue decode_client_frame
    check_frame str_eq
terminal_ends = refl

run-IsComplete_example :
    IsComplete terminal_end.outbound terminal_end.produced terminal_end.to_socket
run-IsComplete_example = run-IsComplete typed_json policy true 3 50 false ended_events terminal_ends

run-HasEnd_example : HasEnd typed_json policy terminal_waiting
run-HasEnd_example = run-HasEnd typed_json policy true 3 50 false terminal_events terminal_waits

run-IsQueued_example : IsQueued typed_json policy terminal_end
run-IsQueued_example =
    run-IsQueued typed_json policy ended_events terminal_start
      (start-IsQueued typed_json policy true 3 50 false)

-- A cancelled context is reported as backpressure when the exit frame yields to it.
cancelled_exit :
    (Terminals.run typed_json policy
      (Terminals.output Terminals.stdout [] (some Terminals.finished) false
        ∷ Terminals.exit (some (pos 0)) false
        ∷ Terminals.cancel
        ∷ Terminals.take_completed true
        ∷ [])
      terminal_start).phase
    ≡ Terminals.left backpressure
unfolding Terminals.run Terminals.step Terminals.on_output Terminals.on_exit Terminals.enqueue
cancelled_exit = refl
