-- ===== src/Connected/Terminals.antt =====
pub mod Phases
mod Writing
mod Outputs
pub mod Progress
pub mod Queues
pub mod Order
-- `carryExecStream` of internal/transport/websocket/connectedsession/exec.go: the pumps of the
-- socket, of the input and of the two outputs, the bounded queues between them, and the select loop.
-- A run is a sequence of events; one turn of a pump is one event. Where a select of the code has the
-- cancelled context and another case ready, the event's flag `yields` says that the context is taken.
use ani_session_gateway.Prelude.{
  ℕ, ℤ, ◌+◌, ◌%◌, ◌^◌, Bool, true, false, not, ◌&&◌, ◌||◌, leb, ltb, if◌then◌else◌, Option, none,
  some, List, [], ◌∷◌, ◌++◌, Str, Bytes, str, str_eq, length, Result, ok, err, is_empty,
}
use ani_session_gateway.Session.Model.{Time, TerminalSize}
use ani_session_gateway.Runtime.{RuntimeError}
use ani_session_gateway.Connected.{
  Outcome, normal, idle_timeout, max_duration, invalid_terminal_frame, backpressure, runtime_failed,
  shutdown, Policy,
}
use ani_session_gateway.Connected.Frames.{
  Json, MessageType, text, binary, SocketError, ClientFrame, ServerFrame, FrameError, exited,
  classify_transport_read, classify_runtime_error, decode_client_frame, stdout_frame,
}

-- A frame on its way out, and whether `carryExecStream` waits for its acknowledgement.
pub record Outbound : Type 0 where
  pub frame : ServerFrame
  pub acked : Bool

-- `stream.Wait`: the exit code, or its error.
abbrev pub ExecResult : Type 0
ExecResult = Option ℤ

pub data Stream : Type 0 where
  stdout stderr : Stream

-- `io.EOF`, `context.Canceled` or `io.ErrClosedPipe`, or another error.
pub data OutputEnd : Type 0 where
  finished failed : OutputEnd

pub data StreamCall : Type 0 where
  write_stdin : Bytes → StreamCall
  resize : TerminalSize → StreamCall

-- Where `carryExecStream` is: in its loop, in the wait for the exit frame, or past both.
pub data Phase : Type 0 where
  selecting waiting : Phase
  left : Outcome → Phase

-- `accepted` and `produced` are what the queues were ever given.
pub record Carry : Type 0 where
  pub outcomes : Option Outcome
  pub activity : Bool
  pub completed : Option ExecResult
  pub inputs : List ClientFrame
  pub outbound : List Outbound
  pub ack : Option (Option SocketError)
  pub writing : Bool
  pub reading : Bool
  pub feeding : Bool
  pub stdout_open : Bool
  pub stderr_open : Bool
  pub running : Bool
  pub cancelled : Bool
  pub phase : Phase
  pub idle_at : Time
  pub max_at : Time
  pub accepted : List ClientFrame
  pub produced : List Outbound
  pub to_stream : List StreamCall
  pub to_socket : List ServerFrame
  pub bytes_in : ℕ
  pub bytes_out : ℕ

pub data Event : Type 0 where
  message : MessageType → Bytes → (yields : Bool) → Event
  read_failed : SocketError → Event
  feed : Option RuntimeError → (yields : Bool) → Event
  write : Option SocketError → (yields : Bool) → Event
  output : Stream → Bytes → Option OutputEnd → (yields : Bool) → Event
  exit : ExecResult → (yields : Bool) → Event
  take_outcome : Event
  take_completed : (yields : Bool) → Event
  take_ack : Event
  take_activity : Time → Event
  idle_fires : Time → Event
  max_fires : Time → Event
  cancel : Event
  context_done : Event

-- `signalOutcome`: a second value finds the channel full.
abbrev pub signal : Outcome → Option Outcome → Option Outcome
signal o none = some o
signal o (some first) = some first

abbrev pub signalled : Outcome → Carry → Carry
signalled o s = record s { outcomes = signal o s.outcomes }

abbrev pub leave : Outcome → Carry → Carry
leave o s = record s { phase = left o; cancelled = true }

abbrev pub is_selecting : Phase → Bool
is_selecting selecting = true
is_selecting _ = false

abbrev pub is_left : Phase → Bool
is_left (left o) = true
is_left _ = false

abbrev pub call_of : ClientFrame → StreamCall
call_of frame =
    if str_eq frame.type (str "stdin")
    then write_stdin frame.contents
    else resize (record { rows = frame.rows; cols = frame.cols })

abbrev pub input_bytes : ClientFrame → ℕ
input_bytes frame = if str_eq frame.type (str "stdin") then length frame.contents else 0

abbrev pub output_bytes : ServerFrame → ℕ
output_bytes frame =
    if str_eq frame.type (str "stdout") || str_eq frame.type (str "stderr")
    then length frame.contents
    else 0

abbrev pub stream_name : Stream → Str
stream_name stdout = str "stdout"
stream_name stderr = str "stderr"

abbrev pub is_open : Stream → Carry → Bool
is_open stdout s = s.stdout_open
is_open stderr s = s.stderr_open

abbrev pub close_output : Stream → Carry → Carry
close_output stdout s = record s { stdout_open = false }
close_output stderr s = record s { stderr_open = false }

abbrev pub exit_frame : ℤ → ServerFrame
exit_frame code = record { type = str "exit"; contents = []; code = exited code; message = [] }

module _ (json : Json) (policy : Policy) where
  -- `enqueue`, with whether it says yes.
  unfoldable pub enqueue : Outbound → (yields : Bool) → Carry → Bool × Carry
  enqueue item yields s =
      if s.cancelled && yields
      then (false, s)
      else if ltb (length s.outbound) policy.outbound_queue
      then (
        true,
        record s { outbound = s.outbound ++ (item ∷ []); produced = s.produced ++ (item ∷ []) },
      )
      else if s.cancelled
      then (false, s)
      else (false, signalled backpressure s)

  -- The select on the input queue.
  unfoldable pub accept : ClientFrame → (yields : Bool) → Carry → Carry
  accept frame yields s =
      if s.cancelled && yields
      then record s { reading = false }
      else if ltb (length s.inputs) policy.inbound_queue
      then record s {
        inputs = s.inputs ++ (frame ∷ []);
        accepted = s.accepted ++ (frame ∷ []);
        activity = true;
      }
      else if s.cancelled
      then record s { reading = false }
      else record (signalled backpressure s) { reading = false }

  abbrev pub received : Result FrameError ClientFrame → (yields : Bool) → Carry → Carry
  received (err e) yields s = record (signalled invalid_terminal_frame s) { reading = false }
  received (ok frame) yields s = accept frame yields s

  unfoldable pub on_message : MessageType → Bytes → (yields : Bool) → Carry → Carry
  on_message binary raw yields s = record (signalled invalid_terminal_frame s) { reading = false }
  on_message text raw yields s =
      received (decode_client_frame json raw policy.max_message_bytes) yields s

  abbrev pub fed : ClientFrame → List ClientFrame → Option RuntimeError → Carry → Carry
  fed frame rest none s = record s {
    inputs = rest;
    to_stream = s.to_stream ++ (call_of frame ∷ []);
    bytes_in = (s.bytes_in + input_bytes frame) % 2 ^ 64;
    activity = true;
  }
  fed frame rest (some e) s = record (signalled (classify_runtime_error e) s) {
    inputs = rest;
    to_stream = s.to_stream ++ (call_of frame ∷ []);
    feeding = false;
  }

  abbrev pub feed_from : List ClientFrame → Option RuntimeError → Carry → Carry
  feed_from [] answer s = s
  feed_from (frame ∷ rest) answer s = fed frame rest answer s

  unfoldable pub on_feed : Option RuntimeError → (yields : Bool) → Carry → Carry
  on_feed answer yields s =
      if s.cancelled && yields then record s { feeding = false } else feed_from s.inputs answer s

  abbrev pub acknowledged : Bool → Option SocketError → Carry → Carry
  acknowledged acked answer s = record s { ack = if acked then some answer else s.ack }

  abbrev pub wrote : Outbound → List Outbound → Option SocketError → Carry → Carry
  wrote item rest none s = record s {
    outbound = rest;
    to_socket = s.to_socket ++ (item.frame ∷ []);
    bytes_out = (s.bytes_out + output_bytes item.frame) % 2 ^ 64;
    activity = true;
  }
  wrote item rest (some e) s = record (signalled (classify_transport_read s.cancelled e) s) {
    outbound = rest;
    writing = false;
  }

  abbrev pub write_from : List Outbound → Option SocketError → Carry → Carry
  write_from [] answer s = s
  write_from (item ∷ rest) answer s = wrote item rest answer (acknowledged item.acked answer s)

  unfoldable pub on_write : Option SocketError → (yields : Bool) → Carry → Carry
  on_write answer yields s =
      if s.cancelled && yields then record s { writing = false } else write_from s.outbound answer s

  abbrev pub output_ended : Stream → Option OutputEnd → Carry → Carry
  output_ended kind none s = s
  output_ended kind (some OutputEnd.finished) s = close_output kind s
  output_ended kind (some OutputEnd.failed) s =
      close_output kind (if s.cancelled then s else signalled runtime_failed s)

  -- A chunk that does not fit ends the reading of its stream.
  abbrev pub after_enqueue : Stream → Option OutputEnd → Bool × Carry → Carry
  after_enqueue kind end (true, s) = output_ended kind end s
  after_enqueue kind end (false, s) = close_output kind s

  unfoldable pub on_output : Stream → Bytes → Option OutputEnd → (yields : Bool) → Carry → Carry
  unfolding enqueue
  on_output kind raw end yields s =
      if is_empty raw
      then output_ended kind end s
      else after_enqueue kind end (
          enqueue (record { frame = stdout_frame json (stream_name kind) raw; acked = false })
            yields s)

  -- After `stream.Wait` and the end of both outputs.
  unfoldable pub on_exit : ExecResult → (yields : Bool) → Carry → Carry
  on_exit result yields s =
      if s.cancelled && yields
      then record s { running = false }
      else record s { running = false; completed = some result }

  abbrev pub exit_enqueued : Bool × Carry → Carry
  exit_enqueued (true, s) = record s { phase = waiting }
  exit_enqueued (false, s) = leave backpressure s

  abbrev pub on_completed : Option ExecResult → (yields : Bool) → Carry → Carry
  on_completed none yields s = s
  on_completed (some none) yields s = leave runtime_failed (record s { completed = none })
  on_completed (some (some code)) yields s = exit_enqueued (
      enqueue (record { frame = exit_frame code; acked = true }) yields
        (record s { completed = none }))

  abbrev pub on_ack : Option (Option SocketError) → Carry → Carry
  on_ack none s = s
  on_ack (some none) s = leave normal s
  on_ack (some (some e)) s = leave (classify_transport_read s.cancelled e) s

  abbrev pub taken : Option Outcome → Carry → Carry
  taken none s = s
  taken (some o) s = leave o (record s { outcomes = none })

  abbrev pub is_waiting : Phase → Bool
  is_waiting waiting = true
  is_waiting _ = false

  -- An event that is not enabled changes nothing.
  unfoldable pub step : Event → Carry → Carry
  unfolding on_message accept on_feed on_write on_output on_exit enqueue
  step (message type raw yields) s = if s.reading then on_message type raw yields s else s
  step (read_failed e) s =
      if s.reading
      then record (signalled (classify_transport_read s.cancelled e) s) { reading = false }
      else s
  step (feed answer yields) s = if s.feeding then on_feed answer yields s else s
  step (write answer yields) s = if s.writing then on_write answer yields s else s
  step (output kind raw end yields) s =
      if is_open kind s then on_output kind raw end yields s else s
  step (exit result yields) s =
      if s.running && not (s.stdout_open || s.stderr_open) then on_exit result yields s else s
  step take_outcome s = if is_left s.phase then s else taken s.outcomes s
  step (take_completed yields) s =
      if is_selecting s.phase then on_completed s.completed yields s else s
  step take_ack s = if is_waiting s.phase then on_ack s.ack s else s
  step (take_activity now) s =
      if is_selecting s.phase && s.activity
      then record s { activity = false; idle_at = now + policy.idle_timeout }
      else s
  step (idle_fires now) s =
      if is_selecting s.phase && leb s.idle_at now then leave idle_timeout s else s
  step (max_fires now) s =
      if is_selecting s.phase && leb s.max_at now then leave max_duration s else s
  step cancel s = record s { cancelled = true }
  step context_done s = if not (is_left s.phase) && s.cancelled then leave shutdown s else s

  unfoldable pub run : List Event → Carry → Carry
  run [] s = s
  run (e ∷ es) s = run es (step e s)

  -- The state when the loop is entered; a terminal with a TTY has no separate error output.
  abbrev pub start : (tty : Bool) → Time → Time → (cancelled : Bool) → Carry
  start tty now expires_at cancelled = record {
    outcomes = none;
    activity = false;
    completed = none;
    inputs = [];
    outbound = [];
    ack = none;
    writing = true;
    reading = true;
    feeding = true;
    stdout_open = true;
    stderr_open = not tty;
    running = true;
    cancelled = cancelled;
    phase = selecting;
    idle_at = now + policy.idle_timeout;
    max_at = if leb now expires_at then expires_at else now;
    accepted = [];
    produced = [];
    to_stream = [];
    to_socket = [];
    bytes_in = 0;
    bytes_out = 0;
  }
