-- ===== src/Connected/Consoles.antt =====
pub mod Accounts
pub mod Ends
pub mod Causes
-- `carryByteStream` of internal/transport/websocket/connectedsession/module.go: two pumps, two
-- channels that hold one value, two timers and the select loop. A run is a sequence of events; one
-- turn of a pump is one event, since only the channels and the counters are shared.
use ani_session_gateway.Prelude.{
  ℕ, ◌+◌, ◌%◌, ◌^◌, Bool, true, false, not, ◌&&◌, leb, if◌then◌else◌, Option, none, some, List, [],
  ◌∷◌, ◌++◌, Bytes, length, Result, ok, err, is_empty,
}
use ani_session_gateway.Session.Model.{Time, Duration, Mode}
use ani_session_gateway.Runtime.{RuntimeError}
use ani_session_gateway.Connected.{
  Outcome, normal, idle_timeout, max_duration, shutdown, runtime_failed, Policy,
}
use ani_session_gateway.Connected.Frames.{
  Json, MessageType, SocketError, classify_transport_read, classify_runtime_error,
  decode_byte_payload, encode_byte_payload,
}

-- How a read of the runtime stream ends it: `io.EOF` or `io.ErrClosedPipe`, or another error.
pub data StreamEnd : Type 0 where
  finished failed : StreamEnd

pub record Carry : Type 0 where
  pub outcomes : Option Outcome
  pub activity : Bool
  pub reading : Bool
  pub writing : Bool
  pub cancelled : Bool
  pub idle_at : Time
  pub max_at : Time
  pub outcome : Option Outcome
  pub to_stream : Bytes
  pub to_socket : List (MessageType × Bytes)
  pub bytes_in : ℕ
  pub bytes_out : ℕ

pub data Event : Type 0 where
  message : MessageType → Bytes → Option RuntimeError → Event
  read_failed : SocketError → Event
  chunk : Bytes → Option SocketError → Option StreamEnd → Event
  take_outcome : Event
  take_activity : Time → Event
  idle_fires : Time → Event
  max_fires : Time → Event
  cancel : Event
  context_done : Event

-- `signalOutcome`: a second value finds the channel full.
abbrev pub signal : Outcome → Option Outcome → Option Outcome
signal o none = some o
signal o (some first) = some first

abbrev stop_reading : Outcome → Carry → Carry
stop_reading o s = record s { outcomes = signal o s.outcomes; reading = false }

abbrev stop_writing : Outcome → Carry → Carry
stop_writing o s = record s { outcomes = signal o s.outcomes; writing = false }

-- The loop is left with this outcome, and the context is cancelled.
abbrev pub select : Outcome → Carry → Carry
select o s = record s { outcome = some o; cancelled = true }

abbrev pub is_none {ℓ} : {A : Type ℓ} → Option A → Bool
is_none none = true
is_none (some a) = false

module _ (json : Json) (policy : Policy) (mode : Mode) where
  abbrev written : Bytes → Option RuntimeError → Carry → Carry
  written payload none s = record s {
    to_stream = s.to_stream ++ payload;
    bytes_in = (s.bytes_in + length payload) % 2 ^ 64;
    activity = true;
  }
  written payload (some e) s = stop_reading (classify_runtime_error e) s

  abbrev pub received : Result Outcome Bytes → Option RuntimeError → Carry → Carry
  received (err o) answer s = stop_reading o s
  received (ok payload) answer s = written payload answer s

  -- One turn of the first pump.
  unfoldable pub on_message : MessageType → Bytes → Option RuntimeError → Carry → Carry
  on_message type raw answer s =
      received (decode_byte_payload json mode type raw policy.max_message_bytes) answer s

  abbrev pub sent : Bytes → Carry → Carry
  sent raw s = record s {
    to_socket = s.to_socket ++ (encode_byte_payload json mode raw ∷ []);
    bytes_out = (s.bytes_out + length raw) % 2 ^ 64;
    activity = true;
  }

  abbrev pub stream_ended : Option StreamEnd → Carry → Carry
  stream_ended none s = s
  stream_ended (some StreamEnd.finished) s = stop_writing normal s
  stream_ended (some StreamEnd.failed) s =
      if s.cancelled then record s { writing = false } else stop_writing runtime_failed s

  abbrev pub sent_or_failed : Bytes → Option SocketError → Option StreamEnd → Carry → Carry
  sent_or_failed raw none end s = stream_ended end (sent raw s)
  sent_or_failed raw (some e) end s = stop_writing (classify_transport_read s.cancelled e) s

  -- One turn of the second pump.
  unfoldable pub on_chunk : Bytes → Option SocketError → Option StreamEnd → Carry → Carry
  on_chunk raw failure end s =
      if is_empty raw then stream_ended end s else sent_or_failed raw failure end s

  abbrev pub taken : Option Outcome → Carry → Carry
  taken none s = s
  taken (some o) s = select o (record s { outcomes = none })

  -- An event that is not enabled changes nothing. After the loop is left, only the pumps go on.
  unfoldable pub step : Event → Carry → Carry
  unfolding on_message on_chunk
  step (message type raw answer) s = if s.reading then on_message type raw answer s else s
  step (read_failed e) s =
      if s.reading then stop_reading (classify_transport_read s.cancelled e) s else s
  step (chunk raw failure end) s = if s.writing then on_chunk raw failure end s else s
  step take_outcome s = if is_none s.outcome then taken s.outcomes s else s
  step (take_activity now) s =
      if is_none s.outcome && s.activity
      then record s { activity = false; idle_at = now + policy.idle_timeout }
      else s
  step (idle_fires now) s =
      if is_none s.outcome && leb s.idle_at now then select idle_timeout s else s
  step (max_fires now) s =
      if is_none s.outcome && leb s.max_at now then select max_duration s else s
  step cancel s = record s { cancelled = true }
  step context_done s = if is_none s.outcome && s.cancelled then select shutdown s else s

  unfoldable pub run : List Event → Carry → Carry
  run [] s = s
  run (e ∷ es) s = run es (step e s)

  -- The state when the loop is entered. A deadline in the past fires at once.
  abbrev pub start : Time → Time → Bool → Carry
  start now expires_at cancelled = record {
    outcomes = none;
    activity = false;
    reading = true;
    writing = true;
    cancelled = cancelled;
    idle_at = now + policy.idle_timeout;
    max_at = if leb now expires_at then expires_at else now;
    outcome = none;
    to_stream = [];
    to_socket = [];
    bytes_in = 0;
    bytes_out = 0;
  }
