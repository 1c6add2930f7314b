-- ===== src/Connected/Frames.antt =====
-- The messages of a connected session, of
-- internal/transport/websocket/connectedsession/module.go: client frames, server frames, and what
-- errors of the socket and of the runtime come to.
use ani_session_gateway.Prelude.{
  ℕ, ℤ, ◌≤◌, ◌<◌, ◌≡◌, ◌↔◌, refl, inl, inr, Bool, Bool-cases, ◌||◌, ◌==◌, ltb, if◌then◌else◌,
  Option, none, some, [], Str, Bytes, str, str_eq, str_eq_iff, length, Result, ok, err, arith,
}
use ani_session_gateway.Session.Model.{Mode, is_vnc}
use ani_session_gateway.Runtime.{RuntimeError}
use ani_session_gateway.Connected.{
  Outcome, client_closed, message_too_big, invalid_terminal_frame, invalid_vnc_frame, backpressure,
  runtime_failed, transport_failed, shutdown,
}

pub data MessageType : Type 0 where
  text binary : MessageType

pub record ClientFrame : Type 0 where
  pub type : Str
  pub contents : Str
  pub rows : ℕ
  pub cols : ℕ

-- A field `any` that holds nothing, a name or an exit code.
pub data FrameCode : Type 0 where
  no_code : FrameCode
  named : Str → FrameCode
  exited : ℤ → FrameCode

pub record ServerFrame : Type 0 where
  pub type : Str
  pub contents : Str
  pub code : FrameCode
  pub message : Str

-- What a second `Decode` finds after the first value.
pub data Trailing : Type 0 where
  end_of_input more_values garbage : Trailing

-- encoding/json with unknown fields refused: the first value, and what follows it.
pub record Json : Type 0 where
  pub decode : Bytes → Option (ClientFrame × Trailing)
  pub encode : ServerFrame → Bytes

pub data FrameError : Type 0 where
  bad_json multiple_values bad_trailing stdin_too_long bad_size unsupported : FrameError

abbrev pub max_terminal_dimension : ℕ
max_terminal_dimension = 4096

-- The `switch` on the type of the frame.
unfoldable pub check_frame : ClientFrame → ℕ → Result FrameError ClientFrame
check_frame frame max_stdin =
    if str_eq frame.type (str "stdin")
    then (if ltb max_stdin (length frame.contents) then err stdin_too_long else ok frame)
    else if str_eq frame.type (str "resize")
    then (if frame.rows == 0
          || frame.cols == 0
          || ltb max_terminal_dimension frame.rows
          || ltb max_terminal_dimension frame.cols
        then err bad_size
        else ok frame)
    else err unsupported

abbrev after_first : Trailing → ClientFrame → ℕ → Result FrameError ClientFrame
after_first end_of_input frame max_stdin = check_frame frame max_stdin
after_first more_values frame max_stdin = err multiple_values
after_first garbage frame max_stdin = err bad_trailing

abbrev decoded : Option (ClientFrame × Trailing) → ℕ → Result FrameError ClientFrame
decoded none max_stdin = err bad_json
decoded (some (frame, rest)) max_stdin = after_first rest frame max_stdin

-- What is known of a socket error: its close status, if it has one.
pub data SocketError : Type 0 where
  closed_with : ℕ → SocketError
  broken : SocketError

unfoldable pub classify_transport_read : Bool → SocketError → Outcome
classify_transport_read cancelled (closed_with status) =
    if cancelled
    then shutdown
    else if status == 1000 || status == 1001
    then client_closed
    else if status == 1009
    then message_too_big
    else transport_failed
classify_transport_read cancelled broken = if cancelled then shutdown else transport_failed

abbrev pub classify_runtime_error : RuntimeError → Outcome
classify_runtime_error RuntimeError.backpressure = backpressure
classify_runtime_error _ = runtime_failed

module _ (json : Json) where
  unfoldable pub decode_client_frame : Bytes → ℕ → Result FrameError ClientFrame
  decode_client_frame raw max_stdin = decoded (json.decode raw) max_stdin

  abbrev pub stdin_data : Result FrameError ClientFrame → Result Outcome Bytes
  stdin_data (err e) = err invalid_terminal_frame
  stdin_data (ok frame) =
      if str_eq frame.type (str "stdin") then ok frame.contents else err invalid_terminal_frame

  -- The payload for the runtime, or the outcome that ends the session.
  unfoldable pub decode_byte_payload : Mode → MessageType → Bytes → ℕ → Result Outcome Bytes
  unfolding decode_client_frame
  decode_byte_payload mode binary raw max =
      if is_vnc mode then ok raw else err invalid_terminal_frame
  decode_byte_payload mode text raw max =
      if is_vnc mode then err invalid_vnc_frame else stdin_data (decode_client_frame raw max)

  abbrev pub stdout_frame : Str → Str → ServerFrame
  stdout_frame kind chunk = record { type = kind; contents = chunk; code = no_code; message = [] }

  unfoldable pub encode_byte_payload : Mode → Bytes → MessageType × Bytes
  encode_byte_payload mode payload =
      if is_vnc mode
      then (binary, payload)
      else (text, json.encode (stdout_frame (str "stdout") payload))

  -- A frame that the gateway acts on: typed input within the limit, or a size that a terminal has.
  pub data IsClientFrame (max : ℕ) (frame : ClientFrame) : Type 0 where
    typed : frame.type ≡ str "stdin" → length frame.contents ≤ max → IsClientFrame max frame
    resized :
        frame.type ≡ str "resize"
        → (0 < frame.rows) × (frame.rows ≤ 4096)
        → (0 < frame.cols) × (frame.cols ≤ 4096)
        → IsClientFrame max frame

  check_frame_sound :
      (frame f : ClientFrame) (max : ℕ)
      → check_frame frame max ≡ ok f
      → (f ≡ frame) × IsClientFrame max frame
  unfolding check_frame
  check_frame_sound frame f max h = elim (Bool-cases (str_eq frame.type (str "stdin"))) [
    | inl stdin ↦ elim (Bool-cases (ltb max (length frame.contents))) [
      | inl long ↦ ground arith
      | inr short ↦
          (ground arith, typed ((str_eq_iff frame.type (str "stdin")).0 stdin) (ground arith))
    ]
    | inr other ↦ elim (Bool-cases (str_eq frame.type (str "resize"))) [
      | inl size ↦ (
        ground arith,
        resized ((str_eq_iff frame.type (str "resize")).0 size) (ground arith) (ground arith),
      )
      | inr neither ↦ ground arith
    ]
  ]

  check_frame_complete :
      (frame : ClientFrame) (max : ℕ) → IsClientFrame max frame → check_frame frame max ≡ ok frame
  unfolding check_frame str_eq
  check_frame_complete frame max (typed t short) = rw t (ground arith)
  check_frame_complete frame max (resized t rows cols) = rw t (ground arith)

  decoded_sound :
      (raw : Bytes) (max : ℕ) (f : ClientFrame) (o : Option (ClientFrame × Trailing))
      → decoded o max ≡ ok f
      → (o ≡ some (f, end_of_input)) × IsClientFrame max f
  decoded_sound raw max f none h = cc
  decoded_sound raw max f (some (frame, end_of_input)) h =
      let (same, good) = check_frame_sound frame f max h in rw same (refl, good)
  decoded_sound raw max f (some (frame, more_values)) h = cc
  decoded_sound raw max f (some (frame, garbage)) h = cc

  -- A message of a terminal client is acted on exactly if it is one JSON value with nothing after
  -- it, and that value is input within the limit or a size from 1 to 4096 each way.
  pub decode_client_frame_iff :
      (raw : Bytes) (max : ℕ) (f : ClientFrame)
      → (decode_client_frame raw max ≡ ok f)
        ↔ ((json.decode raw ≡ some (f, end_of_input)) × IsClientFrame max f)
  unfolding decode_client_frame
  decode_client_frame_iff raw max f = (
    λ h. decoded_sound raw max f (json.decode raw) h,
    λ (e, good). rw e (check_frame_complete f max good),
  )
