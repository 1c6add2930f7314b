-- ===== src/Connected.antt =====
pub mod Frames
pub mod Closing
pub mod Consoles
pub mod Running
pub mod Terminals
-- What a connected session can come to, of
-- internal/transport/websocket/connectedsession/module.go.
use ani_session_gateway.Prelude.{
  ℕ, Bool, true, false, ◌&&◌, ◌||◌, ◌==◌, if◌then◌else◌, Option, none, some, Str, str, str_eq,
  is_empty,
}
use ani_session_gateway.Session.Model.{
  Time, Duration, Mode, exec, serial, vnc, other_mode, ExecOptions, ClaimedAccess,
}

pub data Outcome : Type 0 where
  normal client_closed idle_timeout max_duration message_too_big invalid_terminal_frame : Outcome
  invalid_vnc_frame backpressure runtime_unavailable target_changed runtime_failed : Outcome
  transport_failed shutdown invalid_start : Outcome

-- `string(outcome)`.
abbrev pub outcome_str : Outcome → Str
outcome_str normal = str "normal"
outcome_str client_closed = str "client_closed"
outcome_str idle_timeout = str "idle_timeout"
outcome_str max_duration = str "max_duration"
outcome_str message_too_big = str "message_too_big"
outcome_str invalid_terminal_frame = str "invalid_terminal_frame"
outcome_str invalid_vnc_frame = str "invalid_vnc_frame"
outcome_str backpressure = str "backpressure"
outcome_str runtime_unavailable = str "runtime_unavailable"
outcome_str target_changed = str "target_changed"
outcome_str runtime_failed = str "runtime_failed"
outcome_str transport_failed = str "transport_failed"
outcome_str shutdown = str "shutdown"
outcome_str invalid_start = str "invalid_start"

pub record SafeFacts : Type 0 where
  pub session_id : Str
  pub tenant_id : Str
  pub subject_id : Str
  pub instance_id : Str
  pub mode : Mode

abbrev pub safe_facts : ClaimedAccess → SafeFacts
safe_facts access = record {
  session_id = access.session_id;
  tenant_id = access.identity.tenant_id;
  subject_id = access.identity.subject_id;
  instance_id = access.identity.instance_id;
  mode = access.mode;
}

pub record Finish : Type 0 where
  pub outcome : Outcome
  pub connected : Bool
  pub duration : Duration
  pub bytes_in : ℕ
  pub bytes_out : ℕ

pub record Policy : Type 0 where
  pub max_message_bytes : ℕ
  pub idle_timeout : Duration
  pub write_timeout : Duration
  pub inbound_queue : ℕ
  pub outbound_queue : ℕ

-- A socket as far as the start of a session looks at it; none is nil.
pub record Accepted : Type 0 where
  pub access : ClaimedAccess
  pub subprotocol : Option Str

abbrev pub terminal_subprotocol : Str
terminal_subprotocol = str "ani.terminal.v1"

abbrev pub vnc_subprotocol : Str
vnc_subprotocol = str "ani.vnc.v1"

-- `New` after the nil tests: every limit must be positive.
unfoldable pub new_policy : Policy → Option Policy
new_policy p =
    if p.max_message_bytes == 0
      || p.idle_timeout == 0
      || p.write_timeout == 0
      || p.inbound_queue == 0
      || p.outbound_queue == 0
    then none
    else some p

abbrev is_set {ℓ} : {A : Type ℓ} → Option A → Bool
is_set none = false
is_set (some a) = true

abbrev fits_mode : Mode → Str → Option ExecOptions → Bool
fits_mode exec offered options = is_set options && str_eq offered terminal_subprotocol
fits_mode serial offered options = str_eq offered terminal_subprotocol
fits_mode vnc offered options = str_eq offered vnc_subprotocol
fits_mode (other_mode m) offered options = false

abbrev starts : ClaimedAccess → Option Str → Bool
starts access none = false
starts access (some offered) =
    if is_empty access.session_id || is_empty access.lease_id
    then false
    else fits_mode access.mode offered access.exec

unfoldable pub valid_start : Accepted → Bool
valid_start accepted = starts accepted.access accepted.subprotocol
