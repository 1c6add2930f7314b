-- ===== src/Redis/Codec.antt =====
-- How a session is kept in a hash: `encode`, `decode`, `decode32`, `millis` and `parseMillis` of
-- internal/store/redis/store.go. A time has nanoseconds and is kept in milliseconds.
use ani_session_gateway.Prelude.{
  ℕ, ◌*◌, ◌/◌, Bool, true, false, Option, none, some, List, [], ◌∷◌, Str, Bytes, str, str_eq,
  is_empty, length, ◌==◌, if◌then◌else◌, Result, ok, err, and_then,
}
use ani_session_gateway.Prelude.Assoc.{Assoc, lookup}
use ani_session_gateway.Session.Errors.{Error, other}
use ani_session_gateway.Session.Model.{
  Time, State, unset, issued, claimed, closed, Mode, exec, serial, vnc, other_mode, WorkloadKind,
  container, gpu_container, sandbox, vm, other_kind, InstanceBinding, VmBinding, Session,
  zero_instance_binding, zero_vm_binding,
}
use ani_session_gateway.Session.Encoding.{hex, base64_std, decimal}
use ani_session_gateway.Session.Decoding.{
  hex_decode, base64_std_decode, parse_uint16, parse_int64, parse_bool,
}
use ani_session_gateway.Session.Fingerprint.{mode_str, kind_str}

-- `json.Marshal` and `json.Unmarshal` at the three types that the store keeps as JSON. `none` is an
-- error; marshalling these types has none.
pub record Json : Type 0 where
  pub marshal_command : List Str → Str
  pub marshal_instance : InstanceBinding → Str
  pub marshal_vm : VmBinding → Str
  pub unmarshal_command : Str → Option (List Str)
  pub unmarshal_instance : Str → Option InstanceBinding
  pub unmarshal_vm : Str → Option VmBinding

-- `t.UnixMilli()` and `time.UnixMilli(n)`.
abbrev pub unix_milli : Time → ℕ
unix_milli t = t / 1_000_000

abbrev pub from_milli : ℕ → Time
from_milli n = n * 1_000_000

unfoldable pub millis : Time → Str
millis t = if t == 0 then str "0" else decimal (unix_milli t)

unfoldable pub parse_millis : Str → Time
parse_millis raw = if parse_int64 raw == 0 then 0 else from_milli (parse_int64 raw)

-- `string(value.State)`, and the conversions back. A text of no state does not occur.
abbrev pub state_str : State → Str
state_str unset = str ""
state_str issued = str "issued"
state_str claimed = str "claimed"
state_str closed = str "closed"

abbrev pub bool_str : Bool → Str
bool_str true = str "true"
bool_str false = str "false"

unfoldable pub state_of : Str → State
unfolding str_eq
state_of s =
    if str_eq s (str "issued")
    then issued
    else if str_eq s (str "claimed")
    then claimed
    else if str_eq s (str "closed")
    then closed
    else unset

unfoldable pub mode_of : Str → Mode
unfolding str_eq
mode_of s =
    if str_eq s (str "exec")
    then exec
    else if str_eq s (str "serial")
    then serial
    else if str_eq s (str "vnc")
    then vnc
    else other_mode s

unfoldable pub kind_of : Str → WorkloadKind
unfolding str_eq
kind_of s =
    if str_eq s (str "container")
    then container
    else if str_eq s (str "gpu_container")
    then gpu_container
    else if str_eq s (str "sandbox")
    then sandbox
    else if str_eq s (str "vm")
    then vm
    else other_kind s

unfoldable pub field_order : List Str
field_order =
    str "id"
    ∷ str "idempotency_key"
    ∷ str "fingerprint"
    ∷ str "ticket_digest"
    ∷ str "ticket_ciphertext"
    ∷ str "tenant_id"
    ∷ str "subject_id"
    ∷ str "instance_id"
    ∷ str "workload_name"
    ∷ str "workload_kind"
    ∷ str "mode"
    ∷ str "container"
    ∷ str "command"
    ∷ str "tty"
    ∷ str "rows"
    ∷ str "cols"
    ∷ str "requested_protocol"
    ∷ str "state"
    ∷ str "created_at"
    ∷ str "ticket_expires_at"
    ∷ str "expires_at"
    ∷ str "tombstone_expires_at"
    ∷ str "claimed_at"
    ∷ str "closed_at"
    ∷ str "close_reason"
    ∷ str "lease_id"
    ∷ str "instance_binding"
    ∷ str "vm_binding"
    ∷ []

unfoldable pub encode : Json → Session → Assoc Str
unfolding millis
encode j s =
    (str "instance_binding", j.marshal_instance s.instance_binding)
    ∷ (str "vm_binding", j.marshal_vm s.vm_binding)
    ∷ (str "id", s.id)
    ∷ (str "idempotency_key", s.idempotency_key)
    ∷ (str "fingerprint", hex s.request_fingerprint)
    ∷ (str "ticket_digest", hex s.ticket_digest)
    ∷ (str "ticket_ciphertext", base64_std s.ticket_ciphertext)
    ∷ (str "tenant_id", s.tenant_id)
    ∷ (str "subject_id", s.subject_id)
    ∷ (str "instance_id", s.instance_id)
    ∷ (str "workload_name", s.workload_name)
    ∷ (str "workload_kind", kind_str s.workload_kind)
    ∷ (str "mode", mode_str s.mode)
    ∷ (str "container", s.container)
    ∷ (str "command", j.marshal_command s.command)
    ∷ (str "tty", bool_str s.tty)
    ∷ (str "rows", decimal s.rows)
    ∷ (str "cols", decimal s.cols)
    ∷ (str "requested_protocol", s.requested_protocol)
    ∷ (str "state", state_str s.state)
    ∷ (str "created_at", millis s.created_at)
    ∷ (str "ticket_expires_at", millis s.ticket_expires_at)
    ∷ (str "expires_at", millis s.expires_at)
    ∷ (str "tombstone_expires_at", millis s.tombstone_expires_at)
    ∷ (str "claimed_at", millis s.claimed_at)
    ∷ (str "closed_at", millis s.closed_at)
    ∷ (str "close_reason", s.close_reason)
    ∷ (str "lease_id", s.lease_id)
    ∷ []

abbrev pub or_empty : Option Str → Str
or_empty none = []
or_empty (some v) = v

abbrev pub or_other : {A : Type 0} → Option A → Result Error A
or_other none = err other
or_other (some a) = ok a

abbrev pub exactly_32 : Option Bytes → Result Error Bytes
exactly_32 none = err other
exactly_32 (some bs) = if length bs == 32 then ok bs else err other

unfoldable pub decode32 : Str → Result Error Bytes
decode32 raw = exactly_32 (hex_decode raw)

-- A text that is empty leaves the zero value.
abbrev unless_empty : {A : Type 0} → Str → A → Result Error A → Result Error A
unless_empty raw initial read = if is_empty raw then ok initial else read

-- The fields are `fields[name]`, which is empty for a missing field.
unfoldable pub decode_fields : Json → (Str → Str) → Result Error Session
unfolding decode32 state_of mode_of kind_of parse_millis
decode_fields j at =
    and_then
      (unless_empty (at (str "vm_binding")) zero_vm_binding
        (or_other (j.unmarshal_vm (at (str "vm_binding")))))
      λ vm_binding.
        and_then
          (unless_empty (at (str "instance_binding")) zero_instance_binding
            (or_other (j.unmarshal_instance (at (str "instance_binding")))))
          λ instance_binding. and_then (decode32 (at (str "fingerprint"))) λ print.
            and_then (decode32 (at (str "ticket_digest"))) λ digest.
              and_then
                (unless_empty (at (str "ticket_ciphertext")) []
                  (or_other (base64_std_decode (at (str "ticket_ciphertext")))))
                λ ciphertext.
                  and_then (or_other (j.unmarshal_command (at (str "command")))) λ command.
                    ok (record {
                      instance_binding = instance_binding;
                      vm_binding = vm_binding;
                      id = at (str "id");
                      idempotency_key = at (str "idempotency_key");
                      request_fingerprint = print;
                      ticket_digest = digest;
                      ticket_ciphertext = ciphertext;
                      tenant_id = at (str "tenant_id");
                      subject_id = at (str "subject_id");
                      instance_id = at (str "instance_id");
                      workload_name = at (str "workload_name");
                      workload_kind = kind_of (at (str "workload_kind"));
                      mode = mode_of (at (str "mode"));
                      container = at (str "container");
                      command = command;
                      tty = parse_bool (at (str "tty"));
                      rows = parse_uint16 (at (str "rows"));
                      cols = parse_uint16 (at (str "cols"));
                      requested_protocol = at (str "requested_protocol");
                      state = state_of (at (str "state"));
                      created_at = parse_millis (at (str "created_at"));
                      ticket_expires_at = parse_millis (at (str "ticket_expires_at"));
                      expires_at = parse_millis (at (str "expires_at"));
                      tombstone_expires_at = parse_millis (at (str "tombstone_expires_at"));
                      claimed_at = parse_millis (at (str "claimed_at"));
                      closed_at = parse_millis (at (str "closed_at"));
                      close_reason = at (str "close_reason");
                      lease_id = at (str "lease_id");
                    })

unfoldable pub decode : Json → Assoc Str → Result Error Session
unfolding decode_fields
decode j fields = decode_fields j (λ name. or_empty (lookup name fields))
