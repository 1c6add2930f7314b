-- ===== src/Redis/Changes.antt =====
-- The fields that a script writes turn the hash of a session into that of the changed session.
use ani_session_gateway.Prelude.{◌+◌, refl, sym, ap, Option, some, Str, str_eq}
use ani_session_gateway.Session.Model.{Time, Session, ClaimLimits}
use ani_session_gateway.Session.Encoding.{base64_std}
use ani_session_gateway.Prelude.Assoc.{lookup}
use ani_session_gateway.Memory.{claim_session, close_session}
use ani_session_gateway.Redis.Codec.{Json, unix_milli, field_order, encode}
use ani_session_gateway.Redis.Stored.{Holds}
use ani_session_gateway.Redis.Scripts.{claimed_fields, closed_fields}
use ani_session_gateway.Redis.Operations.{arguments, lease_name}
use ani_session_gateway.Redis.Rows.{set_all, millis-eq-decimal}

module _ (j : Json) (r : Str → Option Str) (s : Session) (now : Time) (h : Holds j r s) where
  pub closed-Holds :
      (reason : Str)
      → Holds j (set_all (closed_fields (unix_milli now) reason) r) (close_session s now reason)
  unfolding str_eq base64_std
  closed-Holds reason = record {
    id = h.id;
    idempotency_key = h.idempotency_key;
    fingerprint = h.fingerprint;
    ticket_digest = h.ticket_digest;
    ticket_ciphertext = refl;
    tenant_id = h.tenant_id;
    subject_id = h.subject_id;
    instance_id = h.instance_id;
    workload_name = h.workload_name;
    workload_kind = h.workload_kind;
    mode = h.mode;
    container = h.container;
    command = h.command;
    tty = h.tty;
    rows = h.rows;
    cols = h.cols;
    requested_protocol = h.requested_protocol;
    state = refl;
    created_at = h.created_at;
    ticket_expires_at = h.ticket_expires_at;
    expires_at = h.expires_at;
    tombstone_expires_at = h.tombstone_expires_at;
    claimed_at = h.claimed_at;
    closed_at = ap some (sym (millis-eq-decimal _));
    close_reason = refl;
    lease_id = h.lease_id;
    instance_binding = h.instance_binding;
    vm_binding = h.vm_binding;
  }

  pub claimed-Holds :
      (id : Str) (limits : ClaimLimits)
      → Holds j
          (set_all
            (claimed_fields
              (unix_milli now)
              (unix_milli (now + limits.session_max_duration))
              (lease_name id)
              (unix_milli (now + limits.session_max_duration + limits.idempotency_ttl)))
            r)
          (claim_session id s now limits)
  unfolding str_eq base64_std
  claimed-Holds id limits = record {
    id = h.id;
    idempotency_key = h.idempotency_key;
    fingerprint = h.fingerprint;
    ticket_digest = h.ticket_digest;
    ticket_ciphertext = refl;
    tenant_id = h.tenant_id;
    subject_id = h.subject_id;
    instance_id = h.instance_id;
    workload_name = h.workload_name;
    workload_kind = h.workload_kind;
    mode = h.mode;
    container = h.container;
    command = h.command;
    tty = h.tty;
    rows = h.rows;
    cols = h.cols;
    requested_protocol = h.requested_protocol;
    state = refl;
    created_at = h.created_at;
    ticket_expires_at = h.ticket_expires_at;
    expires_at = ap some (sym (millis-eq-decimal _));
    tombstone_expires_at = ap some (sym (millis-eq-decimal _));
    claimed_at = ap some (sym (millis-eq-decimal _));
    closed_at = h.closed_at;
    close_reason = h.close_reason;
    lease_id = refl;
    instance_binding = h.instance_binding;
    vm_binding = h.vm_binding;
  }

-- A hash to which a new session was written holds it, whatever it held before.
pub arguments-Holds :
    (j : Json) (r : Str → Option Str) (s : Session)
    → Holds j (set_all (arguments field_order (encode j s)) r) s
unfolding arguments field_order encode lookup str_eq
arguments-Holds j r s = record {
  id = refl;
  idempotency_key = refl;
  fingerprint = refl;
  ticket_digest = refl;
  ticket_ciphertext = refl;
  tenant_id = refl;
  subject_id = refl;
  instance_id = refl;
  workload_name = refl;
  workload_kind = refl;
  mode = refl;
  container = refl;
  command = refl;
  tty = refl;
  rows = refl;
  cols = refl;
  requested_protocol = refl;
  state = refl;
  created_at = refl;
  ticket_expires_at = refl;
  expires_at = refl;
  tombstone_expires_at = refl;
  claimed_at = refl;
  closed_at = refl;
  close_reason = refl;
  lease_id = refl;
  instance_binding = refl;
  vm_binding = refl;
}
