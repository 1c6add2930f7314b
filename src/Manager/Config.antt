-- ===== src/Manager/Config.antt =====
-- `Manager` of internal/session/manager.go: what it is built from, the checks before a ticket is
-- drawn, and the records that it builds.
use mathlib.Core.Option
use ani_session_gateway.Prelude.{
  ℕ, ◌+◌, ◌%◌, ◌≡◌, Bool, true, false, not, ◌&&◌, ◌||◌, Option, none, some, [], ◌∷◌, ◌++◌, Str,
  Bytes, length, take, drop, ◌==◌, if◌then◌else◌, Result, ok, err,
}
use ani_session_gateway.Session.Errors.{
  Error, invalid_request, conflict, failed_precondition, invalid_ticket, capacity, not_found,
  unavailable, other,
}
use ani_session_gateway.Session.Model.{
  Time, Duration, Mode, InstanceBinding, VmBinding, Request, Session, ClaimLimits, SessionLease,
  ClaimedAccess, issued, is_exec, is_vnc,
}
use ani_session_gateway.Session.Encoding.{hex}
use ani_session_gateway.Session.Validate.{validate_request}

-- SHA-256 and AES-GCM under the ticket key: `seal nonce text` and `open_sealed nonce sealed`.
pub record Primitives : Type 0 where
  pub sha256 : Bytes → Bytes
  pub nonce_size : ℕ
  pub seal : Bytes → Bytes → Bytes
  pub open_sealed : Bytes → Bytes → Option Bytes

-- What was sealed under a nonce of the right size opens under it.
pub record PrimitiveLaws (p : Primitives) : Type 0 where
  pub opens :
      (nonce text : Bytes)
      → length nonce ≡ p.nonce_size
      → p.open_sealed nonce (p.seal nonce text) ≡ some text

-- A validator is `none` where the code has nil, and answers `none` for a nil error.
pub record ManagerConfig : Type 0 where
  pub instance_validator : Option (Str → Str → InstanceBinding → Option Error)
  pub vm_validator : Option (VmBinding → Option Error)
  pub ticket_ttl : Duration
  pub session_max_duration : Duration
  pub idempotency_ttl : Duration
  pub max_active : ℕ
  pub max_active_per_subject : ℕ
  pub observer : Bool

-- The labels that `observeResult` and `Issue` report.
pub data Label : Type 0 where
  success replayed invalid bad_ticket missing conflicting precondition full down failed : Label

pub data Event : Type 0 where
  session_created : Mode → Label → Event
  session_claimed : Label → Event

-- `NewManager` after the nil tests: a duration or a limit that is not positive is refused.
unfoldable pub new_manager : ManagerConfig → Result Error ManagerConfig
new_manager c =
    if c.ticket_ttl == 0
      || c.session_max_duration == 0
      || c.idempotency_ttl == 0
      || c.max_active == 0
      || c.max_active_per_subject == 0
    then err other
    else ok c

pub observe_result : {A : Type 0} → Result Error A → Label
observe_result (ok a) = success
observe_result (err invalid_request) = invalid
observe_result (err invalid_ticket) = bad_ticket
observe_result (err not_found) = missing
observe_result (err conflict) = conflicting
observe_result (err failed_precondition) = precondition
observe_result (err capacity) = full
observe_result (err unavailable) = down
observe_result (err other) = failed

-- The error of one external check, with the label that stays when it fails.
abbrev refused : Option Error → Option (Error × Label)
refused none = none
refused (some e) = some (e, failed)

abbrev is_set {ℓ} : {A : Type ℓ} → Option A → Bool
is_set none = false
is_set (some a) = true

ask_instance :
    Option (Str → Str → InstanceBinding → Option Error) → Request → Option (Error × Label)
ask_instance none r = some (unavailable, failed)
ask_instance (some validate) r = refused (validate r.tenant_id r.instance_id r.instance_binding)

ask_vm : Option (VmBinding → Option Error) → Request → Option (Error × Label)
ask_vm none r = some (unavailable, failed)
ask_vm (some validate) r = refused (validate r.vm_binding)

-- The first test that refuses.
abbrev or_else {ℓ} : {A : Type ℓ} → Option A → Option A → Option A
or_else none next = next
or_else (some a) next = some a

-- The part of `Issue` that comes before the ticket: why the request is refused, if it is.
unfoldable pub admit : ManagerConfig → Request → Option (Error × Label)
unfolding ask_instance ask_vm
admit c r = or_else (Option.map (λ e. (e, invalid)) (validate_request r)) (
    or_else
      (if is_set c.vm_validator && (is_vnc r.mode && not r.vm_binding.enabled)
        then some (invalid_request, failed)
        else none)
      (or_else (if r.instance_binding.enabled then ask_instance c.instance_validator r else none)
        (if r.vm_binding.enabled then ask_vm c.vm_validator r else none)))

-- The assignments of the candidate.
abbrev pub candidate_of : ManagerConfig → Request → Time → Str → Bytes → Bytes → Bytes → Session
candidate_of c r now id print digest ciphertext = record {
  instance_binding = r.instance_binding;
  vm_binding = r.vm_binding;
  id = id;
  idempotency_key = r.idempotency_key;
  request_fingerprint = print;
  ticket_digest = digest;
  ticket_ciphertext = ciphertext;
  tenant_id = r.tenant_id;
  subject_id = r.subject_id;
  instance_id = r.instance_id;
  workload_name = r.workload_name;
  workload_kind = r.workload_kind;
  mode = r.mode;
  container = r.container;
  command = r.command;
  tty = r.tty;
  rows = r.rows;
  cols = r.cols;
  requested_protocol = r.requested_protocol;
  state = issued;
  created_at = now;
  ticket_expires_at = now + c.ticket_ttl;
  expires_at = 0;
  tombstone_expires_at = now + (c.ticket_ttl + c.idempotency_ttl);
  claimed_at = 0;
  closed_at = 0;
  close_reason = [];
  lease_id = [];
}

-- The operational view of a lease that `Claim` returns.
abbrev pub access_of : SessionLease → ClaimedAccess
access_of l = record {
  session_id = l.session.id;
  lease_id = l.id;
  expires_at = l.expires_at;
  identity = record {
    tenant_id = l.session.tenant_id;
    subject_id = l.session.subject_id;
    instance_id = l.session.instance_id;
  };
  target = record {
    instance_binding = l.session.instance_binding;
    vm_binding = l.session.vm_binding;
    workload_name = l.session.workload_name;
    workload_kind = l.session.workload_kind;
  };
  mode = l.session.mode;
  exec =
      if is_exec l.session.mode
      then some (record {
        container = l.session.container;
        command = l.session.command;
        tty = l.session.tty;
        size = record { rows = l.session.rows; cols = l.session.cols };
      })
      else none;
}

abbrev pub granted : Result Error SessionLease → Result Error ClaimedAccess
granted (ok l) = ok (access_of l)
granted (err e) = err e

abbrev pub limits_of : ManagerConfig → ClaimLimits
limits_of c = record {
  max_active = c.max_active;
  max_active_per_subject = c.max_active_per_subject;
  session_max_duration = c.session_max_duration;
  idempotency_ttl = c.idempotency_ttl;
}

-- `raw[6] = (raw[6] & 0x0f) | 0x40` and `raw[8] = (raw[8] & 0x3f) | 0x80`, printed in five groups.
-- On a byte the masks are the remainders by 16 and by 64, and the bits that are set are free.
unfoldable pub uuid_of : Bytes → Str
uuid_of (a ∷ b ∷ c ∷ d ∷ e ∷ f ∷ g ∷ h ∷ i ∷ rest) =
    hex (a ∷ b ∷ c ∷ d ∷ [])
    ++ (b'-'
        ∷ (hex (e ∷ f ∷ [])
            ++ (b'-'
                ∷ (hex ((g % 16 + 64) ∷ h ∷ [])
                    ++ (b'-'
                        ∷ (hex ((i % 64 + 128) ∷ take 1 rest) ++ (b'-' ∷ hex (drop 1 rest))))))))
uuid_of _ = []
