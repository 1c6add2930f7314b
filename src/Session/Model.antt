-- ===== src/Session/Model.antt =====
-- internal/session/model.go. A time is a number, the zero time is 0, and a duration is a number of
-- the same unit. A `uint16` is a number, a `[32]byte` and a `[]byte` a list of bytes.
use ani_session_gateway.Prelude.{
  ℕ, zero, suc, Bool, false, Str, Bytes, str, ℤ, pos, List, [], ◌∷◌, Option,
}

abbrev pub Time : Type 0
Time = ℕ

abbrev pub Duration : Type 0
Duration = ℕ

-- `unset` is the empty string, the zero value of the type.
pub data State : Type 0 where
  unset issued claimed closed : State

pub data Mode : Type 0 where
  exec serial vnc : Mode
  other_mode : Str → Mode

pub data WorkloadKind : Type 0 where
  container gpu_container sandbox vm : WorkloadKind
  other_kind : Str → WorkloadKind

pub record InstanceBinding : Type 0 where
  pub enabled : Bool
  pub version : ℤ
  pub cluster_id : Str
  pub namespace : Str
  pub notebook_name : Str
  pub notebook_uid : Str
  pub pod_name : Str
  pub pod_uid : Str
  pub container_name : Str
  pub shell : Str

pub record VmBinding : Type 0 where
  pub enabled : Bool
  pub tenant_id : Str
  pub vm_id : Str
  pub version : ℤ
  pub cluster_id : Str
  pub namespace : Str
  pub vm_name : Str
  pub vm_uid : Str
  pub vmi_name : Str
  pub vmi_uid : Str
  pub namespace_uid : Str

pub record TerminalSize : Type 0 where
  pub rows : ℕ
  pub cols : ℕ

pub record Request : Type 0 where
  pub instance_binding : InstanceBinding
  pub vm_binding : VmBinding
  pub request_id : Str
  pub idempotency_key : Str
  pub tenant_id : Str
  pub subject_id : Str
  pub instance_id : Str
  pub workload_name : Str
  pub workload_kind : WorkloadKind
  pub mode : Mode
  pub container : Str
  pub command : List Str
  pub tty : Bool
  pub rows : ℕ
  pub cols : ℕ
  pub requested_protocol : Str

pub record Session : Type 0 where
  pub instance_binding : InstanceBinding
  pub vm_binding : VmBinding
  pub id : Str
  pub idempotency_key : Str
  pub request_fingerprint : Bytes
  pub ticket_digest : Bytes
  pub ticket_ciphertext : Bytes
  pub tenant_id : Str
  pub subject_id : Str
  pub instance_id : Str
  pub workload_name : Str
  pub workload_kind : WorkloadKind
  pub mode : Mode
  pub container : Str
  pub command : List Str
  pub tty : Bool
  pub rows : ℕ
  pub cols : ℕ
  pub requested_protocol : Str
  pub state : State
  pub created_at : Time
  pub ticket_expires_at : Time
  pub expires_at : Time
  pub tombstone_expires_at : Time
  pub claimed_at : Time
  pub closed_at : Time
  pub close_reason : Str
  pub lease_id : Str

pub record Issued : Type 0 where
  pub session : Session
  pub ticket : Str
  pub replayed : Bool

pub record ClaimLimits : Type 0 where
  pub max_active : ℕ
  pub max_active_per_subject : ℕ
  pub session_max_duration : Duration
  pub idempotency_ttl : Duration

pub record SessionLease : Type 0 where
  pub id : Str
  pub session : Session
  pub expires_at : Time

pub record Identity : Type 0 where
  pub tenant_id : Str
  pub subject_id : Str
  pub instance_id : Str

pub record Target : Type 0 where
  pub instance_binding : InstanceBinding
  pub vm_binding : VmBinding
  pub workload_name : Str
  pub workload_kind : WorkloadKind

pub record ExecOptions : Type 0 where
  pub container : Str
  pub command : List Str
  pub tty : Bool
  pub size : TerminalSize

pub record ClaimedAccess : Type 0 where
  pub session_id : Str
  pub lease_id : Str
  pub expires_at : Time
  pub identity : Identity
  pub target : Target
  pub mode : Mode
  pub exec : Option ExecOptions

pub record ReplayRequest : Type 0 where
  pub idempotency_key : Str
  pub tenant_id : Str
  pub subject_id : Str
  pub instance_id : Str
  pub expected_version : ℤ

abbrev pub is_issued : State → Bool
is_issued issued = Bool.true
is_issued _ = false

abbrev pub is_claimed : State → Bool
is_claimed claimed = Bool.true
is_claimed _ = false

abbrev pub is_closed : State → Bool
is_closed closed = Bool.true
is_closed _ = false

abbrev pub is_exec : Mode → Bool
is_exec exec = Bool.true
is_exec _ = false

abbrev pub is_vnc : Mode → Bool
is_vnc vnc = Bool.true
is_vnc _ = false

abbrev pub is_vm : WorkloadKind → Bool
is_vm vm = Bool.true
is_vm _ = false

-- `container`, `gpu_container` or `sandbox`.
abbrev pub is_container : WorkloadKind → Bool
is_container container = Bool.true
is_container gpu_container = Bool.true
is_container sandbox = Bool.true
is_container _ = false

-- Go's zero values.
abbrev pub zero_bytes : ℕ → Bytes
zero_bytes zero = []
zero_bytes (suc n) = 0 ∷ zero_bytes n

abbrev pub zero_instance_binding : InstanceBinding
zero_instance_binding = record {
  enabled = false;
  version = pos 0;
  cluster_id = [];
  namespace = [];
  notebook_name = [];
  notebook_uid = [];
  pod_name = [];
  pod_uid = [];
  container_name = [];
  shell = [];
}

abbrev pub zero_vm_binding : VmBinding
zero_vm_binding = record {
  enabled = false;
  tenant_id = [];
  vm_id = [];
  version = pos 0;
  cluster_id = [];
  namespace = [];
  vm_name = [];
  vm_uid = [];
  vmi_name = [];
  vmi_uid = [];
  namespace_uid = [];
}

abbrev pub zero_session : Session
zero_session = record {
  instance_binding = zero_instance_binding;
  vm_binding = zero_vm_binding;
  id = [];
  idempotency_key = [];
  request_fingerprint = zero_bytes 32;
  ticket_digest = zero_bytes 32;
  ticket_ciphertext = [];
  tenant_id = [];
  subject_id = [];
  instance_id = [];
  workload_name = [];
  workload_kind = other_kind (str "");
  mode = other_mode (str "");
  container = [];
  command = [];
  tty = false;
  rows = 0;
  cols = 0;
  requested_protocol = [];
  state = unset;
  created_at = 0;
  ticket_expires_at = 0;
  expires_at = 0;
  tombstone_expires_at = 0;
  claimed_at = 0;
  closed_at = 0;
  close_reason = [];
  lease_id = [];
}
