-- ===== src/Grpc/Messages.antt =====
-- The messages of api/gen/session/v1 that internal/transport/grpc/server.go reads. A nil pointer is
-- none.
use ani_session_gateway.Prelude.{ℤ, Bool, Option, List, Str}

pub record Principal : Type 0 where
  pub tenant_id : Str
  pub subject_id : Str

pub record InstanceBindingMessage : Type 0 where
  pub version : ℤ
  pub cluster_id : Str
  pub namespace : Str
  pub notebook_name : Str
  pub notebook_uid : Str
  pub pod_name : Str
  pub pod_uid : Str
  pub container_name : Str
  pub shell : Str

pub record VmBindingMessage : Type 0 where
  pub tenant_id : Str
  pub vm_id : Str
  pub version : ℤ
  pub cluster_id : Str
  pub namespace : Str
  pub vm_name : Str
  pub vm_uid : Str
  pub vmi_name : Str
  pub vmi_uid : Str
  pub namespace_uid : Str

-- `unknown` stands for the numbers that name no kind.
pub data WorkloadKindMessage : Type 0 where
  unspecified container gpu_container sandbox vm unknown : WorkloadKindMessage

pub record TargetMessage : Type 0 where
  pub instance_id : Str
  pub workload_name : Str
  pub workload_kind : WorkloadKindMessage
  pub instance_binding : Option InstanceBindingMessage
  pub vm_binding : Option VmBindingMessage

pub record ExecMessage : Type 0 where
  pub container : Str
  pub command : List Str
  pub tty : Bool
  pub rows : ℤ
  pub cols : ℤ

pub data ConsoleProtocol : Type 0 where
  unspecified serial vnc unknown : ConsoleProtocol

pub record VmConsoleMessage : Type 0 where
  pub protocol : ConsoleProtocol
  pub requested_protocol : Str

-- The `oneof` of a request.
pub data ModeMessage : Type 0 where
  unset : ModeMessage
  exec : Option ExecMessage → ModeMessage
  vm_console : Option VmConsoleMessage → ModeMessage

pub record CreateSessionRequest : Type 0 where
  pub request_id : Str
  pub idempotency_key : Str
  pub principal : Option Principal
  pub target : Option TargetMessage
  pub mode : ModeMessage

pub record GetSessionReplayRequest : Type 0 where
  pub idempotency_key : Str
  pub principal : Option Principal
  pub instance_id : Str
  pub expected_version : ℤ
