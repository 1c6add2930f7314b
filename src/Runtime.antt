-- ===== src/Runtime.antt =====
-- internal/runtime/stream.go: the errors and the targets of the runtimes.
use ani_session_gateway.Prelude.{Bool, List, Str}
use ani_session_gateway.Session.Model.{InstanceBinding, VmBinding, WorkloadKind}

-- `other` is an error that wraps none of the sentinels.
pub data RuntimeError : Type 0 where
  invalid_target target_not_found target_not_ready target_changed ambiguous_container : RuntimeError
  backpressure unavailable other : RuntimeError

pub record ExecTarget : Type 0 where
  pub instance_id : Str
  pub instance_binding : InstanceBinding
  pub tenant_id : Str
  pub workload_name : Str
  pub workload_kind : WorkloadKind
  pub container : Str
  pub command : List Str
  pub tty : Bool

pub record VmTarget : Type 0 where
  pub tenant_id : Str
  pub instance_id : Str
  pub workload_name : Str
  pub binding : VmBinding
