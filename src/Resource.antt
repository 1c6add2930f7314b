-- ===== src/Resource.antt =====
pub mod Vouched
-- internal/runtime/resource/validator.go: whether the Resource service still vouches for a binding.
-- The service is what its two methods answer; `NewFromEnv`, which connects to it, is left out.
use ani_session_gateway.Prelude.{
  ℕ, Bool, true, false, not, ◌||◌, ◌==◌, if◌then◌else◌, Option, none, some, Str, ℤ, Result, ok, err,
}
use ani_session_gateway.Session.Errors.{Error, failed_precondition, unavailable}
use ani_session_gateway.Session.Model.{Duration, InstanceBinding, VmBinding}
use ani_session_gateway.Session.Validate.{valid_vm_binding}

-- `status.Code` of a failed call: FailedPrecondition, NotFound and PermissionDenied; `other_code` is every
-- other code.
pub data Code : Type 0 where
  precondition missing denied other_code : Code

pub record TerminalTarget : Type 0 where
  pub tenant_id : Str
  pub instance_id : Str
  pub version : ℤ
  pub cluster_id : Str
  pub namespace : Str
  pub notebook_name : Str
  pub notebook_uid : Str
  pub pod_name : Str
  pub pod_uid : Str
  pub container_name : Str
  pub shell : Str

pub record VmConsoleBinding : Type 0 where
  pub tenant_id : Str
  pub vm_id : Str
  pub version : ℤ
  pub cluster_id : Str
  pub namespace : Str
  pub vm_name : Str
  pub vm_uid : Str
  pub vmi_name : Str
  pub vmi_uid : Str
  pub namespace_uid : Str

-- A client is what it answers: an error, no result, or a result with its `Valid`.
pub record Validator : Type 0 where
  pub client : Option (TerminalTarget → Result Code (Option Bool))
  pub vm_client : Option (VmConsoleBinding → Result Code (Option Bool))
  pub request_timeout : Duration

abbrev pub terminal_target : Str → Str → InstanceBinding → TerminalTarget
terminal_target tenant id b = record {
  tenant_id = tenant;
  instance_id = id;
  version = b.version;
  cluster_id = b.cluster_id;
  namespace = b.namespace;
  notebook_name = b.notebook_name;
  notebook_uid = b.notebook_uid;
  pod_name = b.pod_name;
  pod_uid = b.pod_uid;
  container_name = b.container_name;
  shell = b.shell;
}

abbrev pub console_binding : VmBinding → VmConsoleBinding
console_binding b = record {
  tenant_id = b.tenant_id;
  vm_id = b.vm_id;
  version = b.version;
  cluster_id = b.cluster_id;
  namespace = b.namespace;
  vm_name = b.vm_name;
  vm_uid = b.vm_uid;
  vmi_name = b.vmi_name;
  vmi_uid = b.vmi_uid;
  namespace_uid = b.namespace_uid;
}

-- The answer for a terminal; none is the nil error.
unfoldable pub answered : Result Code (Option Bool) → Option Error
answered (err precondition) = some failed_precondition
answered (err missing) = some failed_precondition
answered (err e) = some unavailable
answered (ok none) = some failed_precondition
answered (ok (some valid)) = if valid then none else some failed_precondition

-- A machine that the caller may not use is refused in the same way.
unfoldable pub answered_vm : Result Code (Option Bool) → Option Error
unfolding answered
answered_vm (err denied) = some failed_precondition
answered_vm (err e) = answered (err e)
answered_vm (ok r) = answered (ok r)

abbrev pub asked :
    {A : Type 0}
    → Option (A → Result Code (Option Bool))
    → A
    → (Result Code (Option Bool) → Option Error)
    → Option Error
asked none target read = some unavailable
asked (some client) target read = read (client target)

unfoldable pub validate : Validator → Str → Str → InstanceBinding → Option Error
unfolding answered
validate v tenant id b =
    if v.request_timeout == 0 || not b.enabled
    then some unavailable
    else asked v.client (terminal_target tenant id b) answered

unfoldable pub validate_vm : Validator → VmBinding → Option Error
unfolding answered_vm
validate_vm v b =
    if v.request_timeout == 0 || not (valid_vm_binding b)
    then some unavailable
    else asked v.vm_client (console_binding b) answered_vm
