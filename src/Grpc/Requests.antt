-- ===== src/Grpc/Requests.antt =====
-- `mapRequest` of internal/transport/grpc/server.go. Every error of it is answered alike, so it is
-- none here.
use ani_session_gateway.Prelude.{
  ℕ, ◌%◌, ℤ, pos, negsuc, true, false, leb, if◌then◌else◌, Option, none, some, [],
}
use ani_session_gateway.Session.Model.{
  Request, InstanceBinding, VmBinding, zero_instance_binding, zero_vm_binding, Mode, exec, serial,
  vnc, WorkloadKind, container, gpu_container, sandbox, vm,
}
use ani_session_gateway.Grpc.Messages.{
  CreateSessionRequest, Principal, TargetMessage, InstanceBindingMessage, VmBindingMessage,
  WorkloadKindMessage, ExecMessage, ConsoleProtocol, VmConsoleMessage, ModeMessage,
}

abbrev pub instance_binding_of : Option InstanceBindingMessage → InstanceBinding
instance_binding_of none = zero_instance_binding
instance_binding_of (some b) = record {
  enabled = true;
  version = b.version;
  cluster_id = b.cluster_id;
  namespace = b.namespace;
  notebook_name = b.notebook_name;
  notebook_uid = b.notebook_uid;
  pod_name = b.pod_name;
  pod_uid = b.pod_uid;
  container_name = b.container_name;
  shell = b.shell;
}

abbrev pub vm_binding_of : Option VmBindingMessage → VmBinding
vm_binding_of none = zero_vm_binding
vm_binding_of (some b) = record {
  enabled = true;
  tenant_id = b.tenant_id;
  vm_id = b.vm_id;
  version = b.version;
  cluster_id = b.cluster_id;
  namespace = b.namespace;
  vm_name = b.vm_name;
  vm_uid = b.vm_uid;
  vmi_name = b.vmi_name;
  vmi_uid = b.vmi_uid;
  namespace_uid = b.namespace_uid;
}

abbrev pub kind_of : WorkloadKindMessage → Option WorkloadKind
kind_of WorkloadKindMessage.container = some container
kind_of WorkloadKindMessage.gpu_container = some gpu_container
kind_of WorkloadKindMessage.sandbox = some sandbox
kind_of WorkloadKindMessage.vm = some vm
kind_of _ = none

-- The fields that are set before the mode is looked at.
abbrev pub base_request : CreateSessionRequest → Principal → TargetMessage → WorkloadKind → Request
base_request request principal target kind = record {
  instance_binding = instance_binding_of target.instance_binding;
  vm_binding = vm_binding_of target.vm_binding;
  request_id = request.request_id;
  idempotency_key = request.idempotency_key;
  tenant_id = principal.tenant_id;
  subject_id = principal.subject_id;
  instance_id = target.instance_id;
  workload_name = target.workload_name;
  workload_kind = kind;
  mode = Mode.other_mode [];
  container = [];
  command = [];
  tty = false;
  rows = 0;
  cols = 0;
  requested_protocol = [];
}

-- A size outside of 1 to 4096 is refused; the conversion to `uint16` keeps the others as they are.
unfoldable pub dimension : ℤ → Option ℕ
dimension (pos n) = if leb 1 n then (if leb n 4096 then some (n % 65536) else none) else none
dimension (negsuc n) = none

abbrev pub sized : ExecMessage → Option ℕ → Option ℕ → Request → Option Request
sized m (some rows) (some cols) base = some (record base {
  mode = exec;
  container = m.container;
  command = m.command;
  tty = m.tty;
  rows = rows;
  cols = cols;
})
sized m _ _ base = none

abbrev pub console_mode : ConsoleProtocol → Option Mode
console_mode ConsoleProtocol.serial = some serial
console_mode ConsoleProtocol.vnc = some vnc
console_mode _ = none

abbrev pub with_console : VmConsoleMessage → Option Mode → Request → Option Request
with_console m none base = none
with_console m (some mode) base =
    some (record base { mode = mode; requested_protocol = m.requested_protocol })

unfoldable pub with_mode : ModeMessage → Request → Option Request
unfolding dimension
with_mode ModeMessage.unset base = none
with_mode (ModeMessage.exec none) base = none
with_mode (ModeMessage.exec (some m)) base = sized m (dimension m.rows) (dimension m.cols) base
with_mode (ModeMessage.vm_console none) base = none
with_mode (ModeMessage.vm_console (some m)) base = with_console m (console_mode m.protocol) base

abbrev pub with_kind :
    CreateSessionRequest → Principal → TargetMessage → Option WorkloadKind → Option Request
with_kind request principal target none = none
with_kind request principal target (some kind) =
    with_mode request.mode (base_request request principal target kind)

abbrev pub with_target :
    CreateSessionRequest → Option Principal → Option TargetMessage → Option Request
with_target request (some principal) (some target) =
    with_kind request principal target (kind_of target.workload_kind)
with_target request _ _ = none

unfoldable pub map_request : Option CreateSessionRequest → Option Request
unfolding with_mode
map_request none = none
map_request (some request) = with_target request request.principal request.target
