-- ===== src/Session/Fingerprint.antt =====
-- `Fingerprint` of internal/session/manager.go, before the hash.
use ani_session_gateway.Prelude.{List, [], ◌∷◌, ◌++◌, Str, Bytes, str, length, if◌then◌else◌}
use ani_session_gateway.Session.Model.{
  Request, VmBinding, InstanceBinding, Mode, exec, serial, vnc, other_mode, WorkloadKind, container,
  gpu_container, sandbox, vm, other_kind,
}
use ani_session_gateway.Session.Encoding.{be_uint32, decimal, decimal_int}

-- `string(r.Mode)` and `string(r.WorkloadKind)`.
abbrev pub mode_str : Mode → Str
mode_str exec = str "exec"
mode_str serial = str "serial"
mode_str vnc = str "vnc"
mode_str (other_mode m) = m

abbrev pub kind_str : WorkloadKind → Str
kind_str container = str "container"
kind_str gpu_container = str "gpu_container"
kind_str sandbox = str "sandbox"
kind_str vm = str "vm"
kind_str (other_kind k) = k

-- The bytes that `write` adds for each value.
unfoldable pub write_all : List Str → Bytes
write_all [] = []
write_all (v ∷ vs) = be_uint32 (length v) ++ (v ++ write_all vs)

abbrev pub instance_values : InstanceBinding → List Str
instance_values b =
    if b.enabled
    then decimal_int b.version
      ∷ b.cluster_id
      ∷ b.namespace
      ∷ b.notebook_name
      ∷ b.notebook_uid
      ∷ b.pod_name
      ∷ b.pod_uid
      ∷ b.container_name
      ∷ b.shell
      ∷ []
    else []

abbrev pub vm_values : VmBinding → List Str
vm_values b =
    if b.enabled
    then str "vm.console.v1"
      ∷ b.tenant_id
      ∷ b.vm_id
      ∷ decimal_int b.version
      ∷ b.cluster_id
      ∷ b.namespace
      ∷ b.vm_name
      ∷ b.vm_uid
      ∷ b.vmi_name
      ∷ b.vmi_uid
      ∷ b.namespace_uid
      ∷ []
    else []

-- The values in the order in which they are written.
unfoldable pub fingerprint_values : Request → List Str
fingerprint_values r =
    r.tenant_id
    ∷ r.subject_id
    ∷ r.instance_id
    ∷ r.workload_name
    ∷ kind_str r.workload_kind
    ∷ mode_str r.mode
    ∷ r.container
    ∷ (r.command
        ++ ((if r.tty then str "true" else str "false")
            ∷ decimal r.rows
            ∷ decimal r.cols
            ∷ r.requested_protocol
            ∷ (instance_values r.instance_binding ++ vm_values r.vm_binding)))

-- `h.Sum(nil)`, for a hash function of the standard library.
unfoldable pub fingerprint : (Bytes → Bytes) → Request → Bytes
fingerprint sha256 r = sha256 (write_all (fingerprint_values r))
