-- ===== src/Session/Validate.antt =====
-- `validateRequest` and `ValidVMBinding` of internal/session/manager.go.
use ani_session_gateway.Prelude.{
  Bool, true, not, ◌&&◌, ◌||◌, Option, none, some, is_empty, str_eq, not_positive, ltb, ◌==◌,
  if◌then◌else◌,
}
use ani_session_gateway.Session.Errors.{Error, invalid_request}
use ani_session_gateway.Session.Model.{
  Request, VmBinding, Mode, exec, serial, vnc, other_mode, is_exec, is_vnc, is_vm, is_container,
}

-- `Version > 0` is the negation of `Version <= 0`.
unfoldable pub valid_vm_binding : VmBinding → Bool
valid_vm_binding b =
    b.enabled
    && not (is_empty b.tenant_id)
    && not (is_empty b.vm_id)
    && not (not_positive b.version)
    && not (is_empty b.cluster_id)
    && not (is_empty b.namespace)
    && not (is_empty b.vm_name)
    && not (is_empty b.vm_uid)
    && not (is_empty b.vmi_name)
    && not (is_empty b.vmi_uid)
    && not (is_empty b.namespace_uid)

-- The first guard: a VM binding that does not fit the request.
unfoldable pub bad_vm_binding : Request → Bool
bad_vm_binding r =
    r.vm_binding.enabled
    && (r.instance_binding.enabled
        || not (is_vm r.workload_kind)
        || not (is_vnc r.mode)
        || not (str_eq r.vm_binding.tenant_id r.tenant_id)
        || not (str_eq r.vm_binding.vm_id r.instance_id)
        || not (str_eq r.vm_binding.vm_name r.workload_name)
        || not (valid_vm_binding r.vm_binding))

-- The second guard: an instance binding that does not fit it.
unfoldable pub bad_instance_binding : Request → Bool
bad_instance_binding r =
    r.instance_binding.enabled
    && (not_positive r.instance_binding.version
        || is_empty r.instance_binding.cluster_id
        || is_empty r.instance_binding.namespace
        || is_empty r.instance_binding.notebook_name
        || is_empty r.instance_binding.notebook_uid
        || is_empty r.instance_binding.pod_name
        || is_empty r.instance_binding.pod_uid
        || not (str_eq r.instance_binding.container_name r.container)
        || is_empty r.instance_binding.shell
        || not (is_exec r.mode))

unfoldable pub missing_field : Request → Bool
missing_field r =
    is_empty r.idempotency_key
    || is_empty r.tenant_id
    || is_empty r.subject_id
    || is_empty r.instance_id
    || is_empty r.workload_name

-- The `switch` on the mode.
unfoldable pub bad_mode : Mode → Request → Bool
bad_mode exec r =
    not (is_container r.workload_kind)
    || (r.rows == 0 || r.cols == 0 || ltb 4096 r.rows || ltb 4096 r.cols)
bad_mode serial r = not (is_vm r.workload_kind)
bad_mode vnc r = not (is_vm r.workload_kind)
bad_mode (other_mode m) r = true

-- `none` is the nil error.
unfoldable pub validate_request : Request → Option Error
unfolding missing_field bad_mode
validate_request r =
    if bad_vm_binding r
    then some invalid_request
    else if bad_instance_binding r
    then some invalid_request
    else if missing_field r
    then some invalid_request
    else if bad_mode r.mode r
    then some invalid_request
    else none
