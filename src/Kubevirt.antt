-- ===== src/Kubevirt.antt =====
pub mod Guarded
-- internal/runtime/kubevirt/adapter.go: the checks before and after a console is opened. The cluster
-- is read several times, and may answer differently each time.
use ani_session_gateway.Prelude.{
  ℕ, Bool, true, false, not, ◌&&◌, ◌||◌, if◌then◌else◌, Option, none, some, List, [], ◌∷◌, Str, str,
  str_eq, is_empty, Result, ok, err, and_then,
}
use ani_session_gateway.Prelude.Assoc.{Assoc}
use ani_session_gateway.Session.Errors.{Error, failed_precondition}
use ani_session_gateway.Session.Model.{VmBinding}
use ani_session_gateway.Session.Validate.{valid_vm_binding}
use ani_session_gateway.Runtime.{
  RuntimeError, invalid_target, target_not_found, target_not_ready, target_changed, unavailable,
  other, VmTarget,
}
use ani_session_gateway.Pods.{namespace_for_tenant, or_empty, tenant_label, instance_label}
use ani_session_gateway.Prelude.Assoc.{lookup}

pub record Owner : Type 0 where
  pub api_version : Str
  pub kind : Str
  pub name : Str
  pub uid : Str
  pub controller : Option Bool

-- `vmiState`.
pub record VmiState : Type 0 where
  pub namespace : Str
  pub name : Str
  pub phase : Str
  pub api_version : Str
  pub kind : Str
  pub uid : Str
  pub owners : List Owner
  pub labels : Assoc Str
  pub deleting : Bool

-- A failed read, of something that is not there or for another reason.
pub data ReadError : Type 0 where
  missing failed : ReadError

-- What the provider and the validator answer at one time; `identity` is none for a provider that
-- cannot validate identities.
pub record Observation : Type 0 where
  pub identity : Option (VmBinding → Option RuntimeError)
  pub get : Str → Str → Result ReadError VmiState
  pub validate : VmBinding → Option Error

-- What becomes of the connection: an error of the connect context, no stream, a stream without a
-- connection, a stream that came too late, or a stream.
pub data Connection : Type 0 where
  timed_out refused without_conn too_late connected : Connection

pub record Adapter : Type 0 where
  pub has_validator : Bool
  pub cluster_id : Str
  pub is_dns_label : Str → Bool
  pub is_dns_subdomain : Str → Bool

pub data Mode : Type 0 where
  serial vnc : Mode

-- The stream that is handed out, or an error, and whether a stream was disposed of on the way.
pub data Opened : Type 0 where
  stream : Str → Str → Opened
  failed : RuntimeError → (disposed : Bool) → Opened

abbrev pub is_true : Option Bool → Bool
is_true none = false
is_true (some b) = b

-- One turn of the loop over the owners.
unfoldable pub is_owner : VmBinding → Owner → Bool
is_owner b o =
    str_eq o.api_version (str "kubevirt.io/v1")
    && str_eq o.kind (str "VirtualMachine")
    && str_eq o.name b.vm_name
    && str_eq o.uid b.vm_uid
    && is_true o.controller

abbrev pub any_owner : VmBinding → List Owner → Bool
any_owner b [] = false
any_owner b (o ∷ os) = is_owner b o || any_owner b os

unfoldable pub matches_vmi : VmiState → VmBinding → Bool
matches_vmi state b =
    str_eq state.api_version (str "kubevirt.io/v1")
    && str_eq state.kind (str "VirtualMachineInstance")
    && str_eq state.namespace b.namespace
    && str_eq state.name b.vmi_name
    && str_eq state.uid b.vmi_uid
    && not state.deleting
    && str_eq state.phase (str "Running")
    && any_owner b state.owners

abbrev pub identity_read_error : ReadError → RuntimeError
identity_read_error missing = target_changed
identity_read_error ReadError.failed = unavailable

abbrev pub validated : Option Error → Option RuntimeError
validated none = none
validated (some failed_precondition) = some target_changed
validated (some e) = some unavailable

abbrev pub observed : Observation → VmBinding → Result ReadError VmiState → Option RuntimeError
observed env b (err e) = some (identity_read_error e)
observed env b (ok state) =
    if matches_vmi state b then validated (env.validate b) else some target_changed

abbrev pub identified : Observation → VmBinding → Option RuntimeError → Option RuntimeError
identified env b (some e) = some e
identified env b none = observed env b (env.get b.namespace b.vmi_name)

abbrev pub with_identity :
    Observation → VmBinding → Option (VmBinding → Option RuntimeError) → Option RuntimeError
with_identity env b none = some unavailable
with_identity env b (some check) = identified env b (check b)

-- `validateManaged`; none is the nil error.
unfoldable pub validate_managed : Observation → VmBinding → Option RuntimeError
validate_managed env b = with_identity env b env.identity

module _ (a : Adapter) (preflight reading upgraded : Observation) (connection : Connection) where
  abbrev pub bad_binding : VmTarget → Bool
  bad_binding target =
      not (valid_vm_binding target.binding)
      || not (str_eq target.tenant_id target.binding.tenant_id)
      || not (str_eq target.instance_id target.binding.vm_id)
      || not (str_eq target.workload_name target.binding.vm_name)
      || not a.has_validator
      || is_empty a.cluster_id
      || not (str_eq a.cluster_id target.binding.cluster_id)
      || not (a.is_dns_label target.binding.namespace)
      || not (a.is_dns_subdomain target.binding.vm_name)
      || not (a.is_dns_subdomain target.binding.vmi_name)

  abbrev pub checked : VmTarget → Option RuntimeError → Result RuntimeError (Str × Str)
  checked target (some e) = err e
  checked target none = ok (target.binding.namespace, target.binding.vmi_name)

  abbrev pub with_name : VmTarget → Result RuntimeError Str → Result RuntimeError (Str × Str)
  with_name target (err e) = err invalid_target
  with_name target (ok namespace) = ok (namespace, target.workload_name)

  -- Where to look for the machine.
  abbrev pub located : VmTarget → Result RuntimeError (Str × Str)
  located target =
      if target.binding.enabled
      then (if bad_binding target
          then err invalid_target
          else checked target (validate_managed preflight target.binding))
      else with_name target (namespace_for_tenant a.is_dns_label target.tenant_id)

  abbrev pub label : Str → VmiState → Str
  label key state = or_empty (lookup key state.labels)

  abbrev pub is_unmanaged : VmTarget → Str → VmiState → Bool
  is_unmanaged target namespace state =
      str_eq state.namespace namespace
      && str_eq state.name target.workload_name
      && str_eq (label tenant_label state) target.tenant_id
      && str_eq (label instance_label state) target.workload_name

  -- The tests on the machine that was read.
  abbrev pub state_error : VmTarget → Str → VmiState → Option RuntimeError
  state_error target namespace state =
      if not target.binding.enabled && not (is_unmanaged target namespace state)
      then some target_not_found
      else if target.binding.enabled && not (matches_vmi state target.binding)
      then some target_changed
      else if state.deleting || not (str_eq state.phase (str "Running"))
      then some target_not_ready
      else none

  abbrev pub handed_on : Str → Str → Option RuntimeError → Opened
  handed_on namespace name none = stream namespace name
  handed_on namespace name (some e) = failed e true

  -- The connection, and what is observed again once it stands.
  abbrev pub after_connect : VmTarget → Str → Str → Connection → Opened
  after_connect target namespace name timed_out = failed other false
  after_connect target namespace name refused = failed unavailable false
  after_connect target namespace name without_conn = failed unavailable true
  after_connect target namespace name too_late = failed other true
  after_connect target namespace name connected =
      if target.binding.enabled
      then handed_on namespace name (validate_managed upgraded target.binding)
      else stream namespace name

  abbrev pub with_state : VmTarget → Str → Str → Option RuntimeError → Opened
  with_state target namespace name (some e) = failed e false
  with_state target namespace name none = after_connect target namespace name connection

  abbrev pub with_read : VmTarget → Str → Str → Result ReadError VmiState → Opened
  with_read target namespace name (err missing) = failed target_not_found false
  with_read target namespace name (err ReadError.failed) = failed unavailable false
  with_read target namespace name (ok state) =
      with_state target namespace name (state_error target namespace state)

  abbrev pub opened_at : VmTarget → Result RuntimeError (Str × Str) → Opened
  opened_at target (err e) = failed e false
  opened_at target (ok (namespace, name)) =
      if is_empty name || not (a.is_dns_subdomain name) || not (a.is_dns_label namespace)
      then failed invalid_target false
      else with_read target namespace name (reading.get namespace name)

  -- `open`.
  unfoldable pub open_console : VmTarget → Opened
  open_console target = opened_at target (located target)

  -- `OpenSerial` and `OpenVNC`.
  unfoldable pub open_mode : Mode → VmTarget → Opened
  unfolding open_console
  open_mode serial target =
      if target.binding.enabled then failed invalid_target false else open_console target
  open_mode vnc target =
      if a.has_validator && not target.binding.enabled
      then failed invalid_target false
      else open_console target
