-- ===== src/Session/Validity.antt =====
-- What `validateRequest` of internal/session/manager.go accepts, said without its order of tests.
use ani_session_gateway.Prelude.{
  ◌≡◌, ◌≢◌, ◌≤◌, ◌↔◌, refl, Bool, true, false, Option, none, some, [], ◌∷◌, Str, is_empty,
  str_eq_iff, not_positive, if◌then◌else◌, arith,
}
use ani_session_gateway.Session.Model.{
  Request, Mode, exec, serial, vnc, other_mode, is_exec, is_vnc, is_vm, is_container,
}
use ani_session_gateway.Session.Validate.{
  valid_vm_binding, bad_vm_binding, bad_instance_binding, missing_field, bad_mode, validate_request,
}

-- A virtual machine that is bound is the request's own, and its console is asked for.
pub record VmFits (r : Request) : Type 0 where
  pub unbound_instance : r.instance_binding.enabled ≡ false
  pub kind : is_vm r.workload_kind ≡ true
  pub mode : is_vnc r.mode ≡ true
  pub same_tenant : r.vm_binding.tenant_id ≡ r.tenant_id
  pub same_vm : r.vm_binding.vm_id ≡ r.instance_id
  pub same_name : r.vm_binding.vm_name ≡ r.workload_name
  pub complete : valid_vm_binding r.vm_binding ≡ true

-- An instance that is bound is fully named, and its shell is asked for.
pub record InstanceFits (r : Request) : Type 0 where
  pub version : not_positive r.instance_binding.version ≡ false
  pub cluster_id : r.instance_binding.cluster_id ≢ []
  pub namespace : r.instance_binding.namespace ≢ []
  pub notebook_name : r.instance_binding.notebook_name ≢ []
  pub notebook_uid : r.instance_binding.notebook_uid ≢ []
  pub pod_name : r.instance_binding.pod_name ≢ []
  pub pod_uid : r.instance_binding.pod_uid ≢ []
  pub same_container : r.instance_binding.container_name ≡ r.container
  pub shell : r.instance_binding.shell ≢ []
  pub mode : is_exec r.mode ≡ true

abbrev pub ModeFits : Mode → Request → Type 0
ModeFits exec r =
    (is_container r.workload_kind ≡ true)
    × ((1 ≤ r.rows) × (r.rows ≤ 4096))
    × ((1 ≤ r.cols) × (r.cols ≤ 4096))
ModeFits serial r = is_vm r.workload_kind ≡ true
ModeFits vnc r = is_vm r.workload_kind ≡ true
ModeFits (other_mode m) r = ⊥

pub record IsValid (r : Request) : Type 0 where
  pub vm : r.vm_binding.enabled ≡ true → VmFits r
  pub instance_binding : r.instance_binding.enabled ≡ true → InstanceFits r
  pub idempotency_key : r.idempotency_key ≢ []
  pub tenant_id : r.tenant_id ≢ []
  pub subject_id : r.subject_id ≢ []
  pub instance_id : r.instance_id ≢ []
  pub workload_name : r.workload_name ≢ []
  pub mode : ModeFits r.mode r

nonempty : (s : Str) → is_empty s ≡ false → s ≢ []
nonempty [] h = cc
nonempty (a ∷ s) h = λ e. cc

is_empty-false : (s : Str) → s ≢ [] → is_empty s ≡ false
is_empty-false [] h = absurd (h refl)
is_empty-false (a ∷ s) h = refl

vm_sound : (r : Request) → bad_vm_binding r ≡ false → r.vm_binding.enabled ≡ true → VmFits r
unfolding bad_vm_binding
vm_sound r h on = record {
  unbound_instance = ground arith;
  kind = ground arith;
  mode = ground arith;
  same_tenant = ground (arith, str_eq_iff r.vm_binding.tenant_id r.tenant_id);
  same_vm = ground (arith, str_eq_iff r.vm_binding.vm_id r.instance_id);
  same_name = ground (arith, str_eq_iff r.vm_binding.vm_name r.workload_name);
  complete = ground arith;
}

instance_sound :
    (r : Request)
    → bad_instance_binding r ≡ false
    → r.instance_binding.enabled ≡ true
    → InstanceFits r
unfolding bad_instance_binding
instance_sound r h on = record {
  version = ground arith;
  cluster_id = nonempty r.instance_binding.cluster_id (ground arith);
  namespace = nonempty r.instance_binding.namespace (ground arith);
  notebook_name = nonempty r.instance_binding.notebook_name (ground arith);
  notebook_uid = nonempty r.instance_binding.notebook_uid (ground arith);
  pod_name = nonempty r.instance_binding.pod_name (ground arith);
  pod_uid = nonempty r.instance_binding.pod_uid (ground arith);
  same_container = ground (arith, str_eq_iff r.instance_binding.container_name r.container);
  shell = nonempty r.instance_binding.shell (ground arith);
  mode = ground arith;
}

mode_sound : (m : Mode) (r : Request) → bad_mode m r ≡ false → ModeFits m r
unfolding bad_mode
mode_sound exec r h = (ground arith, (ground arith, ground arith), (ground arith, ground arith))
mode_sound serial r h = ground arith
mode_sound vnc r h = ground arith
mode_sound (other_mode m) r h = cc

mode_complete : (m : Mode) (r : Request) → ModeFits m r → bad_mode m r ≡ false
unfolding bad_mode
mode_complete exec r (kind, (r1, r2), (c1, c2)) = ground arith
mode_complete serial r h = ground arith
mode_complete vnc r h = ground arith
mode_complete (other_mode m) r h = absurd h

vm_complete :
    (r : Request) (b : Bool)
    → r.vm_binding.enabled ≡ b
    → (b ≡ true → VmFits r)
    → bad_vm_binding r ≡ false
unfolding bad_vm_binding
vm_complete r false e h = rw e refl
vm_complete r true e h =
    let f = h refl in
    rw
      (
        f.complete,
        e,
        f.unbound_instance,
        f.kind,
        f.mode,
        (str_eq_iff r.vm_binding.tenant_id r.tenant_id).1 f.same_tenant,
        (str_eq_iff r.vm_binding.vm_id r.instance_id).1 f.same_vm,
        (str_eq_iff r.vm_binding.vm_name r.workload_name).1 f.same_name,
      )
      refl

instance_complete :
    (r : Request) (b : Bool)
    → r.instance_binding.enabled ≡ b
    → (b ≡ true → InstanceFits r)
    → bad_instance_binding r ≡ false
unfolding bad_instance_binding
instance_complete r false e h = rw e refl
instance_complete r true e h =
    let f = h refl in
    rw
      (
        e,
        f.version,
        is_empty-false r.instance_binding.cluster_id f.cluster_id,
        is_empty-false r.instance_binding.namespace f.namespace,
        is_empty-false r.instance_binding.notebook_name f.notebook_name,
        is_empty-false r.instance_binding.notebook_uid f.notebook_uid,
        is_empty-false r.instance_binding.pod_name f.pod_name,
        is_empty-false r.instance_binding.pod_uid f.pod_uid,
        (str_eq_iff r.instance_binding.container_name r.container).1 f.same_container,
        is_empty-false r.instance_binding.shell f.shell,
        f.mode,
      )
      refl

none-some :
    {A : Type 0} (b : Bool) (e : A) (o : Option A)
    → (if b then some e else o) ≡ none
    → (b ≡ false) × (o ≡ none)
none-some true e o h = cc
none-some false e o h = (refl, h)

sound : (r : Request) → validate_request r ≡ none → IsValid r
unfolding validate_request missing_field
sound r h =
    let (vm, h1) = none-some (bad_vm_binding r) _ _ h in
    let (bound, h2) = none-some (bad_instance_binding r) _ _ h1 in
    let (fields, h3) = none-some (missing_field r) _ _ h2 in
    let (mode, _) = none-some (bad_mode r.mode r) _ _ h3 in
    record {
      vm = vm_sound r vm;
      instance_binding = instance_sound r bound;
      idempotency_key = nonempty r.idempotency_key (ground arith);
      tenant_id = nonempty r.tenant_id (ground arith);
      subject_id = nonempty r.subject_id (ground arith);
      instance_id = nonempty r.instance_id (ground arith);
      workload_name = nonempty r.workload_name (ground arith);
      mode = mode_sound r.mode r mode;
    }

complete : (r : Request) → IsValid r → validate_request r ≡ none
unfolding validate_request missing_field
complete r v =
    rw
      (
        vm_complete r _ refl v.vm,
        instance_complete r _ refl v.instance_binding,
        is_empty-false r.idempotency_key v.idempotency_key,
        is_empty-false r.tenant_id v.tenant_id,
        is_empty-false r.subject_id v.subject_id,
        is_empty-false r.instance_id v.instance_id,
        is_empty-false r.workload_name v.workload_name,
        mode_complete r.mode r v.mode,
      )
      refl

-- A request passes validation exactly if its bindings fit it, its principal, instance, workload and
-- idempotency key are named, and its mode suits the workload, with a terminal of 1 to 4096 each way.
pub validate_request_iff : (r : Request) → (validate_request r ≡ none) ↔ IsValid r
validate_request_iff r = (λ h. sound r h, λ v. complete r v)
