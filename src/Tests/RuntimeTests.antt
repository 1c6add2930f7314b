-- ===== src/Tests/RuntimeTests.antt =====
-- The runtimes at concrete inputs.
use ani_session_gateway.Prelude.{
  ℕ, ◌≡◌, refl, true, false, none, some, List, [], ◌∷◌, Str, str, str_eq, ok, pos,
}
use ani_session_gateway.Prelude.Assoc.{lookup}
use ani_session_gateway.Session.Model.{VmBinding, container, zero_instance_binding}
use ani_session_gateway.Session.Validate.{valid_vm_binding}
use ani_session_gateway.Runtime.{ExecTarget, VmTarget}
use ani_session_gateway.Pods.{
  Pod, Cluster, ResolvedPod, namespace_of, namespace_for_tenant, selector, tenant_label,
  instance_label, is_target, pod_ready, eligible, matched, before, first, container_of, choose,
  resolve,
}
use ani_session_gateway.Pods.Choice.{IsResolved, resolve-IsResolved}
use ani_session_gateway.Kubevirt.{
  VmiState, Observation, Connection, Adapter, stream, is_owner, matches_vmi, validate_managed,
  open_console,
}
use ani_session_gateway.Kubevirt.Guarded.{IsGuarded, open_console-IsGuarded}

abbrev pod_at : Str → ℕ → Pod
pod_at name created = record {
  namespace = str "ani-tenant-t";
  name = name;
  uid = str "u";
  labels = (tenant_label, str "t") ∷ (instance_label, str "web") ∷ [];
  deleting = false;
  running = true;
  conditions = record { is_ready_type = true; is_true = true } ∷ [];
  created = created;
  containers = str "main" ∷ [];
}

abbrev cluster : Cluster
cluster = record {
  is_dns_label = λ s. true;
  list_pods = λ namespace labels. some (pod_at (str "old") 3 ∷ pod_at (str "new") 7 ∷ []);
}

abbrev exec_target : ExecTarget
exec_target = record {
  instance_id = str "i";
  instance_binding = zero_instance_binding;
  tenant_id = str "t";
  workload_name = str "web";
  workload_kind = container;
  container = [];
  command = [];
  tty = true;
}

abbrev newest : ResolvedPod
newest = record { namespace = str "ani-tenant-t"; name = str "new"; container = str "main" }

resolved : resolve cluster exec_target ≡ ok newest
unfolding resolve namespace_for_tenant eligible matched choose first before container_of is_target
    pod_ready lookup str_eq
resolved = refl

resolve-IsResolved_example :
    (namespace : Str) × (pods : List Pod) × (namespace_of cluster exec_target ≡ ok namespace)
    × (cluster.list_pods namespace (selector exec_target) ≡ some pods)
    × IsResolved exec_target namespace pods newest
resolve-IsResolved_example = resolve-IsResolved cluster exec_target resolved

abbrev binding : VmBinding
binding = record {
  enabled = true;
  tenant_id = str "t";
  vm_id = str "v";
  version = pos 1;
  cluster_id = str "c";
  namespace = str "n";
  vm_name = str "desk";
  vm_uid = str "u";
  vmi_name = str "desk-1";
  vmi_uid = str "i";
  namespace_uid = str "x";
}

abbrev machine : VmiState
machine = record {
  namespace = str "n";
  name = str "desk-1";
  phase = str "Running";
  api_version = str "kubevirt.io/v1";
  kind = str "VirtualMachineInstance";
  uid = str "i";
  owners =
      record {
        api_version = str "kubevirt.io/v1";
        kind = str "VirtualMachine";
        name = str "desk";
        uid = str "u";
        controller = some true;
      }
      ∷ [];
  labels = [];
  deleting = false;
}

abbrev steady : Observation
steady = record {
  identity = some (λ b. none);
  get = λ namespace name. ok machine;
  validate = λ b. none;
}

abbrev adapter : Adapter
adapter = record {
  has_validator = true;
  cluster_id = str "c";
  is_dns_label = λ s. true;
  is_dns_subdomain = λ s. true;
}

abbrev vm_target : VmTarget
vm_target = record {
  tenant_id = str "t";
  instance_id = str "v";
  workload_name = str "desk";
  binding = binding;
}

opened :
    open_console adapter steady steady steady Connection.connected vm_target
    ≡ stream (str "n") (str "desk-1")
unfolding open_console validate_managed matches_vmi is_owner valid_vm_binding namespace_for_tenant
    str_eq
opened = refl

open_console-IsGuarded_example :
    IsGuarded adapter steady steady steady Connection.connected vm_target (str "n") (str "desk-1")
open_console-IsGuarded_example =
    open_console-IsGuarded adapter steady steady steady Connection.connected vm_target (str "n")
      (str "desk-1") refl opened
