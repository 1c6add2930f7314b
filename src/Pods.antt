-- ===== src/Pods.antt =====
pub mod Choice
-- internal/runtime/kubernetes/pod_resolver.go: which pod and container an exec session goes to.
use ani_session_gateway.Prelude.{
  ℕ, Bool, true, false, not, ◌&&◌, ◌||◌, ◌==◌, ltb, if◌then◌else◌, Option, none, some, List, [],
  ◌∷◌, ◌++◌, Str, str, str_eq, is_empty, Result, ok, err,
}
use ani_session_gateway.Prelude.Assoc.{Assoc, lookup}
use ani_session_gateway.Session.Model.{Time, InstanceBinding, is_container}
use ani_session_gateway.Runtime.{
  RuntimeError, invalid_target, target_not_found, target_not_ready, ambiguous_container,
  unavailable, ExecTarget,
}

pub record Condition : Type 0 where
  pub is_ready_type : Bool
  pub is_true : Bool

-- The parts of a pod that the resolver reads.
pub record Pod : Type 0 where
  pub namespace : Str
  pub name : Str
  pub uid : Str
  pub labels : Assoc Str
  pub deleting : Bool
  pub running : Bool
  pub conditions : List Condition
  pub created : Time
  pub containers : List Str

pub record ResolvedPod : Type 0 where
  pub namespace : Str
  pub name : Str
  pub container : Str

-- The cluster: which strings are DNS labels, and what a list of pods answers (none is an error).
pub record Cluster : Type 0 where
  pub is_dns_label : Str → Bool
  pub list_pods : Str → Assoc Str → Option (List Pod)

abbrev pub tenant_label : Str
tenant_label = str "ani.kubercloud.io/tenant-id"

abbrev pub instance_label : Str
instance_label = str "ani.kubercloud.io/instance"

abbrev pub resource_tenant_label : Str
resource_tenant_label = str "accelerator.ani.io/resource-tenant-id"

abbrev pub resource_label : Str
resource_label = str "accelerator.ani.io/resource-id"

abbrev pub owner_label : Str
owner_label = str "accelerator.ani.io/owner-service"

-- `pod.Labels[key]`, which is empty for a label that is not there.
abbrev pub or_empty : Option Str → Str
or_empty none = []
or_empty (some v) = v

abbrev pub label : Str → Pod → Str
label key pod = or_empty (lookup key pod.labels)

unfoldable pub pod_ready : List Condition → Bool
pod_ready [] = false
pod_ready (c ∷ cs) = (c.is_ready_type && c.is_true) || pod_ready cs

unfoldable pub namespace_for_tenant : (is_dns_label : Str → Bool) → Str → Result RuntimeError Str
namespace_for_tenant is_dns_label tenant_id =
    if is_empty tenant_id || not (is_dns_label (str "ani-tenant-" ++ tenant_id))
    then err invalid_target
    else ok (str "ani-tenant-" ++ tenant_id)

abbrev pub namespace_of : Cluster → ExecTarget → Result RuntimeError Str
namespace_of k target =
    if target.instance_binding.enabled
    then (if k.is_dns_label target.instance_binding.namespace
        then ok target.instance_binding.namespace
        else err invalid_target)
    else namespace_for_tenant k.is_dns_label target.tenant_id

abbrev pub selector : ExecTarget → Assoc Str
selector target =
    if target.instance_binding.enabled
    then (resource_tenant_label, target.tenant_id)
      ∷ (resource_label, target.instance_id)
      ∷ (owner_label, str "ani-resource-service")
      ∷ []
    else (tenant_label, target.tenant_id) ∷ (instance_label, target.workload_name) ∷ []

-- The pod is the one that the target names.
unfoldable pub is_target : ExecTarget → Str → Pod → Bool
is_target target namespace pod =
    if target.instance_binding.enabled
    then str_eq pod.namespace namespace
      && str_eq pod.name target.instance_binding.pod_name
      && str_eq pod.uid target.instance_binding.pod_uid
      && str_eq (label resource_tenant_label pod) target.tenant_id
      && str_eq (label resource_label pod) target.instance_id
      && str_eq (label owner_label pod) (str "ani-resource-service")
    else str_eq (label tenant_label pod) target.tenant_id
      && str_eq (label instance_label pod) target.workload_name

abbrev pub is_live : Pod → Bool
is_live pod = not pod.deleting && pod.running && pod_ready pod.conditions

-- The loop over the pods: those that are eligible, and whether any was a target.
unfoldable pub eligible : ExecTarget → Str → List Pod → List Pod
eligible target namespace [] = []
eligible target namespace (pod ∷ pods) =
    let rest = eligible target namespace pods in
    if is_target target namespace pod && is_live pod then pod ∷ rest else rest

unfoldable pub matched : ExecTarget → Str → List Pod → Bool
matched target namespace [] = false
matched target namespace (pod ∷ pods) =
    is_target target namespace pod || matched target namespace pods

-- `<` on strings.
unfoldable pub str_ltb : Str → Str → Bool
str_ltb xs [] = false
str_ltb [] (y ∷ ys) = true
str_ltb (x ∷ xs) (y ∷ ys) = let rest = str_ltb xs ys in if x == y then rest else ltb x y

-- The order of `sort.Slice`: the newest first, by name where they are as old.
unfoldable pub before : Pod → Pod → Bool
before a b = if a.created == b.created then str_ltb a.name b.name else ltb b.created a.created

-- The first pod of the sorted list: the sort leaves a pod there that none is before.
unfoldable pub first : Pod → List Pod → Pod
first best [] = best
first best (pod ∷ pods) = first (if before pod best then pod else best) pods

abbrev pub member : Str → List Str → Bool
member x [] = false
member x (y ∷ ys) = str_eq y x || member x ys

abbrev pub only : List Str → Result RuntimeError Str
only (name ∷ []) = ok name
only _ = err ambiguous_container

unfoldable pub container_of : Str → List Str → Result RuntimeError Str
container_of asked names =
    if is_empty asked
    then only names
    else if member asked names
    then ok asked
    else err invalid_target

abbrev pub named : Str → Pod → Result RuntimeError Str → Result RuntimeError ResolvedPod
named namespace pod (ok container) =
    ok (record { namespace = namespace; name = pod.name; container = container })
named namespace pod (err e) = err e

abbrev pub is_single : List Pod → Bool
is_single (pod ∷ []) = true
is_single _ = false

unfoldable pub choose : ExecTarget → Str → Bool → List Pod → Result RuntimeError ResolvedPod
choose target namespace any [] = err (if any then target_not_ready else target_not_found)
choose target namespace any (pod ∷ pods) =
    if target.instance_binding.enabled && not (is_single (pod ∷ pods))
    then err invalid_target
    else let selected = first pod pods in
      named namespace selected (container_of target.container selected.containers)

abbrev pub among : ExecTarget → Str → Option (List Pod) → Result RuntimeError ResolvedPod
among target namespace none = err unavailable
among target namespace (some pods) =
    choose target namespace (matched target namespace pods) (eligible target namespace pods)

abbrev pub in_namespace :
    Cluster → ExecTarget → Result RuntimeError Str → Result RuntimeError ResolvedPod
in_namespace k target (err e) = err e
in_namespace k target (ok namespace) =
    among target namespace (k.list_pods namespace (selector target))

unfoldable pub resolve : Cluster → ExecTarget → Result RuntimeError ResolvedPod
resolve k target =
    if not (is_container target.workload_kind)
    then err invalid_target
    else in_namespace k target (namespace_of k target)
