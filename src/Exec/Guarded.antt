-- ===== src/Exec/Guarded.antt =====
-- What is known of a session that is opened.
use ani_session_gateway.Prelude.{
  ◌≡◌, refl, Bool, true, false, not, ◌||◌, ◌==◌, if-both, ◌⊎◌, inl, inr, Bool-cases, subst,
  if◌then◌else◌, Option, none, some, List, ◌∷◌, Str, str, str_eq, str_eq_iff, is_empty, Result, ok,
  err, ok-injective, sym, arith,
}
use ani_session_gateway.Session.Errors.{Error}
use ani_session_gateway.Runtime.{RuntimeError, invalid_target, ExecTarget}
use ani_session_gateway.Pods.{Pod, ResolvedPod, resolve, selector, namespace_of}
use ani_session_gateway.Pods.Choice.{IsResolved, resolve-IsResolved}
use ani_session_gateway.Resource.{Validator, validate}
use ani_session_gateway.Resource.Vouched.{IsVouched, validate-IsVouched}
use ani_session_gateway.Exec.{
  consent, asked, ExecAdapter, ExecCall, uid_guard, or_shell, command_of, call_of, binding_error,
  executed, resolved, open_exec,
}

-- Under a binding: the cluster is the one of the binding, the Resource service vouches for exactly
-- this target, and the command stands behind the guard of the pod's UID.
pub record IsGuarded (a : ExecAdapter) (v : Validator) (target : ExecTarget) (call : ExecCall)
    : Type 0 where
  pub same_cluster : a.instance_cluster_id ≡ target.instance_binding.cluster_id
  pub vouched : IsVouched v target.tenant_id target.instance_id target.instance_binding
  pub command :
      call.command
      ≡ target.instance_binding.shell
        ∷ str "-c"
        ∷ uid_guard
        ∷ str "instance-uid-guard"
        ∷ target.instance_binding.pod_uid
        ∷ or_shell target.command

consent-none : (e : Option Error) → consent e ≡ none → e ≡ none
consent-none none h = refl
consent-none (some e) h = cc

second_false : (b : Bool) (x y : Str) → (b || not (str_eq x y)) ≡ false → x ≡ y
second_false true x y h = cc
second_false false x y h = ground (arith, str_eq_iff x y)

module _ (a : ExecAdapter) (v : Validator) (target : ExecTarget)
    (by_service : a.instance_validator ≡ some (validate v)) where
  consented :
      (b : Bool)
      → (if b then some invalid_target else asked a.instance_validator target) ≡ none
      → (b ≡ false)
        × (validate v target.tenant_id target.instance_id target.instance_binding ≡ none)
  consented true h = cc
  consented false h = (refl, consent-none _ (subst (λ o. asked o target ≡ none) by_service h))

  no_error-IsGuarded :
      target.instance_binding.enabled ≡ true
      → binding_error a target ≡ none
      → (pod : ResolvedPod) → IsGuarded a v target (call_of target pod)
  unfolding binding_error command_of
  no_error-IsGuarded bound h pod =
      let h : (if is_empty a.instance_cluster_id
              || not (str_eq a.instance_cluster_id target.instance_binding.cluster_id)
            then some invalid_target
            else asked a.instance_validator target)
          ≡ none =
        subst
          (λ b.
            (if not b
              then none
              else if is_empty a.instance_cluster_id
                  || not (str_eq a.instance_cluster_id target.instance_binding.cluster_id)
              then some invalid_target
              else asked a.instance_validator target)
            ≡ none)
          bound h in
      let (same, consents) = consented _ h in
      record {
        same_cluster = second_false _ _ _ same;
        vouched = validate-IsVouched v _ _ _ consents;
        command = rw bound refl;
      }

  -- What an opened session goes to.
  pub record IsOpened (made : Bool) (call : ExecCall) : Type 0 where
    pub pod : ResolvedPod
    pub resolved_to : resolve a.cluster target ≡ ok pod
    pub call_made : call ≡ call_of target pod
    pub executor : made ≡ true
    pub namespace : Str
    pub pods : List Pod
    pub in_namespace : namespace_of a.cluster target ≡ ok namespace
    pub listed : a.cluster.list_pods namespace (selector target) ≡ some pods
    pub is_resolved : IsResolved target namespace pods pod
    pub guarded : (target.instance_binding.enabled ≡ false) ⊎ IsGuarded a v target call

  executed-IsOpened :
      (made : Bool) (r : Result RuntimeError ResolvedPod) {call : ExecCall}
      → resolve a.cluster target ≡ r
      → binding_error a target ≡ none
      → executed made target r ≡ ok call
      → IsOpened made call
  executed-IsOpened made (err e) q none_wrong h = cc
  executed-IsOpened false (ok pod) q none_wrong h = cc
  executed-IsOpened true (ok pod) {call} q none_wrong h =
      let (namespace, pods, in_namespace, listed, good) = resolve-IsResolved a.cluster target q in
      let e : call_of target pod ≡ call = ok-injective h in
      record {
        pod = pod;
        resolved_to = q;
        call_made = sym e;
        executor = refl;
        namespace = namespace;
        pods = pods;
        in_namespace = in_namespace;
        listed = listed;
        is_resolved = good;
        guarded = elim (Bool-cases target.instance_binding.enabled) [
          | inr free ↦ inl free
          | inl bound ↦
              inr (subst (IsGuarded a v target) e (no_error-IsGuarded bound none_wrong pod))
        ];
      }

  resolved-IsOpened :
      (made : Bool) (o : Option RuntimeError) {call : ExecCall}
      → binding_error a target ≡ o
      → resolved a made target o ≡ ok call
      → IsOpened made call
  resolved-IsOpened made (some e) q h = cc
  resolved-IsOpened made none q h = executed-IsOpened made (resolve a.cluster target) refl q h

  -- Where the adapter asks the Resource service: a session that is opened runs the command of the
  -- target in the pod and container that the target resolves to, which the cluster listed; and under
  -- a binding the adapter's cluster is the one of the binding, the service has answered that exactly
  -- this target is valid, and the command stands behind the guard of the pod's UID.
  pub open_exec-IsOpened :
      (made : Bool) {call : ExecCall} → open_exec a made target ≡ ok call → IsOpened made call
  unfolding open_exec
  open_exec-IsOpened made {call} =
      if-both (λ x. x ≡ ok call → IsOpened made call) (a.request_timeout == 0) (λ e h. cc)
        (λ e. resolved-IsOpened made (binding_error a target) refl)
