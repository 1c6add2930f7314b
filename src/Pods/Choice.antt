-- ===== src/Pods/Choice.antt =====
-- The pod that the resolver chooses.
use ani_session_gateway.Prelude.{
  ◌≡◌, ◌≤◌, refl, sym, ap, ◌∙◌, subst, ◌⊎◌, inl, inr, Bool, true, false, not, ◌&&◌, Bool-cases,
  if-both, Option, none, some, List, [], ◌∷◌, Str, str_eq, str_eq_iff, is_empty, Occurs, here,
  there, Result, ok, err, ok-injective, guard-eq-ok, arith,
}
use ani_session_gateway.Session.Model.{is_container}
use ani_session_gateway.Runtime.{RuntimeError, invalid_target, ExecTarget}
use ani_session_gateway.Pods.{
  Pod, Cluster, ResolvedPod, namespace_of, selector, is_target, is_live, eligible, matched, before,
  first, member, only, container_of, named, is_single, choose, among, in_namespace, resolve,
}

abbrev IsEligible : ExecTarget → Str → List Pod → Pod → Type 0
IsEligible target namespace pods pod =
    Occurs pod pods × (is_target target namespace pod ≡ true) × (is_live pod ≡ true)

both : (a b : Bool) → (a && b) ≡ true → (a ≡ true) × (b ≡ true)
both a b h = ground arith

kept_first :
    (target : ExecTarget) (namespace : Str) (x : Pod) (pods rest : List Pod) (pod : Pod)
    → (is_target target namespace x ≡ true) × (is_live x ≡ true)
    → (Occurs pod rest → IsEligible target namespace pods pod)
    → Occurs pod (x ∷ rest)
    → IsEligible target namespace (x ∷ pods) pod
kept_first target namespace x pods rest _ h f here = (here, h.0, h.1)
kept_first target namespace x pods rest pod h f (there o) =
    let (listed, named, live) = f o in (there listed, named, live)

eligible_sound :
    (target : ExecTarget) (namespace : Str) (pods : List Pod) (pod : Pod)
    → Occurs pod (eligible target namespace pods)
    → IsEligible target namespace pods pod
unfolding eligible
eligible_sound target namespace [] pod o = elim o [ ]
eligible_sound target namespace (x ∷ pods) pod o =
    if-both (λ l. Occurs pod l → IsEligible target namespace (x ∷ pods) pod)
      (is_target target namespace x && is_live x)
      (λ keep k.
        kept_first target namespace x pods (eligible target namespace pods) pod
          (both (is_target target namespace x) (is_live x) keep)
          (λ p. eligible_sound target namespace pods pod p) k)
      (λ _ k.
        let (listed, named, live) = eligible_sound target namespace pods pod k in
        (there listed, named, live))
      o

-- No pod is newer than the first.
abbrev IsNewest : Pod → Pod → List Pod → Type 0
IsNewest best chosen pods =
    (best.created ≤ chosen.created)
    × ((pod : Pod) → Occurs pod pods → pod.created ≤ chosen.created)
    × Occurs chosen (best ∷ pods)

located :
    (next best x chosen : Pod) (pods : List Pod)
    → (next ≡ best) ⊎ (next ≡ x)
    → Occurs chosen (next ∷ pods)
    → Occurs chosen (best ∷ x ∷ pods)
located next best x chosen pods w (there o) = there (there o)
located next best x _ pods (inl e) here = subst (λ n. Occurs n (best ∷ x ∷ pods)) (sym e) here
located next best x _ pods (inr e) here =
    subst (λ n. Occurs n (best ∷ x ∷ pods)) (sym e) (there here)

newest_all :
    (x chosen : Pod) (rest : List Pod)
    → IsNewest x chosen rest
    → (other : Pod) → Occurs other (x ∷ rest)
    → other.created ≤ chosen.created
newest_all x chosen rest h _ here = h.0
newest_all x chosen rest (top, newest, found) other (there o) = newest other o

IsNewest-step :
    (best x next chosen : Pod) (pods : List Pod)
    → best.created ≤ next.created
    → x.created ≤ next.created
    → (next ≡ best) ⊎ (next ≡ x)
    → IsNewest next chosen pods
    → IsNewest best chosen (x ∷ pods)
IsNewest-step best x next chosen pods b a which (top, all, found) =
    (omega arith, λ pod o. newer pod o, located next best x chosen pods which found)
  where
    newer : (pod : Pod) → Occurs pod (x ∷ pods) → pod.created ≤ chosen.created
    newer _ here = omega arith
    newer pod (there o) = all pod o

before_le : (a b : Pod) → before a b ≡ true → b.created ≤ a.created
unfolding before
before_le a b h = ground arith

not_before_le : (a b : Pod) → before a b ≡ false → a.created ≤ b.created
unfolding before
not_before_le a b h = ground arith

first-IsNewest : (best : Pod) (pods : List Pod) → IsNewest best (first best pods) pods
unfolding first
first-IsNewest best [] = (omega arith, λ pod o. elim o [ ], here)
first-IsNewest best (x ∷ pods) =
    if-both (λ n. IsNewest best (first n pods) (x ∷ pods)) (before x best)
      (λ newer.
        IsNewest-step best x x (first x pods) pods (before_le x best newer) (omega arith) (inr refl)
          (first-IsNewest x pods))
      (λ older.
        IsNewest-step best x best (first best pods) pods (omega arith) (not_before_le x best older)
          (inl refl) (first-IsNewest best pods))

member_occurs : (x : Str) (ys : List Str) → member x ys ≡ true → Occurs x ys
member_occurs x [] h = cc
member_occurs x (y ∷ ys) h = elim (Bool-cases (str_eq y x)) [
  | inl same ↦ subst (λ z. Occurs z (y ∷ ys)) ((str_eq_iff y x).0 same) here
  | inr other ↦ there (member_occurs x ys (ground arith))
]

only_occurs :
    (names : List Str) {container : Str} → only names ≡ ok container → names ≡ container ∷ []
only_occurs [] h = cc
only_occurs (name ∷ []) h = ap (λ x. x ∷ []) (ok-injective h)
only_occurs (name ∷ next ∷ rest) h = cc

-- The container is one of the pod's: the one that was asked for, or the only one.
abbrev pub IsContainer : Str → List Str → Str → Type 0
IsContainer asked names container =
    ((container ≡ asked) × Occurs container names) ⊎ ((asked ≡ []) × (names ≡ container ∷ []))

empty_asked : (asked : Str) → is_empty asked ≡ true → asked ≡ []
empty_asked [] h = refl
empty_asked (a ∷ rest) h = cc

container_of-IsContainer :
    (asked : Str) (names : List Str) {container : Str}
    → container_of asked names ≡ ok container
    → IsContainer asked names container
unfolding container_of
container_of-IsContainer asked names {container} h =
    if-both (λ r. r ≡ ok container → IsContainer asked names container) (is_empty asked)
      (λ none_asked k. inr (empty_asked asked none_asked, only_occurs names k))
      (λ _ k.
        if-both (λ r. r ≡ ok container → IsContainer asked names container) (member asked names)
          (λ has e. inl (
            sym (ok-injective e),
            subst (λ c. Occurs c names) (ok-injective e) (member_occurs asked names has),
          ))
          (λ _ e. cc) k)
      h

-- Where an exec session goes.
pub record IsResolved (target : ExecTarget) (namespace : Str) (pods : List Pod) (r : ResolvedPod)
    : Type 0 where
  pub pod : Pod
  pub listed : Occurs pod pods
  pub in_namespace : r.namespace ≡ namespace
  pub same_name : r.name ≡ pod.name
  pub is_the_target : is_target target namespace pod ≡ true
  pub lives : is_live pod ≡ true
  pub newest :
      (other : Pod) → Occurs other (eligible target namespace pods) → other.created ≤ pod.created
  pub alone : target.instance_binding.enabled ≡ true → eligible target namespace pods ≡ pod ∷ []
  pub has_container : IsContainer target.container pod.containers r.container

named_ok :
    (namespace : Str) (pod : Pod) (c : Result RuntimeError Str) {r : ResolvedPod}
    → named namespace pod c ≡ ok r
    → (c ≡ ok r.container) × (r.namespace ≡ namespace) × (r.name ≡ pod.name)
named_ok namespace pod (ok container) h = ground arith
named_ok namespace pod (err e) h = cc

single_first :
    (m : Bool) (pod : Pod) (pods : List Pod)
    → (m && not (is_single (pod ∷ pods))) ≡ false
    → m ≡ true
    → (pod ∷ pods) ≡ first pod pods ∷ []
unfolding first
single_first m pod [] h e = refl
single_first m pod (x ∷ pods) h e = ground arith

choose-IsResolved :
    (target : ExecTarget) (namespace : Str) (pods : List Pod) (any : Bool) (l : List Pod)
    {r : ResolvedPod}
    → eligible target namespace pods ≡ l
    → choose target namespace any l ≡ ok r
    → IsResolved target namespace pods r
unfolding choose
choose-IsResolved target namespace pods any [] e h = cc
choose-IsResolved target namespace pods any (x ∷ rest) e h =
    let (single, k) =
      guard-eq-ok (target.instance_binding.enabled && not (is_single (x ∷ rest))) _ h in
    let (c, space, same) = named_ok namespace (first x rest) _ k in
    let (top, newest, found) = first-IsNewest x rest in
    let (listed, is_the_target, lives) =
      eligible_sound target namespace pods (first x rest)
        (subst (λ l. Occurs (first x rest) l) (sym e) found) in
    record {
      pod = first x rest;
      listed = listed;
      in_namespace = space;
      same_name = same;
      is_the_target = is_the_target;
      lives = lives;
      newest = λ other o.
          newest_all x (first x rest) rest (first-IsNewest x rest) other
            (subst (λ l. Occurs other l) e o);
      alone = λ m. e ∙ single_first target.instance_binding.enabled x rest single m;
      has_container = container_of-IsContainer target.container (first x rest).containers c;
    }

among-IsResolved :
    (target : ExecTarget) (namespace : Str) (o : Option (List Pod)) {r : ResolvedPod}
    → among target namespace o ≡ ok r
    → (pods : List Pod) × (o ≡ some pods) × IsResolved target namespace pods r
among-IsResolved target namespace none h = cc
among-IsResolved target namespace (some pods) h =
    (pods, refl, choose-IsResolved target namespace pods (matched target namespace pods) _ refl h)

IsResolved-in :
    (k : Cluster) (target : ExecTarget) (o : Result RuntimeError Str) {r : ResolvedPod}
    → in_namespace k target o ≡ ok r
    → (namespace : Str) × (pods : List Pod) × (o ≡ ok namespace)
      × (k.list_pods namespace (selector target) ≡ some pods)
      × IsResolved target namespace pods r
IsResolved-in k target (err e) h = cc
IsResolved-in k target (ok namespace) h =
    let (pods, listed, good) = among-IsResolved target namespace _ h in
    (namespace, pods, refl, listed, good)

-- An exec session goes to a pod that the cluster listed in the target's namespace, that is the one
-- the target names, runs and is ready, and to a container of it; no eligible pod is newer, and under
-- an instance binding no other pod is eligible.
pub resolve-IsResolved :
    (k : Cluster) (target : ExecTarget) {r : ResolvedPod}
    → resolve k target ≡ ok r
    → (namespace : Str) × (pods : List Pod) × (namespace_of k target ≡ ok namespace)
      × (k.list_pods namespace (selector target) ≡ some pods)
      × IsResolved target namespace pods r
unfolding resolve
resolve-IsResolved k target h =
    let (_, in_target) = guard-eq-ok (not (is_container target.workload_kind)) invalid_target h in
    IsResolved-in k target (namespace_of k target) in_target
