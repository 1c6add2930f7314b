-- ===== src/Kubevirt/Guarded.antt =====
-- A managed console is handed out only after its machine was observed twice.
use ani_session_gateway.Prelude.{
  ◌≡◌, refl, sym, ap, ◌∙◌, subst, true, false, not, ◌||◌, if◌then◌else◌, if-both, Option, none,
  some, Str, is_empty, Result, ok, err, ok-injective, guard-eq-ok, arith,
}
use ani_session_gateway.Session.Errors.{Error}
use ani_session_gateway.Session.Model.{VmBinding}
use ani_session_gateway.Runtime.{RuntimeError, VmTarget, invalid_target}
use ani_session_gateway.Pods.{namespace_for_tenant}
use ani_session_gateway.Kubevirt.{
  VmiState, ReadError, missing, Observation, Connection, timed_out, refused, without_conn, too_late,
  connected, Adapter, stream, matches_vmi, validated, observed, identified, with_identity,
  validate_managed, bad_binding, checked, with_name, located, state_error, handed_on, after_connect,
  with_state, with_read, opened_at, open_console,
}

-- What one observation has established of a binding.
pub record Observed (env : Observation) (b : VmBinding) : Type 0 where
  pub check : VmBinding → Option RuntimeError
  pub has_check : env.identity ≡ some check
  pub same_identity : check b ≡ none
  pub state : VmiState
  pub read : env.get b.namespace b.vmi_name ≡ ok state
  pub same_machine : matches_vmi state b ≡ true
  pub still_valid : env.validate b ≡ none

validated-none : (o : Option Error) → validated o ≡ none → o ≡ none
validated-none none h = refl
validated-none (some Error.invalid_request) h = cc
validated-none (some Error.conflict) h = cc
validated-none (some Error.failed_precondition) h = cc
validated-none (some Error.invalid_ticket) h = cc
validated-none (some Error.capacity) h = cc
validated-none (some Error.not_found) h = cc
validated-none (some Error.unavailable) h = cc
validated-none (some Error.other) h = cc

observed-Observed :
    (env : Observation) (b : VmBinding) (check : VmBinding → Option RuntimeError)
    (r : Result ReadError VmiState)
    → env.identity ≡ some check
    → check b ≡ none
    → env.get b.namespace b.vmi_name ≡ r
    → observed env b r ≡ none
    → Observed env b
observed-Observed env b check (err e) has same read h = cc
observed-Observed env b check (ok state) has same read h =
    if-both (λ o. o ≡ none → Observed env b) (matches_vmi state b)
      (λ machine k. record {
        check = check;
        has_check = has;
        same_identity = same;
        state = state;
        read = read;
        same_machine = machine;
        still_valid = validated-none (env.validate b) k;
      })
      (λ _ k. cc) h

identified-Observed :
    (env : Observation) (b : VmBinding) (check : VmBinding → Option RuntimeError)
    (o : Option RuntimeError)
    → env.identity ≡ some check
    → check b ≡ o
    → identified env b o ≡ none
    → Observed env b
identified-Observed env b check (some e) has same h = cc
identified-Observed env b check none has same h = observed-Observed env b check _ has same refl h

with_identity-Observed :
    (env : Observation) (b : VmBinding) (o : Option (VmBinding → Option RuntimeError))
    → env.identity ≡ o
    → with_identity env b o ≡ none
    → Observed env b
with_identity-Observed env b none has h = cc
with_identity-Observed env b (some check) has h =
    identified-Observed env b check (check b) has refl h

validate_managed-Observed :
    (env : Observation) (b : VmBinding) → validate_managed env b ≡ none → Observed env b
unfolding validate_managed
validate_managed-Observed env b h = with_identity-Observed env b env.identity refl h

module _ (a : Adapter) (preflight reading upgraded : Observation) (connection : Connection) where
  -- Where a managed console comes from, and what was observed of it.
  pub record IsGuarded (target : VmTarget) (namespace name : Str) : Type 0 where
    pub right_place : (namespace ≡ target.binding.namespace) × (name ≡ target.binding.vmi_name)
    pub well_formed : bad_binding a preflight reading upgraded connection target ≡ false
    pub before : Observed preflight target.binding
    pub state : VmiState
    pub read : reading.get target.binding.namespace target.binding.vmi_name ≡ ok state
    pub same_machine : matches_vmi state target.binding ≡ true
    pub after : Observed upgraded target.binding

  stream_injective : {n m x y : Str} → stream n m ≡ stream x y → (n ≡ x) × (m ≡ y)
  stream_injective h = ground arith

  connected-Guarded :
      (target : VmTarget) (namespace name x y : Str) (c : Connection)
      → target.binding.enabled ≡ true
      → after_connect a preflight reading upgraded connection target namespace name c ≡ stream x y
      → Observed upgraded target.binding × (namespace ≡ x) × (name ≡ y)
  connected-Guarded target namespace name x y timed_out on h = cc
  connected-Guarded target namespace name x y refused on h = cc
  connected-Guarded target namespace name x y without_conn on h = cc
  connected-Guarded target namespace name x y too_late on h = cc
  connected-Guarded target namespace name x y connected on h = handed _ refl (
      subst
        (λ b.
          (if b
            then handed_on a preflight reading upgraded connection namespace name
                (validate_managed upgraded target.binding)
            else stream namespace name)
          ≡ stream x y)
        on h)
    where
      handed :
          (o : Option RuntimeError)
          → validate_managed upgraded target.binding ≡ o
          → handed_on a preflight reading upgraded connection namespace name o ≡ stream x y
          → Observed upgraded target.binding × (namespace ≡ x) × (name ≡ y)
      handed none e k =
          let (n, m) = stream_injective k in
          (validate_managed-Observed upgraded target.binding e, n, m)
      handed (some e) _ k = cc

  state_ok :
      (target : VmTarget) (namespace : Str) (state : VmiState)
      → target.binding.enabled ≡ true
      → state_error a preflight reading upgraded connection target namespace state ≡ none
      → matches_vmi state target.binding ≡ true
  state_ok target namespace state on h = ground arith

  read-Guarded :
      (target : VmTarget) (namespace name x y : Str) (r : Result ReadError VmiState)
      → target.binding.enabled ≡ true
      → with_read a preflight reading upgraded connection target namespace name r ≡ stream x y
      → (state : VmiState) × (r ≡ ok state)
        × (matches_vmi state target.binding ≡ true)
        × Observed upgraded target.binding
        × ((namespace ≡ x) × (name ≡ y))
  read-Guarded target namespace name x y (err missing) on h = cc
  read-Guarded target namespace name x y (err ReadError.failed) on h = cc
  read-Guarded target namespace name x y (ok state) on h = tested _ refl h
    where
      tested :
          (o : Option RuntimeError)
          → state_error a preflight reading upgraded connection target namespace state ≡ o
          → with_state a preflight reading upgraded connection target namespace name o ≡ stream x y
          → (s : VmiState) × (◌≡◌ {A = Result ReadError VmiState} (ok state) (ok s))
            × (matches_vmi s target.binding ≡ true)
            × Observed upgraded target.binding
            × ((namespace ≡ x) × (name ≡ y))
      tested (some e) _ k = cc
      tested none e k =
          let (again, n, m) = connected-Guarded target namespace name x y connection on k in
          (state, refl, state_ok target namespace state on e, again, (n, m))

  checked_ok :
      (target : VmTarget) (o : Option RuntimeError) {place : Str × Str}
      → checked a preflight reading upgraded connection target o ≡ ok place
      → (o ≡ none) × (◌≡◌ {A = Str × Str} (target.binding.namespace, target.binding.vmi_name) place)
  checked_ok target none h = (refl, ok-injective h)
  checked_ok target (some e) h = cc

  located-Guarded :
      (target : VmTarget) {place : Str × Str}
      → target.binding.enabled ≡ true
      → located a preflight reading upgraded connection target ≡ ok place
      → (bad_binding a preflight reading upgraded connection target ≡ false)
        × Observed preflight target.binding
        × (◌≡◌ {A = Str × Str} (target.binding.namespace, target.binding.vmi_name) place)
  located-Guarded target {place} on h =
      let managed =
        subst
          (λ b.
            (if b
              then (if bad_binding a preflight reading upgraded connection target
                  then err invalid_target
                  else checked a preflight reading upgraded connection target
                      (validate_managed preflight target.binding))
              else with_name a preflight reading upgraded connection target
                  (namespace_for_tenant a.is_dns_label target.tenant_id))
            ≡ ok place)
          on h in
      let (good, k) =
        guard-eq-ok (bad_binding a preflight reading upgraded connection target) invalid_target
          managed in
      let (valid, place_is) = checked_ok target _ k in
      (good, validate_managed-Observed preflight target.binding valid, place_is)

  opened_at-Guarded :
      (target : VmTarget) (o : Result RuntimeError (Str × Str)) {x y : Str}
      → target.binding.enabled ≡ true
      → located a preflight reading upgraded connection target ≡ o
      → opened_at a preflight reading upgraded connection target o ≡ stream x y
      → IsGuarded target x y
  opened_at-Guarded target (err e) on at h = cc
  opened_at-Guarded target (ok (namespace, name)) {x} {y} on at h =
      if-both (λ o. o ≡ stream x y → IsGuarded target x y)
        (is_empty name || not (a.is_dns_subdomain name) || not (a.is_dns_label namespace))
        (λ _ k. cc)
        (λ _ k.
          let (good, before, place) = located-Guarded target on at in
          let (state, read, machine, again, (n, m)) =
            read-Guarded target namespace name x y _ on k in
          let space = ap (λ (q : Str × Str). q.0) place in
          let called = ap (λ (q : Str × Str). q.1) place in
          record {
            right_place = (sym (space ∙ n), sym (called ∙ m));
            well_formed = good;
            before = before;
            state = state;
            read = ap (λ (q : Str × Str). reading.get q.0 q.1) place ∙ read;
            same_machine = machine;
            after = again;
          })
        h

  -- A console of a managed machine is handed out only if its binding fits the target and this
  -- cluster, the machine that was read is the one of the binding and runs, and both before that and
  -- after the connection stood it was so too, with its identity and the validator's consent.
  pub open_console-IsGuarded :
      (target : VmTarget) (namespace name : Str)
      → target.binding.enabled ≡ true
      → open_console a preflight reading upgraded connection target ≡ stream namespace name
      → IsGuarded target namespace name
  unfolding open_console
  open_console-IsGuarded target namespace name on h =
      opened_at-Guarded target (located a preflight reading upgraded connection target) on refl h
