-- ===== src/Manager/Replays.antt =====
-- What `Replay` hands out.
use ani_session_gateway.Prelude.{
  ok-injective, guard-eq-ok, ◌≡◌, ◌<◌, refl, subst, true, false, not, ◌||◌, Option, none, some,
  Bytes, str_eq, str_eq_iff, is_empty, not_positive, int_eq, int_eq_sound, ltb, if-both, Result, ok,
  err, arith,
}
use ani_session_gateway.Session.Errors.{Error, failed_precondition}
use ani_session_gateway.Session.Model.{
  Time, Session, Issued, ReplayRequest, Mode, vnc, WorkloadKind, vm, State, issued, is_issued,
  is_vnc, is_vm,
}
use ani_session_gateway.Session.Contract.{SessionStore}
use ani_session_gateway.Memory.{Store, get_by_key}
use ani_session_gateway.Memory.Laws.{memory_store}
use ani_session_gateway.Manager.Config.{Primitives, ManagerConfig}
use ani_session_gateway.Manager.Calls.{World, decrypt, replay_stored, replay_found, replay}

is_vm_sound : (k : WorkloadKind) → is_vm k ≡ true → k ≡ vm
is_vm_sound k h = ground arith

is_vnc_sound : (m : Mode) → is_vnc m ≡ true → m ≡ vnc
is_vnc_sound m h = ground arith

is_issued_sound : (s : State) → is_issued s ≡ true → s ≡ issued
is_issued_sound s h = ground arith

module _ (S : SessionStore) (p : Primitives) (c : ManagerConfig) where
  -- A console session of the same principal, instance and version, whose ticket can still be claimed.
  pub record IsReplayed (r : ReplayRequest) (now later : Time) (i : Issued) : Type 0 where
    pub again : i.replayed ≡ true
    pub same_tenant : i.session.tenant_id ≡ r.tenant_id
    pub same_subject : i.session.subject_id ≡ r.subject_id
    pub same_instance : i.session.instance_id ≡ r.instance_id
    pub same_version : i.session.vm_binding.version ≡ r.expected_version
    pub bound : i.session.vm_binding.enabled ≡ true
    pub console : (i.session.workload_kind ≡ vm) × (i.session.mode ≡ vnc)
    pub claimable : i.session.state ≡ issued
    pub remembered : now < i.session.tombstone_expires_at
    pub in_time : later < i.session.ticket_expires_at
    pub opens : decrypt S p c i.session.ticket_ciphertext ≡ some i.ticket

  replay_stored-IsReplayed :
      (r : ReplayRequest) (now later : Time) (st : Session) {i : Issued}
      → replay_stored S p c r now later st ≡ ok i
      → IsReplayed r now later i × (i.session ≡ st)
  unfolding replay_stored
  replay_stored-IsReplayed r now later st {i} h =
      let (principal, h1) =
        guard-eq-ok
          (not (str_eq st.tenant_id r.tenant_id) || not (str_eq st.subject_id r.subject_id)) _ h in
      let (remembered, h2) = guard-eq-ok (not (ltb now st.tombstone_expires_at)) _ h1 in
      let (target, h3) =
        guard-eq-ok
          (not (str_eq st.instance_id r.instance_id)
            || not st.vm_binding.enabled
            || not (is_vm st.workload_kind)
            || not (is_vnc st.mode)
            || not (int_eq st.vm_binding.version r.expected_version))
          _ h2 in
      let (claimable, h4) =
        guard-eq-ok (not (is_issued st.state) || not (ltb later st.ticket_expires_at)) _ h3 in
      opened_ok (decrypt S p c st.ticket_ciphertext) refl h4 principal remembered target claimable
    where
      opened_ok :
          (o : Option Bytes)
          → decrypt S p c st.ticket_ciphertext ≡ o
          → elim o [
            | none ↦ err failed_precondition
            | some text ↦ ok (record { session = st; ticket = text; replayed = true })
          ]
            ≡ ok i
          → (not (str_eq st.tenant_id r.tenant_id) || not (str_eq st.subject_id r.subject_id))
            ≡ false
          → not (ltb now st.tombstone_expires_at) ≡ false
          → (not (str_eq st.instance_id r.instance_id)
              || not st.vm_binding.enabled
              || not (is_vm st.workload_kind)
              || not (is_vnc st.mode)
              || not (int_eq st.vm_binding.version r.expected_version))
            ≡ false
          → (not (is_issued st.state) || not (ltb later st.ticket_expires_at)) ≡ false
          → IsReplayed r now later i × (i.session ≡ st)
      opened_ok none e h principal remembered target claimable = cc
      opened_ok (some text) e h principal remembered target claimable =
          subst (λ (x : Issued). IsReplayed r now later x × (x.session ≡ st)) (ok-injective h)
            (
              record {
                again = refl;
                same_tenant = ground (arith, str_eq_iff st.tenant_id r.tenant_id);
                same_subject = ground (arith, str_eq_iff st.subject_id r.subject_id);
                same_instance = ground (arith, str_eq_iff st.instance_id r.instance_id);
                same_version = int_eq_sound st.vm_binding.version r.expected_version (ground arith);
                bound = ground arith;
                console = (
                  is_vm_sound st.workload_kind (ground arith),
                  is_vnc_sound st.mode (ground arith),
                );
                claimable = is_issued_sound st.state (ground arith);
                remembered = ground arith;
                in_time = ground arith;
                opens = e;
              },
              refl,
            )

  replay_found-IsReplayed :
      (r : ReplayRequest) (now later : Time) (found : Result Error Session) {i : Issued}
      → replay_found S p c r now later found ≡ ok i
      → IsReplayed r now later i
  replay_found-IsReplayed r now later (err e) h = cc
  replay_found-IsReplayed r now later (ok st) h = (replay_stored-IsReplayed r now later st h).0

  -- What `Replay` hands out, over any store, is a console session of the same principal, instance and
  -- version that is still issued, remembered, and in time, with the ticket that its ciphertext holds.
  pub replay-IsReplayed :
      (r : ReplayRequest) (now later : Time) (w : World S.Data) {i : Issued}
      → (replay S p c r now later w).0 ≡ ok i
      → IsReplayed r now later i
  unfolding replay
  replay-IsReplayed r now later w {i} h =
      if-both (λ (x : Result Error Issued × World S.Data). x.0 ≡ ok i → IsReplayed r now later i)
        (is_empty r.idempotency_key
          || is_empty r.tenant_id
          || is_empty r.subject_id
          || is_empty r.instance_id
          || not_positive r.expected_version)
        (λ _ k. cc) (λ _ k. replay_found-IsReplayed r now later _ k) h

-- Over the memory store a replay changes nothing, whatever it answers: it neither creates a session
-- nor closes one.
pub replay-memory :
    (p : Primitives) (c : ManagerConfig) (r : ReplayRequest) (now later : Time) (w : World Store)
    → (replay memory_store p c r now later w).1 ≡ w
unfolding replay get_by_key
replay-memory p c r now later w =
    if-both (λ (x : Result Error Issued × World Store). x.1 ≡ w)
      (is_empty r.idempotency_key
        || is_empty r.tenant_id
        || is_empty r.subject_id
        || is_empty r.instance_id
        || not_positive r.expected_version)
      (λ _. refl) (λ _. refl)
