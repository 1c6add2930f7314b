-- ===== src/Memory/Lifecycle.antt =====
-- How the calls of the memory store move a session through its life.
use ani_session_gateway.Prelude.{
  ◌≡◌, ◌≢◌, refl, ◌⊎◌, inl, inr, Bool-cases, Option, none, some, Bytes, Str, str, str_eq,
  str_eq_iff, ltb, arith,
}
use ani_session_gateway.Prelude.Assoc.{lookup, lookup-insert, lookup-remove}
use ani_session_gateway.Session.Model.{
  Time, ClaimLimits, State, unset, issued, claimed, closed, Session, SessionLease, is_issued,
}
use ani_session_gateway.Memory.{
  Store, close_session, expire_lease, drop_tombstone, cleanup, outlived, claim_session,
  expire_ticket, registered, create_or_get, claim_and_reserve, close_and_release,
}
use ani_session_gateway.Memory.Invariant.{IsCoherent}
use ani_session_gateway.Memory.Cleanup.{cleanup_induction, cleanup-IsCoherent}
use ani_session_gateway.Memory.Cases.{claim_in_cases, close_in_cases, create_in_cases}
use ani_session_gateway.Memory.Evolution.{
  SameIntent, Later, unchanged, claim, expire, finish, Evolves, Evolves-none, Evolves-refl,
  Evolution, rewrite-Evolution,
}

-- A session that may be closed is closed.
close-SameIntent :
    (st : Session) (at : Time) (reason : Str) → SameIntent st (close_session st at reason)
close-SameIntent st at reason = record {
  same_id = refl;
  same_key = refl;
  same_fingerprint = refl;
  same_digest = refl;
  same_tenant = refl;
  same_subject = refl;
  same_instance = refl;
  same_mode = refl;
  same_kind = refl;
  same_instance_binding = refl;
  same_vm_binding = refl;
  same_ticket_expiry = refl;
}

claim-SameIntent :
    (id : Str) (st : Session) (now : Time) (limits : ClaimLimits)
    → SameIntent st (claim_session id st now limits)
claim-SameIntent id st now limits = record {
  same_id = refl;
  same_key = refl;
  same_fingerprint = refl;
  same_digest = refl;
  same_tenant = refl;
  same_subject = refl;
  same_instance = refl;
  same_mode = refl;
  same_kind = refl;
  same_instance_binding = refl;
  same_vm_binding = refl;
  same_ticket_expiry = refl;
}

later_closed : (s : State) → s ≢ unset → Later s closed
later_closed unset h = absurd (h refl)
later_closed issued h = expire
later_closed claimed h = finish
later_closed closed h = unchanged

expire_lease-Evolution :
    (r : Store) (now : Time) (id : Str) (l : SessionLease) (s : Store) (o : Option Session)
    → lookup id s.sessions ≡ o
    → IsCoherent s
    → lookup id s.leases ≡ some l
    → Evolution r s
    → Evolution r (expire_lease now id l s)
unfolding expire_lease
expire_lease-Evolution r now id l s none e v held before = ground (arith, v.lease_ok id)
expire_lease-Evolution r now id l s (some st) e v held before =
    elim (Bool-cases (ltb now l.expires_at)) [
      | inl live ↦ rw live before
      | inr late ↦
          rw (late, e)
            (rewrite-Evolution r s id st (close_session st l.expires_at (str "max_duration"))
              s.by_key s.leases e (close-SameIntent st l.expires_at (str "max_duration"))
              (later_closed st.state (ground (arith, v.lease_ok id))) (λ h. cc) before)
    ]

drop_tombstone-Evolution :
    (r : Store) (now : Time) (key id : Str) (s : Store)
    → Evolution r s
    → Evolution r (drop_tombstone now key id s)
unfolding drop_tombstone
drop_tombstone-Evolution r now key id s before j =
    elim (Bool-cases (outlived now (lookup id s.sessions))) [
      | inl gone ↦
          rw (gone, lookup-remove id j s.sessions)
            (elim (Bool-cases (str_eq id j)) [
              | inl here ↦ rw here (Evolves-none (lookup j r.sessions))
              | inr other ↦ rw other (before j)
            ])
      | inr kept ↦ rw kept (before j)
    ]

pub cleanup-Evolution : (now : Time) (s : Store) → IsCoherent s → Evolution s (cleanup now s)
cleanup-Evolution now s v =
    cleanup_induction (Evolution s) now
      (λ id l t w held before. expire_lease-Evolution s now id l t _ refl w held before)
      (λ key id t w held before. drop_tombstone-Evolution s now key id t before) s v
      (λ id. Evolves-refl (lookup id s.sessions))

expire_ticket-Evolution :
    (r : Store) (id : Str) (st : Session) (now : Time) (s : Store)
    → lookup id s.sessions ≡ some st
    → Evolution r s
    → Evolution r (expire_ticket id st now s)
expire_ticket-Evolution r id st now s e before = elim (Bool-cases (is_issued st.state)) [
  | inl open_still ↦ rw open_still (
      rewrite-Evolution r s id st (close_session st now (str "ticket_expired")) s.by_key s.leases e
        (close-SameIntent st now (str "ticket_expired")) (later_closed st.state (λ h. cc)) (λ h. cc)
        before)
  | inr other ↦ rw other before
]

-- A claim moves its session from issued to claimed or closed, and no other session but by cleanup.
pub claim_and_reserve-Evolution :
    (id : Str) (digest : Bytes) (now : Time) (limits : ClaimLimits) (s : Store)
    → IsCoherent s
    → Evolution s (claim_and_reserve id digest now limits s).1
unfolding claim_and_reserve
claim_and_reserve-Evolution id digest now limits s v =
    let t = cleanup now s in
    let before = cleanup-Evolution now s v in
    claim_in_cases (Evolution s) id digest now limits t _ before
      (λ st e. expire_ticket-Evolution s id st now t e before)
      (λ st e c.
        rewrite-Evolution s t id st (claim_session id st now limits) t.by_key t.leases e
          (claim-SameIntent id st now limits) (rw c.open_still claim) (λ h. cc) before)

-- A close moves its session from claimed to closed, and no other session but by cleanup.
pub close_and_release-Evolution :
    (id lease_id reason : Str) (now : Time) (s : Store)
    → IsCoherent s
    → Evolution s (close_and_release id lease_id reason now s).1
unfolding close_and_release
close_and_release-Evolution id lease_id reason now s v =
    let t = cleanup now s in
    let before = cleanup-Evolution now s v in
    close_in_cases (Evolution s) id lease_id reason now t _ before (λ st e held _.
      rewrite-Evolution s t id st (close_session st now reason) t.by_key t.leases e
        (close-SameIntent st now reason) (rw held finish) (λ h. cc) before)

-- A creation stores its candidate under a new identifier, or leaves the sessions to move on.
abbrev pub EvolvesOrBorn : Session → Store → Store → Type 0
EvolvesOrBorn candidate s t =
    (id : Str)
    → Evolves (lookup id s.sessions) (lookup id t.sessions)
      ⊎ ((id ≡ candidate.id) × (lookup id t.sessions ≡ some candidate))

registered-EvolvesOrBorn :
    (r s : Store) (key : Str) (candidate : Session)
    → Evolution r s
    → EvolvesOrBorn candidate r (registered key candidate s)
registered-EvolvesOrBorn r s key candidate before id = elim (Bool-cases (str_eq candidate.id id)) [
  | inl here ↦ inr (ground (arith, str_eq_iff candidate.id id), rw lookup-insert (rw here))
  | inr other ↦ inl (rw lookup-insert (rw other (before id)))
]

pub create_or_get-EvolvesOrBorn :
    (key : Str) (candidate : Session) (s : Store)
    → IsCoherent s
    → EvolvesOrBorn candidate s (create_or_get key candidate s).1
unfolding create_or_get
create_or_get-EvolvesOrBorn key candidate s v =
    let t = cleanup candidate.created_at s in
    let before = cleanup-Evolution candidate.created_at s v in
    create_in_cases (EvolvesOrBorn candidate s) key candidate t _
      ((cleanup-IsCoherent candidate.created_at s v).key_ok key) (λ id. inl (before id))
      (λ id st _ e j. inl (expire_ticket-Evolution s id st candidate.created_at t e before j))
      (λ _. registered-EvolvesOrBorn s t key candidate before)

Evolves-from_none : (o p : Option Session) → o ≡ none → Evolves o p → p ≡ none
Evolves-from_none none none e h = refl
Evolves-from_none none (some b) e h = absurd h
Evolves-from_none (some a) p e h = cc

-- `cleanup` makes up no session.
pub still_none :
    (now : Time) (id : Str) (s : Store)
    → IsCoherent s
    → lookup id s.sessions ≡ none
    → lookup id (cleanup now s).sessions ≡ none
still_none now id s v e = Evolves-from_none _ _ e (cleanup-Evolution now s v id)
