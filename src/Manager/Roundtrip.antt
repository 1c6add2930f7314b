-- ===== src/Manager/Roundtrip.antt =====
-- `Issue` and then `Claim`, over the memory store.
use ani_session_gateway.Prelude.{
  ◌+◌, ◌≡◌, ◌<◌, ◌≤◌, refl, sym, ap, subst, false, none, some, Str, ok, arith,
}
use ani_session_gateway.Prelude.Assoc.{lookup}
use ani_session_gateway.Session.Model.{Time, Request, Session, Issued, ClaimedAccess, issued}
use ani_session_gateway.Memory.{Store, create_or_get, claim_session, lease_of}
use ani_session_gateway.Memory.Invariant.{IsCoherent}
use ani_session_gateway.Memory.Coherence.{IsCandidate, create_or_get-IsCoherent}
use ani_session_gateway.Memory.Kept.{HasRoom, create_or_get-stored, claim_and_reserve_ok}
use ani_session_gateway.Memory.Laws.{memory_store, memory_laws}
use ani_session_gateway.Manager.Config.{
  Primitives, PrimitiveLaws, ManagerConfig, access_of, limits_of,
}
use ani_session_gateway.Manager.Calls.{World, issue, claim}
use ani_session_gateway.Manager.Issue.{IsDrawn, issue-IsIssue}
use ani_session_gateway.Manager.Made.{Made, issue-Made}

module _ (p : Primitives) (laws : PrimitiveLaws p) (c : ManagerConfig) where
  drawn-IsCandidate :
      (r : Request) (now : Time) (t : Str) (x : Session)
      → IsDrawn memory_store p laws c r now t x
      → IsCandidate r.idempotency_key x
  drawn-IsCandidate r now t x d = record {
    keyed = ap (λ (y : Session). y.idempotency_key) d.fields;
    is_new = ap (λ (y : Session). y.state) d.fields;
  }

  -- The store that a successful `Issue` leaves agrees with itself, and holds what was issued.
  issue-leaves :
      (r : Request) (now : Time) (w : World Store) {i : Issued}
      → IsCoherent w.store
      → (m : Made memory_store p laws c r now w (issue memory_store p c r now w).1 i)
      → lookup m.candidate.id w.store.sessions ≡ none
      → IsCoherent (issue memory_store p c r now w).1.store
        × (lookup i.session.id (issue memory_store p c r now w).1.store.sessions ≡ some i.session)
  issue-leaves r now w v m fresh = rw m.after (
    create_or_get-IsCoherent r.idempotency_key m.candidate w.store v
        (drawn-IsCandidate r now m.ticket m.candidate m.drawn) fresh,
    create_or_get-stored r.idempotency_key m.candidate w.store v m.answer,
  )

  -- What the access that a claim returns says of the request it was issued for.
  pub record Serves (r : Request) (i : Issued) (at : Time) (a : ClaimedAccess) : Type 0 where
    pub session_id : a.session_id ≡ i.session.id
    pub tenant : a.identity.tenant_id ≡ r.tenant_id
    pub subject : a.identity.subject_id ≡ r.subject_id
    pub instance_id : a.identity.instance_id ≡ r.instance_id
    pub workload : a.target.workload_name ≡ r.workload_name
    pub kind : a.target.workload_kind ≡ r.workload_kind
    pub instance_binding : a.target.instance_binding ≡ r.instance_binding
    pub vm_binding : a.target.vm_binding ≡ r.vm_binding
    pub mode : a.mode ≡ r.mode
    pub expiry : a.expires_at ≡ at + c.session_max_duration

  drawn-Serves :
      (r : Request) (now at : Time) (i : Issued)
      → IsDrawn memory_store p laws c r now i.ticket i.session
      → Serves r i at (
          access_of (lease_of i.session.id (claim_session i.session.id i.session at (limits_of c))))
  drawn-Serves r now at i d = record {
    session_id = refl;
    tenant = ap (λ (y : Session). y.tenant_id) d.fields;
    subject = ap (λ (y : Session). y.subject_id) d.fields;
    instance_id = ap (λ (y : Session). y.instance_id) d.fields;
    workload = ap (λ (y : Session). y.workload_name) d.fields;
    kind = ap (λ (y : Session). y.workload_kind) d.fields;
    instance_binding = ap (λ (y : Session). y.instance_binding) d.fields;
    vm_binding = ap (λ (y : Session). y.vm_binding) d.fields;
    mode = ap (λ (y : Session). y.mode) d.fields;
    expiry = refl;
  }

  claimed_access :
      (i : Issued) (at : Time) (v : World Store)
      → p.sha256 i.ticket ≡ i.session.ticket_digest
      → IsCoherent v.store
      → lookup i.session.id v.store.sessions ≡ some i.session
      → i.session.state ≡ issued
      → at < i.session.ticket_expires_at
      → i.session.ticket_expires_at ≤ i.session.tombstone_expires_at
      → HasRoom at (limits_of c) i.session.subject_id v.store
      → (claim memory_store p c i.session.id i.ticket at v).0
        ≡ ok (
            access_of
              (lease_of i.session.id (claim_session i.session.id i.session at (limits_of c))))
  unfolding claim
  claimed_access i at v digest coherent stored open_still in_time order room = rw (
    digest,
    claim_and_reserve_ok i.session.id at (limits_of c) v.store i.session coherent stored open_still
        in_time order room,
  )

  -- A new ticket opens its session: over a coherent memory store, where the new identifier is not in
  -- use, claiming it before it expires and with room under the limits succeeds, and gives access to
  -- what the request named, until the maximal duration from the claim.
  pub claim-issue :
      (r : Request) (now at : Time) (w : World Store) {i : Issued}
      → IsCoherent w.store
      → (issue memory_store p c r now w).0 ≡ ok i
      → i.replayed ≡ false
      → lookup i.session.id w.store.sessions ≡ none
      → at < now + c.ticket_ttl
      → HasRoom at (limits_of c) r.subject_id (issue memory_store p c r now w).1.store
      → (a : ClaimedAccess) × ((claim memory_store p c i.session.id i.ticket at
            (issue memory_store p c r now w).1).0
          ≡ ok a)
        × Serves r i at a
  claim-issue r now at w {i} v h new fresh in_time room =
      let (_, good) = issue-IsIssue memory_store p laws c memory_laws r now w v h in
      let d = good.fresh new in
      let m = issue-Made memory_store p laws c r now w h in
      let same : i.session ≡ m.candidate =
        memory_laws.created r.idempotency_key m.candidate i.session w.store v (
          subst (λ b. (create_or_get r.idempotency_key m.candidate w.store).0 ≡ ok (i.session, b))
            new m.answer) in
      let (coherent, stored) =
        issue-leaves r now w v m
          (subst (λ (x : Session). lookup x.id w.store.sessions ≡ none) same fresh) in
      (
        access_of (lease_of i.session.id (claim_session i.session.id i.session at (limits_of c))),
        claimed_access i at (issue memory_store p c r now w).1
            (sym (ap (λ (y : Session). y.ticket_digest) d.fields)) coherent stored good.claimable
            (omega (arith, ap (λ (y : Session). y.ticket_expires_at) d.fields))
            (omega (
              arith,
              ap (λ (y : Session). y.ticket_expires_at) d.fields,
              ap (λ (y : Session). y.tombstone_expires_at) d.fields,
            ))
            (subst (λ x. HasRoom at (limits_of c) x (issue memory_store p c r now w).1.store)
              (sym (ap (λ (y : Session). y.subject_id) d.fields)) room),
        drawn-Serves r now at i d,
      )
