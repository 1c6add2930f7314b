-- ===== src/Memory/Evolution.antt =====
-- What may become of a session from one call of the memory store to the next.
use ani_session_gateway.Prelude.{
  ◌≡◌, ◌≢◌, refl, subst, ◌∙◌, inl, inr, Bool-cases, Option, none, some, Str, str_eq, str_eq_iff,
  arith,
}
use ani_session_gateway.Prelude.Assoc.{Assoc, lookup, insert, lookup-insert}
use ani_session_gateway.Session.Model.{State, issued, claimed, closed, Session, SessionLease}
use ani_session_gateway.Memory.{Store}

-- The part of a session that no call changes once it is stored.
pub record SameIntent (a b : Session) : Type 0 where
  pub same_id : b.id ≡ a.id
  pub same_key : b.idempotency_key ≡ a.idempotency_key
  pub same_fingerprint : b.request_fingerprint ≡ a.request_fingerprint
  pub same_digest : b.ticket_digest ≡ a.ticket_digest
  pub same_tenant : b.tenant_id ≡ a.tenant_id
  pub same_subject : b.subject_id ≡ a.subject_id
  pub same_instance : b.instance_id ≡ a.instance_id
  pub same_mode : b.mode ≡ a.mode
  pub same_kind : b.workload_kind ≡ a.workload_kind
  pub same_instance_binding : b.instance_binding ≡ a.instance_binding
  pub same_vm_binding : b.vm_binding ≡ a.vm_binding
  pub same_ticket_expiry : b.ticket_expires_at ≡ a.ticket_expires_at

-- The states that a session may pass through, in order.
pub data Later : State → State → Type 0 where
  unchanged : {s : State} → Later s s
  claim : Later issued claimed
  expire : Later issued closed
  finish : Later claimed closed

pub Later-trans : {a b c : State} → Later a b → Later b c → Later a c
Later-trans unchanged q = q
Later-trans claim unchanged = claim
Later-trans claim finish = expire
Later-trans expire unchanged = expire
Later-trans finish unchanged = finish

pub SameIntent-refl : (a : Session) → SameIntent a a
SameIntent-refl a = record {
  same_id = refl;
  same_key = refl;
  same_fingerprint = refl;
  same_digest = refl;
  same_tenant = refl;
  same_subject = refl;
  same_instance = refl;
  same_mode = refl;
  same_kind = refl;
  same_instance_binding = refl;
  same_vm_binding = refl;
  same_ticket_expiry = refl;
}

pub SameIntent-trans : {a b c : Session} → SameIntent a b → SameIntent b c → SameIntent a c
SameIntent-trans p q = record {
  same_id = q.same_id ∙ p.same_id;
  same_key = q.same_key ∙ p.same_key;
  same_fingerprint = q.same_fingerprint ∙ p.same_fingerprint;
  same_digest = q.same_digest ∙ p.same_digest;
  same_tenant = q.same_tenant ∙ p.same_tenant;
  same_subject = q.same_subject ∙ p.same_subject;
  same_instance = q.same_instance ∙ p.same_instance;
  same_mode = q.same_mode ∙ p.same_mode;
  same_kind = q.same_kind ∙ p.same_kind;
  same_instance_binding = q.same_instance_binding ∙ p.same_instance_binding;
  same_vm_binding = q.same_vm_binding ∙ p.same_vm_binding;
  same_ticket_expiry = q.same_ticket_expiry ∙ p.same_ticket_expiry;
}

-- What may become of the session under an identifier: it moves on, and is the same while it is
-- still issued; it goes; or it never was.
abbrev pub Evolves : Option Session → Option Session → Type 0
Evolves none none = Unit
Evolves none (some b) = ⊥
Evolves (some a) none = Unit
Evolves (some a) (some b) = SameIntent a b × Later a.state b.state × (b.state ≡ issued → b ≡ a)

pub Evolves-none : (o : Option Session) → Evolves o none
Evolves-none none = tt
Evolves-none (some a) = tt

pub Evolves-refl : (o : Option Session) → Evolves o o
Evolves-refl none = tt
Evolves-refl (some a) = (SameIntent-refl a, unchanged, λ h. refl)

pub Evolves-trans : (o p q : Option Session) → Evolves o p → Evolves p q → Evolves o q
Evolves-trans none none none h k = tt
Evolves-trans none none (some c) h k = k
Evolves-trans none (some b) q h k = absurd h
Evolves-trans (some a) p none h k = tt
Evolves-trans (some a) none (some c) h k = absurd k
Evolves-trans (some a) (some b) (some c) h k = (
  SameIntent-trans h.0 k.0,
  Later-trans h.1 k.1,
  λ e. k.2 e ∙ h.2 (subst (λ x. x.state ≡ issued) (k.2 e) e),
)

abbrev pub Evolution : Store → Store → Type 0
Evolution s t = (id : Str) → Evolves (lookup id s.sessions) (lookup id t.sessions)

-- One session is written again.
pub rewrite-Evolution :
    (r s : Store) (id : Str) (st st' : Session) (keys : Assoc Str) (held : Assoc SessionLease)
    → lookup id s.sessions ≡ some st
    → SameIntent st st'
    → Later st.state st'.state
    → st'.state ≢ issued
    → Evolution r s
    → Evolution r (record { sessions = insert id st' s.sessions; by_key = keys; leases = held })
rewrite-Evolution r s id st st' keys held e same later spent before j =
    rw (lookup-insert id j st' s.sessions) (elim (Bool-cases (str_eq id j)) [
      | inl here ↦ rw here (
          Evolves-trans (lookup j r.sessions) (some st) (some st')
            (subst (Evolves (lookup j r.sessions)) (ground (arith, str_eq_iff id j)) (before j))
            (same, later, λ h. absurd (spent h)))
      | inr other ↦ rw other (before j)
    ])
