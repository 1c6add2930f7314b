-- ===== src/Memory/Invariant.antt =====
-- The three maps of the memory store agree.
use ani_session_gateway.Prelude.{
  ◌≡◌, ◌≢◌, refl, inl, inr, Bool-cases, Option, none, some, [], Str, str, str_eq, str_eq_iff,
  if◌then◌else◌, arith,
}
use ani_session_gateway.Prelude.Assoc.{
  Assoc, lookup, insert, remove, Distinct, lookup-insert, lookup-remove, remove-Distinct,
}
use ani_session_gateway.Session.Model.{Time, issued, claimed, Session, SessionLease, is_issued}
use ani_session_gateway.Memory.{Store, new, close_session, expire_ticket}

-- The lease of a session that has this state.
abbrev pub LeaseFits : Session → Option SessionLease → Type 0
LeaseFits st none = st.state ≢ claimed
LeaseFits st (some l) =
    (st.state ≡ claimed) × (l.id ≡ st.lease_id) × (l.expires_at ≡ st.expires_at) × (l.session ≡ st)

abbrev pub Fits : Option Session → Option SessionLease → Type 0
Fits none none = Unit
Fits none (some l) = ⊥
Fits (some st) l = LeaseFits st l

-- Only an issued session keeps its encrypted ticket.
abbrev pub Sealed : Session → Type 0
Sealed st = st.state ≢ issued → st.ticket_ciphertext ≡ []

abbrev pub SessionOk : Str → Assoc Str → Option Session → Type 0
SessionOk id keys none = Unit
SessionOk id keys (some st) = (st.id ≡ id) × (lookup st.idempotency_key keys ≡ some id) × Sealed st

abbrev pub HasKey : Str → Option Session → Type 0
HasKey key none = ⊥
HasKey key (some st) = st.idempotency_key ≡ key

abbrev pub KeyOk : Str → Assoc Session → Option Str → Type 0
KeyOk key sessions none = Unit
KeyOk key sessions (some id) = HasKey key (lookup id sessions)

pub record IsCoherent (s : Store) : Type 0 where
  pub distinct_keys : Distinct s.by_key
  pub distinct_leases : Distinct s.leases
  pub key_ok : (key : Str) → KeyOk key s.sessions (lookup key s.by_key)
  pub session_ok : (id : Str) → SessionOk id s.by_key (lookup id s.sessions)
  pub lease_ok : (id : Str) → Fits (lookup id s.sessions) (lookup id s.leases)

pub new-IsCoherent : IsCoherent new
unfolding lookup
new-IsCoherent = record {
  distinct_keys = tt;
  distinct_leases = tt;
  key_ok = λ k. tt;
  session_ok = λ i. tt;
  lease_ok = λ i. tt;
}

KeyOk-insert :
    (key id : Str) (st st' : Session) (m : Assoc Session) (o : Option Str)
    → lookup id m ≡ some st
    → st'.idempotency_key ≡ st.idempotency_key
    → KeyOk key m o
    → KeyOk key (insert id st' m) o
KeyOk-insert key id st st' m none e same h = tt
KeyOk-insert key id st st' m (some i) e same h =
    ground (arith, lookup-insert id i st' m, str_eq_iff id i)

-- One session is written again, with its lease set or removed to match.
module _ (s : Store) (id : Str) (st st' : Session) (leases' : Assoc SessionLease)
    (l' : Option SessionLease) where
  pub rewrite-IsCoherent :
      IsCoherent s
      → lookup id s.sessions ≡ some st
      → st'.id ≡ st.id
      → st'.idempotency_key ≡ st.idempotency_key
      → Sealed st'
      → LeaseFits st' l'
      → Distinct leases'
      → ((j : Str) → lookup j leases' ≡ (if str_eq id j then l' else lookup j s.leases))
      → IsCoherent (record s { sessions = insert id st' s.sessions; leases = leases' })
  rewrite-IsCoherent v e same_id same_key sealed fits d at = record {
    distinct_keys = v.distinct_keys;
    distinct_leases = d;
    key_ok = λ key.
        KeyOk-insert key id st st' s.sessions (lookup key s.by_key) e same_key (v.key_ok key);
    session_ok = λ j. ground (
      arith,
      lookup-insert id j st' s.sessions,
      v.session_ok j,
      v.session_ok id,
      str_eq_iff id j,
    );
    lease_ok = λ j. ground (arith, lookup-insert id j st' s.sessions, at j, v.lease_ok j);
  }

-- A session is closed; its lease, if it has one, goes.
pub close_entry-IsCoherent :
    (s : Store) (id : Str) (st : Session) (at : Time) (reason : Str)
    → IsCoherent s
    → lookup id s.sessions ≡ some st
    → IsCoherent (record s {
      sessions = insert id (close_session st at reason) s.sessions;
      leases = remove id s.leases;
    })
close_entry-IsCoherent s id st at reason v e =
    rewrite-IsCoherent s id st (close_session st at reason) (remove id s.leases) none v e refl refl
      (λ _. refl) (λ h. cc) (remove-Distinct id s.leases v.distinct_leases)
      (λ j. lookup-remove id j s.leases)

-- An issued session, which has no lease, is closed.
pub expire_ticket-IsCoherent :
    (s : Store) (id : Str) (st : Session) (now : Time)
    → IsCoherent s
    → lookup id s.sessions ≡ some st
    → IsCoherent (expire_ticket id st now s)
expire_ticket-IsCoherent s id st now v e = elim (Bool-cases (is_issued st.state)) [
  | inl issued_now ↦ rw issued_now (
      rewrite-IsCoherent s id st (close_session st now (str "ticket_expired")) s.leases none v e
        refl refl (λ _. refl) (λ h. cc) v.distinct_leases
        (λ j. ground (arith, v.lease_ok id, str_eq_iff id j)))
  | inr other ↦ rw other v
]
