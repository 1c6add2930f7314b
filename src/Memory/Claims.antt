-- ===== src/Memory/Claims.antt =====
-- When a claim succeeds, and what it grants.
use ani_session_gateway.Prelude.{
  ◌≡◌, ◌<◌, refl, Option, none, some, Bytes, Str, str_eq_iff, length, ok, arith,
}
use ani_session_gateway.Session.Model.{Time, ClaimLimits, issued, Session, SessionLease}
use ani_session_gateway.Memory.{Store, claim_session, lease_of, granted, subject_active, claim_in}

-- The conditions under which the code grants a lease on `st`, in a store that is cleaned up.
pub record IsClaimable (t : Store) (digest : Bytes) (now : Time) (limits : ClaimLimits)
    (st : Session) : Type 0 where
  pub open_still : st.state ≡ issued
  pub in_time : now < st.ticket_expires_at
  pub right_ticket : st.ticket_digest ≡ digest
  pub room : length t.leases < limits.max_active
  pub subject_room : subject_active st.subject_id t < limits.max_active_per_subject

pub claim_in-eq-ok :
    (t : Store) (id : Str) (digest : Bytes) (now : Time) (limits : ClaimLimits) (o : Option Session)
    {lease : SessionLease}
    → (claim_in o id digest now limits t).0 ≡ ok lease
    → (st : Session) × (o ≡ some st)
      × IsClaimable t digest now limits st
      × (lease ≡ lease_of id (claim_session id st now limits))
      × ((claim_in o id digest now limits t).1 ≡ granted id st now limits t)
unfolding claim_in
claim_in-eq-ok t id digest now limits none h = cc
claim_in-eq-ok t id digest now limits (some st) h =
    (st, refl, ground (arith, str_eq_iff st.ticket_digest digest), ground arith, ground arith)

pub claim_in_ok :
    (t : Store) (id : Str) (digest : Bytes) (now : Time) (limits : ClaimLimits) (st : Session)
    → IsClaimable t digest now limits st
    → claim_in (some st) id digest now limits t
      ≡ (ok (lease_of id (claim_session id st now limits)), granted id st now limits t)
unfolding claim_in
claim_in_ok t id digest now limits st c = ground (arith, str_eq_iff st.ticket_digest digest)
