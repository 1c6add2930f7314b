-- ===== src/Memory/Kept.antt =====
-- What stays in the memory store: an issued session survives `cleanup` until its tombstone, what a
-- creation answers is stored, and a claim of it in time succeeds.
use ani_session_gateway.Prelude.{
  ◌≡◌, ◌<◌, ◌≤◌, refl, inl, inr, Bool, Bool-cases, Option, none, some, Str, str_eq_iff, str_eq_refl,
  length, ltb, ok, arith,
}
use ani_session_gateway.Prelude.Assoc.{lookup, lookup-insert, lookup-remove}
use ani_session_gateway.Session.Model.{Time, ClaimLimits, Session, SessionLease, issued}
use ani_session_gateway.Memory.{
  Store, or_zero, outlived, cleanup, expire_lease, drop_tombstone, create_or_get, create_in,
  replay_existing, claim_and_reserve, claim_session, lease_of, granted, subject_active,
}
use ani_session_gateway.Memory.Invariant.{IsCoherent, HasKey, KeyOk}
use ani_session_gateway.Memory.Cleanup.{cleanup_induction, cleanup-IsCoherent}
use ani_session_gateway.Memory.Claims.{claim_in_ok}

module _ (now : Time) (id : Str) (st : Session) (open_still : st.state ≡ issued)
    (remembered : now < st.tombstone_expires_at) where
  abbrev Kept : Store → Type 0
  Kept s = lookup id s.sessions ≡ some st

  expire_lease-Kept :
      (j : Str) (l : SessionLease) (s : Store)
      → IsCoherent s
      → lookup j s.leases ≡ some l
      → Kept s
      → Kept (expire_lease now j l s)
  unfolding expire_lease
  expire_lease-Kept j l s v held kept = elim (Bool-cases (ltb now l.expires_at)) [
    | inl live ↦ rw live kept
    | inr gone ↦ rw (gone, lookup-insert) (ground (arith, v.lease_ok id, str_eq_iff j id))
  ]

  drop_tombstone-Kept : (key j : Str) (s : Store) → Kept s → Kept (drop_tombstone now key j s)
  unfolding drop_tombstone
  drop_tombstone-Kept key j s kept = elim (Bool-cases (outlived now (lookup j s.sessions))) [
    | inl gone ↦ rw (gone, lookup-remove) (ground (arith, str_eq_iff j id))
    | inr live ↦ rw live kept
  ]

  -- An issued session is not touched before its tombstone.
  pub cleanup-Kept : (s : Store) → IsCoherent s → Kept s → Kept (cleanup now s)
  cleanup-Kept s v kept =
      cleanup_induction Kept now expire_lease-Kept (λ key j t _ _ k. drop_tombstone-Kept key j t k)
        s v kept

replay_existing-stored :
    (id : Str) (existing c : Session) (s : Store) {st : Session} {again : Bool}
    → (replay_existing id existing c s).0 ≡ ok (st, again)
    → (st ≡ existing) × ((replay_existing id existing c s).1 ≡ s)
unfolding replay_existing
replay_existing-stored id existing c s h = ground arith

found-stored :
    (id key : Str) (s : Store) (o : Option Session) {st : Session}
    → IsCoherent s
    → lookup id s.sessions ≡ o
    → HasKey key o
    → st ≡ or_zero o
    → lookup st.id s.sessions ≡ some st
found-stored id key s none v e owner same = absurd owner
found-stored id key s (some x) {st} v e owner same = ground (arith, v.session_ok id)

create_in-stored :
    (key : Str) (c : Session) (s : Store) (o : Option Str) {st : Session} {again : Bool}
    → IsCoherent s
    → KeyOk key s.sessions o
    → (create_in o key c s).0 ≡ ok (st, again)
    → lookup st.id (create_in o key c s).1.sessions ≡ some st
unfolding create_in
create_in-stored key c s none {st} v owner h =
    let same : c ≡ st = ground arith in rw (← same, lookup-insert, str_eq_refl c.id)
create_in-stored key c s (some id) {st} v owner h =
    let (same, kept) = replay_existing-stored id _ c s h in
    rw kept (found-stored id key s _ {st = st} v refl owner same)

-- What a creation answers stands in the store under its identifier.
pub create_or_get-stored :
    (key : Str) (c : Session) (s : Store) {st : Session} {again : Bool}
    → IsCoherent s
    → (create_or_get key c s).0 ≡ ok (st, again)
    → lookup st.id (create_or_get key c s).1.sessions ≡ some st
unfolding create_or_get
create_or_get-stored key c s v h =
    let w = cleanup-IsCoherent c.created_at s v in
    create_in-stored key c (cleanup c.created_at s) _ w (w.key_ok key) h

-- There is room for one more lease, of this subject, once the store is cleaned up.
pub record HasRoom (now : Time) (limits : ClaimLimits) (subject : Str) (s : Store) : Type 0 where
  pub room : length (cleanup now s).leases < limits.max_active
  pub subject_room : subject_active subject (cleanup now s) < limits.max_active_per_subject

pub claim_and_reserve_ok :
    (id : Str) (now : Time) (limits : ClaimLimits) (s : Store) (st : Session)
    → IsCoherent s
    → lookup id s.sessions ≡ some st
    → st.state ≡ issued
    → now < st.ticket_expires_at
    → st.ticket_expires_at ≤ st.tombstone_expires_at
    → HasRoom now limits st.subject_id s
    → claim_and_reserve id st.ticket_digest now limits s ≡ (
      ok (lease_of id (claim_session id st now limits)),
      granted id st now limits (cleanup now s),
    )
unfolding claim_and_reserve
claim_and_reserve_ok id now limits s st v e open_still in_time order room =
    rw (cleanup-Kept now id st open_still (omega arith) s v e) (
      claim_in_ok (cleanup now s) id st.ticket_digest now limits st (record {
        open_still = open_still;
        in_time = in_time;
        right_ticket = refl;
        room = room.room;
        subject_room = room.subject_room;
      }))
