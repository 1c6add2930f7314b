-- ===== src/Memory/Capacity.antt =====
-- The memory store never holds more leases than the limits allow.
use ani_session_gateway.Prelude.{
  inl, inr, Bool-cases, ltb, ◌≡◌, ◌≤◌, ◌<◌, ap, Bytes, Str, str_eq, str_eq_iff, length, arith,
}
use ani_session_gateway.Prelude.Assoc.{
  Assoc, lookup, insert, remove, count_by, length-remove-le, count_by-remove-le,
}
use ani_session_gateway.Session.Model.{Time, ClaimLimits, is_issued, Session, SessionLease}
use ani_session_gateway.Memory.{
  Store, new, outlived, cleanup, expire_lease, drop_tombstone, claim_session, lease_of,
  create_or_get, claim_and_reserve, close_and_release, expire_ticket,
}
use ani_session_gateway.Memory.Invariant.{IsCoherent}
use ani_session_gateway.Memory.Cleanup.{cleanup_induction, cleanup-IsCoherent}
use ani_session_gateway.Memory.Cases.{claim_in_cases, close_in_cases, create_in_cases}

pub record LeasesWithin (limits : ClaimLimits) (m : Assoc SessionLease) : Type 0 where
  pub active : length m ≤ limits.max_active
  pub active_per_subject :
      (subject : Str)
      → count_by (λ l. str_eq l.session.subject_id subject) m ≤ limits.max_active_per_subject

abbrev pub IsWithin : ClaimLimits → Store → Type 0
IsWithin limits s = LeasesWithin limits s.leases

pub new-IsWithin : (limits : ClaimLimits) → IsWithin limits new
unfolding count_by
new-IsWithin limits = record { active = omega arith; active_per_subject = λ _. omega arith }

remove-LeasesWithin :
    (limits : ClaimLimits) (m : Assoc SessionLease) (id : Str)
    → LeasesWithin limits m
    → LeasesWithin limits (remove id m)
remove-LeasesWithin limits m id w = record {
  active = omega (arith, length-remove-le id m, w.active);
  active_per_subject = λ subject. omega (
    arith,
    count_by-remove-le (λ l. str_eq l.session.subject_id subject) id m,
    w.active_per_subject subject,
  );
}

expire_lease-IsWithin :
    (limits : ClaimLimits) (now : Time) (id : Str) (l : SessionLease) (s : Store)
    → IsWithin limits s
    → IsWithin limits (expire_lease now id l s)
unfolding expire_lease
expire_lease-IsWithin limits now id l s w = elim (Bool-cases (ltb now l.expires_at)) [
  | inl live ↦ rw live w
  | inr late ↦ rw late (remove-LeasesWithin limits s.leases id w)
]

drop_tombstone-IsWithin :
    (limits : ClaimLimits) (now : Time) (key id : Str) (s : Store)
    → IsWithin limits s
    → IsWithin limits (drop_tombstone now key id s)
unfolding drop_tombstone
drop_tombstone-IsWithin limits now key id s w =
    elim (Bool-cases (outlived now (lookup id s.sessions))) [
      | inl gone ↦ rw gone (remove-LeasesWithin limits s.leases id w)
      | inr kept ↦ rw kept w
    ]

pub cleanup-IsWithin :
    (limits : ClaimLimits) (now : Time) (s : Store)
    → IsCoherent s
    → IsWithin limits s
    → IsWithin limits (cleanup now s)
cleanup-IsWithin limits now s v w =
    cleanup_induction (IsWithin limits) now
      (λ id l t _ _ x. expire_lease-IsWithin limits now id l t x)
      (λ key id t _ _ x. drop_tombstone-IsWithin limits now key id t x) s v w

expire_ticket-IsWithin :
    (limits : ClaimLimits) (id : Str) (st : Session) (now : Time) (s : Store)
    → IsWithin limits s
    → IsWithin limits (expire_ticket id st now s)
expire_ticket-IsWithin limits id st now s w = elim (Bool-cases (is_issued st.state)) [
  | inl open_still ↦ rw open_still w
  | inr other ↦ rw other w
]

subject_count :
    (m : Assoc SessionLease) (a b : Str)
    → a ≡ b
    → count_by (λ x. str_eq x.session.subject_id a) m
      ≡ count_by (λ x. str_eq x.session.subject_id b) m
subject_count m a b e = ap (λ (c : Str). count_by (λ x. str_eq x.session.subject_id c) m) e

-- A new lease on a session whose subject has room.
insert-LeasesWithin :
    (limits : ClaimLimits) (m : Assoc SessionLease) (id : Str) (l : SessionLease)
    → length m < limits.max_active
    → count_by (λ x. str_eq x.session.subject_id l.session.subject_id) m
      < limits.max_active_per_subject
    → LeasesWithin limits m
    → LeasesWithin limits (insert id l m)
unfolding insert count_by
insert-LeasesWithin limits m id l room subject_room w = record {
  active = omega (arith, length-remove-le id m);
  active_per_subject = λ subject. elim (Bool-cases (str_eq l.session.subject_id subject)) [
    | inl same ↦ rw same (
        ground (
          arith,
          count_by-remove-le (λ x. str_eq x.session.subject_id subject) id m,
          subject_count m l.session.subject_id subject
              ((str_eq_iff l.session.subject_id subject).0 same),
        ))
    | inr other ↦ rw other (
        ground (
          arith,
          count_by-remove-le (λ x. str_eq x.session.subject_id subject) id m,
          w.active_per_subject subject,
        ))
  ];
}

-- No call leaves more leases than the limits allow, in all or for one subject.
pub claim_and_reserve-IsWithin :
    (limits : ClaimLimits) (id : Str) (digest : Bytes) (now : Time) (s : Store)
    → IsCoherent s
    → IsWithin limits s
    → IsWithin limits (claim_and_reserve id digest now limits s).1
unfolding claim_and_reserve
claim_and_reserve-IsWithin limits id digest now s v w =
    let t = cleanup now s in
    let x = cleanup-IsWithin limits now s v w in
    claim_in_cases (IsWithin limits) id digest now limits t _ x
      (λ st _. expire_ticket-IsWithin limits id st now t x)
      (λ st _ c.
        insert-LeasesWithin limits t.leases id (lease_of id (claim_session id st now limits)) c.room
          c.subject_room x)

pub close_and_release-IsWithin :
    (limits : ClaimLimits) (id lease_id reason : Str) (now : Time) (s : Store)
    → IsCoherent s
    → IsWithin limits s
    → IsWithin limits (close_and_release id lease_id reason now s).1
unfolding close_and_release
close_and_release-IsWithin limits id lease_id reason now s v w =
    let t = cleanup now s in
    let x = cleanup-IsWithin limits now s v w in
    close_in_cases (IsWithin limits) id lease_id reason now t _ x
      (λ st _ _ _. remove-LeasesWithin limits t.leases id x)

pub create_or_get-IsWithin :
    (limits : ClaimLimits) (key : Str) (candidate : Session) (s : Store)
    → IsCoherent s
    → IsWithin limits s
    → IsWithin limits (create_or_get key candidate s).1
unfolding create_or_get
create_or_get-IsWithin limits key candidate s v w =
    let t = cleanup candidate.created_at s in
    let x = cleanup-IsWithin limits candidate.created_at s v w in
    create_in_cases (IsWithin limits) key candidate t _
      ((cleanup-IsCoherent candidate.created_at s v).key_ok key) x
      (λ id st _ _. expire_ticket-IsWithin limits id st candidate.created_at t x) (λ _. x)
