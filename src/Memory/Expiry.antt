-- ===== src/Memory/Expiry.antt =====
-- What `cleanup` leaves behind.
use ani_session_gateway.Prelude.{
  ◌≡◌, ◌<◌, refl, sym, inl, inr, Bool, false, Bool-cases, Option-cases, not, Option, none, some, [],
  ◌∷◌, Str, str_eq, str_eq_iff, str_eq_refl, subst, ltb, if◌then◌else◌, arith,
}
use ani_session_gateway.Prelude.Assoc.{Assoc, lookup, Distinct, lookup-remove}
use ani_session_gateway.Session.Model.{Time, Session, SessionLease}
use ani_session_gateway.Memory.{
  Store, expire_lease, expire_leases, drop_tombstone, drop_tombstones, cleanup,
}
use ani_session_gateway.Memory.Invariant.{IsCoherent}

abbrev late : Time → Option SessionLease → Bool
late now none = false
late now (some l) = not (ltb now l.expires_at)

-- Of the leases that the loop visits, those that have run out go, and no others.
lookup-leases-expire :
    (now : Time) (k : Str) (es : Assoc SessionLease) (s : Store)
    → Distinct es
    → lookup k (expire_leases now es s).leases
      ≡ (if late now (lookup k es) then none else lookup k s.leases)
unfolding expire_leases expire_lease lookup
lookup-leases-expire now k [] s d = refl
lookup-leases-expire now k ((id, l) ∷ es) s d = ground (
  arith,
  lookup-leases-expire now k es (expire_lease now id l s) d.1,
  d.0,
  lookup-remove id k s.leases,
  str_eq_iff id k,
)

leases-drop_tombstone :
    (now : Time) (key id k : Str) (s : Store) (l : SessionLease)
    → lookup k (drop_tombstone now key id s).leases ≡ some l
    → lookup k s.leases ≡ some l
unfolding drop_tombstone
leases-drop_tombstone now key id k s l h = ground (arith, lookup-remove id k s.leases)

leases-drop_tombstones :
    (now : Time) (k : Str) (es : Assoc Str) (s : Store) (l : SessionLease)
    → lookup k (drop_tombstones now es s).leases ≡ some l
    → lookup k s.leases ≡ some l
unfolding drop_tombstones
leases-drop_tombstones now k [] s l h = h
leases-drop_tombstones now k ((key, id) ∷ es) s l h =
    leases-drop_tombstone now key id k s l (leases-drop_tombstones now k es _ l h)

-- A lease that `cleanup` leaves in a coherent store was there before and has not run out, so only
-- live leases count against the limits.
pub cleanup-leases_live :
    (now : Time) (k : Str) (s : Store) (l : SessionLease)
    → IsCoherent s
    → lookup k (cleanup now s).leases ≡ some l
    → (now < l.expires_at) × (lookup k s.leases ≡ some l)
unfolding cleanup
cleanup-leases_live now k s l v h =
    let kept = leases-drop_tombstones now k _ _ l h in
    ground (arith, kept, lookup-leases-expire now k s.leases s v.distinct_leases)

sessions-drop_tombstone :
    (now : Time) (key id k : Str) (s : Store) (st : Session)
    → lookup k (drop_tombstone now key id s).sessions ≡ some st
    → lookup k s.sessions ≡ some st
unfolding drop_tombstone
sessions-drop_tombstone now key id k s st h = ground (arith, lookup-remove id k s.sessions)

sessions-drop_tombstones :
    (now : Time) (k : Str) (es : Assoc Str) (s : Store) (st : Session)
    → lookup k (drop_tombstones now es s).sessions ≡ some st
    → lookup k s.sessions ≡ some st
unfolding drop_tombstones
sessions-drop_tombstones now k [] s st h = h
sessions-drop_tombstones now k ((key, id) ∷ es) s st h =
    sessions-drop_tombstone now key id k s st (sessions-drop_tombstones now k es _ st h)

by_key-drop_tombstones :
    (now : Time) (k i : Str) (es : Assoc Str) (s : Store)
    → lookup k (drop_tombstones now es s).by_key ≡ some i
    → lookup k s.by_key ≡ some i
unfolding drop_tombstones drop_tombstone
by_key-drop_tombstones now k i [] s h = h
by_key-drop_tombstones now k i ((key, id) ∷ es) s h = ground (
  arith,
  by_key-drop_tombstones now k i es (drop_tombstone now key id s) h,
  lookup-remove key k s.by_key,
)

kept_in_time :
    (now : Time) (key id i : Str) (st : Session) (s : Store)
    → lookup key (drop_tombstone now key id s).by_key ≡ some i
    → lookup id (drop_tombstone now key id s).sessions ≡ some st
    → now < st.tombstone_expires_at
unfolding drop_tombstone
kept_in_time now key id i st s h g =
    ground
      (arith, lookup-remove key key s.by_key, str_eq_refl key, Option-cases (lookup id s.sessions))

visited_in_time :
    (now : Time) (k i : Str) (st : Session) (es : Assoc Str) (s : Store)
    → lookup k es ≡ some i
    → lookup k (drop_tombstones now es s).by_key ≡ some i
    → lookup i (drop_tombstones now es s).sessions ≡ some st
    → now < st.tombstone_expires_at
unfolding lookup drop_tombstones
visited_in_time now k i st [] s e h g = cc
visited_in_time now k i st ((key, id) ∷ es) s e h g = elim (Bool-cases (str_eq key k)) [
  | inl here ↦
      let same_id : id ≡ i = ground arith in
      let same_key : key ≡ k = (str_eq_iff key k).0 here in
      kept_in_time now key id i st s
        (subst (λ x. lookup x (drop_tombstone now key id s).by_key ≡ some i) (sym same_key)
          (by_key-drop_tombstones now k i es _ h))
        (subst (λ x. lookup x (drop_tombstone now key id s).sessions ≡ some st) (sym same_id)
          (sessions-drop_tombstones now i es _ st g))
  | inr there ↦ visited_in_time now k i st es _ (ground arith) h g
]

-- An idempotency key that `cleanup` leaves does not lead to a session whose tombstone has passed.
pub cleanup-keys_live :
    (now : Time) (key id : Str) (s : Store) (st : Session)
    → lookup key (cleanup now s).by_key ≡ some id
    → lookup id (cleanup now s).sessions ≡ some st
    → now < st.tombstone_expires_at
unfolding cleanup
cleanup-keys_live now key id s st h g =
    let t = expire_leases now s.leases s in
    visited_in_time now key id st t.by_key t (by_key-drop_tombstones now key id t.by_key t h) h g
