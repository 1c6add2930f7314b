-- ===== src/Memory/Cleanup.antt =====
-- `cleanup` of internal/store/memory/store.go.
use ani_session_gateway.Prelude.{
  ◌≡◌, refl, subst, ◌∙◌, ◌⊎◌, inl, inr, false, Bool-cases, Option, none, some, [], ◌∷◌, Str, str,
  str_eq, str_eq_iff, str_eq_refl, ltb, arith,
}
use ani_session_gateway.Prelude.Assoc.{
  Assoc, lookup, remove, Distinct, lookup-remove, remove-Distinct,
}
use ani_session_gateway.Session.Model.{Time, Session, SessionLease}
use ani_session_gateway.Memory.{
  Store, expire_lease, expire_leases, drop_tombstone, drop_tombstones, cleanup, outlived,
}
use ani_session_gateway.Memory.Invariant.{
  IsCoherent, KeyOk, SessionOk, HasKey, close_entry-IsCoherent,
}

-- Every entry that a loop has still to visit stands in the map.
abbrev Pending {ℓ} : {V : Type ℓ} → Assoc V → Assoc V → Type ℓ
Pending {V} es m = (k : Str) (x : V) → lookup k es ≡ some x → lookup k m ≡ some x

lookup-tail {ℓ} :
    {V : Type ℓ} (k j : Str) (x y : V) (es : Assoc V)
    → lookup k es ≡ none
    → lookup j es ≡ some y
    → lookup j ((k, x) ∷ es) ≡ some y
unfolding lookup
lookup-tail k j x y es fresh e = ground (arith, str_eq_iff k j)

lookup-head {ℓ} : {V : Type ℓ} (k : Str) (x : V) (es : Assoc V) → lookup k ((k, x) ∷ es) ≡ some x
unfolding lookup
lookup-head k x es = rw (str_eq_refl k)

Pending-tail {ℓ} :
    {V : Type ℓ} (k : Str) (x : V) (es m m' : Assoc V)
    → lookup k es ≡ none
    → ((j : Str) → (lookup j m' ≡ lookup j m) ⊎ (j ≡ k))
    → Pending ((k, x) ∷ es) m
    → Pending es m'
Pending-tail k x es m m' fresh near p j y e = elim (near j) [
  | inl same ↦ same ∙ p j y (lookup-tail k j x y es fresh e)
  | inr j_is_k ↦ cc
]

expire_lease-IsCoherent :
    (now : Time) (id : Str) (l : SessionLease) (s : Store) (o : Option Session)
    → lookup id s.sessions ≡ o
    → IsCoherent s
    → lookup id s.leases ≡ some l
    → IsCoherent (expire_lease now id l s)
unfolding expire_lease
expire_lease-IsCoherent now id l s none e v held = ground (arith, v.lease_ok id)
expire_lease-IsCoherent now id l s (some st) e v held = elim (Bool-cases (ltb now l.expires_at)) [
  | inl live ↦ rw live v
  | inr late ↦ rw (late, e) (close_entry-IsCoherent s id st l.expires_at (str "max_duration") v e)
]

leases-expire_lease :
    (now : Time) (id j : Str) (l : SessionLease) (s : Store)
    → (lookup j (expire_lease now id l s).leases ≡ lookup j s.leases) ⊎ (j ≡ id)
unfolding expire_lease
leases-expire_lease now id j l s = ground (arith, lookup-remove id j s.leases, str_eq_iff id j)

pub expire_leases-IsCoherent :
    (now : Time) (es : Assoc SessionLease) (s : Store)
    → Distinct es
    → Pending es s.leases
    → IsCoherent s
    → IsCoherent (expire_leases now es s)
unfolding expire_leases
expire_leases-IsCoherent now [] s d p v = v
expire_leases-IsCoherent now ((id, l) ∷ es) s d p v =
    expire_leases-IsCoherent now es (expire_lease now id l s) d.1
      (Pending-tail id l es s.leases _ d.0 (λ j. leases-expire_lease now id j l s) p)
      (expire_lease-IsCoherent now id l s _ refl v (p id l (lookup-head id l es)))

KeyOk-remove :
    (k key id : Str) (m : Assoc Session) (o : Option Str)
    → HasKey key (lookup id m)
    → str_eq key k ≡ false
    → KeyOk k m o
    → KeyOk k (remove id m) o
KeyOk-remove k key id m none owner other h = tt
KeyOk-remove k key id m (some i) owner other h =
    ground (arith, lookup-remove id i m, str_eq_iff id i, str_eq_iff key k)

KeyOk-remove_key :
    (k key id : Str) (keys : Assoc Str) (m : Assoc Session)
    → HasKey key (lookup id m)
    → KeyOk k m (lookup k keys)
    → KeyOk k (remove id m) (lookup k (remove key keys))
KeyOk-remove_key k key id keys m owner h = rw lookup-remove (elim (Bool-cases (str_eq key k)) [
  | inl same ↦ rw same tt
  | inr other ↦ rw other (KeyOk-remove k key id m (lookup k keys) owner other h)
])

SessionOk-remove :
    (j key id : Str) (keys : Assoc Str) (o : Option Session)
    → lookup key keys ≡ some id
    → str_eq id j ≡ false
    → SessionOk j keys o
    → SessionOk j (remove key keys) o
SessionOk-remove j key id keys none e other h = tt
SessionOk-remove j key id keys (some st) e other h = (
  h.0,
  ground (
    arith,
    lookup-remove key st.idempotency_key keys,
    str_eq_iff key st.idempotency_key,
    str_eq_iff id j,
  ),
  h.2,
)

SessionOk-remove_id :
    (j key id : Str) (keys : Assoc Str) (m : Assoc Session)
    → lookup key keys ≡ some id
    → SessionOk j keys (lookup j m)
    → SessionOk j (remove key keys) (lookup j (remove id m))
SessionOk-remove_id j key id keys m e h =
    rw (lookup-remove id j m) (elim (Bool-cases (str_eq id j)) [
      | inl same ↦ rw same tt
      | inr other ↦ rw other (SessionOk-remove j key id keys (lookup j m) e other h)
    ])

KeyOk-at :
    (key id : Str) (m : Assoc Session) (o : Option Str)
    → o ≡ some id
    → KeyOk key m o
    → HasKey key (lookup id m)
KeyOk-at key id m none e h = cc
KeyOk-at key id m (some i) e h =
    let found : i ≡ id = cc in subst (λ x. HasKey key (lookup x m)) found h

drop_tombstone-IsCoherent :
    (now : Time) (key id : Str) (s : Store)
    → IsCoherent s
    → lookup key s.by_key ≡ some id
    → IsCoherent (drop_tombstone now key id s)
unfolding drop_tombstone
drop_tombstone-IsCoherent now key id s v e =
    elim (Bool-cases (outlived now (lookup id s.sessions))) [
      | inl gone ↦ rw gone (record {
        distinct_keys = remove-Distinct key s.by_key v.distinct_keys;
        distinct_leases = remove-Distinct id s.leases v.distinct_leases;
        key_ok = λ k.
            KeyOk-remove_key k key id s.by_key s.sessions
              (KeyOk-at key id s.sessions _ e (v.key_ok key)) (v.key_ok k);
        session_ok = λ j. SessionOk-remove_id j key id s.by_key s.sessions e (v.session_ok j);
        lease_ok = λ j.
            ground
              (arith, v.lease_ok j, lookup-remove id j s.sessions, lookup-remove id j s.leases);
      })
      | inr kept ↦ rw kept v
    ]

by_key-drop_tombstone :
    (now : Time) (key id j : Str) (s : Store)
    → (lookup j (drop_tombstone now key id s).by_key ≡ lookup j s.by_key) ⊎ (j ≡ key)
unfolding drop_tombstone
by_key-drop_tombstone now key id j s =
    ground (arith, lookup-remove key j s.by_key, str_eq_iff key j)

drop_tombstones-IsCoherent :
    (now : Time) (es : Assoc Str) (s : Store)
    → Distinct es
    → Pending es s.by_key
    → IsCoherent s
    → IsCoherent (drop_tombstones now es s)
unfolding drop_tombstones
drop_tombstones-IsCoherent now [] s d p v = v
drop_tombstones-IsCoherent now ((key, id) ∷ es) s d p v =
    drop_tombstones-IsCoherent now es (drop_tombstone now key id s) d.1
      (Pending-tail key id es s.by_key _ d.0 (λ j. by_key-drop_tombstone now key id j s) p)
      (drop_tombstone-IsCoherent now key id s v (p key id (lookup-head key id es)))

-- Cleaning up keeps the maps in agreement.
pub cleanup-IsCoherent : (now : Time) (s : Store) → IsCoherent s → IsCoherent (cleanup now s)
unfolding cleanup
cleanup-IsCoherent now s v =
    let swept = expire_leases-IsCoherent now s.leases s v.distinct_leases (λ k x e. e) v in
    drop_tombstones-IsCoherent now _ _ swept.distinct_keys (λ k x e. e) swept

-- What every round of the two loops keeps holds after `cleanup`.
module _ {ℓ} (P : Store → Type ℓ) (now : Time)
    (expires : (id : Str) (l : SessionLease) (s : Store)
      → IsCoherent s
      → lookup id s.leases ≡ some l
      → P s
      → P (expire_lease now id l s))
    (drops : (key id : Str) (s : Store)
      → IsCoherent s
      → lookup key s.by_key ≡ some id
      → P s
      → P (drop_tombstone now key id s)) where
  expire_leases_induction :
      (es : Assoc SessionLease) (s : Store)
      → Distinct es
      → Pending es s.leases
      → IsCoherent s
      → P s
      → P (expire_leases now es s)
  unfolding expire_leases
  expire_leases_induction [] s d p v h = h
  expire_leases_induction ((id, l) ∷ es) s d p v h =
      let held = p id l (lookup-head id l es) in
      expire_leases_induction es (expire_lease now id l s) d.1
        (Pending-tail id l es s.leases _ d.0 (λ j. leases-expire_lease now id j l s) p)
        (expire_lease-IsCoherent now id l s _ refl v held) (expires id l s v held h)

  drop_tombstones_induction :
      (es : Assoc Str) (s : Store)
      → Distinct es
      → Pending es s.by_key
      → IsCoherent s
      → P s
      → P (drop_tombstones now es s)
  unfolding drop_tombstones
  drop_tombstones_induction [] s d p v h = h
  drop_tombstones_induction ((key, id) ∷ es) s d p v h =
      let held = p key id (lookup-head key id es) in
      drop_tombstones_induction es (drop_tombstone now key id s) d.1
        (Pending-tail key id es s.by_key _ d.0 (λ j. by_key-drop_tombstone now key id j s) p)
        (drop_tombstone-IsCoherent now key id s v held) (drops key id s v held h)

  pub cleanup_induction : (s : Store) → IsCoherent s → P s → P (cleanup now s)
  unfolding cleanup
  cleanup_induction s v h =
      let swept = expire_leases-IsCoherent now s.leases s v.distinct_leases (λ k x e. e) v in
      drop_tombstones_induction _ _ swept.distinct_keys (λ k x e. e) swept
        (expire_leases_induction s.leases s v.distinct_leases (λ k x e. e) v h)
