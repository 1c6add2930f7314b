-- ===== src/Memory/Coherence.antt =====
-- Every call of the memory store keeps its three maps in agreement.
use ani_session_gateway.Prelude.{
  ◌≡◌, refl, inl, inr, Bool-cases, Option, none, some, Bytes, Str, str_eq, str_eq_iff, str_eq_refl,
  arith,
}
use ani_session_gateway.Prelude.Assoc.{lookup, insert, lookup-insert, insert-Distinct}
use ani_session_gateway.Session.Model.{Time, ClaimLimits, issued, Session}
use ani_session_gateway.Memory.{
  Store, cleanup, claim_session, lease_of, granted, registered, create_or_get, claim_and_reserve,
  close_and_release,
}
use ani_session_gateway.Memory.Invariant.{
  IsCoherent, KeyOk, SessionOk, rewrite-IsCoherent, close_entry-IsCoherent,
  expire_ticket-IsCoherent,
}
use ani_session_gateway.Memory.Cleanup.{cleanup-IsCoherent}
use ani_session_gateway.Memory.Lifecycle.{still_none}
use ani_session_gateway.Memory.Cases.{claim_in_cases, close_in_cases, create_in_cases}

-- What `Manager.Issue` hands to the store under a key: an issued session of that key.
pub record IsCandidate (key : Str) (c : Session) : Type 0 where
  pub keyed : c.idempotency_key ≡ key
  pub is_new : c.state ≡ issued

granted-IsCoherent :
    (s : Store) (id : Str) (st : Session) (now : Time) (limits : ClaimLimits)
    → IsCoherent s
    → lookup id s.sessions ≡ some st
    → IsCoherent (granted id st now limits s)
granted-IsCoherent s id st now limits v e =
    let lease = lease_of id (claim_session id st now limits) in
    rewrite-IsCoherent s id st (claim_session id st now limits) (insert id lease s.leases)
      (some lease) v e refl refl (λ _. refl) (refl, refl, refl, refl)
      (insert-Distinct id lease s.leases v.distinct_leases) (λ j. lookup-insert id j lease s.leases)

-- A claim, whatever it answers, keeps the maps in agreement.
pub claim_and_reserve-IsCoherent :
    (id : Str) (digest : Bytes) (now : Time) (limits : ClaimLimits) (s : Store)
    → IsCoherent s
    → IsCoherent (claim_and_reserve id digest now limits s).1
unfolding claim_and_reserve
claim_and_reserve-IsCoherent id digest now limits s v =
    let t = cleanup now s in
    let w = cleanup-IsCoherent now s v in
    claim_in_cases IsCoherent id digest now limits t _ w
      (λ st e. expire_ticket-IsCoherent t id st now w e)
      (λ st e _. granted-IsCoherent t id st now limits w e)

pub close_and_release-IsCoherent :
    (id lease_id reason : Str) (now : Time) (s : Store)
    → IsCoherent s
    → IsCoherent (close_and_release id lease_id reason now s).1
unfolding close_and_release
close_and_release-IsCoherent id lease_id reason now s v =
    let t = cleanup now s in
    let w = cleanup-IsCoherent now s v in
    close_in_cases IsCoherent id lease_id reason now t _ w
      (λ st e _ _. close_entry-IsCoherent t id st now reason w e)

module _ (s : Store) (key : Str) (c : Session) (v : IsCoherent s) (good : IsCandidate key c)
    (free : lookup key s.by_key ≡ none) (fresh : lookup c.id s.sessions ≡ none) where
  registered_key :
      (k : Str) (o : Option Str) → KeyOk k s.sessions o → KeyOk k (insert c.id c s.sessions) o
  registered_key k none h = tt
  registered_key k (some i) h = ground (arith, lookup-insert c.id i c s.sessions, str_eq_iff c.id i)

  registered_session :
      (j : Str) (o : Option Session)
      → SessionOk j s.by_key o
      → SessionOk j (insert key c.id s.by_key) o
  registered_session j none h = tt
  registered_session j (some st) h = (
    h.0,
    ground (
      arith,
      lookup-insert key st.idempotency_key c.id s.by_key,
      str_eq_iff key st.idempotency_key,
    ),
    h.2,
  )

  registered-IsCoherent : IsCoherent (registered key c s)
  registered-IsCoherent = record {
    distinct_keys = insert-Distinct key c.id s.by_key v.distinct_keys;
    distinct_leases = v.distinct_leases;
    key_ok = λ k. rw (lookup-insert key k c.id s.by_key) (elim (Bool-cases (str_eq key k)) [
      | inl here ↦
          rw (here, lookup-insert, str_eq_refl c.id) (ground (arith, good.keyed, str_eq_iff key k))
      | inr other ↦ rw other (registered_key k (lookup k s.by_key) (v.key_ok k))
    ]);
    session_ok = λ j. rw (lookup-insert c.id j c s.sessions) (elim (Bool-cases (str_eq c.id j)) [
      | inl here ↦ rw here (
        ground (arith, str_eq_iff c.id j),
        ground (
          arith,
          lookup-insert key c.idempotency_key c.id s.by_key,
          good.keyed,
          str_eq_iff key c.idempotency_key,
          str_eq_iff c.id j,
        ),
        λ h. absurd (h good.is_new),
      )
      | inr other ↦ rw other (registered_session j (lookup j s.sessions) (v.session_ok j))
    ]);
    lease_ok = λ j. ground (
      arith,
      lookup-insert c.id j c s.sessions,
      v.lease_ok j,
      v.lease_ok c.id,
      str_eq_iff c.id j,
      good.is_new,
    );
  }

-- A creation with an identifier that is not in use keeps the maps in agreement.
pub create_or_get-IsCoherent :
    (key : Str) (candidate : Session) (s : Store)
    → IsCoherent s
    → IsCandidate key candidate
    → lookup candidate.id s.sessions ≡ none
    → IsCoherent (create_or_get key candidate s).1
unfolding create_or_get
create_or_get-IsCoherent key candidate s v good fresh =
    let t = cleanup candidate.created_at s in
    let w = cleanup-IsCoherent candidate.created_at s v in
    create_in_cases IsCoherent key candidate t _ (w.key_ok key) w
      (λ id st _ e. expire_ticket-IsCoherent t id st candidate.created_at w e)
      (λ free.
        registered-IsCoherent t key candidate w good free
          (still_none candidate.created_at candidate.id s v fresh))
