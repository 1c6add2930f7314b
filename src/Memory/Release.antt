-- ===== src/Memory/Release.antt =====
-- Every lease bears the name that its session gives it, so a close under that name releases it.
use ani_session_gateway.Prelude.{
  ◌≡◌, refl, sym, List, ◌∷◌, inl, inr, Bool-cases, Option, none, some, [], Str, Bytes, str_eq_iff,
  str_eq_refl, arith,
}
use ani_session_gateway.Prelude.Assoc.{lookup, lookup-insert, lookup-remove}
use ani_session_gateway.Session.Model.{
  Time, ClaimLimits, Session, SessionLease, is_issued, is_claimed,
}
use ani_session_gateway.Memory.{
  Store, new, cleanup, create_or_get, claim_and_reserve, close_and_release, close_in, released,
  granted, expire_ticket, lease_name, lease_of, claim_session, get_by_key,
}
use ani_session_gateway.Memory.Invariant.{IsCoherent, Fits}
use ani_session_gateway.Memory.Cleanup.{cleanup-IsCoherent}
use ani_session_gateway.Memory.Cases.{claim_in_cases, close_in_cases, create_in_cases}
use ani_session_gateway.Memory.History.{
  Call, create, read, claim, close, step, run, AllAdmissible, step-IsCoherent,
}
use ani_session_gateway.Memory.Expiry.{cleanup-leases_live}

abbrev pub IsNamed : Store → Type 0
IsNamed s = (id : Str) (l : SessionLease) → lookup id s.leases ≡ some l → l.id ≡ lease_name id

pub new-IsNamed : IsNamed new
unfolding lookup
new-IsNamed id l h = cc

cleanup-IsNamed : (now : Time) (s : Store) → IsCoherent s → IsNamed s → IsNamed (cleanup now s)
cleanup-IsNamed now s v n id l h = n id l (cleanup-leases_live now id s l v h).1

expire_ticket-IsNamed :
    (id : Str) (st : Session) (now : Time) (s : Store)
    → IsNamed s
    → IsNamed (expire_ticket id st now s)
expire_ticket-IsNamed id st now s n = elim (Bool-cases (is_issued st.state)) [
  | inl open_still ↦ rw open_still n
  | inr other ↦ rw other n
]

granted-IsNamed :
    (id : Str) (st : Session) (now : Time) (limits : ClaimLimits) (s : Store)
    → IsNamed s
    → IsNamed (granted id st now limits s)
granted-IsNamed id st now limits s n j l h = ground (
  arith,
  lookup-insert id j (lease_of id (claim_session id st now limits)) s.leases,
  str_eq_iff id j,
  n j l,
)

released-IsNamed :
    (id : Str) (st : Session) (reason : Str) (now : Time) (s : Store)
    → IsNamed s
    → IsNamed (released id st reason now s)
released-IsNamed id st reason now s n j l h =
    ground (arith, lookup-remove id j s.leases, str_eq_iff id j, n j l)

pub create_or_get-IsNamed :
    (key : Str) (c : Session) (s : Store)
    → IsCoherent s
    → IsNamed s
    → IsNamed (create_or_get key c s).1
unfolding create_or_get
create_or_get-IsNamed key c s v n =
    let t = cleanup c.created_at s in
    let m = cleanup-IsNamed c.created_at s v n in
    create_in_cases IsNamed key c t _ ((cleanup-IsCoherent c.created_at s v).key_ok key) m
      (λ id st _ _. expire_ticket-IsNamed id st c.created_at t m) (λ _. m)

pub claim_and_reserve-IsNamed :
    (id : Str) (digest : Bytes) (now : Time) (limits : ClaimLimits) (s : Store)
    → IsCoherent s
    → IsNamed s
    → IsNamed (claim_and_reserve id digest now limits s).1
unfolding claim_and_reserve
claim_and_reserve-IsNamed id digest now limits s v n =
    let t = cleanup now s in
    let m = cleanup-IsNamed now s v n in
    claim_in_cases IsNamed id digest now limits t _ m (λ st _. expire_ticket-IsNamed id st now t m)
      (λ st _ _. granted-IsNamed id st now limits t m)

pub close_and_release-IsNamed :
    (id lease_id reason : Str) (now : Time) (s : Store)
    → IsCoherent s
    → IsNamed s
    → IsNamed (close_and_release id lease_id reason now s).1
unfolding close_and_release
close_and_release-IsNamed id lease_id reason now s v n =
    let t = cleanup now s in
    let m = cleanup-IsNamed now s v n in
    close_in_cases IsNamed id lease_id reason now t _ m
      (λ st _ _ _. released-IsNamed id st reason now t m)

close_in-leases_none :
    (id reason : Str) (now : Time) (s : Store) (o : Option Session) (held : Option SessionLease)
    → lookup id s.leases ≡ held
    → Fits o held
    → IsNamed s
    → lookup id (close_in o id (lease_name id) reason now s).1.leases ≡ none
unfolding close_in
close_in-leases_none id reason now s none none e fits n = e
close_in-leases_none id reason now s none (some l) e fits n = absurd fits
close_in-leases_none id reason now s (some st) none e fits n =
    ground (arith, lookup-remove id id s.leases, str_eq_refl id)
close_in-leases_none id reason now s (some st) (some l) e (is_claimed, same, _, _) n =
    rw (is_claimed, sym same, n id l e, str_eq_refl (lease_name id))
      (ground (arith, lookup-remove id id s.leases, str_eq_refl id))

-- Closing a session under the name of its lease releases the lease, whatever state the session is
-- in, in a coherent store in which leases bear the names that claims give them.
pub close_and_release-leases_none :
    (id reason : Str) (now : Time) (s : Store)
    → IsCoherent s
    → IsNamed s
    → lookup id (close_and_release id (lease_name id) reason now s).1.leases ≡ none
unfolding close_and_release
close_and_release-leases_none id reason now s v n =
    close_in-leases_none id reason now (cleanup now s) _ _ refl
      ((cleanup-IsCoherent now s v).lease_ok id) (cleanup-IsNamed now s v n)

module _ (limits : ClaimLimits) where
  step-IsNamed : (c : Call) (s : Store) → IsCoherent s → IsNamed s → IsNamed (step limits c s)
  unfolding step get_by_key
  step-IsNamed (create key c) s v n = create_or_get-IsNamed key c s v n
  step-IsNamed (read key) s v n = n
  step-IsNamed (claim id digest now) s v n = claim_and_reserve-IsNamed id digest now limits s v n
  step-IsNamed (close id lease_id reason now) s v n =
      close_and_release-IsNamed id lease_id reason now s v n

  pub run-IsNamed :
      (cs : List Call) (s : Store)
      → AllAdmissible limits cs s
      → IsCoherent s
      → IsNamed s
      → IsNamed (run limits cs s)
  unfolding run AllAdmissible
  run-IsNamed [] s a v n = n
  run-IsNamed (c ∷ cs) s a v n =
      run-IsNamed cs (step limits c s) a.1 (step-IsCoherent limits c s a.0 v) (step-IsNamed c s v n)
