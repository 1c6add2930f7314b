-- ===== src/Memory/History.antt =====
-- Histories of calls. The mutex makes concurrent callers one sequence, and all pass the same limits.

use ani_session_gateway.Prelude.{
  ℕ, ◌+◌, ◌≡◌, ◌≢◌, ◌≤◌, ◌<◌, refl, sym, subst, ap, ◌∙◌, inl, inr, Bool, true, false, ◌&&◌,
  Bool-cases, Option, none, some, List, [], ◌∷◌, Bytes, Str, str_eq, str_eq_iff, str_eq_refl,
  Result, ok, err, if◌then◌else◌, All, arith,
}
use ani_session_gateway.Prelude.Assoc.{lookup, lookup-insert}
use ani_session_gateway.Session.Model.{
  Time, ClaimLimits, State, issued, Session, SessionLease, is_issued,
}
use ani_session_gateway.Session.Errors.{Error}
use ani_session_gateway.Memory.{
  Store, claim_session, lease_of, cleanup, get_by_key, create_or_get, claim_and_reserve,
  close_and_release,
}
use ani_session_gateway.Memory.Invariant.{IsCoherent}
use ani_session_gateway.Memory.Lifecycle.{
  claim_and_reserve-Evolution, close_and_release-Evolution, create_or_get-EvolvesOrBorn,
  cleanup-Evolution,
}
use ani_session_gateway.Memory.Evolution.{Later, Evolves, Evolves-refl, Evolves-trans}
use ani_session_gateway.Memory.Coherence.{
  IsCandidate, claim_and_reserve-IsCoherent, close_and_release-IsCoherent, create_or_get-IsCoherent,
}
use ani_session_gateway.Memory.Capacity.{
  IsWithin, claim_and_reserve-IsWithin, close_and_release-IsWithin, create_or_get-IsWithin,
}
use ani_session_gateway.Memory.Claims.{claim_in-eq-ok}

pub data Call : Type 0 where
  create : Str → Session → Call
  read : Str → Call
  claim : Str → Bytes → Time → Call
  close : Str → Str → Str → Time → Call

abbrev is_ok {ℓ} : {E A : Type ℓ} → Result E A → Bool
is_ok (ok a) = true
is_ok (err e) = false

-- A creation comes from `Manager.Issue`, under an identifier that no stored session has.
abbrev pub Admissible : Call → Store → Type 0
Admissible (create key c) s = IsCandidate key c × (lookup c.id s.sessions ≡ none)
Admissible (read key) s = Unit
Admissible (claim id digest now) s = Unit
Admissible (close id lease_id reason now) s = Unit

-- The call makes up no session under this identifier.
abbrev pub Spares : Str → Call → Type 0
Spares id (create key c) = c.id ≢ id
Spares id (read key) = Unit
Spares id (claim j digest now) = Unit
Spares id (close j lease_id reason now) = Unit

-- How many claims a session has left in it.
abbrev pub budget : Option Session → ℕ
budget none = 0
budget (some st) = if is_issued st.state then 1 else 0

issued_before : {a b : State} → Later a b → is_issued b ≡ true → is_issued a ≡ true
issued_before Later.unchanged h = h
issued_before Later.claim h = cc
issued_before Later.expire h = cc
issued_before Later.finish h = cc

budget-Evolves-le : (o p : Option Session) → Evolves o p → budget p ≤ budget o
budget-Evolves-le none none e = omega arith
budget-Evolves-le none (some b) e = absurd e
budget-Evolves-le (some a) none e = omega arith
budget-Evolves-le (some a) (some b) e =
    ground (arith, issued_before {a = a.state} {b = b.state} e.1)

left_issued : (st : Session) (o : Option Session) → o ≡ some st → st.state ≡ issued → budget o ≡ 1
left_issued st o e h = rw (e, h) refl

-- A claim that gets a lease finds its session issued, and leaves it spent.
claim_spends :
    (id : Str) (digest : Bytes) (now : Time) (limits : ClaimLimits) (s : Store)
    {lease : SessionLease}
    → IsCoherent s
    → (claim_and_reserve id digest now limits s).0 ≡ ok lease
    → (budget (lookup id (claim_and_reserve id digest now limits s).1.sessions) ≡ 0)
      × (1 ≤ budget (lookup id s.sessions))
unfolding claim_and_reserve
claim_spends id digest now limits s v won =
    let t = cleanup now s in
    let (st, e, c, _, after) = claim_in-eq-ok t id digest now limits _ won in
    (
      rw (after, lookup-insert, str_eq_refl id) refl,
      omega (
        arith,
        budget-Evolves-le _ _ (cleanup-Evolution now s v id),
        left_issued st _ e c.open_still,
      ),
    )

still_same :
    (st found : Session) (o p : Option Session)
    → o ≡ some st
    → p ≡ some found
    → found.state ≡ issued
    → Evolves o p
    → found ≡ st
still_same st found none p e at h moved = cc
still_same st found (some a) none e at h moved = cc
still_same st found (some a) (some b) e at h moved = ground (arith, moved.2)

claim_wins-le :
    (id : Str) (digest : Bytes) (now : Time) (limits : ClaimLimits) (s : Store)
    (r : Result Error SessionLease)
    → (claim_and_reserve id digest now limits s).0 ≡ r
    → IsCoherent s
    → (if is_ok (claim_and_reserve id digest now limits s).0 then 1 else 0)
        + budget (lookup id (claim_and_reserve id digest now limits s).1.sessions)
      ≤ budget (lookup id s.sessions)
claim_wins-le id digest now limits s (ok lease) e v =
    rw e (omega (arith, claim_spends id digest now limits s v e))
claim_wins-le id digest now limits s (err x) e v =
    rw e (
      omega
        (arith, budget-Evolves-le _ _ (claim_and_reserve-Evolution id digest now limits s v id)))

module _ (limits : ClaimLimits) where
  unfoldable pub step : Call → Store → Store
  step (create key c) s = (create_or_get key c s).1
  step (read key) s = (get_by_key key s).1
  step (claim id digest now) s = (claim_and_reserve id digest now limits s).1
  step (close id lease_id reason now) s = (close_and_release id lease_id reason now s).1

  unfoldable pub run : List Call → Store → Store
  run [] s = s
  run (c ∷ cs) s = run cs (step c s)

  -- Every call of the history is admissible where it is made.
  unfoldable pub AllAdmissible : List Call → Store → Type 0
  AllAdmissible [] s = Unit
  AllAdmissible (c ∷ cs) s = Admissible c s × AllAdmissible cs (step c s)

  -- The call is a claim of this session, and gets a lease.
  unfoldable pub wins : Str → Call → Store → ℕ
  wins id (create key c) s = 0
  wins id (read key) s = 0
  wins id (claim j digest now) s =
      if str_eq j id && is_ok (claim_and_reserve j digest now limits s).0 then 1 else 0
  wins id (close j lease_id reason now) s = 0

  unfoldable pub count_wins : Str → List Call → Store → ℕ
  unfolding wins step
  count_wins id [] s = 0
  count_wins id (c ∷ cs) s = wins id c s + count_wins id cs (step c s)

  pub step-IsCoherent :
      (c : Call) (s : Store) → Admissible c s → IsCoherent s → IsCoherent (step c s)
  unfolding step get_by_key
  step-IsCoherent (create key c) s (good, fresh) v = create_or_get-IsCoherent key c s v good fresh
  step-IsCoherent (read key) s a v = v
  step-IsCoherent (claim id digest now) s a v =
      claim_and_reserve-IsCoherent id digest now limits s v
  step-IsCoherent (close id lease_id reason now) s a v =
      close_and_release-IsCoherent id lease_id reason now s v

  step-IsWithin :
      (c : Call) (s : Store) → IsCoherent s → IsWithin limits s → IsWithin limits (step c s)
  unfolding step get_by_key
  step-IsWithin (create key c) s v w = create_or_get-IsWithin limits key c s v w
  step-IsWithin (read key) s v w = w
  step-IsWithin (claim id digest now) s v w = claim_and_reserve-IsWithin limits id digest now s v w
  step-IsWithin (close id lease_id reason now) s v w =
      close_and_release-IsWithin limits id lease_id reason now s v w

  -- After any admissible history of a coherent store, whose three maps agree, they still agree.
  pub run-IsCoherent :
      (cs : List Call) (s : Store) → AllAdmissible cs s → IsCoherent s → IsCoherent (run cs s)
  unfolding run AllAdmissible
  run-IsCoherent [] s a v = v
  run-IsCoherent (c ∷ cs) s a v = run-IsCoherent cs (step c s) a.1 (step-IsCoherent c s a.0 v)

  -- After any admissible history of a coherent store within the limits, the leases that it holds
  -- are still at most `max_active`, and those of each subject at most `max_active_per_subject`.
  pub run-IsWithin :
      (cs : List Call) (s : Store)
      → AllAdmissible cs s
      → IsCoherent s
      → IsWithin limits s
      → IsWithin limits (run cs s)
  unfolding run AllAdmissible
  run-IsWithin [] s a v w = w
  run-IsWithin (c ∷ cs) s a v w =
      run-IsWithin cs (step c s) a.1 (step-IsCoherent c s a.0 v) (step-IsWithin c s v w)

  step-Evolves :
      (id : Str) (c : Call) (s : Store)
      → Spares id c
      → IsCoherent s
      → Evolves (lookup id s.sessions) (lookup id (step c s).sessions)
  unfolding step get_by_key
  step-Evolves id (create key c) s other v = elim (create_or_get-EvolvesOrBorn key c s v id) [
    | inl moved ↦ moved
    | inr born ↦ absurd (other (sym born.0))
  ]
  step-Evolves id (read key) s other v = Evolves-refl (lookup id s.sessions)
  step-Evolves id (claim j digest now) s other v =
      claim_and_reserve-Evolution j digest now limits s v id
  step-Evolves id (close j lease_id reason now) s other v =
      close_and_release-Evolution j lease_id reason now s v id

  wins-le :
      (id : Str) (c : Call) (s : Store)
      → Spares id c
      → IsCoherent s
      → wins id c s + budget (lookup id (step c s).sessions) ≤ budget (lookup id s.sessions)
  unfolding wins step get_by_key
  wins-le id (create key c) s other v =
      omega (arith, budget-Evolves-le _ _ (step-Evolves id (create key c) s other v))
  wins-le id (read key) s other v = omega arith
  wins-le id (close j lease_id reason now) s other v =
      omega (arith, budget-Evolves-le _ _ (step-Evolves id (close j lease_id reason now) s other v))
  wins-le id (claim j digest now) s other v = elim (Bool-cases (str_eq j id)) [
    | inl here ↦ rw here (
        subst
          (λ i.
            (if is_ok (claim_and_reserve j digest now limits s).0 then 1 else 0)
              + budget (lookup i (claim_and_reserve j digest now limits s).1.sessions)
            ≤ budget (lookup i s.sessions))
          ((str_eq_iff j id).0 here) (claim_wins-le j digest now limits s _ refl v))
    | inr there ↦ rw there (
        omega
          (arith, budget-Evolves-le _ _ (claim_and_reserve-Evolution j digest now limits s v id)))
  ]

  -- Whatever the admissible calls and their order, a session is claimed at most as often as its
  -- budget says, once while it is issued and never after, and what is left of the budget bounds
  -- the claims to come. No call may create a session under the same identifier.
  pub count_wins-le :
      (id : Str) (cs : List Call) (s : Store)
      → All (Spares id) cs
      → AllAdmissible cs s
      → IsCoherent s
      → count_wins id cs s + budget (lookup id (run cs s).sessions) ≤ budget (lookup id s.sessions)
  unfolding count_wins run AllAdmissible
  count_wins-le id [] s spared a v = omega arith
  count_wins-le id (c ∷ cs) s spared a v = omega (
    arith,
    wins-le id c s spared.0 v,
    count_wins-le id cs (step c s) spared.1 a.1 (step-IsCoherent c s a.0 v),
  )

  -- Over any admissible history of a coherent store a session keeps its intent, its state only moves
  -- forward, or it is dropped; what is dropped does not come back, unless a call creates it again.
  pub run-Evolves :
      (id : Str) (cs : List Call) (s : Store)
      → All (Spares id) cs
      → AllAdmissible cs s
      → IsCoherent s
      → Evolves (lookup id s.sessions) (lookup id (run cs s).sessions)
  unfolding run AllAdmissible
  run-Evolves id [] s spared a v = Evolves-refl (lookup id s.sessions)
  run-Evolves id (c ∷ cs) s spared a v =
      Evolves-trans _ _ _ (step-Evolves id c s spared.0 v)
        (run-Evolves id cs (step c s) spared.1 a.1 (step-IsCoherent c s a.0 v))

  -- However the calls before it run, a claim of a stored session gets a lease only with the digest
  -- of that session's own ticket, and only while the session is the one that was stored.
  pub claim-run-digest :
      (id : Str) (st : Session) (cs : List Call) (s : Store) (digest : Bytes) (now : Time)
      {lease : SessionLease}
      → lookup id s.sessions ≡ some st
      → All (Spares id) cs
      → AllAdmissible cs s
      → IsCoherent s
      → (claim_and_reserve id digest now limits (run cs s)).0 ≡ ok lease
      → (digest ≡ st.ticket_digest)
        × (st.state ≡ issued)
        × (now < st.ticket_expires_at)
        × (lease ≡ lease_of id (claim_session id st now limits))
  unfolding claim_and_reserve
  claim-run-digest id st cs s digest now e spared a v h =
      let (found, at, c, given, _) =
        claim_in-eq-ok (cleanup now (run cs s)) id digest now limits _ h in
      let moved =
        Evolves-trans _ _ _ (run-Evolves id cs s spared a v)
          (cleanup-Evolution now (run cs s) (run-IsCoherent cs s a v) id) in
      let same : found ≡ st =
        still_same st found (lookup id s.sessions) _ e at c.open_still moved in
      (
        sym c.right_ticket ∙ ap (λ (x : Session). x.ticket_digest) same,
        subst (λ (x : Session). x.state ≡ issued) same c.open_still,
        subst (λ (x : Session). now < x.ticket_expires_at) same c.in_time,
        given ∙ ap (λ (x : Session). lease_of id (claim_session id x now limits)) same,
      )
