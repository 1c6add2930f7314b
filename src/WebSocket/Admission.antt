-- ===== src/WebSocket/Admission.antt =====
-- An admission leaves no lease behind, over the memory store.
use ani_session_gateway.Prelude.{
  ℕ, ok-injective, ◌≡◌, refl, sym, ap, ◌∙◌, subst, not, if-both, Option, none, some, List, Str, str,
  Bytes, is_empty, Result, ok, err,
}
use ani_session_gateway.Prelude.Assoc.{lookup}
use ani_session_gateway.Session.Errors.{Error}
use ani_session_gateway.Session.Model.{Time, SessionLease, ClaimedAccess}
use ani_session_gateway.Memory.{Store, cleanup, claim_and_reserve, close_and_release, lease_name}
use ani_session_gateway.Memory.Invariant.{IsCoherent}
use ani_session_gateway.Memory.Coherence.{claim_and_reserve-IsCoherent}
use ani_session_gateway.Memory.Claims.{claim_in-eq-ok}
use ani_session_gateway.Memory.Release.{
  IsNamed, claim_and_reserve-IsNamed, close_and_release-leases_none,
}
use ani_session_gateway.Memory.Laws.{memory_store, claim_and_reserve-IsGranted}
use ani_session_gateway.Manager.Config.{Primitives, ManagerConfig, access_of, granted, limits_of}
use ani_session_gateway.Manager.Calls.{World, claim, close}
use ani_session_gateway.Manager.Made.{store-notify}
use ani_session_gateway.Connected.{Policy, Accepted, outcome_str}
use ani_session_gateway.Connected.Frames.{Json}
use ani_session_gateway.Connected.Running.{Environment, Report, run, run-IsReport}
use ani_session_gateway.WebSocket.{
  HttpRequest, Clock, Reply, status, upgrade_failed, ran, claim_status, origin_allowed,
  offers_known_subprotocol, expected_subprotocol, release, connect, after_claim, serve,
}
use ani_session_gateway.WebSocket.Headers.{offers_subprotocol}

module _ (p : Primitives) (c : ManagerConfig) (json : Json) (policy : Policy) (env : Environment)
    (allowed : List Str) (times : Clock) where
  -- A claim that was granted names the session that was asked for, and its lease.
  claim_and_reserve-named :
      (id : Str) (digest : Bytes) (now : Time) (s : Store) (lease : SessionLease)
      → IsCoherent s
      → (claim_and_reserve id digest now (limits_of c) s).0 ≡ ok lease
      → (lease.session.id ≡ id) × (lease.id ≡ lease_name id)
  unfolding claim_and_reserve
  claim_and_reserve-named id digest now s lease v h =
      let (st, _, _, given, _) = claim_in-eq-ok (cleanup now s) id digest now (limits_of c) _ h in
      (
        (claim_and_reserve-IsGranted id digest now (limits_of c) lease s v h).same_id,
        ap (λ (l : SessionLease). l.id) given,
      )

  granted-named :
      (id : Str) (digest : Bytes) (now : Time) (s : Store) (answer : Result Error SessionLease)
      {access : ClaimedAccess}
      → IsCoherent s
      → (claim_and_reserve id digest now (limits_of c) s).0 ≡ answer
      → granted answer ≡ ok access
      → (access.session_id ≡ id) × (access.lease_id ≡ lease_name id)
  granted-named id digest now s (err e) v h k = cc
  granted-named id digest now s (ok lease) v h k =
      let (same, named) = claim_and_reserve-named id digest now s lease v h in
      let e : access_of lease ≡ _ = ok-injective k in
      (
        ap (λ (a : ClaimedAccess). a.session_id) (sym e) ∙ same,
        ap (λ (a : ClaimedAccess). a.lease_id) (sym e) ∙ named,
      )

  -- The claim of a request.
  abbrev pub claimed : HttpRequest → World Store → Result Error ClaimedAccess × World Store
  claimed r w = claim memory_store p c r.session_id r.ticket times.claimed_at w

  -- How a request may have been served: it was refused before its claim, its claim was rejected, its
  -- session is left without a lease, or its session still runs.
  pub data IsServed (r : HttpRequest) (w : World Store) (x : Reply × World Store) : Type 0 where
    untouched : (n : ℕ) → x ≡ (status n, w) → IsServed r w x
    rejected :
        (e : Error)
        → (claimed r w).0 ≡ err e
        → x ≡ (status (claim_status e), (claimed r w).1)
        → IsServed r w x
    released :
        (access : ClaimedAccess)
        → (claimed r w).0 ≡ ok access
        → lookup r.session_id x.1.store.leases ≡ none
        → IsServed r w x
    running :
        (access : ClaimedAccess) → (claimed r w).0 ≡ ok access → x.0 ≡ ran none → IsServed r w x

  module _ (r : HttpRequest) (w : World Store) (v : IsCoherent w.store) (n : IsNamed w.store) where
    claimed-IsCoherent : IsCoherent (claimed r w).1.store
    unfolding claim
    claimed-IsCoherent = subst IsCoherent (sym (store-notify c _ _)) (
        claim_and_reserve-IsCoherent r.session_id (p.sha256 r.ticket) times.claimed_at (limits_of c)
          w.store v)

    claimed-IsNamed : IsNamed (claimed r w).1.store
    unfolding claim
    claimed-IsNamed = subst IsNamed (sym (store-notify c _ _)) (
        claim_and_reserve-IsNamed r.session_id (p.sha256 r.ticket) times.claimed_at (limits_of c)
          w.store v n)

    claimed-named :
        (access : ClaimedAccess)
        → (claimed r w).0 ≡ ok access
        → (access.session_id ≡ r.session_id) × (access.lease_id ≡ lease_name r.session_id)
    unfolding claim
    claimed-named access h =
        granted-named r.session_id (p.sha256 r.ticket) times.claimed_at w.store _ v refl h

    close-leases_none :
        (access : ClaimedAccess) (reason : Str) (now : Time)
        → (claimed r w).0 ≡ ok access
        → lookup r.session_id
            (close_and_release access.session_id access.lease_id reason now
              (claimed r w).1.store).1.leases
          ≡ none
    close-leases_none access reason now h =
        let (same, named) = claimed-named access h in
        rw (same, named)
          (close_and_release-leases_none r.session_id reason now (claimed r w).1.store
            claimed-IsCoherent claimed-IsNamed)

    release-IsServed :
        (access : ClaimedAccess) (reason : Str) (reply : Reply)
        → (claimed r w).0 ≡ ok access
        → IsServed r w (
            release memory_store p c json policy env allowed times access reason reply
              (claimed r w).1)
    unfolding close
    release-IsServed access reason reply h =
        released access h (close-leases_none access reason times.released_at h)

    abbrev accepted_of : ClaimedAccess → Accepted
    accepted_of access = record {
      access = access;
      subprotocol = some (expected_subprotocol access.mode);
    }

    connect-IsServed :
        (access : ClaimedAccess) (o : Option Report)
        → (claimed r w).0 ≡ ok access
        → (run memory_store p c json policy env (accepted_of access) (claimed r w).1).0 ≡ o
        → IsServed r w
            (connect memory_store p c json policy env allowed times r access (claimed r w).1)
    connect-IsServed access none h e = running access h (ap ran e)
    connect-IsServed access (some report) h e =
        let report_is =
          run-IsReport memory_store p c json policy env (accepted_of access) (claimed r w).1 e in
        released access h (
          ap (λ (s : Store). lookup r.session_id s.leases) report_is.store
          ∙ close-leases_none access (outcome_str report.finish.outcome) env.closed_at h)

    after_claim-IsServed :
        (answer : Result Error ClaimedAccess)
        → (claimed r w).0 ≡ answer
        → IsServed r w
            (after_claim memory_store p c json policy env allowed times r answer (claimed r w).1)
    unfolding after_claim
    after_claim-IsServed (err e) h = rejected e h refl
    after_claim-IsServed (ok access) h =
        if-both (IsServed r w)
          (not (offers_subprotocol r.protocols (expected_subprotocol access.mode)))
          (λ _. release-IsServed access (str "subprotocol_rejected") (status 400) h)
          (λ _.
            if-both (IsServed r w) r.upgrades (λ _. connect-IsServed access _ h refl)
              (λ _. release-IsServed access (str "upgrade_failed") upgrade_failed h))

    -- However a WebSocket request is answered over a coherent memory store whose leases bear the names
    -- that claims give them: it was refused and the store is as it was, or its claim was rejected and
    -- the status is that of the error, or the session that it claimed is left without a lease, or that
    -- session still runs.
    pub serve-IsServed : IsServed r w (serve memory_store p c json policy env allowed times r w)
    unfolding serve
    serve-IsServed =
        if-both (IsServed r w) (not (origin_allowed allowed r.origin)) (λ _. untouched 403 refl)
          (λ _.
            if-both (IsServed r w) (not (offers_known_subprotocol r.protocols))
              (λ _. untouched 400 refl)
              (λ _.
                if-both (IsServed r w) (is_empty r.ticket) (λ _. untouched 401 refl)
                  (λ _. after_claim-IsServed (claimed r w).0 refl)))
