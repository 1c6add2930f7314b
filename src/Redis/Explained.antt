-- ===== src/Redis/Explained.antt =====
-- Every answer of a claim over Redis has its reason, whatever becomes of its calls.
use ani_session_gateway.Prelude.{
  ℕ, ◌+◌, ◌≡◌, refl, subst, true, false, Option, none, some, Str, Bytes, is_empty, ◌==◌, ==_iff,
  if-both, ◌⊎◌, inl, inr, Result, ok, err, Op, ◌>>=◌, pure, arith,
}
use ani_session_gateway.Session.Errors.{
  Error, invalid_request, conflict, failed_precondition, invalid_ticket, capacity, not_found,
  unavailable, other,
}
use ani_session_gateway.Session.Model.{Time, Session, SessionLease, ClaimLimits}
use ani_session_gateway.Redis.Server.{Server}
use ani_session_gateway.Redis.Codec.{Json, decode}
use ani_session_gateway.Redis.Scripts.{fault, Reply, ClaimCall, claim_script}
use ani_session_gateway.Redis.Operations.{
  World, read, lift, load, loaded, single_code, session_key, identity, lease_name, claim_args,
  claimed_as, claim_known, claim_and_reserve,
}
use ani_session_gateway.Redis.Faults.{IsLossy, arrival, rest_of, next, IsLossy-rest_of, call_rule}
use ani_session_gateway.Redis.Outcomes.{
  IsGrantable, IsWrongTicket, IsOver, IsFull, Verdict, Replies, Verdict-granted,
  claim_script-Replies, IsOther, decode-IsOther,
}

module _ (S : Server) (sha256 : Bytes → Bytes) (id : Str) (digest : Bytes) (now : Time)
    (limits : ClaimLimits) where
  -- The first call finds the subject and the key of the session, and the script, the second call,
  -- finds the server as `Q` says.
  abbrev pub Ran : World S.Db → (ClaimCall → S.Db → Type 0) → Type 0
  Ran w Q =
      (who : Str × Str) × (identity S (session_key id) (arrival w) ≡ some who)
      × Q (claim_args sha256 id digest now limits who) (arrival (next w (arrival w)))

  -- The reason for each answer. After a grant the session may be gone, or not be read.
  abbrev pub IsExplained : World S.Db → Result Error SessionLease → Type 0
  IsExplained w (ok l) =
      Ran w (IsGrantable S)
      × (l.id ≡ lease_name id)
      × (l.expires_at ≡ now + limits.session_max_duration)
  IsExplained w (err invalid_ticket) = Ran w (IsWrongTicket S)
  IsExplained w (err failed_precondition) = Ran w (IsOver S)
  IsExplained w (err capacity) = Ran w (IsFull S)
  IsExplained w (err unavailable) =
      IsLossy w.deliveries ⊎ Ran w (λ c d. (claim_script S c d).0 ≡ err fault)
  IsExplained w (err not_found) =
      (identity S (session_key id) (arrival w) ≡ none)
      ⊎ (Ran w (λ c d. S.exists c.key d ≡ false) ⊎ Ran w (IsGrantable S))
  IsExplained w (err other) = Ran w (IsGrantable S)
  IsExplained w (err invalid_request) = ⊥
  IsExplained w (err conflict) = ⊥

  module _ (j : Json) (w : World S.Db) where
    abbrev P : Result Error SessionLease → Type 0
    P = IsExplained w

    -- The reading of the session afterwards fails by no other sentinel.
    abbrev LoadExplained : Result Error Session → Type 0
    LoadExplained (ok s) = Unit
    LoadExplained (err not_found) = Unit
    LoadExplained (err other) = Unit
    LoadExplained (err unavailable) = IsLossy w.deliveries
    LoadExplained (err e) = ⊥

    decoded : (r : Result Error Session) → IsOther r → LoadExplained r
    unfolding IsOther
    decoded (ok s) o = tt
    decoded (err e) o = rw o tt

    loads :
        (v : World S.Db)
        → (IsLossy v.deliveries → IsLossy w.deliveries)
        → LoadExplained (load S j id v).0
    unfolding load loaded
    loads v l =
        call_rule LoadExplained (read (S.hgetall (session_key id)))
          (λ fields. lift (loaded S j fields)) v
          (λ a e.
            if-both LoadExplained (is_empty a) (λ _. tt)
              (λ _. decoded (decode j a) (decode-IsOther j a)))
          (λ e. cc) l

    abbrev to_lease : Session → Op Error (World S.Db) SessionLease
    to_lease stored = pure (record {
      id = lease_name id;
      session = stored;
      expires_at = now + limits.session_max_duration;
    })

    finish :
        Ran w (IsGrantable S)
        → (x : Result Error Session × World S.Db) → LoadExplained x.0
        → P (((λ _. x) >>= to_lease) x.1).0
    finish g (ok s, v) e = (g, refl, refl)
    finish g (err not_found, v) e = inr (inr g)
    finish g (err other, v) e = g
    finish g (err unavailable, v) e = inl e
    finish g (err invalid_request, v) e = absurd e
    finish g (err conflict, v) e = absurd e
    finish g (err failed_precondition, v) e = absurd e
    finish g (err invalid_ticket, v) e = absurd e
    finish g (err capacity, v) e = absurd e

    module _ (who : Str × Str) (found : identity S (session_key id) (arrival w) ≡ some who) where
      abbrev c : ClaimCall
      c = claim_args sha256 id digest now limits who

      abbrev d : S.Db
      d = arrival (next w (arrival w))

      by_code :
          (n : ℕ) (v : World S.Db)
          → Verdict S c d n
          → (IsLossy v.deliveries → IsLossy w.deliveries)
          → P (claimed_as S j id now limits n v).0
      unfolding claimed_as
      by_code n v says l =
          if-both Q (n == 1) (λ e. inr (inl (who, found, said 1 e)))
            (λ p.
              if-both Q (n == 2) (λ e. (who, found, said 2 e))
                (λ q.
                  if-both Q (n == 3) (λ e. (who, found, said 3 e))
                    (λ r.
                      if-both Q (n == 4) (λ e. (who, found, said 4 e))
                        (λ s.
                          finish (who, found, Verdict-granted S c d n p q r s says) (load S j id v)
                            (loads v l)))))
        where
          Q : Op Error (World S.Db) SessionLease → Type 0
          Q m = P (m v).0

          said : (m : ℕ) → (n == m) ≡ true → Verdict S c d m
          said m e = subst (Verdict S c d) ((==_iff n m).0 e) says

      after_script :
          (reply : Reply) (v : World S.Db)
          → (claim_script S c d).0 ≡ ok reply
          → (IsLossy v.deliveries → IsLossy w.deliveries)
          → P ((lift (single_code reply) >>= claimed_as S j id now limits) v).0
      unfolding Replies single_code
      after_script reply v e l =
          let (n, is_code, says) = claim_script-Replies S c d reply e in
          rw is_code (by_code n v says l)

    after_identity :
        (o : Option (Str × Str))
        → identity S (session_key id) (arrival w) ≡ o
        → P (claim_known S j sha256 id digest now limits o (next w (arrival w))).0
    unfolding claim_known
    after_identity none e = inl e
    after_identity (some who) e =
        call_rule P (claim_script S (c who e))
          (λ reply. lift (single_code reply) >>= claimed_as S j id now limits) (next w (arrival w))
          (λ reply r.
            after_script who e reply _ r
              (λ p. IsLossy-rest_of w.deliveries (IsLossy-rest_of (rest_of w.deliveries) p)))
          (λ r. inr (who, e, r)) (λ p. inl (IsLossy-rest_of w.deliveries p))

  -- Whatever other clients do between the calls of a claim, and whichever calls are lost: a lease was
  -- granted only by a script that found the session issued, the ticket right and in time, and room
  -- under both limits; a refusal has the cause that it names, as the script found it; a session is not
  -- found, or not read, only if it was not there before, at or after the script, or what was granted
  -- is no session; an unavailable store is a lost call or a failed script; and the answer is neither
  -- an invalid request nor a conflict.
  pub claim_and_reserve-IsExplained :
      (j : Json) (w : World S.Db)
      → IsExplained w (claim_and_reserve S j sha256 id digest now limits w).0
  unfolding claim_and_reserve
  claim_and_reserve-IsExplained j w =
      call_rule (IsExplained w) (read (identity S (session_key id)))
        (claim_known S j sha256 id digest now limits) w (λ o e. after_identity j w o (ground arith))
        (λ e. cc) inl
