-- ===== src/Redis/Claims.antt =====
-- A claim over Redis does what a claim over the memory store does.
use ani_session_gateway.Prelude.{
  ℕ, ◌+◌, ◌<◌, ◌≡◌, refl, sym, subst, ap, ◌∙◌, true, false, not, ◌||◌, some, [], ◌∷◌, Str, Bytes,
  str, str_eq, length, ltb, leb, Result, ok, err, arith, Bool-cases, inl, inr,
}
use ani_session_gateway.Prelude.Assoc.{lookup}
use ani_session_gateway.Session.Errors.{Error, failed_precondition, invalid_ticket, capacity}
use ani_session_gateway.Session.Model.{Time, Session, SessionLease, ClaimLimits, is_issued}
use ani_session_gateway.Session.Encoding.{hex}
use ani_session_gateway.Memory.{
  Store, claim_in, close_session, claim_session, lease_of, subject_active, granted, expire_ticket,
}
use ani_session_gateway.Redis.Server.{Server, ServerLaws, row}
use ani_session_gateway.Redis.Codec.{Json, unix_milli}
use ani_session_gateway.Redis.Stored.{Holds}
use ani_session_gateway.Redis.Scripts.{
  integer, ClaimCall, expired_fields, or_text, claim_checked, claim_granted, claim_script, purged,
  different, hset_all,
}
use ani_session_gateway.Redis.Operations.{session_key, claimed_as, claim_and_reserve}
use ani_session_gateway.Redis.Rows.{
  calm, different-eq, str_eq-hex, unless_late_closed, unless_late_late, unless_late_in_time,
  row-hset_all, load-Holds,
}
use ani_session_gateway.Redis.Changes.{closed-Holds, claimed-Holds}
use ani_session_gateway.Redis.Agreement.{map_ok, Agrees, lookup-insert_self}
use ani_session_gateway.Redis.Calls.{
  lease_in_millis, call_for, claimed_as-load, claim_of_script, purged-Holds, claim_script-eq,
  IsReady,
}
use ani_session_gateway.Redis.Granting.{after, row-after_fields, claim_session-IsStorable}

module _ (S : Server) (L : ServerLaws S) (j : Json) (sha256 : Bytes → Bytes) (id : Str)
    (digest : Bytes) (now : Time) (limits : ClaimLimits) (st : Session) where
  abbrev c : ClaimCall
  c = call_for sha256 id digest now limits st

  abbrev Goal : S.Db → Store → Type 0
  Goal d t =
      Agrees S j id lease_in_millis (claim_and_reserve S j sha256 id digest now limits (calm d))
        (claim_in (some st) id digest now limits t)

  -- A refusal of the script, with the session that it leaves.
  refused :
      (d d' : S.Db) (t : Store) (n : ℕ) (s' : Session) (m : Result Error SessionLease × Store)
      → Holds j (row S (session_key id) d) st
      → claim_script S c d ≡ (ok (integer n ∷ []), d')
      → claim_in (some st) id digest now limits t ≡ m
      → (claimed_as S j id now limits n (calm d') ≡ (map_ok lease_in_millis m.0, calm d'))
      → lookup id m.1.sessions ≡ some s'
      → Holds j (row S (session_key id) d') s'
      → Goal d t
  refused d d' t n s' m h script memory answer stored held =
      rw (claim_of_script S L j sha256 id digest now limits st d d' n h script, memory, answer)
        (record { same_answer = refl; session = s'; is_stored = stored; is_held = held })

  module _ (d : S.Db) (t : Store) (v : IsReady S L j sha256 id digest now limits st d t) where
    held : Holds j (row S (session_key id) (purged S c d)) st
    held = purged-Holds S L j sha256 id digest now limits st d v.holds

    closed_already : is_issued st.state ≡ false → Goal d t
    closed_already e =
        refused d (purged S c d) t 3 st (err failed_precondition, t) v.holds
          (claim_script-eq S L j sha256 id digest now limits st d v.holds
            ∙ unless_late_closed S st.ticket_expires_at now (session_key id) (integer 3 ∷ [])
                (claim_checked S c) (purged S c d) e)
          (unfold claim_in in rw e refl) (unfold claimed_as in refl) v.is_stored held

    module _ (open_still : is_issued st.state ≡ true) where
      expired : ltb now st.ticket_expires_at ≡ false → Goal d t
      expired l =
          refused d (hset_all S (session_key id) (expired_fields (unix_milli now)) (purged S c d)) t
            3 (close_session st now (str "ticket_expired"))
            (err failed_precondition, expire_ticket id st now t) v.holds
            (claim_script-eq S L j sha256 id digest now limits st d v.holds
              ∙ unless_late_late S st.ticket_expires_at now (session_key id) (integer 3 ∷ [])
                  (claim_checked S c) (purged S c d) v.exact open_still l)
            (unfold claim_in in rw (open_still, l) refl) (unfold claimed_as in refl)
            (rw open_still (lookup-insert_self id _ t.sessions))
            (subst (λ r. Holds j r (close_session st now (str "ticket_expired")))
              (sym (
                row-hset_all S L (session_key id) (expired_fields (unix_milli now)) (purged S c d)))
              (closed-Holds j (row S (session_key id) (purged S c d)) st now held
                (str "ticket_expired")))

      module _ (in_time : ltb now st.ticket_expires_at ≡ true) where
        checked : claim_script S c d ≡ claim_checked S c (purged S c d)
        checked =
            claim_script-eq S L j sha256 id digest now limits st d v.holds
            ∙ unless_late_in_time S st.ticket_expires_at now (session_key id) (integer 3 ∷ [])
                (claim_checked S c) (purged S c d) v.exact open_still in_time

        digest_test :
            different
              (or_text (S.hget (session_key id) (str "ticket_digest") (purged S c d)) [])
              (hex digest)
            ≡ not (str_eq st.ticket_digest digest)
        digest_test =
            ap (λ o. different (or_text o []) (hex digest)) held.ticket_digest
            ∙ (different-eq (hex st.ticket_digest) (hex digest)
                ∙ ap not
                    (str_eq-hex st.ticket_digest digest v.storable.digest_bytes v.digest_bytes))

        wrong_ticket : str_eq st.ticket_digest digest ≡ false → Goal d t
        wrong_ticket w =
            refused d (purged S c d) t 2 st (err invalid_ticket, t) v.holds
              (checked ∙ (unfold claim_checked in rw (digest_test, w) refl))
              (unfold claim_in in rw (open_still, in_time, w) refl) (unfold claimed_as in refl)
              v.is_stored held

        module _ (right : str_eq st.ticket_digest digest ≡ true) where
          memory_full :
              leb limits.max_active (length t.leases)
                  || leb limits.max_active_per_subject (subject_active st.subject_id t)
                ≡ true
              → claim_in (some st) id digest now limits t ≡ (err capacity, t)
          unfolding claim_in
          memory_full f = rw (open_still, in_time, right) (ground arith)

          full :
              leb limits.max_active (length t.leases)
                  || leb limits.max_active_per_subject (subject_active st.subject_id t)
                ≡ true
              → Goal d t
          full f =
              refused d (purged S c d) t 4 st (err capacity, t) v.holds
                (checked
                  ∙ (unfold claim_checked in
                      rw (digest_test, right, v.leases, v.subject_leases, f) refl))
                (memory_full f) (unfold claimed_as in refl) v.is_stored held

          in_future :
              L.time (purged S c d)
              < unix_milli (now + limits.session_max_duration + limits.idempotency_ttl)
          in_future =
              rw
                (
                  L.time-zremrangebyscore c.subject_leases c.now
                      (S.zremrangebyscore c.all_leases c.now d),
                  L.time-zremrangebyscore c.all_leases c.now d,
                )
                v.in_future

          abbrev after' : S.Db
          after' = after S L c (purged S c d) in_future

          after-Holds : Holds j (row S (session_key id) after') (claim_session id st now limits)
          after-Holds =
              subst (λ r. Holds j r (claim_session id st now limits))
                (sym (row-after_fields S L c (purged S c d) in_future))
                (claimed-Holds j (row S (session_key id) (purged S c d)) st now held id limits)

          memory_grants :
              leb limits.max_active (length t.leases)
                  || leb limits.max_active_per_subject (subject_active st.subject_id t)
                ≡ false
              → claim_in (some st) id digest now limits t
                ≡ (ok (lease_of id (claim_session id st now limits)), granted id st now limits t)
          unfolding claim_in
          memory_grants f = rw (open_still, in_time, right) (ground arith)

          room :
              leb limits.max_active (length t.leases)
                  || leb limits.max_active_per_subject (subject_active st.subject_id t)
                ≡ false
              → Goal d t
          room f =
              rw
                (
                  claim_of_script S L j sha256 id digest now limits st d after' 0 v.holds (
                      checked
                      ∙ (unfold claim_checked in
                          unfold claim_granted in
                          rw (digest_test, right, v.leases, v.subject_leases, f) refl)),
                  claimed_as-load S j id now limits (calm after') (calm after') (
                      load-Holds S L j id (claim_session id st now limits) after'
                        (claim_session-IsStorable j id st now limits v.storable v.until_63)
                        after-Holds),
                  memory_grants f,
                )
                (record {
                  same_answer = refl;
                  session = claim_session id st now limits;
                  is_stored = lookup-insert_self id _ t.sessions;
                  is_held = after-Holds;
                })

  -- The answer is that of the memory store, with the times of the session cut to milliseconds.
  pub claim_and_reserve-Agrees :
      (d : S.Db) (t : Store)
      → IsReady S L j sha256 id digest now limits st d t
      → Agrees S j id lease_in_millis
          (claim_and_reserve S j sha256 id digest now limits (calm d))
          (claim_in (some st) id digest now limits t)
  claim_and_reserve-Agrees d t v = elim (Bool-cases (is_issued st.state)) [
    | inr e ↦ closed_already d t v e
    | inl open_still ↦ elim (Bool-cases (ltb now st.ticket_expires_at)) [
      | inr l ↦ expired d t v open_still l
      | inl in_time ↦ elim (Bool-cases (str_eq st.ticket_digest digest)) [
        | inr w ↦ wrong_ticket d t v open_still in_time w
        | inl right ↦
            elim (Bool-cases (
              leb limits.max_active (length t.leases)
              || leb limits.max_active_per_subject (subject_active st.subject_id t))) [
                | inl f ↦ full d t v open_still in_time right f
                | inr f ↦ room d t v open_still in_time right f
              ]
      ]
    ]
  ]
