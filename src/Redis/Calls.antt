-- ===== src/Redis/Calls.antt =====
-- The calls of a claim where the hash holds the session, and when both stores are ready for it.
use mathlib.Core.Path.{fun_ext}
use ani_session_gateway.Prelude.{
  ℕ, ◌+◌, ◌<◌, ◌^◌, ◌≡◌, refl, sym, subst, ap, ◌∙◌, some, [], ◌∷◌, Str, Bytes, length, All, ◌>>=◌,
  pure, Result, ok,
}
use ani_session_gateway.Prelude.Assoc.{lookup}
use ani_session_gateway.Session.Errors.{Error}
use ani_session_gateway.Session.Model.{Time, Session, SessionLease, ClaimLimits, is_issued}
use ani_session_gateway.Session.Reads.{IsByte}
use ani_session_gateway.Memory.{Store, subject_active}
use ani_session_gateway.Redis.Server.{Server, ServerLaws, row}
use ani_session_gateway.Redis.Codec.{Json, unix_milli}
use ani_session_gateway.Redis.Stored.{Holds, IsStorable, in_millis, whole}
use ani_session_gateway.Redis.Scripts.{
  integer, ClaimCall, unless_late, claim_checked, claim_existing, claim_script, purged,
}
use ani_session_gateway.Redis.Operations.{
  World, load, call, session_key, global_leases_key, subject_leases_key, claim_args, lease_name,
  claimed_as, claim_known, claim_and_reserve, single_code,
}
use ani_session_gateway.Redis.Rows.{calm, issued_field, ticket_exp-Holds}

-- The lease with the times of its session cut to whole milliseconds.
abbrev pub lease_in_millis : SessionLease → SessionLease
lease_in_millis l = record l { session = in_millis l.session }

-- The script's arguments for the session that the hash holds.
abbrev pub call_for : (Bytes → Bytes) → Str → Bytes → Time → ClaimLimits → Session → ClaimCall
call_for sha256 id digest now limits st =
    claim_args sha256 id digest now limits (st.subject_id, st.idempotency_key)

pub claimed_as-load :
    (S : Server) (j : Json) (id : Str) (now : Time) (limits : ClaimLimits) (w v : World S.Db)
    {s : Session}
    → load S j id w ≡ (ok s, v)
    → claimed_as S j id now limits 0 w ≡ (
      ok (record {
        id = lease_name id;
        session = s;
        expires_at = now + limits.session_max_duration;
      }),
      v,
    )
unfolding claimed_as
claimed_as-load S j id now limits w v e =
    ap
      (λ (p : Result Error Session × World S.Db).
        ((λ _. p) >>= λ stored. pure (record {
          id = lease_name id;
          session = stored;
          expires_at = now + limits.session_max_duration;
        }))
          w)
      e

module _ (S : Server) (L : ServerLaws S) (j : Json) (sha256 : Bytes → Bytes) (id : Str)
    (digest : Bytes) (now : Time) (limits : ClaimLimits) (st : Session) where
  abbrev pub c : ClaimCall
  c = call_for sha256 id digest now limits st

  pub claim_of_script :
      (d d' : S.Db) (n : ℕ)
      → Holds j (row S (session_key id) d) st
      → claim_script S c d ≡ (ok (integer n ∷ []), d')
      → claim_and_reserve S j sha256 id digest now limits (calm d)
        ≡ claimed_as S j id now limits n (calm d')
  unfolding claim_and_reserve claim_known call single_code
  claim_of_script d d' n h e = rw (h.subject_id, h.idempotency_key, e) refl

  pub purged-Holds :
      (d : S.Db)
      → Holds j (row S (session_key id) d) st
      → Holds j (row S (session_key id) (purged S c d)) st
  purged-Holds d h =
      subst (λ r. Holds j r st)
        (fun_ext λ f. sym (L.hget-zremrangebyscore _ _ f _ _ ∙ L.hget-zremrangebyscore _ _ f _ d)) h

  pub claim_script-eq :
      (d : S.Db)
      → Holds j (row S (session_key id) d) st
      → claim_script S c d
        ≡ unless_late S
            (is_issued st.state)
            (some (unix_milli st.ticket_expires_at))
            (session_key id)
            (unix_milli now)
            (integer 3 ∷ [])
            (claim_checked S c)
            (purged S c d)
  unfolding claim_script claim_existing
  claim_script-eq d h =
      let p = purged-Holds d h in
      rw (L.exists-hget _ _ _ d h.id) (λ i.
        unless_late S (issued_field S L j (session_key id) (purged S c d) st p i)
          (ticket_exp-Holds S L j (session_key id) (purged S c d) st p i) (session_key id)
          (unix_milli now) (integer 3 ∷ []) (claim_checked S c) (purged S c d))

  -- The hash holds the session, which the code made, and its ticket runs out on a whole millisecond.
  pub record IsReady (d : S.Db) (t : Store) : Type 0 where
    pub holds : Holds j (row S (session_key id) d) st
    pub storable : IsStorable j st
    pub exact : whole st.ticket_expires_at ≡ st.ticket_expires_at
    pub is_stored : lookup id t.sessions ≡ some st
    pub digest_bytes : All IsByte digest
    pub leases : S.zcard global_leases_key (purged S c d) ≡ length t.leases
    pub subject_leases :
        S.zcard (subject_leases_key sha256 st.subject_id) (purged S c d)
        ≡ subject_active st.subject_id t
    pub in_future :
        L.time d < unix_milli (now + limits.session_max_duration + limits.idempotency_ttl)
    pub until_63 : unix_milli (now + limits.session_max_duration + limits.idempotency_ttl) < 2 ^ 63
