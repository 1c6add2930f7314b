-- ===== src/Redis/Replays.antt =====
-- A creation under a key that is taken, over Redis and over the memory store.
use ani_session_gateway.Prelude.{
  ℕ, ◌≡◌, refl, sym, subst, ap, ◌∙◌, Bool, true, false, some, [], ◌∷◌, Str, Bytes, str, str_eq, All,
  ltb, Result, ok, err, Op, Bool-cases, inl, inr,
}
use ani_session_gateway.Prelude.Assoc.{lookup}
use ani_session_gateway.Session.Errors.{Error, conflict, failed_precondition}
use ani_session_gateway.Session.Model.{Session, is_issued}
use ani_session_gateway.Session.Encoding.{hex}
use ani_session_gateway.Session.Reads.{IsByte}
use ani_session_gateway.Memory.{Store, replay_existing, close_session, expire_ticket}
use ani_session_gateway.Redis.Server.{Server, ServerLaws, row}
use ani_session_gateway.Redis.Codec.{Json, unix_milli}
use ani_session_gateway.Redis.Stored.{Holds, IsStorable, whole}
use ani_session_gateway.Redis.Scripts.{
  Fault, Reply, integer, bulk, unless_late, expired_fields, replay_script, create_at, create_script,
  hset_all,
}
use ani_session_gateway.Redis.Operations.{
  session_key, idem_key, create_call, created, create_or_get,
}
use ani_session_gateway.Redis.Rows.{
  calm, issued_field, ticket_exp-Holds, str_eq-hex, unless_late_closed, unless_late_late,
  unless_late_in_time, row-hset_all, load-Holds,
}
use ani_session_gateway.Redis.Changes.{closed-Holds}
use ani_session_gateway.Redis.Agreement.{map_ok, Agrees, lookup-insert_self}
use ani_session_gateway.Redis.Creation.{created_in_millis, created-load, create_of_script}

module _ (S : Server) (L : ServerLaws S) (j : Json) (sha256 : Bytes → Bytes) (key : Str)
    (candidate : Session) where
  -- The key leads to a session that the hash and the memory store hold.
  pub record IsTaken (sid : Str) (st : Session) (d : S.Db) (t : Store) : Type 0 where
    pub holds : Holds j (row S (session_key sid) d) st
    pub storable : IsStorable j st
    pub exact : whole st.ticket_expires_at ≡ st.ticket_expires_at
    pub is_stored : lookup sid t.sessions ≡ some st
    pub print_bytes : All IsByte candidate.request_fingerprint

  module _ (sid : Str) (st : Session) (d : S.Db) (t : Store) (v : IsTaken sid st d t)
      (led : S.get (idem_key sha256 key) d ≡ some sid) where
    abbrev Goal : Type 0
    Goal =
        Agrees S j sid created_in_millis (create_or_get S j sha256 key candidate (calm d))
          (replay_existing sid st candidate t)

    seen :
        create_call S j sha256 key candidate d
        ≡ replay_script S
            (some (hex st.request_fingerprint))
            sid
            (session_key sid)
            (hex candidate.request_fingerprint)
            (unix_milli candidate.created_at)
            d
    unfolding create_call create_script create_at session_key
    seen = rw led (
        ap
          (λ o.
            replay_script S o sid (session_key sid) (hex candidate.request_fingerprint)
              (unix_milli candidate.created_at) d)
          v.holds.fingerprint)

    print_test :
        str_eq (hex st.request_fingerprint) (hex candidate.request_fingerprint)
        ≡ str_eq st.request_fingerprint candidate.request_fingerprint
    print_test = str_eq-hex _ _ v.storable.fingerprint_bytes v.print_bytes

    answers :
        (d' : S.Db) (n : ℕ) (s' : Session) (m : Result Error (Session × Bool) × Store)
        → create_call S j sha256 key candidate d ≡ (ok (integer n ∷ bulk sid ∷ []), d')
        → replay_existing sid st candidate t ≡ m
        → created S j (n, sid) (calm d') ≡ (map_ok created_in_millis m.0, calm d')
        → lookup sid m.1.sessions ≡ some s'
        → Holds j (row S (session_key sid) d') s'
        → Goal
    answers d' n s' m script memory answer stored held =
        rw (create_of_script S L j sha256 key candidate d d' n sid script, memory, answer)
          (record { same_answer = refl; session = s'; is_stored = stored; is_held = held })

    conflicting : str_eq st.request_fingerprint candidate.request_fingerprint ≡ false → Goal
    conflicting e =
        answers d 2 st (err conflict, t) (seen ∙ (unfold replay_script in rw (print_test, e) refl))
          (unfold replay_existing in rw e refl) (unfold created in refl) v.is_stored v.holds

    module _ (same : str_eq st.request_fingerprint candidate.request_fingerprint ≡ true) where
      abbrev again : Op Fault S.Db Reply
      again e = (ok (integer 1 ∷ bulk sid ∷ []), e)

      on_to_state :
          create_call S j sha256 key candidate d
          ≡ unless_late S
              (is_issued st.state)
              (some (unix_milli st.ticket_expires_at))
              (session_key sid)
              (unix_milli candidate.created_at)
              (integer 3 ∷ bulk sid ∷ [])
              again
              d
      on_to_state =
          seen
          ∙ (unfold replay_script in
              rw (print_test, same)
                (λ i.
                  unless_late S (issued_field S L j (session_key sid) d st v.holds i)
                    (ticket_exp-Holds S L j (session_key sid) d st v.holds i) (session_key sid)
                    (unix_milli candidate.created_at) (integer 3 ∷ bulk sid ∷ []) again d))

      closed_already : is_issued st.state ≡ false → Goal
      closed_already e =
          answers d 3 st (err failed_precondition, t)
            (on_to_state
              ∙ unless_late_closed S st.ticket_expires_at candidate.created_at _ _ again d e)
            (unfold replay_existing in rw (same, e) refl) (unfold created in refl) v.is_stored
            v.holds

      module _ (open_still : is_issued st.state ≡ true) where
        expired : ltb candidate.created_at st.ticket_expires_at ≡ false → Goal
        expired l =
            answers
              (hset_all S (session_key sid) (expired_fields (unix_milli candidate.created_at)) d) 3
              (close_session st candidate.created_at (str "ticket_expired"))
              (err failed_precondition, expire_ticket sid st candidate.created_at t)
              (on_to_state
                ∙ unless_late_late S st.ticket_expires_at candidate.created_at _ _ again d v.exact
                    open_still l)
              (unfold replay_existing in rw (same, open_still, l) refl) (unfold created in refl)
              (rw open_still (lookup-insert_self sid _ t.sessions))
              (subst (λ r. Holds j r (close_session st candidate.created_at (str "ticket_expired")))
                (sym (
                  row-hset_all S L (session_key sid)
                    (expired_fields (unix_milli candidate.created_at)) d))
                (closed-Holds j (row S (session_key sid) d) st candidate.created_at v.holds
                  (str "ticket_expired")))

        handed_out : ltb candidate.created_at st.ticket_expires_at ≡ true → Goal
        handed_out l =
            answers d 1 st (ok (st, true), t)
              (on_to_state
                ∙ unless_late_in_time S st.ticket_expires_at candidate.created_at _ _ again d
                    v.exact open_still l)
              (unfold replay_existing in rw (same, open_still, l) refl)
              (created-load S j sid 1 (calm d) (calm d) refl refl
                (load-Holds S L j sid st d v.storable v.holds))
              v.is_stored v.holds

    pub replay-Agrees : Goal
    replay-Agrees =
        elim (Bool-cases (str_eq st.request_fingerprint candidate.request_fingerprint)) [
          | inr e ↦ conflicting e
          | inl same ↦ elim (Bool-cases (is_issued st.state)) [
            | inr e ↦ closed_already same e
            | inl open_still ↦ elim (Bool-cases (ltb candidate.created_at st.ticket_expires_at)) [
              | inr l ↦ expired same open_still l
              | inl l ↦ handed_out same open_still l
            ]
          ]
        ]
