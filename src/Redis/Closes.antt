-- ===== src/Redis/Closes.antt =====
-- A close over Redis does what a close over the memory store does.
use mathlib.Core.Path.{fun_ext}
use ani_session_gateway.Prelude.{
  ◌≡◌, refl, sym, subst, ap, ◌∙◌, true, false, not, ◌||◌, some, Str, Bytes, str, str_eq, Bool-cases,
  inl, inr,
}
use ani_session_gateway.Prelude.Assoc.{lookup}
use ani_session_gateway.Session.Model.{Time, Session, is_claimed, is_closed}
use ani_session_gateway.Memory.{Store, close_in, close_session}
use ani_session_gateway.Redis.Server.{Server, ServerLaws, row}
use ani_session_gateway.Redis.Codec.{Json, unix_milli}
use ani_session_gateway.Redis.Stored.{Holds}
use ani_session_gateway.Redis.Scripts.{CloseCall, is_text, close_script, closed_fields}
use ani_session_gateway.Redis.Operations.{
  call, session_key, global_leases_key, subject_leases_key, close_known, close_and_release,
  single_code,
}
use ani_session_gateway.Redis.Rows.{calm, claimed_field, closed_field, row-hset_all}
use ani_session_gateway.Redis.Changes.{closed-Holds}
use ani_session_gateway.Redis.Agreement.{Agrees, lookup-insert_self}

module _ (S : Server) (L : ServerLaws S) (j : Json) (sha256 : Bytes → Bytes) (id lease reason : Str)
    (now : Time) (st : Session) (d : S.Db) (t : Store) (h : Holds j (row S (session_key id) d) st)
    (stored : lookup id t.sessions ≡ some st) where
  abbrev c : CloseCall
  c = record {
    key = session_key id;
    all_leases = global_leases_key;
    subject_leases = subject_leases_key sha256 st.subject_id;
    lease_id = lease;
    reason = reason;
    now = unix_milli now;
    id = id;
  }

  abbrev Goal : Type 0
  Goal =
      Agrees S j id (λ x. x) (close_and_release S j sha256 id lease reason now (calm d))
        (close_in (some st) id lease reason now t)

  known :
      (close_and_release S j sha256 id lease reason now (calm d))
      ≡ close_known S j sha256 id lease reason now (some st.subject_id) (calm d)
  unfolding close_and_release call
  known = rw h.subject_id refl

  present : S.exists (session_key id) d ≡ true
  present = L.exists-hget _ _ _ d h.id

  leased : is_text (S.hget (session_key id) (str "lease_id") d) lease ≡ str_eq st.lease_id lease
  leased = ap (λ o. is_text o lease) h.lease_id

  closed_already : is_closed st.state ≡ true → Goal
  unfolding close_known call close_script single_code close_in
  closed_already e = rw known (
      rw (present, closed_field S L j (session_key id) d st h, e)
        (record { same_answer = refl; session = st; is_stored = stored; is_held = h }))

  module _ (open_still : is_closed st.state ≡ false) where
    other_lease : (not (is_claimed st.state) || not (str_eq st.lease_id lease)) ≡ true → Goal
    unfolding close_known call close_script single_code close_in
    other_lease e = rw known (
        rw
          (
            present,
            closed_field S L j (session_key id) d st h,
            claimed_field S L j (session_key id) d st h,
            leased,
            open_still,
            e,
          )
          (record { same_answer = refl; session = st; is_stored = stored; is_held = h }))

    removed-Holds :
        Holds j (row S (session_key id) (S.zrem c.subject_leases id (S.zrem c.all_leases id d))) st
    removed-Holds =
        subst (λ r. Holds j r st) (fun_ext λ f. sym (L.hget-zrem _ _ _ f _ ∙ L.hget-zrem _ _ _ f d))
          h

    closes : (not (is_claimed st.state) || not (str_eq st.lease_id lease)) ≡ false → Goal
    unfolding close_known call close_script single_code close_in
    closes e = rw known (
        rw
          (
            present,
            closed_field S L j (session_key id) d st h,
            claimed_field S L j (session_key id) d st h,
            leased,
            open_still,
            e,
          )
          (record {
            same_answer = refl;
            session = close_session st now reason;
            is_stored = lookup-insert_self id _ t.sessions;
            is_held =
                subst (λ r. Holds j r (close_session st now reason))
                  (sym (
                    row-hset_all S L (session_key id) (closed_fields (unix_milli now) reason)
                      (S.zrem c.subject_leases id (S.zrem c.all_leases id d))))
                  (closed-Holds j _ st now removed-Holds reason);
          }))

  -- The answer is that of the memory store.
  pub close_and_release-Agrees : Goal
  close_and_release-Agrees = elim (Bool-cases (is_closed st.state)) [
    | inl e ↦ closed_already e
    | inr open_still ↦
        elim (Bool-cases (not (is_claimed st.state) || not (str_eq st.lease_id lease))) [
          | inl e ↦ other_lease open_still e
          | inr e ↦ closes open_still e
        ]
  ]
