-- ===== src/Manager/Calls.antt =====
-- The calls of `Manager` in internal/session/manager.go. The store, the hash and the cipher are
-- arguments; times are read by the caller; the random source is the bytes that it has left to give;
-- log lines are left out.
use ani_session_gateway.Prelude.{
  ℕ, Bool, true, false, not, ◌||◌, Option, none, some, List, [], ◌∷◌, ◌++◌, Str, Bytes, str_eq,
  is_empty, not_positive, int_eq, length, take, drop, ltb, leb, if◌then◌else◌, Result, ok, err, Op,
  ◌>>=◌, pure, raise,
}
use ani_session_gateway.Session.Errors.{
  Error, invalid_request, conflict, failed_precondition, not_found, other,
}
use ani_session_gateway.Session.Model.{
  Time, Request, Session, Issued, ClaimedAccess, ReplayRequest, is_issued, is_vnc, is_vm,
}
use ani_session_gateway.Session.Contract.{SessionStore}
use ani_session_gateway.Session.Encoding.{base64_url}
use ani_session_gateway.Session.Fingerprint.{fingerprint}
use ani_session_gateway.Manager.Config.{
  Primitives, ManagerConfig, Label, success, failed, precondition, Event, session_created,
  session_claimed, observe_result, admit, candidate_of, granted, limits_of, uuid_of,
}

-- The state that the manager's calls change.
pub record World (D : Type 0) : Type 0 where
  pub store : D
  pub random : Bytes
  pub observed : List Event

-- `io.ReadFull`: a source that gives fewer bytes is used up.
unfoldable pub read_full : {E D : Type 0} → E → ℕ → Op E (World D) Bytes
read_full e n w =
    if leb n (length w.random)
    then (ok (take n w.random), record w { random = drop n w.random })
    else (err e, record w { random = [] })

abbrev pub in_store : {E D A : Type 0} → Op E D A → Op E (World D) A
in_store m w = let (r, d) = m w.store in (r, record w { store = d })

abbrev pub notify : {D : Type 0} → ManagerConfig → Event → World D → World D
notify c e w = if c.observer then record w { observed = e ∷ w.observed } else w

module _ (S : SessionStore) (p : Primitives) (c : ManagerConfig) where
  -- `encrypt` puts the nonce before what it seals.
  unfoldable pub encrypt : Bytes → Op (Error × Label) (World S.Data) Bytes
  unfolding read_full
  encrypt text = do
    nonce ← read_full (other, failed) p.nonce_size
    pure (nonce ++ p.seal nonce text)

  unfoldable pub decrypt : Bytes → Option Bytes
  decrypt sealed =
      if ltb (length sealed) p.nonce_size
      then none
      else p.open_sealed (take p.nonce_size sealed) (drop p.nonce_size sealed)

  unfoldable pub random_id : Op (Error × Label) (World S.Data) Str
  unfolding read_full
  random_id = do raw ← read_full (other, failed) 16; pure (uuid_of raw)

  -- The last draw of `Issue`: the identifier of the candidate.
  unfoldable pub draw_id :
      Request → Time → Str → Bytes → Op (Error × Label) (World S.Data) (Str × Session)
  draw_id r now ticket ciphertext = do
    id ← random_id
    pure (ticket, candidate_of c r now id (fingerprint p.sha256 r) (p.sha256 ticket) ciphertext)

  unfoldable pub draw_from :
      Request → Time → Bytes → Op (Error × Label) (World S.Data) (Str × Session)
  draw_from r now ticket_bytes = do
    let ticket = base64_url ticket_bytes
    ciphertext ← encrypt ticket
    draw_id r now ticket ciphertext

  -- The ticket and the candidate that `Issue` draws.
  unfoldable pub draw : Request → Time → Op (Error × Label) (World S.Data) (Str × Session)
  draw r now = do ticket_bytes ← read_full (other, failed) 32; draw_from r now ticket_bytes

  abbrev pub opened : Session → Option Bytes → Result (Error × Label) (Issued × Label)
  opened stored none = err (failed_precondition, precondition)
  opened stored (some text) =
      ok (record { session = stored; ticket = text; replayed = true }, Label.replayed)

  -- The answer of `Issue` once the store has answered.
  unfoldable pub hand_out : Str → Session → Bool → Result (Error × Label) (Issued × Label)
  hand_out ticket stored false =
      ok (record { session = stored; ticket = ticket; replayed = false }, success)
  hand_out ticket stored true = opened stored (decrypt stored.ticket_ciphertext)

  abbrev pub answered :
      Str → Result Error (Session × Bool) → Result (Error × Label) (Issued × Label)
  answered ticket (ok (stored, again)) = hand_out ticket stored again
  answered ticket (err e) = err (e, observe_result {A = Session × Bool} (err e))

  unfoldable pub store_drawn :
      Request → Str → Session → Op (Error × Label) (World S.Data) (Issued × Label)
  store_drawn r ticket candidate w =
      let (answer, d) = S.create_or_get r.idempotency_key candidate w.store in
      (answered ticket answer, record w { store = d })

  unfoldable pub issue_admitted :
      Request → Time → Op (Error × Label) (World S.Data) (Issued × Label)
  issue_admitted r now = do (ticket, candidate) ← draw r now; store_drawn r ticket candidate

  abbrev pub settle :
      Option (Error × Label)
      → Op (Error × Label) (World S.Data) (Issued × Label)
      → Op (Error × Label) (World S.Data) (Issued × Label)
  settle none m = m
  settle (some e) m = raise e

  abbrev pub label_of : Result (Error × Label) (Issued × Label) → Label
  label_of (ok (a, l)) = l
  label_of (err (e, l)) = l

  abbrev pub answer_of : Result (Error × Label) (Issued × Label) → Result Error Issued
  answer_of (ok (a, l)) = ok a
  answer_of (err (e, l)) = err e

  -- `Issue`, with the deferred report of its label.
  unfoldable pub issue : Request → Time → Op Error (World S.Data) Issued
  issue r now w =
      let (out, v) = settle (admit c r) (issue_admitted r now) w in
      (answer_of out, notify c (session_created r.mode (label_of out)) v)

  unfoldable pub claim : Str → Str → Time → Op Error (World S.Data) ClaimedAccess
  claim id ticket now w =
      let (r, d) = S.claim_and_reserve id (p.sha256 ticket) now (limits_of c) w.store in
      let v : World S.Data = record w { store = d } in
      (granted r, notify c (session_claimed (observe_result r)) v)

  unfoldable pub close : Str → Str → Str → Time → Op Error (World S.Data) (Unit {0})
  close id lease_id reason now = in_store (S.close_and_release id lease_id reason now)

  -- The tests of `Replay` on the session behind the key, with the second reading of the clock.
  unfoldable pub replay_stored : ReplayRequest → Time → Time → Session → Result Error Issued
  unfolding decrypt
  replay_stored r now later st =
      if not (str_eq st.tenant_id r.tenant_id) || not (str_eq st.subject_id r.subject_id)
      then err not_found
      else if not (ltb now st.tombstone_expires_at)
      then err not_found
      else if not (str_eq st.instance_id r.instance_id)
          || not st.vm_binding.enabled
          || not (is_vm st.workload_kind)
          || not (is_vnc st.mode)
          || not (int_eq st.vm_binding.version r.expected_version)
      then err conflict
      else if not (is_issued st.state) || not (ltb later st.ticket_expires_at)
      then err failed_precondition
      else elim (decrypt st.ticket_ciphertext) [
        | none ↦ err failed_precondition
        | some text ↦ ok (record { session = st; ticket = text; replayed = true })
      ]

  abbrev pub replay_found : ReplayRequest → Time → Time → Result Error Session → Result Error Issued
  replay_found r now later (err e) = err e
  replay_found r now later (ok st) = replay_stored r now later st

  unfoldable pub replay : ReplayRequest → Time → Time → Op Error (World S.Data) Issued
  unfolding replay_stored
  replay r now later w =
      if is_empty r.idempotency_key
        || is_empty r.tenant_id
        || is_empty r.subject_id
        || is_empty r.instance_id
        || not_positive r.expected_version
      then (err invalid_request, w)
      else let (found, d) = S.get_by_key r.idempotency_key w.store in
        (replay_found r now later found, record w { store = d })
