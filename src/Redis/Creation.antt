-- ===== src/Redis/Creation.antt =====
-- A creation over Redis does what a creation over the memory store does.
use mathlib.Core.Path.{fun_ext}
use ani_session_gateway.Prelude.{
  ℕ, ◌<◌, ◌≡◌, refl, sym, subst, ap, ◌∙◌, Bool, false, none, [], ◌∷◌, Str, Bytes, str_eq, ◌==◌,
  Result, ok, ◌>>=◌, pure,
}
use ani_session_gateway.Session.Errors.{Error}
use ani_session_gateway.Session.Model.{Session}
use ani_session_gateway.Memory.{Store, create_in}
use ani_session_gateway.Redis.Server.{Server, ServerLaws, row}
use ani_session_gateway.Redis.Codec.{Json, unix_milli, field_order, encode}
use ani_session_gateway.Redis.Stored.{Holds, IsStorable, in_millis}
use ani_session_gateway.Redis.Scripts.{integer, bulk, create_at, create_script, hset_all}
use ani_session_gateway.Redis.Operations.{
  World, load, call, session_key, idem_key, arguments, create_call, created, create_or_get,
  get_by_key, got, result_code_id,
}
use ani_session_gateway.Redis.Rows.{calm, row-hset_all, time-hset_all, load-Holds}
use ani_session_gateway.Redis.Changes.{arguments-Holds}
use ani_session_gateway.Redis.Agreement.{Agrees, lookup-insert_self}

-- The session with its times cut to whole milliseconds.
abbrev pub created_in_millis : Session × Bool → Session × Bool
created_in_millis (s, replayed) = (in_millis s, replayed)

pub created-load :
    (S : Server) (j : Json) (id : Str) (n : ℕ) (w v : World S.Db) {s : Session}
    → (n == 2) ≡ false
    → (n == 3) ≡ false
    → load S j id w ≡ (ok s, v)
    → created S j (n, id) w ≡ (ok (s, n == 1), v)
unfolding created
created-load S j id n w v p q e =
    rw (p, q)
      (ap
        (λ (r : Result Error Session × World S.Db).
          ((λ _. r) >>= λ stored. pure (stored, n == 1)) w)
        e)

module _ (S : Server) (L : ServerLaws S) (j : Json) (sha256 : Bytes → Bytes) (key : Str)
    (candidate : Session) where
  pub create_of_script :
      (d d' : S.Db) (n : ℕ) (id : Str)
      → create_call S j sha256 key candidate d ≡ (ok (integer n ∷ bulk id ∷ []), d')
      → create_or_get S j sha256 key candidate (calm d) ≡ created S j (n, id) (calm d')
  unfolding create_or_get call result_code_id
  create_of_script d d' n id e = rw e refl

  -- The key is free: the candidate can be kept, until a time in the server's future.
  pub record IsFree (d : S.Db) : Type 0 where
    pub storable : IsStorable j candidate
    pub in_future : L.time d < unix_milli candidate.tombstone_expires_at

  module _ (d : S.Db) (v : IsFree d) where
    abbrev written : S.Db
    written = hset_all S (session_key candidate.id) (arguments field_order (encode j candidate)) d

    abbrev after : S.Db
    after =
        S.set_pxat (idem_key sha256 key) candidate.id (unix_milli candidate.tombstone_expires_at) (
          S.pexpireat (session_key candidate.id) (unix_milli candidate.tombstone_expires_at)
            written)

    time-written : L.time written ≡ L.time d
    time-written =
        time-hset_all S L (session_key candidate.id) (arguments field_order (encode j candidate)) d

    keys_differ : str_eq (idem_key sha256 key) (session_key candidate.id) ≡ false
    unfolding str_eq idem_key session_key
    keys_differ = refl

    after-Holds : Holds j (row S (session_key candidate.id) after) candidate
    after-Holds =
        subst (λ r. Holds j r candidate)
          (sym (
            (fun_ext λ f.
              L.hget-set_pxat _ _ _ f _ _ keys_differ
              ∙ L.hget-pexpireat _ _ f _ written (rw time-written v.in_future))
            ∙ row-hset_all S L (session_key candidate.id)
                (arguments field_order (encode j candidate)) d))
          (arguments-Holds j (row S (session_key candidate.id) d) candidate)

    fresh_script :
        S.get (idem_key sha256 key) d ≡ none
        → create_call S j sha256 key candidate d ≡ (ok (integer 0 ∷ bulk candidate.id ∷ []), after)
    unfolding create_call create_script create_at
    fresh_script e = rw e refl

    pub create_fresh :
        S.get (idem_key sha256 key) d ≡ none
        → create_or_get S j sha256 key candidate (calm d)
          ≡ (ok (in_millis candidate, false), calm after)
    create_fresh e =
        create_of_script d after 0 candidate.id (fresh_script e)
        ∙ created-load S j candidate.id 0 (calm after) (calm after) refl refl
            (load-Holds S L j candidate.id candidate after v.storable after-Holds)

    -- The session is found again under its key.
    pub get_by_key_fresh :
        get_by_key S j sha256 key (calm after) ≡ (ok (in_millis candidate), calm after)
    unfolding get_by_key call got
    get_by_key_fresh =
        rw
          (L.get-set_pxat (idem_key sha256 key) candidate.id
            (unix_milli candidate.tombstone_expires_at)
            (S.pexpireat (session_key candidate.id) (unix_milli candidate.tombstone_expires_at)
              written)
            (rw
              (
                L.time-pexpireat (session_key candidate.id)
                    (unix_milli candidate.tombstone_expires_at) written,
                time-written,
              )
              v.in_future))
          (load-Holds S L j candidate.id candidate after v.storable after-Holds)

    pub fresh-Agrees :
        (t : Store)
        → S.get (idem_key sha256 key) d ≡ none
        → Agrees S j candidate.id created_in_millis
            (create_or_get S j sha256 key candidate (calm d))
            (create_in none key candidate t)
    unfolding create_in
    fresh-Agrees t e = rw (create_fresh e) (record {
      same_answer = refl;
      session = candidate;
      is_stored = lookup-insert_self candidate.id _ t.sessions;
      is_held = after-Holds;
    })
