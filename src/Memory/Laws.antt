-- ===== src/Memory/Laws.antt =====
-- The memory store implements the interface that the manager uses.
use ani_session_gateway.Prelude.{
  ◌≡◌, refl, true, false, Option, none, some, Str, Bytes, str_eq_iff, ok, arith,
}
use ani_session_gateway.Prelude.Assoc.{lookup}
use ani_session_gateway.Session.Model.{Time, ClaimLimits, Session, SessionLease}
use ani_session_gateway.Session.Contract.{SessionStore, IsReplay, IsGranted, StoreLaws}
use ani_session_gateway.Memory.{
  Store, or_zero, cleanup, create_or_get, create_in, replay_existing, get_by_key, claim_and_reserve,
  close_and_release,
}
use ani_session_gateway.Memory.Invariant.{IsCoherent, KeyOk, HasKey}
use ani_session_gateway.Memory.Cleanup.{cleanup-IsCoherent}
use ani_session_gateway.Memory.Claims.{claim_in-eq-ok}

abbrev pub memory_store : SessionStore
memory_store = record {
  Data = Store;
  create_or_get = create_or_get;
  get_by_key = get_by_key;
  claim_and_reserve = claim_and_reserve;
  close_and_release = close_and_release;
}

create_in-eq-new :
    (key : Str) (c : Session) (s : Store) (o : Option Str) {st : Session}
    → (create_in o key c s).0 ≡ ok (st, false)
    → st ≡ c
unfolding create_in
create_in-eq-new key c s none h = ground arith
create_in-eq-new key c s (some id) h = ground arith

pub create_or_get-eq-new :
    (key : Str) (c st : Session) (s : Store)
    → IsCoherent s
    → (create_or_get key c s).0 ≡ ok (st, false)
    → st ≡ c
unfolding create_or_get
create_or_get-eq-new key c st s v h =
    let t = cleanup c.created_at s in create_in-eq-new key c t (lookup key t.by_key) h

replay_existing-IsReplay :
    (key id : Str) (c existing : Session) (s : Store) {st : Session}
    → existing.idempotency_key ≡ key
    → (replay_existing id existing c s).0 ≡ ok (st, true)
    → IsReplay key c st
unfolding replay_existing
replay_existing-IsReplay key id c existing s owner h =
    ground (arith, str_eq_iff existing.request_fingerprint c.request_fingerprint)

create_in-IsReplay :
    (key : Str) (c : Session) (s : Store) (o : Option Str) {st : Session}
    → KeyOk key s.sessions o
    → (create_in o key c s).0 ≡ ok (st, true)
    → IsReplay key c st
unfolding create_in
create_in-IsReplay key c s none owner h = cc
create_in-IsReplay key c s (some id) owner h =
    replay_existing-IsReplay key id c (or_zero (lookup id s.sessions)) s
      (owned (lookup id s.sessions) owner) h
  where
    owned : (o : Option Session) → HasKey key o → (or_zero o).idempotency_key ≡ key
    owned none k = absurd k
    owned (some st) k = k

-- A creation that hands out an old session of a coherent store hands out one that has the same key
-- and fingerprint, is still issued, and whose ticket had not expired when the candidate was made.
pub create_or_get-IsReplay :
    (key : Str) (c st : Session) (s : Store)
    → IsCoherent s
    → (create_or_get key c s).0 ≡ ok (st, true)
    → IsReplay key c st
unfolding create_or_get
create_or_get-IsReplay key c st s v h =
    let t = cleanup c.created_at s in
    create_in-IsReplay key c t (lookup key t.by_key)
      ((cleanup-IsCoherent c.created_at s v).key_ok key) h

pub get_by_key-keyed :
    (key : Str) (st : Session) (s : Store)
    → IsCoherent s
    → (get_by_key key s).0 ≡ ok st
    → st.idempotency_key ≡ key
unfolding get_by_key
get_by_key-keyed key st s v h = ground (arith, v.key_ok key)

pub claim_and_reserve-IsGranted :
    (id : Str) (digest : Bytes) (now : Time) (limits : ClaimLimits) (lease : SessionLease)
    (s : Store)
    → IsCoherent s
    → (claim_and_reserve id digest now limits s).0 ≡ ok lease
    → IsGranted id digest now limits lease
unfolding claim_and_reserve
claim_and_reserve-IsGranted id digest now limits lease s v h =
    let t = cleanup now s in
    let (st, e, c, granted, _) = claim_in-eq-ok t id digest now limits _ h in
    rw granted (record {
      same_id = ground (arith, (cleanup-IsCoherent now s v).session_ok id);
      same_digest = c.right_ticket;
      is_claimed = refl;
      in_time = c.in_time;
      expiry = refl;
      no_ciphertext = refl;
    })

-- The laws that the manager relies on hold of the memory store while its maps agree.
abbrev pub memory_laws : StoreLaws memory_store
memory_laws = record {
  Inv = IsCoherent;
  created = create_or_get-eq-new;
  replayed = create_or_get-IsReplay;
  got = get_by_key-keyed;
  granted = claim_and_reserve-IsGranted;
}
