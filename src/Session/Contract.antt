-- ===== src/Session/Contract.antt =====
-- The interface `Store` of internal/session/store.go, and what `Manager` relies on in a store.
-- `Ready` and `Mode` serve the health probes alone and are left out.
use ani_session_gateway.Prelude.{◌≡◌, ◌<◌, ◌+◌, Bool, true, false, [], Str, Bytes, ok, Op}
use ani_session_gateway.Session.Errors.{Error}
use ani_session_gateway.Session.Model.{Time, ClaimLimits, Session, SessionLease, issued, claimed}

pub record SessionStore : Type 1 where
  pub Data : Type 0
  pub create_or_get : Str → Session → Op Error Data (Session × Bool)
  pub get_by_key : Str → Op Error Data Session
  pub claim_and_reserve : Str → Bytes → Time → ClaimLimits → Op Error Data SessionLease
  pub close_and_release : Str → Str → Str → Time → Op Error Data (Unit {0})

-- A session that is handed out again is the one that the key already has, and can be claimed.
pub record IsReplay (key : Str) (candidate stored : Session) : Type 0 where
  pub same_key : stored.idempotency_key ≡ key
  pub same_fingerprint : stored.request_fingerprint ≡ candidate.request_fingerprint
  pub still_issued : stored.state ≡ issued
  pub in_time : candidate.created_at < stored.ticket_expires_at

pub record IsGranted (id : Str) (digest : Bytes) (now : Time) (limits : ClaimLimits)
    (lease : SessionLease) : Type 0 where
  pub same_id : lease.session.id ≡ id
  pub same_digest : lease.session.ticket_digest ≡ digest
  pub is_claimed : lease.session.state ≡ claimed
  pub in_time : now < lease.session.ticket_expires_at
  pub expiry : lease.expires_at ≡ now + limits.session_max_duration
  pub no_ciphertext : lease.session.ticket_ciphertext ≡ []

pub record StoreLaws (S : SessionStore) : Type 1 where
  pub Inv : S.Data → Type 0
  pub created :
      (key : Str) (c st : Session) (s : S.Data)
      → Inv s
      → (S.create_or_get key c s).0 ≡ ok (st, false)
      → st ≡ c
  pub replayed :
      (key : Str) (c st : Session) (s : S.Data)
      → Inv s
      → (S.create_or_get key c s).0 ≡ ok (st, true)
      → IsReplay key c st
  pub got :
      (key : Str) (st : Session) (s : S.Data)
      → Inv s
      → (S.get_by_key key s).0 ≡ ok st
      → st.idempotency_key ≡ key
  pub granted :
      (id : Str) (digest : Bytes) (now : Time) (limits : ClaimLimits) (lease : SessionLease)
      (s : S.Data)
      → Inv s
      → (S.claim_and_reserve id digest now limits s).0 ≡ ok lease
      → IsGranted id digest now limits lease
