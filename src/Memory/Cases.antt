-- ===== src/Memory/Cases.antt =====
-- The stores that the calls of the memory store can leave behind, one rule for each call.
use ani_session_gateway.Prelude.{
  ◌≡◌, refl, Option, none, some, Bytes, Str, str_eq_iff, length, ◌<◌, arith,
}
use ani_session_gateway.Prelude.Assoc.{lookup}
use ani_session_gateway.Session.Model.{Time, ClaimLimits, Session, issued, claimed}
use ani_session_gateway.Memory.Claims.{IsClaimable}
use ani_session_gateway.Memory.Invariant.{HasKey, KeyOk}
use ani_session_gateway.Memory.{
  Store, expire_ticket, granted, released, registered, subject_active, create_in, claim_in,
  close_in, replay_existing,
}

claim_some_cases {ℓ} :
    (P : Store → Type ℓ) (st : Session) (id : Str) (digest : Bytes) (now : Time)
    (limits : ClaimLimits) (s : Store)
    → P s
    → P (expire_ticket id st now s)
    → (st.state ≡ issued
        → now < st.ticket_expires_at
        → st.ticket_digest ≡ digest
        → length s.leases < limits.max_active
        → subject_active st.subject_id s < limits.max_active_per_subject
        → P (granted id st now limits s))
    → P (claim_in (some st) id digest now limits s).1
unfolding claim_in
claim_some_cases P st id digest now limits s kept expired given =
    ground (arith, str_eq_iff st.ticket_digest digest)

pub claim_in_cases {ℓ} :
    (P : Store → Type ℓ) (id : Str) (digest : Bytes) (now : Time) (limits : ClaimLimits) (s : Store)
    (o : Option Session)
    → P s
    → ((st : Session) → o ≡ some st → P (expire_ticket id st now s))
    → ((st : Session)
        → o ≡ some st
        → IsClaimable s digest now limits st
        → P (granted id st now limits s))
    → P (claim_in o id digest now limits s).1
claim_in_cases P id digest now limits s none kept expired given = unfold claim_in in kept
claim_in_cases P id digest now limits s (some st) kept expired given =
    claim_some_cases P st id digest now limits s kept (expired st refl) (λ a b c d e.
      given st refl
        (record { open_still = a; in_time = b; right_ticket = c; room = d; subject_room = e }))

close_some_cases {ℓ} :
    (P : Store → Type ℓ) (st : Session) (id lease_id reason : Str) (now : Time) (s : Store)
    → P s
    → (st.state ≡ claimed → st.lease_id ≡ lease_id → P (released id st reason now s))
    → P (close_in (some st) id lease_id reason now s).1
unfolding close_in
close_some_cases P st id lease_id reason now s kept closes =
    ground (arith, str_eq_iff st.lease_id lease_id)

pub close_in_cases {ℓ} :
    (P : Store → Type ℓ) (id lease_id reason : Str) (now : Time) (s : Store) (o : Option Session)
    → P s
    → ((st : Session)
        → o ≡ some st
        → st.state ≡ claimed
        → st.lease_id ≡ lease_id
        → P (released id st reason now s))
    → P (close_in o id lease_id reason now s).1
close_in_cases P id lease_id reason now s none kept closes = unfold close_in in kept
close_in_cases P id lease_id reason now s (some st) kept closes =
    close_some_cases P st id lease_id reason now s kept (closes st refl)

replay_cases {ℓ} :
    (P : Store → Type ℓ) (id : Str) (existing candidate : Session) (s : Store)
    → P s
    → P (expire_ticket id existing candidate.created_at s)
    → P (replay_existing id existing candidate s).1
unfolding replay_existing
replay_cases P id existing candidate s kept expired = ground arith

-- A key leads to a session, as `key` says.
create_some_cases {ℓ} :
    (P : Store → Type ℓ) (id key : Str) (candidate : Session) (s : Store) (o : Option Session)
    → lookup id s.sessions ≡ o
    → HasKey key o
    → P s
    → ((existing : Session)
        → o ≡ some existing
        → P (expire_ticket id existing candidate.created_at s))
    → P (create_in (some id) key candidate s).1
unfolding create_in
create_some_cases P id key candidate s none e owner kept expired = absurd owner
create_some_cases P id key candidate s (some existing) e owner kept expired =
    rw e (replay_cases P id existing candidate s kept (expired existing refl))

pub create_in_cases {ℓ} :
    (P : Store → Type ℓ) (key : Str) (candidate : Session) (s : Store) (o : Option Str)
    → KeyOk key s.sessions o
    → P s
    → ((id : Str) (existing : Session)
        → o ≡ some id
        → lookup id s.sessions ≡ some existing
        → P (expire_ticket id existing candidate.created_at s))
    → (o ≡ none → P (registered key candidate s))
    → P (create_in o key candidate s).1
create_in_cases P key candidate s none owner kept expired fresh = unfold create_in in fresh refl
create_in_cases P key candidate s (some id) owner kept expired fresh =
    create_some_cases P id key candidate s _ refl owner kept
      (λ existing e. expired id existing refl e)
