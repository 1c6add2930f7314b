-- ===== src/Memory.antt =====
pub mod Invariant
pub mod Cleanup
mod Cases
pub mod Coherence
pub mod Claims
pub mod Capacity
pub mod Kept
pub mod Laws
pub mod Release
pub mod Expiry
pub mod History
pub mod Evolution
pub mod Lifecycle
-- internal/store/memory/store.go. Every method holds the mutex from its first line to its last, so
-- a history of concurrent calls is a sequence of them. A map is an association list, and `range`
-- over a map runs over the entries that it has at the start.
use ani_session_gateway.Prelude.{
  ℕ, Bool, true, false, not, ◌||◌, Option, none, some, [], ◌∷◌, ◌++◌, ◌+◌, Str, Bytes, str, str_eq,
  ltb, leb, length, if◌then◌else◌, Result, ok, err, Op,
}
use ani_session_gateway.Prelude.Assoc.{Assoc, lookup, insert, remove, count_by}
use ani_session_gateway.Session.Model.{
  Time, claimed, closed, Session, SessionLease, ClaimLimits, is_issued, is_claimed, is_closed,
  zero_session,
}
use ani_session_gateway.Session.Errors.{
  Error, conflict, failed_precondition, invalid_ticket, capacity, not_found,
}

pub record Store : Type 0 where
  pub sessions : Assoc Session
  pub by_key : Assoc Str
  pub leases : Assoc SessionLease

abbrev pub new : Store
new = record { sessions = []; by_key = []; leases = [] }

-- `s.sessions[id]` without `ok`.
abbrev pub or_zero : Option Session → Session
or_zero none = zero_session
or_zero (some stored) = stored

-- A copy shares no memory with the original, and values of the model never do.
abbrev pub clone : Session → Session
clone value = value

-- The four assignments that close a session.
abbrev pub close_session : Session → Time → Str → Session
close_session stored at reason = record stored {
  state = closed;
  closed_at = at;
  close_reason = reason;
  ticket_ciphertext = [];
}

-- One round of the first loop of `cleanup`.
unfoldable pub expire_lease : Time → Str → SessionLease → Store → Store
expire_lease now id lease s = if ltb now lease.expires_at then s else record s {
  leases = remove id s.leases;
  sessions =
      insert id
        (close_session (or_zero (lookup id s.sessions)) lease.expires_at (str "max_duration"))
        s.sessions;
}

unfoldable pub expire_leases : Time → Assoc SessionLease → Store → Store
expire_leases now [] s = s
expire_leases now ((id, lease) ∷ rest) s = expire_leases now rest (expire_lease now id lease s)

abbrev pub outlived : Time → Option Session → Bool
outlived now none = false
outlived now (some stored) = not (ltb now stored.tombstone_expires_at)

-- One round of the second loop.
unfoldable pub drop_tombstone : Time → Str → Str → Store → Store
drop_tombstone now key id s =
    if outlived now (lookup id s.sessions)
    then record {
      by_key = remove key s.by_key;
      sessions = remove id s.sessions;
      leases = remove id s.leases;
    }
    else s

unfoldable pub drop_tombstones : Time → Assoc Str → Store → Store
drop_tombstones now [] s = s
drop_tombstones now ((key, id) ∷ rest) s = drop_tombstones now rest (drop_tombstone now key id s)

unfoldable pub cleanup : Time → Store → Store
cleanup now s = let t = expire_leases now s.leases s in drop_tombstones now t.by_key t

abbrev found : Option Session → Result Error Session
found none = err not_found
found (some stored) = ok (clone stored)

abbrev found_id : Store → Option Str → Result Error Session
found_id s none = err not_found
found_id s (some id) = found (lookup id s.sessions)

unfoldable pub get_by_key : Str → Op Error Store Session
get_by_key key s = (found_id s (lookup key s.by_key), s)

-- A session that is issued and out of time is closed on the way to the refusal.
abbrev pub expire_ticket : Str → Session → Time → Store → Store
expire_ticket id stored now s =
    if is_issued stored.state
    then record s {
      sessions = insert id (close_session stored now (str "ticket_expired")) s.sessions;
    }
    else s

-- The key is taken: the session behind it is handed out again, or refused.
unfoldable pub replay_existing : Str → Session → Session → Op Error Store (Session × Bool)
replay_existing id existing candidate s =
    if not (str_eq existing.request_fingerprint candidate.request_fingerprint)
    then (err conflict, s)
    else if not (is_issued existing.state)
        || not (ltb candidate.created_at existing.ticket_expires_at)
    then (err failed_precondition, expire_ticket id existing candidate.created_at s)
    else (ok (clone existing, true), s)

abbrev pub registered : Str → Session → Store → Store
registered key candidate s = record s {
  by_key = insert key candidate.id s.by_key;
  sessions = insert candidate.id (clone candidate) s.sessions;
}

unfoldable pub create_in : Option Str → Str → Session → Op Error Store (Session × Bool)
unfolding replay_existing
create_in (some id) key candidate s =
    replay_existing id (or_zero (lookup id s.sessions)) candidate s
create_in none key candidate s = (ok (clone candidate, false), registered key candidate s)

unfoldable pub create_or_get : Str → Session → Op Error Store (Session × Bool)
unfolding create_in
create_or_get key candidate s =
    let t = cleanup candidate.created_at s in create_in (lookup key t.by_key) key candidate t

abbrev pub subject_active : Str → Store → ℕ
subject_active subject s = count_by (λ l. str_eq l.session.subject_id subject) s.leases

abbrev pub lease_name : Str → Str
lease_name id = id ++ str ":lease"

-- The assignments that claim a session.
abbrev pub claim_session : Str → Session → Time → ClaimLimits → Session
claim_session id stored now limits = record stored {
  state = claimed;
  claimed_at = now;
  expires_at = now + limits.session_max_duration;
  tombstone_expires_at = now + limits.session_max_duration + limits.idempotency_ttl;
  lease_id = lease_name id;
  ticket_ciphertext = [];
}

abbrev pub lease_of : Str → Session → SessionLease
lease_of id stored = record {
  id = lease_name id;
  session = clone stored;
  expires_at = stored.expires_at;
}

abbrev pub granted : Str → Session → Time → ClaimLimits → Store → Store
granted id stored now limits s = record s {
  sessions = insert id (claim_session id stored now limits) s.sessions;
  leases = insert id (lease_of id (claim_session id stored now limits)) s.leases;
}

unfoldable pub claim_in :
    Option Session → Str → Bytes → Time → ClaimLimits → Op Error Store SessionLease
claim_in none id digest now limits s = (err not_found, s)
claim_in (some stored) id digest now limits s =
    if not (is_issued stored.state) || not (ltb now stored.ticket_expires_at)
    then (err failed_precondition, expire_ticket id stored now s)
    else if not (str_eq stored.ticket_digest digest)
    then (err invalid_ticket, s)
    else if leb limits.max_active (length s.leases)
    then (err capacity, s)
    else if leb limits.max_active_per_subject (subject_active stored.subject_id s)
    then (err capacity, s)
    else (ok (lease_of id (claim_session id stored now limits)), granted id stored now limits s)

unfoldable pub claim_and_reserve : Str → Bytes → Time → ClaimLimits → Op Error Store SessionLease
unfolding claim_in
claim_and_reserve id digest now limits s =
    let t = cleanup now s in claim_in (lookup id t.sessions) id digest now limits t

abbrev pub released : Str → Session → Str → Time → Store → Store
released id stored reason now s = record s {
  leases = remove id s.leases;
  sessions = insert id (close_session stored now reason) s.sessions;
}

unfoldable pub close_in : Option Session → Str → Str → Str → Time → Op Error Store (Unit {0})
close_in none id lease_id reason now s = (err not_found, s)
close_in (some stored) id lease_id reason now s =
    if is_closed stored.state
    then (ok tt, s)
    else if not (is_claimed stored.state) || not (str_eq stored.lease_id lease_id)
    then (err failed_precondition, s)
    else (ok tt, released id stored reason now s)

unfoldable pub close_and_release : Str → Str → Str → Time → Op Error Store (Unit {0})
unfolding close_in
close_and_release id lease_id reason now s =
    let t = cleanup now s in close_in (lookup id t.sessions) id lease_id reason now t
