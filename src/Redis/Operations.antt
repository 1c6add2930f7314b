-- ===== src/Redis/Operations.antt =====
-- The methods of the store of internal/store/redis/store.go. Each talks to the server by calls, which
-- the network may lose, and between which other clients may act.
use ani_session_gateway.Prelude.{
  ℕ, ◌+◌, Bool, Option, none, some, List, [], ◌∷◌, ◌++◌, Str, Bytes, str, is_empty, ◌==◌,
  if◌then◌else◌, Result, ok, err, Op, ◌>>=◌, pure, raise,
}
use ani_session_gateway.Prelude.Assoc.{Assoc, lookup}
use ani_session_gateway.Session.Errors.{
  Error, conflict, failed_precondition, invalid_ticket, capacity, not_found, unavailable, other,
}
use ani_session_gateway.Session.Model.{Time, Session, SessionLease, ClaimLimits}
use ani_session_gateway.Session.Encoding.{hex}
use ani_session_gateway.Session.Decoding.{both}
use ani_session_gateway.Redis.Server.{Server}
use ani_session_gateway.Redis.Codec.{Json, unix_milli, field_order, encode, decode, or_empty}
use ani_session_gateway.Redis.Scripts.{
  Fault, fault, integer, bulk, Reply, ClaimCall, create_script, claim_script, close_script,
}

-- `arrives` is a call that is answered; the others end by an error of the client.
pub data Fate : Type 0 where
  arrives request_lost reply_lost : Fate

-- What happens to one call: first the commands of other clients, and the time that passes.
pub record Delivery (Db : Type 0) : Type 0 where
  pub meanwhile : Db → Db
  pub fate : Fate

-- The server's state and what the network does to the calls to come. The calls after those listed
-- arrive, and find the server as the last call left it.
pub record World (Db : Type 0) : Type 0 where
  pub db : Db
  pub deliveries : List (Delivery Db)

-- An error of the client or of a script is wrapped by `unavailable`.
abbrev pub reply_of : {A : Type 0} → Result Fault A → Result Error A
reply_of (ok a) = ok a
reply_of (err fault) = err unavailable

module _ {Db : Type 0} {A : Type 0} where
  abbrev pub answered : List (Delivery Db) → Result Fault A × Db → Result Error A × World Db
  answered rest (r, d) = (reply_of r, record { db = d; deliveries = rest })

  abbrev pub delivered : Fate → List (Delivery Db) → Op Fault Db A → Db → Result Error A × World Db
  delivered arrives rest f d = answered rest (f d)
  delivered request_lost rest f d = (err unavailable, record { db = d; deliveries = rest })
  delivered reply_lost rest f d = (err unavailable, record { db = (f d).1; deliveries = rest })

  abbrev pub call_in : List (Delivery Db) → Op Fault Db A → Db → Result Error A × World Db
  call_in [] f d = answered [] (f d)
  call_in (e ∷ rest) f d = delivered e.fate rest f (e.meanwhile d)

  unfoldable pub call : Op Fault Db A → Op Error (World Db) A
  call f w = call_in w.deliveries f w.db

  -- A command that only reads.
  abbrev pub read : (Db → A) → Op Fault Db A
  read f d = (ok (f d), d)

abbrev pub lift : {W A : Type 0} → Result Error A → Op Error W A
lift r w = (r, w)

unfoldable pub single_code : Reply → Result Error ℕ
single_code [] = err other
single_code (integer n ∷ rest) = ok n
single_code (bulk s ∷ rest) = err other

unfoldable pub result_code_id : Reply → Result Error (ℕ × Str)
result_code_id (integer n ∷ bulk id ∷ rest) = ok (n, id)
result_code_id _ = err other

abbrev pub default_prefix : Str
default_prefix = str "{ani-session-gateway}:"

abbrev pub session_prefix : Str
session_prefix = default_prefix ++ str "session:"

unfoldable pub session_key : Str → Str
session_key id = session_prefix ++ id

unfoldable pub idem_key : (Bytes → Bytes) → Str → Str
idem_key sha256 key = default_prefix ++ (str "idem:" ++ hex (sha256 key))

unfoldable pub global_leases_key : Str
global_leases_key = default_prefix ++ str "leases"

unfoldable pub subject_leases_key : (Bytes → Bytes) → Str → Str
subject_leases_key sha256 subject =
    default_prefix ++ (str "subject:" ++ (hex (sha256 subject) ++ str ":leases"))

-- The loop over `fieldOrder` that builds the arguments.
unfoldable pub arguments : List Str → Assoc Str → Assoc Str
arguments [] fields = []
arguments (name ∷ names) fields = (name, or_empty (lookup name fields)) ∷ arguments names fields

-- HMGET of the two fields, which is no reply at all where one is missing.
abbrev pub identity : (S : Server) → Str → S.Db → Option (Str × Str)
identity S key d =
    both (λ subject idem. (subject, idem)) (S.hget key (str "subject_id") d)
      (S.hget key (str "idempotency_key") d)

abbrev pub lease_name : Str → Str
lease_name id = id ++ str ":lease"

abbrev pub claim_args : (Bytes → Bytes) → Str → Bytes → Time → ClaimLimits → Str × Str → ClaimCall
claim_args sha256 id digest now limits (subject, idem) = record {
  key = session_key id;
  all_leases = global_leases_key;
  subject_leases = subject_leases_key sha256 subject;
  idem = idem_key sha256 idem;
  now = unix_milli now;
  digest = hex digest;
  max_active = limits.max_active;
  max_active_per_subject = limits.max_active_per_subject;
  expires = unix_milli (now + limits.session_max_duration);
  lease_id = lease_name id;
  id = id;
  until = unix_milli (now + limits.session_max_duration + limits.idempotency_ttl);
}

-- The server, and JSON.
module _ (S : Server) (j : Json) where
  unfoldable pub loaded : Assoc Str → Result Error Session
  unfolding decode
  loaded fields = if is_empty fields then err not_found else decode j fields

  unfoldable pub load : Str → Op Error (World S.Db) Session
  unfolding call loaded session_key
  load id = do fields ← call (read (S.hgetall (session_key id))); lift (loaded fields)

  unfoldable pub created : ℕ × Str → Op Error (World S.Db) (Session × Bool)
  unfolding load
  created (code, id) =
      if code == 2
      then raise conflict
      else if code == 3
      then raise failed_precondition
      else (load id >>= λ stored. pure (stored, code == 1))

  unfoldable pub got : Option Str → Op Error (World S.Db) Session
  unfolding load
  got none = raise not_found
  got (some id) = load id

  unfoldable pub claimed_as : Str → Time → ClaimLimits → ℕ → Op Error (World S.Db) SessionLease
  unfolding load
  claimed_as id now limits code =
      if code == 1
      then raise not_found
      else if code == 2
      then raise invalid_ticket
      else if code == 3
      then raise failed_precondition
      else if code == 4
      then raise capacity
      else (load id >>= λ stored. pure (record {
        id = lease_name id;
        session = stored;
        expires_at = now + limits.session_max_duration;
      }))

-- The server, JSON and SHA-256.
module _ (S : Server) (j : Json) (sha256 : Bytes → Bytes) where
  unfoldable pub create_call : Str → Session → Op Fault S.Db Reply
  unfolding create_script idem_key session_key arguments field_order encode
  create_call key candidate =
      create_script S (idem_key sha256 key) (session_key candidate.id) session_prefix
        (unix_milli candidate.created_at) (hex candidate.request_fingerprint) candidate.id
        (arguments field_order (encode j candidate)) (unix_milli candidate.tombstone_expires_at)

  unfoldable pub create_or_get : Str → Session → Op Error (World S.Db) (Session × Bool)
  unfolding call create_call result_code_id created
  create_or_get key candidate = do
    reply ← call (create_call key candidate)
    code_id ← lift (result_code_id reply)
    created S j code_id

  unfoldable pub get_by_key : Str → Op Error (World S.Db) Session
  unfolding call idem_key got
  get_by_key key = call (read (S.get (idem_key sha256 key))) >>= got S j

  unfoldable pub claim_known :
      Str → Bytes → Time → ClaimLimits → Option (Str × Str) → Op Error (World S.Db) SessionLease
  unfolding call claim_script single_code claimed_as session_key global_leases_key
      subject_leases_key idem_key
  claim_known id digest now limits none = raise not_found
  claim_known id digest now limits (some who) = do
    reply ← call (claim_script S (claim_args sha256 id digest now limits who))
    code ← lift (single_code reply)
    claimed_as S j id now limits code

  unfoldable pub claim_and_reserve :
      Str → Bytes → Time → ClaimLimits → Op Error (World S.Db) SessionLease
  unfolding call claim_known session_key
  claim_and_reserve id digest now limits =
      call (read (identity S (session_key id))) >>= claim_known id digest now limits

  unfoldable pub close_known :
      Str → Str → Str → Time → Option Str → Op Error (World S.Db) (Unit {0})
  unfolding call close_script single_code session_key global_leases_key subject_leases_key
  close_known id lease_id reason now none = raise not_found
  close_known id lease_id reason now (some subject) = do
    reply ← call (
        close_script S (record {
          key = session_key id;
          all_leases = global_leases_key;
          subject_leases = subject_leases_key sha256 subject;
          lease_id = lease_id;
          reason = reason;
          now = unix_milli now;
          id = id;
        }))
    code ← lift (single_code reply)
    if code == 1 then raise not_found else if code == 2 then raise failed_precondition else pure tt

  unfoldable pub close_and_release : Str → Str → Str → Time → Op Error (World S.Db) (Unit {0})
  unfolding call close_known session_key
  close_and_release id lease_id reason now =
      call (read (S.hget (session_key id) (str "subject_id")))
      >>= close_known id lease_id reason now
