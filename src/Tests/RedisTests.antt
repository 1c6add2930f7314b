-- ===== src/Tests/RedisTests.antt =====
-- internal/store/redis/store.go at concrete inputs, over a server of plain maps.
use ani_session_gateway.Prelude.{
  ℕ, ◌+◌, ◌*◌, ◌≡◌, refl, false, some, [], ◌∷◌, Bytes, str, ok, arith,
}
use ani_session_gateway.Prelude.Assoc.{lookup}
use ani_session_gateway.Session.Model.{
  Session, ClaimLimits, issued, zero_session, zero_bytes, zero_instance_binding, zero_vm_binding,
}
use ani_session_gateway.Memory.{Store}
use ani_session_gateway.Redis.Codec.{Json, field_order, encode, mode_of, kind_of}
use ani_session_gateway.Redis.Stored.{IsStorable, in_millis}
use ani_session_gateway.Redis.Scripts.{hset_all}
use ani_session_gateway.Redis.Operations.{
  World, arrives, reply_lost, arguments, session_key, create_or_get, get_by_key, claim_and_reserve,
}
use ani_session_gateway.Redis.Rows.{calm}
use ani_session_gateway.Redis.Creation.{IsFree}
use ani_session_gateway.Redis.Refinement.{get_by_key-create_or_get}
use ani_session_gateway.Redis.Explained.{IsExplained, claim_and_reserve-IsExplained}
use ani_session_gateway.Tests.PlainRedis.{PlainDb, plain, plain_laws}

-- A coding of the values that the session below has.
abbrev json : Json
json = record {
  marshal_command = λ c. str "null";
  marshal_instance = λ b. str "{}";
  marshal_vm = λ b. str "{}";
  unmarshal_command = λ t. some [];
  unmarshal_instance = λ t. some zero_instance_binding;
  unmarshal_vm = λ t. some zero_vm_binding;
}

abbrev second : ℕ
second = 1_000_000_000

abbrev session : Session
session = record zero_session {
  id = str "one";
  idempotency_key = str "key";
  subject_id = str "subject";
  ticket_ciphertext = 7 ∷ [];
  state = issued;
  created_at = second + 5;
  ticket_expires_at = 61 * second;
  tombstone_expires_at = 961 * second;
}

abbrev limits : ClaimLimits
limits = record {
  max_active = 1;
  max_active_per_subject = 1;
  session_max_duration = 900 * second;
  idempotency_ttl = 900 * second;
}

abbrev sha : Bytes → Bytes
sha bs = bs

abbrev empty : PlainDb
empty = record { time = 1000; texts = []; hashes = []; sets = [] }

-- The database that holds the session, and the memory store that does.
abbrev holding : PlainDb
holding =
    hset_all plain (session_key (str "one")) (arguments field_order (encode json session)) empty

abbrev memory : Store
memory = record {
  sessions = (str "one", session) ∷ [];
  by_key = (str "key", str "one") ∷ [];
  leases = [];
}

session-IsStorable : IsStorable json session
unfolding mode_of kind_of
session-IsStorable = record {
  fingerprint_bytes = omega arith;
  fingerprint_length = refl;
  digest_bytes = omega arith;
  digest_length = refl;
  ciphertext_bytes = omega arith;
  rows_16 = omega arith;
  cols_16 = omega arith;
  mode_known = refl;
  kind_known = refl;
  command_kept = refl;
  instance_kept = refl;
  instance_text = λ h. cc;
  vm_kept = refl;
  vm_text = λ h. cc;
  created_at_63 = omega arith;
  ticket_expires_at_63 = omega arith;
  expires_at_63 = omega arith;
  tombstone_expires_at_63 = omega arith;
  claimed_at_63 = omega arith;
  closed_at_63 = omega arith;
}

session-IsFree : IsFree plain plain_laws json sha (str "key") session empty
session-IsFree = record { storable = session-IsStorable; in_future = omega arith }

-- The theorems at concrete inputs.
get_by_key-create_or_get_example :
    let w = (create_or_get plain json sha (str "key") session (calm empty)).1 in
    ((create_or_get plain json sha (str "key") session (calm empty)).0
      ≡ ok (in_millis session, false))
    × ((get_by_key plain json sha (str "key") w).0 ≡ ok (in_millis session))
get_by_key-create_or_get_example =
    get_by_key-create_or_get plain plain_laws json sha (str "key") session empty
      (unfold lookup in refl) session-IsFree

-- The reply of the script is lost: the answer is that the store is unavailable.
abbrev lossy : World PlainDb
lossy = record {
  db = holding;
  deliveries =
      record { meanwhile = λ d. d; fate = arrives }
      ∷ record { meanwhile = λ d. d; fate = reply_lost }
      ∷ [];
}

claim_and_reserve-IsExplained_example :
    IsExplained plain sha
      (str "one")
      (zero_bytes 32)
      (2 * second)
      limits
      lossy
      (claim_and_reserve plain json sha (str "one") (zero_bytes 32) (2 * second) limits lossy).0
claim_and_reserve-IsExplained_example =
    claim_and_reserve-IsExplained plain sha (str "one") (zero_bytes 32) (2 * second) limits json
      lossy
