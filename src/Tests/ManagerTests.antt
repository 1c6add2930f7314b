-- ===== src/Tests/ManagerTests.antt =====
-- internal/session/manager.go at concrete inputs, over the memory store.
use mathlib.Core.Option
use ani_session_gateway.Prelude.{
  ◌↔◌, true, Bytes, [], pos, ◌≡◌, refl, false, Option, none, some, ◌∷◌, str, str_eq, Result, ok,
  err, arith,
}
use ani_session_gateway.Prelude.Assoc.{lookup, insert, remove, count_by}
use ani_session_gateway.Session.Model.{Request, Issued, ClaimedAccess}
use ani_session_gateway.Session.Errors.{Error}
use ani_session_gateway.Session.Encoding.{decimal, decimal_int, base64_url, hex}
use ani_session_gateway.Session.Validity.{IsValid, validate_request_iff}
use ani_session_gateway.Session.Validate.{validate_request, bad_vm_binding, bad_instance_binding}
use ani_session_gateway.Memory.{
  cleanup, expire_leases, drop_tombstone, drop_tombstones, create_or_get,
}
use ani_session_gateway.Memory.Invariant.{new-IsCoherent}
use ani_session_gateway.Memory.Kept.{HasRoom}
use ani_session_gateway.Memory.Laws.{memory_store, memory_laws}
use ani_session_gateway.Session.Fingerprint.{fingerprint, fingerprint_values, write_all}
use ani_session_gateway.Manager.Config.{admit, candidate_of, uuid_of, limits_of}
use ani_session_gateway.Manager.Calls.{
  read_full, encrypt, decrypt, random_id, draw_id, draw_from, draw, hand_out, store_drawn,
  issue_admitted, issue, claim,
}
use ani_session_gateway.Manager.Issue.{IsIssue, issue-IsIssue, decrypt-encrypt}
use ani_session_gateway.Manager.Roundtrip.{Serves, claim-issue}
use ani_session_gateway.Tests.Samples.{request, toy, toy_laws, config, counting, world, the_ticket}

abbrev issued_of : Result Error Issued → Option Issued
issued_of (ok i) = some i
issued_of (err e) = none

ticket_test :
    Option.map (λ i. i.ticket) (issued_of (issue memory_store toy config request 5 world).0)
    ≡ some the_ticket
unfolding issue issue_admitted store_drawn hand_out draw draw_from draw_id random_id encrypt
    read_full uuid_of admit validate_request bad_vm_binding bad_instance_binding base64_url hex
    counting create_or_get cleanup expire_leases drop_tombstones insert remove lookup
ticket_test = refl

abbrev the_issued : Issued
the_issued = record {
  session =
      candidate_of config request 5 (str "0f0e0d0c-0b0a-4908-8706-050403020100")
        (fingerprint toy.sha256 request) the_ticket (17 ∷ 16 ∷ the_ticket);
  ticket = the_ticket;
  replayed = false;
}

issue_ok : (issue memory_store toy config request 5 world).0 ≡ ok the_issued
unfolding issue issue_admitted store_drawn hand_out draw draw_from draw_id random_id encrypt
    read_full uuid_of admit validate_request bad_vm_binding bad_instance_binding base64_url hex
    counting create_or_get cleanup expire_leases drop_tombstones insert remove lookup
issue_ok = refl

issue_room :
    HasRoom 9
      (limits_of config)
      request.subject_id
      (issue memory_store toy config request 5 world).1.store
unfolding issue issue_admitted store_drawn hand_out draw draw_from draw_id random_id encrypt
    read_full uuid_of admit validate_request bad_vm_binding bad_instance_binding base64_url hex
    counting create_or_get cleanup expire_leases drop_tombstones drop_tombstone insert remove lookup
    count_by str_eq
issue_room = record { room = omega arith; subject_room = omega arith }

issue-IsIssue_example :
    (admit config request ≡ none) × IsIssue memory_store toy toy_laws config request 5 the_issued
issue-IsIssue_example =
    issue-IsIssue memory_store toy toy_laws config memory_laws request 5 world new-IsCoherent
      issue_ok

claim-issue_example :
    (a : ClaimedAccess) × ((claim memory_store toy config the_issued.session.id the_issued.ticket 9
        (issue memory_store toy config request 5 world).1).0
      ≡ ok a)
    × Serves toy toy_laws config request the_issued 9 a
unfolding lookup
claim-issue_example =
    claim-issue toy toy_laws config request 5 9 world new-IsCoherent issue_ok refl refl
      (omega arith) issue_room

sealed_ok : (encrypt memory_store toy config (str "text") world).0 ≡ ok (49 ∷ 48 ∷ str "text")
unfolding encrypt read_full counting
sealed_ok = refl

decrypt-encrypt_example : decrypt memory_store toy config (49 ∷ 48 ∷ str "text") ≡ some (str "text")
decrypt-encrypt_example =
    decrypt-encrypt memory_store toy toy_laws config (str "text") world sealed_ok

-- A shell in a pod that is named like a flag, and a command that spells out its binding.
abbrev bound_request : Request
bound_request = record request {
  container = str "80";
  command = [];
  instance_binding = record {
    enabled = true;
    version = pos 1;
    cluster_id = str "c";
    namespace = str "n";
    notebook_name = str "b";
    notebook_uid = str "u";
    pod_name = str "true";
    pod_uid = str "24";
    container_name = str "80";
    shell = str "sh";
  };
}

abbrev free_request : Request
free_request = record request {
  container = str "80";
  command =
      str "true" ∷ str "24" ∷ str "80" ∷ [] ∷ str "1" ∷ str "c" ∷ str "n" ∷ str "b" ∷ str "u" ∷ [];
  requested_protocol = str "sh";
}

both_valid : (validate_request bound_request ≡ none) × (validate_request free_request ≡ none)
unfolding validate_request bad_vm_binding bad_instance_binding str_eq
both_valid = (refl, refl)

same_fingerprint :
    (sha256 : Bytes → Bytes) → fingerprint sha256 bound_request ≡ fingerprint sha256 free_request
unfolding fingerprint fingerprint_values write_all decimal decimal_int
same_fingerprint sha256 = refl

validate_request_iff_example : (validate_request request ≡ none) ↔ IsValid request
validate_request_iff_example = validate_request_iff request
