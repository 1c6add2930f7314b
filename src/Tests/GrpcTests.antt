-- ===== src/Tests/GrpcTests.antt =====
-- The gRPC transport and the replay of a session at concrete inputs, over the memory store.
use ani_session_gateway.Prelude.{
  ◌≡◌, refl, inr, true, false, Option, none, some, [], ◌∷◌, str, str_eq, ok, pos,
}
use ani_session_gateway.Prelude.Assoc.{lookup, insert, remove}
use ani_session_gateway.Session.Model.{Session, Request, Issued, ReplayRequest, vm, vnc}
use ani_session_gateway.Session.Encoding.{base64_url, hex}
use ani_session_gateway.Session.Fingerprint.{fingerprint}
use ani_session_gateway.Session.Validate.{
  validate_request, bad_vm_binding, bad_instance_binding, valid_vm_binding,
}
use ani_session_gateway.Memory.{
  Store, get_by_key, cleanup, expire_leases, drop_tombstones, create_or_get,
}
use ani_session_gateway.Memory.Invariant.{new-IsCoherent}
use ani_session_gateway.Memory.Laws.{memory_store, memory_laws}
use ani_session_gateway.Manager.Config.{ManagerConfig, admit, uuid_of, candidate_of}
use ani_session_gateway.Manager.Calls.{
  World, read_full, encrypt, decrypt, random_id, draw_id, draw_from, draw, hand_out, store_drawn,
  issue_admitted, issue, replay, replay_stored,
}
use ani_session_gateway.Manager.Replays.{IsReplayed, replay-IsReplayed, replay-memory}
use ani_session_gateway.Grpc.Messages.{
  CreateSessionRequest, Principal, TargetMessage, VmBindingMessage, GetSessionReplayRequest,
  ModeMessage, ConsoleProtocol, WorkloadKindMessage,
}
use ani_session_gateway.Grpc.Requests.{map_request, with_mode, base_request}
use ani_session_gateway.Grpc.{
  TlsInfo, Response, governance_uri, authenticated_governance, create_session,
}
use ani_session_gateway.Grpc.Sessions.{create_session-authenticated}
use ani_session_gateway.Tests.Samples.{toy, toy_laws, config, counting, world, the_ticket, the_id}

abbrev bound : VmBindingMessage
bound = record {
  tenant_id = str "tenant";
  vm_id = str "vm-1";
  version = pos 3;
  cluster_id = str "c";
  namespace = str "n";
  vm_name = str "desk";
  vm_uid = str "u";
  vmi_name = str "desk";
  vmi_uid = str "i";
  namespace_uid = str "x";
}

abbrev principal : Principal
principal = record { tenant_id = str "tenant"; subject_id = str "subject" }

abbrev target : TargetMessage
target = record {
  instance_id = str "vm-1";
  workload_name = str "desk";
  workload_kind = WorkloadKindMessage.vm;
  instance_binding = none;
  vm_binding = some bound;
}

abbrev console_request : CreateSessionRequest
console_request = record {
  request_id = str "r";
  idempotency_key = str "key";
  principal = some principal;
  target = some target;
  mode =
      ModeMessage.vm_console
        (some (record { protocol = ConsoleProtocol.vnc; requested_protocol = [] }));
}

abbrev mapped : Request
mapped = record (base_request console_request principal target vm) { mode = vnc }

abbrev console_config : ManagerConfig
console_config = record config { vm_validator = some (λ b. none) }

abbrev governance : Option TlsInfo
governance = some (record { verified_chains = 1; peer_certificates = (governance_uri ∷ []) ∷ [] })

abbrev console_session : Session
console_session =
    candidate_of console_config mapped 5 the_id (fingerprint toy.sha256 mapped) the_ticket
      (17 ∷ 16 ∷ the_ticket)

abbrev console_issued : Response
console_issued = record {
  issued = record { session = console_session; ticket = the_ticket; replayed = false };
  replayed = false;
}

console_created :
    (create_session memory_store toy console_config governance (some console_request) 5 world).0
    ≡ ok console_issued
unfolding create_session authenticated_governance map_request with_mode issue issue_admitted
    store_drawn hand_out draw draw_from draw_id random_id encrypt read_full uuid_of admit
    validate_request bad_vm_binding bad_instance_binding valid_vm_binding base64_url hex counting
    create_or_get cleanup expire_leases drop_tombstones insert remove lookup str_eq
console_created = refl

create_session-authenticated_example : authenticated_governance governance ≡ true
create_session-authenticated_example =
    create_session-authenticated memory_store toy toy_laws console_config memory_laws governance
      (some console_request) 5 world new-IsCoherent console_created refl (inr refl)

abbrev console_world : World Store
console_world = record {
  store = record {
    sessions = (the_id, console_session) ∷ [];
    by_key = (str "key", the_id) ∷ [];
    leases = [];
  };
  random = [];
  observed = [];
}

abbrev again_request : ReplayRequest
again_request = record {
  idempotency_key = str "key";
  tenant_id = str "tenant";
  subject_id = str "subject";
  instance_id = str "vm-1";
  expected_version = pos 3;
}

abbrev again : Issued
again = record { session = console_session; ticket = the_ticket; replayed = true }

replayed_ok : (replay memory_store toy console_config again_request 7 8 console_world).0 ≡ ok again
unfolding replay replay_stored decrypt get_by_key lookup str_eq
replayed_ok = refl

replay-IsReplayed_example : IsReplayed memory_store toy console_config again_request 7 8 again
replay-IsReplayed_example =
    replay-IsReplayed memory_store toy console_config again_request 7 8 console_world replayed_ok

replay-memory_example :
    (replay memory_store toy console_config again_request 7 8 console_world).1 ≡ console_world
replay-memory_example = replay-memory toy console_config again_request 7 8 console_world

abbrev again_message : GetSessionReplayRequest
again_message = record {
  idempotency_key = str "key";
  principal = some principal;
  instance_id = str "vm-1";
  expected_version = pos 3;
}

abbrev again_response : Response
again_response = record { issued = again; replayed = true }
