-- ===== src/Tests/WebSocketTests.antt =====
-- The WebSocket transport and a connected session at concrete inputs, over the memory store.
use ani_session_gateway.Prelude.{◌≡◌, refl, true, false, none, List, [], ◌∷◌, str, str_eq}
use ani_session_gateway.Prelude.Assoc.{lookup, insert, remove, count_by}
use ani_session_gateway.Session.Model.{
  Session, Request, Issued, ReplayRequest, ClaimedAccess, VmBinding, vm, vnc, exec, container,
  issued, zero_instance_binding,
}
use ani_session_gateway.Memory.{
  Store, new, cleanup, expire_lease, expire_leases, drop_tombstone, drop_tombstones, create_or_get,
  claim_and_reserve, claim_in, create_in, close_in, close_and_release,
}
use ani_session_gateway.Memory.Invariant.{IsCoherent, new-IsCoherent}
use ani_session_gateway.Memory.Release.{IsNamed, new-IsNamed, create_or_get-IsNamed}
use ani_session_gateway.Memory.Coherence.{create_or_get-IsCoherent}
use ani_session_gateway.Memory.History.{Call, claim}
use ani_session_gateway.Memory.Laws.{memory_store}
use ani_session_gateway.Manager.Calls.{
  World, read_full, encrypt, decrypt, random_id, draw_id, draw_from, draw, hand_out, store_drawn,
  issue_admitted, issue, replay, replay_stored,
}
use ani_session_gateway.Connected.{Outcome, invalid_start, Accepted}
use ani_session_gateway.Connected.Running
use ani_session_gateway.Connected.Running.{Environment, Report}
use ani_session_gateway.Connected.Consoles
use ani_session_gateway.WebSocket.{
  HttpRequest, Clock, Reply, serve, after_claim, origin_allowed, offers_known_subprotocol,
}
use ani_session_gateway.WebSocket.Headers.{
  offers_subprotocol, split_commas, trim_space, trim_left, trim_reversed, reverse_onto, any_offers,
}
use ani_session_gateway.WebSocket.Admission.{IsServed, serve-IsServed}
use ani_session_gateway.Tests.Samples.{toy, config, sample_session, typed_json, policy}

abbrev environment : Environment
environment = record {
  open_exec = λ target size. none;
  open_serial = λ target. none;
  open_vnc = λ target. none;
  terminal_events = [];
  console_events = Consoles.max_fires 100 ∷ [];
  cancelled = false;
  connected_at = 11;
  carried_at = 12;
  closed_at = 13;
  finished_at = 14;
}

abbrev first : Session
first = sample_session (str "one") (str "key")

-- One session is issued.
abbrev issued_world : World Store
issued_world = record {
  store = (create_or_get (str "key") first new).1;
  random = [];
  observed = [];
}

issued-IsCoherent : IsCoherent issued_world.store
unfolding lookup
issued-IsCoherent =
    create_or_get-IsCoherent (str "key") first new new-IsCoherent
      (record { keyed = refl; is_new = refl }) refl

issued-IsNamed : IsNamed issued_world.store
issued-IsNamed = create_or_get-IsNamed (str "key") first new new-IsCoherent new-IsNamed

abbrev empty_world : World Store
empty_world = record { store = new; random = []; observed = [] }

abbrev some_access : ClaimedAccess
some_access = record {
  session_id = str "one";
  lease_id = str "one:lease";
  expires_at = 60;
  identity = record {
    tenant_id = str "tenant";
    subject_id = str "subject";
    instance_id = str "vm-1";
  };
  target = record {
    instance_binding = zero_instance_binding;
    vm_binding = binding;
    workload_name = str "desk";
    workload_kind = vm;
  };
  mode = vnc;
  exec = none;
}
  where
    binding : VmBinding
    binding = ani_session_gateway.Session.Model.zero_vm_binding

abbrev no_protocol : Accepted
no_protocol = record { access = some_access; subprotocol = none }

abbrev refused_start : Report
refused_start = record {
  facts = record {
    session_id = str "one";
    tenant_id = str "tenant";
    subject_id = str "subject";
    instance_id = str "vm-1";
    mode = vnc;
  };
  final = none;
  finish = record {
    outcome = invalid_start;
    connected = false;
    duration = 0;
    bytes_in = 0;
    bytes_out = 0;
  };
}

abbrev upgrade : HttpRequest
upgrade = record {
  origin = str "https://console";
  protocols = str "ani.vnc.v1";
  ticket = str "digest";
  session_id = str "one";
  upgrades = true;
}

abbrev clock : Clock
clock = record { claimed_at = 8; released_at = 9 }

serve-IsServed_example :
    IsServed toy config typed_json policy environment
      (str "https://console" ∷ [])
      clock
      upgrade
      issued_world
      (serve memory_store toy config typed_json policy environment
        (str "https://console" ∷ [])
        clock
        upgrade
        issued_world)
serve-IsServed_example =
    serve-IsServed toy config typed_json policy environment (str "https://console" ∷ []) clock
      upgrade issued_world issued-IsCoherent issued-IsNamed

-- The ticket is right, but the session is no console.
serve_test :
    (serve memory_store toy config typed_json policy environment
      (str "https://console" ∷ [])
      clock
      upgrade
      issued_world).0
    ≡ Reply.status 400
unfolding serve after_claim origin_allowed offers_known_subprotocol offers_subprotocol any_offers
    split_commas trim_space trim_left trim_reversed reverse_onto
    ani_session_gateway.Manager.Calls.claim ani_session_gateway.Manager.Calls.close
    claim_and_reserve claim_in close_and_release close_in create_or_get create_in cleanup
    expire_leases expire_lease drop_tombstones drop_tombstone insert remove lookup count_by str_eq
serve_test = refl

abbrev claims : List Call
claims = claim (str "one") (str "digest") 6 ∷ []
