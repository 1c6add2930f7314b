-- ===== src/Tests/StartTests.antt =====
-- internal/config/config.go, cmd/session-gateway/main.go and internal/runtime/kubernetes/exec.go at
-- concrete inputs.
use ani_session_gateway.Prelude.{
  ◌≡◌, refl, true, false, if◌then◌else◌, Option, none, some, [], ◌∷◌, Str, str, str_eq, ok,
}
use ani_session_gateway.Prelude.Assoc.{Assoc, lookup}
use ani_session_gateway.Session.Model.{
  zero_bytes, InstanceBinding, container, zero_instance_binding,
}
use ani_session_gateway.WebSocket.Headers.{
  split_commas, trim_space, trim_left, trim_reversed, reverse_onto,
}
use ani_session_gateway.Config.{
  Environment, Config, Url, load, parse_public_url, parse_origins, parse_items, parse_origin,
  read_key, load_limits, duration, positive_int, env_or, insecure, has_prefix,
}
use ani_session_gateway.Wiring.Accepted.{IsAccepted, load-IsAccepted}
use ani_session_gateway.Runtime.{ExecTarget}
use ani_session_gateway.Pods.{
  Pod, resolve, eligible, is_target, choose, first, before, container_of, pod_ready, matched,
  resource_tenant_label, resource_label, owner_label,
}
use ani_session_gateway.Resource.{Validator, validate, answered}
use ani_session_gateway.Exec.{ExecAdapter, ExecCall, open_exec, binding_error, command_of}
use ani_session_gateway.Exec.Guarded.{IsOpened, open_exec-IsOpened}

abbrev variables : Assoc Str
variables =
    (str "PUBLIC_WS_BASE_URL", str "wss://host/api/v1/realtime/")
    ∷ (str "ALLOWED_ORIGINS", str "https://a/")
    ∷ (str "TICKET_ENCRYPTION_KEY_FILE", str "key")
    ∷ (str "STORE_MODE", str "memory")
    ∷ []

abbrev or_unset : Option Str → Str
or_unset none = []
or_unset (some v) = v

abbrev plain_url : Str → Str → Url
plain_url scheme path = record {
  scheme = scheme;
  host = str "host";
  has_user = false;
  path = path;
  raw_query = [];
  fragment = [];
}

abbrev environment : Environment
environment = record {
  getenv = λ name. or_unset (lookup name variables);
  read_file = λ name. some (zero_bytes 32);
  parse_url = λ raw.
      if str_eq raw (str "https://a/")
      then some (plain_url (str "https") (str "/"))
      else some (plain_url (str "wss") (str "/api/v1/realtime/"));
  is_host_port = λ s. true;
  parse_duration = λ s. none;
  atoi = λ s. none;
}

abbrev loaded : Config
loaded = record {
  public_ws_base_url = plain_url (str "wss") (str "/api/v1/realtime");
  allowed_origins = str "https://a" ∷ [];
  ticket_key = zero_bytes 32;
  texts = record {
    http_addr = str ":8080";
    grpc_addr = str ":9090";
    store_mode = str "memory";
    redis_url = [];
    ticket_key_file = str "key";
    otel_service_name = str "ani-session-gateway";
    otel_exporter_endpoint = [];
  };
  limits = record {
    ticket_ttl = 60_000_000_000;
    session_max_duration = 900_000_000_000;
    idempotency_ttl = 900_000_000_000;
    ws_handshake_timeout = 10_000_000_000;
    runtime_request_timeout = 30_000_000_000;
    ws_idle_timeout = 600_000_000_000;
    shutdown_grace_period = 25_000_000_000;
    max_active_sessions = 100;
    max_active_per_subject = 5;
    ws_max_message_bytes = 65536;
  };
}

it_loads : load environment ≡ ok loaded
unfolding load parse_public_url parse_origins parse_items parse_origin read_key load_limits duration
    positive_int env_or insecure has_prefix lookup str_eq split_commas trim_space trim_left
    trim_reversed reverse_onto
it_loads = refl

load-IsAccepted_example : IsAccepted loaded
load-IsAccepted_example = load-IsAccepted environment it_loads

abbrev binding : InstanceBinding
binding = record zero_instance_binding {
  enabled = true;
  cluster_id = str "c";
  namespace = str "n";
  pod_name = str "p";
  pod_uid = str "u";
  shell = str "/bin/bash";
}

abbrev target : ExecTarget
target = record {
  instance_id = str "i";
  instance_binding = binding;
  tenant_id = str "t";
  workload_name = str "w";
  workload_kind = container;
  container = [];
  command = [];
  tty = true;
}

abbrev the_pod : Pod
the_pod = record {
  namespace = str "n";
  name = str "p";
  uid = str "u";
  labels =
      (resource_tenant_label, str "t")
      ∷ (resource_label, str "i")
      ∷ (owner_label, str "ani-resource-service")
      ∷ [];
  deleting = false;
  running = true;
  conditions = record { is_ready_type = true; is_true = true } ∷ [];
  created = 1;
  containers = str "main" ∷ [];
}

-- A service that vouches for every target.
abbrev service : Validator
service = record { client = some (λ t. ok (some true)); vm_client = none; request_timeout = 5 }

abbrev adapter : ExecAdapter
adapter = record {
  request_timeout = 5;
  instance_validator = some (validate service);
  instance_cluster_id = str "c";
  cluster = record {
    is_dns_label = λ s. true;
    list_pods = λ namespace labels. some (the_pod ∷ []);
  };
}

abbrev the_call : ExecCall
the_call = record {
  pod = record { namespace = str "n"; name = str "p"; container = str "main" };
  command =
      str "/bin/bash"
      ∷ str "-c"
      ∷ str "[ \"$ANI_INSTANCE_POD_UID\" = \"$1\" ] || exit 126; shift; exec \"$@\""
      ∷ str "instance-uid-guard"
      ∷ str "u"
      ∷ str "/bin/sh"
      ∷ [];
  stdin = true;
  stdout = true;
  stderr = false;
  tty = true;
}

it_opens : open_exec adapter true target ≡ ok the_call
unfolding open_exec binding_error command_of resolve eligible is_target choose first before
    container_of pod_ready matched validate answered str_eq lookup
it_opens = refl

open_exec-IsOpened_example : IsOpened adapter service target refl true the_call
open_exec-IsOpened_example = open_exec-IsOpened adapter service target refl true it_opens
