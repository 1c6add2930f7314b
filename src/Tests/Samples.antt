-- ===== src/Tests/Samples.antt =====
-- Sample data: a request, a toy hash and cipher, and the stores that they lead to.
use ani_session_gateway.Prelude.{ℕ, zero, suc, Bytes, refl, true, none, some, [], ◌∷◌, Str, str}
use ani_session_gateway.Session.Model.{
  Session, Request, ClaimLimits, container, exec, issued, zero_session, zero_instance_binding,
  zero_vm_binding,
}
use ani_session_gateway.Memory.{Store, new}
use ani_session_gateway.Manager.Calls.{World}
use ani_session_gateway.Connected.{Policy}
use ani_session_gateway.Connected.Frames.{Json, end_of_input}
use ani_session_gateway.Manager.Config.{Primitives, PrimitiveLaws, ManagerConfig}

abbrev pub limits : ClaimLimits
limits = record {
  max_active = 1;
  max_active_per_subject = 1;
  session_max_duration = 50;
  idempotency_ttl = 30;
}

-- An issued session for one subject, good until 60 and remembered until 90.
abbrev pub sample_session : Str → Str → Session
sample_session id key = record zero_session {
  id = id;
  idempotency_key = key;
  ticket_digest = str "digest";
  ticket_ciphertext = str "secret";
  subject_id = str "subject";
  state = issued;
  created_at = 1;
  ticket_expires_at = 60;
  tombstone_expires_at = 90;
}

abbrev pub request : Request
request = record {
  instance_binding = zero_instance_binding;
  vm_binding = zero_vm_binding;
  request_id = str "r";
  idempotency_key = str "key";
  tenant_id = str "tenant";
  subject_id = str "subject";
  instance_id = str "instance";
  workload_name = str "web";
  workload_kind = container;
  mode = exec;
  container = [];
  command = str "ls" ∷ [];
  tty = true;
  rows = 24;
  cols = 80;
  requested_protocol = [];
}

abbrev pub toy : Primitives
toy = record {
  sha256 = λ x. x;
  nonce_size = 2;
  seal = λ nonce text. text;
  open_sealed = λ nonce sealed. some sealed;
}

pub toy_laws : PrimitiveLaws toy
toy_laws = record { opens = λ nonce text size. refl }

abbrev pub config : ManagerConfig
config = record {
  instance_validator = none;
  vm_validator = none;
  ticket_ttl = 60;
  session_max_duration = 900;
  idempotency_ttl = 900;
  max_active = 2;
  max_active_per_subject = 1;
  observer = true;
}

-- A decoder that takes every message as typed input.
abbrev pub typed_json : Json
typed_json = record {
  decode =
      λ raw. some (record { type = str "stdin"; contents = raw; rows = 0; cols = 0 }, end_of_input);
  encode = λ frame. frame.contents;
}

abbrev pub policy : Policy
policy = record {
  max_message_bytes = 16;
  idle_timeout = 10;
  write_timeout = 5;
  inbound_queue = 2;
  outbound_queue = 2;
}

unfoldable pub counting : ℕ → Bytes
counting zero = []
counting (suc n) = n ∷ counting n

-- An empty store and fifty random bytes: 32 for the ticket, 2 for the nonce, 16 for the identifier.
abbrev pub world : World Store
world = record { store = new; random = counting 50; observed = [] }

-- What the first 32 of them make.
abbrev pub the_ticket : Str
the_ticket = str "MTAvLi0sKyopKCcmJSQjIiEgHx4dHBsaGRgXFhUUExI"

abbrev pub the_id : Str
the_id = str "0f0e0d0c-0b0a-4908-8706-050403020100"
