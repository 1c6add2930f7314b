-- ===== src/Wiring.antt =====
pub mod Accepted
-- How the entry point puts the parts together: the configurations that `run` of
-- cmd/session-gateway/main.go passes on, and `Select` of internal/store/select.go.
use ani_session_gateway.Prelude.{
  ℕ, Bool, true, false, not, Option, none, some, Str, str, str_eq, is_empty, if◌then◌else◌, Result,
  ok, err,
}
use ani_session_gateway.Session.Errors.{Error}
use ani_session_gateway.Session.Model.{InstanceBinding, VmBinding}
use ani_session_gateway.Manager.Config.{ManagerConfig}
use ani_session_gateway.Connected.{Policy}
use ani_session_gateway.Config.{Config}

-- The validator is there or not, for both kinds of binding.
abbrev pub manager_config :
    Config
    → Option (Str → Str → InstanceBinding → Option Error)
    → Option (VmBinding → Option Error)
    → ManagerConfig
manager_config cfg instance_validator vm_validator = record {
  instance_validator = instance_validator;
  vm_validator = vm_validator;
  ticket_ttl = cfg.limits.ticket_ttl;
  session_max_duration = cfg.limits.session_max_duration;
  idempotency_ttl = cfg.limits.idempotency_ttl;
  max_active = cfg.limits.max_active_sessions;
  max_active_per_subject = cfg.limits.max_active_per_subject;
  observer = true;
}

abbrev pub policy : Config → Policy
policy cfg = record {
  max_message_bytes = cfg.limits.ws_max_message_bytes;
  idle_timeout = cfg.limits.ws_idle_timeout;
  write_timeout = cfg.limits.ws_handshake_timeout;
  inbound_queue = 32;
  outbound_queue = 32;
}

pub data SelectError : Type 0 where
  unknown_mode missing_url bad_url not_ready : SelectError

-- A store in memory is degraded: it is not shared, and is lost with the process.
pub data Selected : Type 0 where
  in_memory in_redis : Selected

abbrev pub is_degraded : Selected → Bool
is_degraded in_memory = true
is_degraded in_redis = false

-- `redis.ParseURL`, and whether the server answers.
module _ (parses : Str → Bool) (is_ready : Str → Bool) where
  unfoldable pub select : Config → Result SelectError Selected
  select cfg =
      if str_eq cfg.texts.store_mode (str "memory")
      then ok in_memory
      else if not (str_eq cfg.texts.store_mode (str "redis"))
      then err unknown_mode
      else if is_empty cfg.texts.redis_url
      then err missing_url
      else if not (parses cfg.texts.redis_url)
      then err bad_url
      else if not (is_ready cfg.texts.redis_url)
      then err not_ready
      else ok in_redis
