-- ===== src/Wiring/Accepted.antt =====
-- A configuration that loads is accepted by what it is passed on to.
use ani_session_gateway.Prelude.{
  ℕ, ◌<◌, ◌≡◌, ◌≢◌, refl, Bool, false, not, ◌==◌, Option, some, [], ◌∷◌, Str, str, str_eq, is_empty,
  if◌then◌else◌, Result, ok, err, arith, ◌⊎◌, inl, inr,
}
use ani_session_gateway.Session.Errors.{Error}
use ani_session_gateway.Session.Model.{InstanceBinding, VmBinding}
use ani_session_gateway.Manager.Config.{new_manager}
use ani_session_gateway.Connected.{new_policy}
use ani_session_gateway.Config.{Environment, Config, load}
use ani_session_gateway.Config.Loaded.{IsLoaded, load-IsLoaded}
use ani_session_gateway.Wiring.{
  SelectError, manager_config, policy, unknown_mode, missing_url, bad_url, not_ready, in_memory,
  in_redis, select, Selected,
}

-- The manager, the connected sessions and the choice of the store take the configuration as it is.
-- For Redis the choice wants a URL that parses and a server that is ready, and nothing else.
pub record IsAccepted (c : Config) : Type 0 where
  pub loaded : IsLoaded c
  pub by_manager :
      (instance : Option (Str → Str → InstanceBinding → Option Error))
      (vm : Option (VmBinding → Option Error))
      → new_manager (manager_config c instance vm) ≡ ok (manager_config c instance vm)
  pub by_sessions : new_policy (policy c) ≡ some (policy c)
  pub by_store :
      (parses is_ready : Str → Bool)
      → select parses is_ready c ≡ (
          if str_eq c.texts.store_mode (str "memory")
          then ok in_memory
          else if not (parses c.texts.redis_url)
          then err bad_url
          else if not (is_ready c.texts.redis_url)
          then err not_ready
          else ok in_redis)

not_zero : {n : ℕ} → 0 < n → (n == 0) ≡ false
not_zero h = ground arith

not_empty : (s : Str) → s ≢ [] → is_empty s ≡ false
not_empty [] n = absurd (n refl)
not_empty (c ∷ cs) n = refl

module _ (c : Config) (v : IsLoaded c) where
  manager_accepts :
      (instance : Option (Str → Str → InstanceBinding → Option Error))
      (vm : Option (VmBinding → Option Error))
      → new_manager (manager_config c instance vm) ≡ ok (manager_config c instance vm)
  unfolding new_manager
  manager_accepts instance vm =
      let p = v.positive in
      rw
        (
          not_zero p.ticket_ttl,
          not_zero p.session_max_duration,
          not_zero p.idempotency_ttl,
          not_zero p.max_active_sessions,
          not_zero p.max_active_per_subject,
        )
        refl

  sessions_accept : new_policy (policy c) ≡ some (policy c)
  unfolding new_policy
  sessions_accept =
      let p = v.positive in
      rw
        (
          not_zero p.ws_max_message_bytes,
          not_zero p.ws_idle_timeout,
          not_zero p.ws_handshake_timeout,
        )
        refl

  by_mode :
      (mode url : Str) (rest : Result SelectError Selected)
      → (mode ≡ str "memory") ⊎ ((mode ≡ str "redis") × (url ≢ []))
      → (if str_eq mode (str "memory")
          then ok in_memory
          else if not (str_eq mode (str "redis"))
          then err unknown_mode
          else if is_empty url
          then err missing_url
          else rest)
        ≡ (if str_eq mode (str "memory") then ok in_memory else rest)
  unfolding str_eq
  by_mode mode url rest (inl e) = rw e refl
  by_mode mode url rest (inr (e, n)) = rw (e, not_empty url n) refl

  store_chosen :
      (parses is_ready : Str → Bool)
      → select parses is_ready c ≡ (
          if str_eq c.texts.store_mode (str "memory")
          then ok in_memory
          else if not (parses c.texts.redis_url)
          then err bad_url
          else if not (is_ready c.texts.redis_url)
          then err not_ready
          else ok in_redis)
  unfolding select
  store_chosen parses is_ready = by_mode c.texts.store_mode c.texts.redis_url _ v.store

-- Whatever the environment holds and however the parsers read it, a configuration that loads has a
-- ws or wss URL for the realtime path, wss if an origin is https, a key of 32 bytes, two different
-- addresses, a store that is memory or is Redis with a URL, and positive durations and limits, with
-- tickets that live shorter than sessions; the manager and the connected sessions accept it; and the
-- choice of the store fails only for a URL for Redis that does not parse or a server not ready.
pub load-IsAccepted : (env : Environment) {c : Config} → load env ≡ ok c → IsAccepted c
load-IsAccepted env {c} h =
    let v = load-IsLoaded env h in
    record {
      loaded = v;
      by_manager = manager_accepts c v;
      by_sessions = sessions_accept c v;
      by_store = store_chosen c v;
    }
