-- ===== src/Config/Loaded.antt =====
-- What a configuration that loads is good for.
use ani_session_gateway.Prelude.{
  ℕ, ◌*◌, ◌<◌, ◌≡◌, ◌≢◌, refl, Bool, true, false, not, ◌&&◌, ◌||◌, ◌==◌, ltb, ltb→lt, Option, none,
  some, List, [], ◌∷◌, Str, Bytes, str, str_eq, str_eq_iff, is_empty, length, All, ℤ, pos, negsuc,
  Result, ok, err, and_then, arith, ◌⊎◌, inl, inr, Bool-cases, if-both,
}
use ani_session_gateway.Session.Model.{Duration}
use ani_session_gateway.Config.{
  Url, Environment, ConfigError, bad_duration, bad_integer, bad_public_url, Config, Limits, Texts,
  second, has_prefix, is_public, on_path, realtime_path, endpoint_ok, trim_slash, positive, key_of,
  require, duration, positive_int, parse_public_url, checked_url, read_key, load_limits,
  texts_checked, texts, parse_origins, insecure, load,
}

-- What holds of every value that a result may return.
abbrev pub Returns : {A : Type 0} → (A → Type 0) → Result ConfigError A → Type 0
Returns P (ok a) = P a
Returns P (err e) = Unit

returns :
    {A B : Type 0} (P : B → Type 0) (r : Result ConfigError A) (k : A → Result ConfigError B)
    → ((a : A) → r ≡ ok a → Returns P (k a))
    → Returns P (and_then r k)
returns P (ok a) k h = h a refl
returns P (err e) k h = tt

returned :
    {A : Type 0} (P : A → Type 0) {r : Result ConfigError A} {a : A} → Returns P r → r ≡ ok a → P a
returned P {r = ok b} h e = ground arith
returned P {r = err x} h e = cc

negated : (b : Bool) → not b ≡ true → b ≡ false
negated b h = ground arith

always : {A X : Type 0} → X → (r : Result ConfigError A) → Returns (λ _. X) r
always x (ok a) = x
always x (err e) = tt

require-eq-ok : (test : Bool) (e : ConfigError) {u : Unit {0}} → require test e ≡ ok u → test ≡ true
require-eq-ok true e h = refl
require-eq-ok false e h = cc

positive-pos : (e : ConfigError) (o : Option ℤ) {n : ℕ} → positive e o ≡ ok n → 0 < n
positive-pos e none h = cc
positive-pos e (some (negsuc n)) h = cc
positive-pos e (some (pos n)) h = ground arith

-- Each duration and each limit is positive.
pub record IsPositive (l : Limits) : Type 0 where
  pub ticket_ttl : 0 < l.ticket_ttl
  pub session_max_duration : 0 < l.session_max_duration
  pub idempotency_ttl : 0 < l.idempotency_ttl
  pub ws_handshake_timeout : 0 < l.ws_handshake_timeout
  pub runtime_request_timeout : 0 < l.runtime_request_timeout
  pub ws_idle_timeout : 0 < l.ws_idle_timeout
  pub shutdown_grace_period : 0 < l.shutdown_grace_period
  pub max_active_sessions : 0 < l.max_active_sessions
  pub max_active_per_subject : 0 < l.max_active_per_subject
  pub ws_max_message_bytes : 0 < l.ws_max_message_bytes

module _ (env : Environment) where
  duration-pos :
      (name : Str) (fallback : Duration) {v : Duration}
      → ltb 0 fallback ≡ true
      → duration env name fallback ≡ ok v
      → 0 < v
  unfolding duration
  duration-pos name fallback {v} p =
      if-both (λ x. x ≡ ok v → 0 < v) (is_empty (env.getenv name)) (λ e h. ground arith)
        (λ e h. positive-pos (bad_duration name) (env.parse_duration (env.getenv name)) h)

  positive_int-pos :
      (name : Str) (fallback : ℕ) {v : ℕ}
      → ltb 0 fallback ≡ true
      → positive_int env name fallback ≡ ok v
      → 0 < v
  unfolding positive_int
  positive_int-pos name fallback {v} p =
      if-both (λ x. x ≡ ok v → 0 < v) (is_empty (env.getenv name)) (λ e h. ground arith)
        (λ e h. positive-pos (bad_integer name) (env.atoi (env.getenv name)) h)

  load_limits-IsPositive : Returns IsPositive (load_limits env)
  unfolding load_limits
  load_limits-IsPositive =
      returns IsPositive (duration env (str "TICKET_TTL") (60 * second)) _ λ a p.
        returns IsPositive (duration env (str "SESSION_MAX_DURATION") (900 * second)) _ λ b q.
          returns IsPositive (duration env (str "IDEMPOTENCY_TTL") (900 * second)) _ λ c r.
            returns IsPositive (duration env (str "WS_HANDSHAKE_TIMEOUT") (10 * second)) _ λ d s.
              returns IsPositive (duration env (str "RUNTIME_REQUEST_TIMEOUT") (30 * second)) _
                λ e t.
                  returns IsPositive (duration env (str "WS_IDLE_TIMEOUT") (600 * second)) _ λ f u.
                    returns IsPositive (duration env (str "SHUTDOWN_GRACE_PERIOD") (25 * second)) _
                      λ g v.
                        returns IsPositive (positive_int env (str "MAX_ACTIVE_SESSIONS") 100) _
                          λ h w.
                            returns IsPositive (positive_int env (str "MAX_ACTIVE_PER_SUBJECT") 5) _
                              λ i x.
                                returns IsPositive
                                  (positive_int env (str "WS_MAX_MESSAGE_BYTES") 65536) _
                                  λ j y. record {
                                    ticket_ttl = duration-pos _ _ refl p;
                                    session_max_duration = duration-pos _ _ refl q;
                                    idempotency_ttl = duration-pos _ _ refl r;
                                    ws_handshake_timeout = duration-pos _ _ refl s;
                                    runtime_request_timeout = duration-pos _ _ refl t;
                                    ws_idle_timeout = duration-pos _ _ refl u;
                                    shutdown_grace_period = duration-pos _ _ refl v;
                                    max_active_sessions = positive_int-pos _ _ refl w;
                                    max_active_per_subject = positive_int-pos _ _ refl x;
                                    ws_max_message_bytes = positive_int-pos _ _ refl y;
                                  }

-- An https origin goes with a wss URL.
abbrev pub IsSecure : Str → Str → Type 0
IsSecure scheme origin = (has_prefix origin (str "https://") ≡ false) ⊎ (scheme ≡ str "wss")

-- What `Load` promises of a configuration.
pub record IsLoaded (c : Config) : Type 0 where
  pub scheme : (c.public_ws_base_url.scheme ≡ str "ws") ⊎ (c.public_ws_base_url.scheme ≡ str "wss")
  pub realtime : c.public_ws_base_url.path ≡ realtime_path
  pub secure : All (IsSecure c.public_ws_base_url.scheme) c.allowed_origins
  pub key_size : length c.ticket_key ≡ 32
  pub addrs_differ : c.texts.http_addr ≢ c.texts.grpc_addr
  pub store :
      (c.texts.store_mode ≡ str "memory")
      ⊎ ((c.texts.store_mode ≡ str "redis") × (c.texts.redis_url ≢ []))
  pub positive : IsPositive c.limits
  pub ticket_first : c.limits.ticket_ttl < c.limits.session_max_duration

or_false : (a b : Bool) → (a || b) ≡ false → (a ≡ false) × (b ≡ false)
or_false a b h = ground arith

secure_origin :
    (b : Bool) (scheme : Str)
    → (b && not (str_eq scheme (str "wss"))) ≡ false
    → (b ≡ false) ⊎ (scheme ≡ str "wss")
secure_origin false scheme h = inl refl
secure_origin true scheme h = inr ((str_eq_iff scheme (str "wss")).0 (ground arith))

insecure-All :
    (scheme : Str) (origins : List Str)
    → insecure scheme origins ≡ false
    → All (IsSecure scheme) origins
unfolding insecure
insecure-All scheme [] h = tt
insecure-All scheme (o ∷ os) h = (
  secure_origin (has_prefix o (str "https://")) scheme (or_false _ (insecure scheme os) h).0,
  insecure-All scheme os (or_false _ (insecure scheme os) h).1,
)

and_true : (a b : Bool) → (a && b) ≡ true → (a ≡ true) × (b ≡ true)
and_true a b h = ground arith

either_text : (s a b : Str) → (str_eq s a || str_eq s b) ≡ true → (s ≡ a) ⊎ (s ≡ b)
either_text s a b h = elim (Bool-cases (str_eq s a)) [
  | inl e ↦ inl ((str_eq_iff s a).0 e)
  | inr e ↦ inr ((str_eq_iff s b).0 (ground arith))
]

checked_url-eq-ok :
    (test : Url → Bool) (e : ConfigError) (o : Option Url) {u : Url}
    → checked_url test e o ≡ ok u
    → test u ≡ true
checked_url-eq-ok test e none h = cc
checked_url-eq-ok test e (some v) {u} h =
    if-both (λ x. x ≡ ok u → test u ≡ true) (test v) (λ t k. ground arith) (λ t k. cc) h

module _ (env : Environment) where
  public_url_lem :
      (raw : Str)
      → Returns
          (λ u. ((u.scheme ≡ str "ws") ⊎ (u.scheme ≡ str "wss")) × (u.path ≡ realtime_path))
          (parse_public_url env raw)
  unfolding parse_public_url
  public_url_lem raw =
      if-both (Returns _) (is_empty raw) (λ e. tt)
        (λ e. returns _ (checked_url is_public bad_public_url (env.parse_url raw)) on_path λ u p.
          if-both (Returns _) (str_eq (trim_slash u.path) realtime_path)
            (λ q. (
              either_text u.scheme (str "ws") (str "wss")
                  (and_true _ _
                    (checked_url-eq-ok is_public bad_public_url (env.parse_url raw) p)).0,
              (str_eq_iff (trim_slash u.path) realtime_path).0 q,
            ))
            (λ q. tt))

  key_lem : (file : Str) → Returns (λ key. length key ≡ 32) (read_key env file)
  unfolding read_key
  key_lem file = if-both (Returns _) (is_empty file) (λ e. tt) (λ e. sized (env.read_file file))
    where
      sized : (o : Option Bytes) → Returns (λ key. length key ≡ 32) (key_of o)
      sized none = tt
      sized (some k) =
          if-both (Returns (λ key. length key ≡ 32)) (length k == 32) (λ p. ground arith) (λ p. tt)

  -- What the checks of the texts leave.
  abbrev AreChecked : Texts → Type 0
  AreChecked t =
      (t.http_addr ≢ t.grpc_addr)
      × ((t.store_mode ≡ str "memory") ⊎ ((t.store_mode ≡ str "redis") × (t.redis_url ≢ [])))

  store_lem :
      (t : Texts)
      → (str_eq t.store_mode (str "memory") || str_eq t.store_mode (str "redis")) ≡ true
      → not (str_eq t.store_mode (str "redis") && is_empty t.redis_url) ≡ true
      → (t.store_mode ≡ str "memory") ⊎ ((t.store_mode ≡ str "redis") × (t.redis_url ≢ []))
  store_lem t p q = elim (either_text t.store_mode (str "memory") (str "redis") p) [
    | inl e ↦ inl e
    | inr e ↦ inr (e, λ z. ground (arith, str_eq_iff t.store_mode (str "redis")))
  ]

  differ : (a b : Str) → not (str_eq a b) ≡ true → a ≢ b
  differ a b h z = ground (arith, str_eq_iff a b)

  texts_lem : (t : Texts) → Returns (λ _. AreChecked t) (texts_checked env t)
  texts_lem t = returns _ (require (env.is_host_port t.http_addr) _) _ λ _ a.
      returns _ (require (env.is_host_port t.grpc_addr) _) _ λ _ b.
        returns _ (require (not (str_eq t.http_addr t.grpc_addr)) _) _ λ _ c.
          returns _
            (require (str_eq t.store_mode (str "memory") || str_eq t.store_mode (str "redis")) _) _
            λ _ d.
              returns _
                (require (not (str_eq t.store_mode (str "redis") && is_empty t.redis_url)) _) _
                λ _ e. returns _ (require (not (is_empty t.otel_service_name)) _) _ λ _ f.
                  always
                    (
                      differ t.http_addr t.grpc_addr (require-eq-ok _ _ c),
                      store_lem t (require-eq-ok _ _ d) (require-eq-ok _ _ e),
                    )
                    (require (endpoint_ok env t.otel_exporter_endpoint) _)

  load-Returns : Returns IsLoaded (load env)
  unfolding load
  load-Returns =
      returns IsLoaded (parse_public_url env (env.getenv (str "PUBLIC_WS_BASE_URL"))) _ λ url a.
        returns IsLoaded (parse_origins env (env.getenv (str "ALLOWED_ORIGINS"))) _ λ origins b.
          returns IsLoaded (read_key env (texts env).ticket_key_file) _ λ key c.
            returns IsLoaded (texts_checked env (texts env)) _ λ _ d.
              returns IsLoaded (load_limits env) _ λ limits e.
                returns IsLoaded (require (ltb limits.ticket_ttl limits.session_max_duration) _) _
                  λ _ f. returns IsLoaded (require (not (insecure url.scheme origins)) _) _ λ _ g.
                    let public = returned _ (public_url_lem _) a in
                    let checked = returned _ (texts_lem (texts env)) d in
                    record {
                      scheme = public.0;
                      realtime = public.1;
                      secure = insecure-All url.scheme origins (negated _ (require-eq-ok _ _ g));
                      key_size = returned _ (key_lem _) c;
                      addrs_differ = checked.0;
                      store = checked.1;
                      positive = returned _ (load_limits-IsPositive env) e;
                      ticket_first = ltb→lt _ _ (require-eq-ok _ _ f);
                    }

  pub load-IsLoaded : {c : Config} → load env ≡ ok c → IsLoaded c
  load-IsLoaded h = returned IsLoaded load-Returns h
