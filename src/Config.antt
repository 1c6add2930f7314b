-- ===== src/Config.antt =====
pub mod Loaded
-- internal/config/config.go. A map that the code ranges over is visited in the order of its literal,
-- so where several variables are bad, the model names the first.
use ani_session_gateway.Prelude.{
  ℕ, Bool, true, false, not, ◌&&◌, ◌||◌, ◌*◌, ◌==◌, ltb, if◌then◌else◌, Option, none, some, List,
  [], ◌∷◌, ◌++◌, Str, Bytes, str, str_eq, is_empty, length, ℤ, pos, negsuc, Result, ok, err,
  and_then,
}
use ani_session_gateway.Session.Model.{Duration}
use ani_session_gateway.WebSocket.Headers.{split_commas, trim_space}

-- The parts of a `url.URL` that the code reads.
pub record Url : Type 0 where
  pub scheme : Str
  pub host : Str
  pub has_user : Bool
  pub path : Str
  pub raw_query : Str
  pub fragment : Str

-- The process's environment and files, and the parsers of net/url, net, time and strconv, where
-- `none` is an error. `os.Getenv` is empty for a variable that is not set.
pub record Environment : Type 0 where
  pub getenv : Str → Str
  pub read_file : Str → Option Bytes
  pub parse_url : Str → Option Url
  pub is_host_port : Str → Bool
  pub parse_duration : Str → Option ℤ
  pub atoi : Str → Option ℤ

pub data ConfigError : Type 0 where
  public_url_required bad_public_url bad_public_path : ConfigError
  origins_required implicit_origin bad_origin : ConfigError
  key_file_required key_file_unread key_size : ConfigError
  bad_addr : Str → ConfigError
  same_addr bad_store_mode redis_url_required service_name_empty bad_endpoint : ConfigError
  bad_duration bad_integer : Str → ConfigError
  ticket_ttl_too_long insecure_origins : ConfigError

-- The fields of `Config`, by kind: what is taken as it stands in the environment, the numbers, and
-- the rest.
pub record Texts : Type 0 where
  pub http_addr : Str
  pub grpc_addr : Str
  pub store_mode : Str
  pub redis_url : Str
  pub ticket_key_file : Str
  pub otel_service_name : Str
  pub otel_exporter_endpoint : Str

pub record Limits : Type 0 where
  pub ticket_ttl : Duration
  pub session_max_duration : Duration
  pub idempotency_ttl : Duration
  pub ws_handshake_timeout : Duration
  pub runtime_request_timeout : Duration
  pub ws_idle_timeout : Duration
  pub shutdown_grace_period : Duration
  pub max_active_sessions : ℕ
  pub max_active_per_subject : ℕ
  pub ws_max_message_bytes : ℕ

pub record Config : Type 0 where
  pub public_ws_base_url : Url
  pub allowed_origins : List Str
  pub ticket_key : Bytes
  pub texts : Texts
  pub limits : Limits

infixl 5 ◌>>=◌ ◌>>◌
abbrev pub ◌>>=◌ :
    {A B : Type 0} → Result ConfigError A → (A → Result ConfigError B) → Result ConfigError B
r >>= f = and_then r f

abbrev pub ◌>>◌ :
    {B : Type 0} → Result ConfigError (Unit {0}) → Result ConfigError B → Result ConfigError B
m >> k = and_then m λ _. k

abbrev pub require : Bool → ConfigError → Result ConfigError (Unit {0})
require true e = ok tt
require false e = err e

-- `time.Second`, in nanoseconds.
abbrev pub second : Duration
second = 1_000_000_000

abbrev pub trim_slash : Str → Str
trim_slash [] = []
trim_slash (c ∷ []) = if c == b'/' then [] else c ∷ []
trim_slash (c ∷ d ∷ rest) = c ∷ trim_slash (d ∷ rest)

-- `strings.HasPrefix(s, p)`
unfoldable pub has_prefix : Str → Str → Bool
has_prefix s [] = true
has_prefix [] (p ∷ ps) = false
has_prefix (c ∷ s) (p ∷ ps) = c == p && has_prefix s ps

-- The tests that the three kinds of URL share.
abbrev pub is_plain : Url → Bool
is_plain u = not (is_empty u.host) && not u.has_user && is_empty u.raw_query && is_empty u.fragment

-- What stands after an error is refused, and a value that passes its test is returned.
abbrev pub checked_url : (Url → Bool) → ConfigError → Option Url → Result ConfigError Url
checked_url test e none = err e
checked_url test e (some u) = if test u then ok u else err e

abbrev pub is_public : Url → Bool
is_public u = (str_eq u.scheme (str "ws") || str_eq u.scheme (str "wss")) && is_plain u

abbrev pub is_http : Url → Bool
is_http u = (str_eq u.scheme (str "http") || str_eq u.scheme (str "https")) && is_plain u

abbrev pub is_origin : Url → Bool
is_origin u = is_http u && (is_empty u.path || str_eq u.path (str "/"))

abbrev pub realtime_path : Str
realtime_path = str "/api/v1/realtime"

abbrev pub on_path : Url → Result ConfigError Url
on_path u =
    if str_eq (trim_slash u.path) realtime_path
    then ok (record u { path = trim_slash u.path })
    else err bad_public_path

-- A positive integer, or the error.
abbrev pub positive : ConfigError → Option ℤ → Result ConfigError ℕ
positive e none = err e
positive e (some (negsuc n)) = err e
positive e (some (pos n)) = if n == 0 then err e else ok n

abbrev pub key_of : Option Bytes → Result ConfigError Bytes
key_of none = err key_file_unread
key_of (some key) = if length key == 32 then ok key else err key_size

abbrev pub parses_to_http : Option Url → Bool
parses_to_http none = false
parses_to_http (some u) = is_http u

-- The loop over the origins: whether one wants a secure socket that the public URL does not offer.
unfoldable pub insecure : Str → List Str → Bool
unfolding has_prefix
insecure scheme [] = false
insecure scheme (origin ∷ origins) =
    (has_prefix origin (str "https://") && not (str_eq scheme (str "wss")))
    || insecure scheme origins

module _ (env : Environment) where
  unfoldable pub env_or : Str → Str → Str
  env_or name fallback = if is_empty (env.getenv name) then fallback else env.getenv name

  unfoldable pub parse_public_url : Str → Result ConfigError Url
  parse_public_url raw =
      if is_empty raw
      then err public_url_required
      else and_then (checked_url is_public bad_public_url (env.parse_url raw)) on_path

  unfoldable pub parse_origin : Str → Result ConfigError Str
  parse_origin item =
      if is_empty (trim_space item) || str_eq (trim_space item) (str "*")
      then err implicit_origin
      else and_then (checked_url is_origin bad_origin (env.parse_url (trim_space item)))
          λ u. ok (trim_slash (trim_space item))

  -- The loop over the items. The set of origins is a list, where one may stand twice.
  unfoldable pub parse_items : List Str → Result ConfigError (List Str)
  unfolding parse_origin
  parse_items [] = ok []
  parse_items (item ∷ items) =
      and_then (parse_origin item) λ origin. and_then (parse_items items) λ rest. ok (origin ∷ rest)

  unfoldable pub parse_origins : Str → Result ConfigError (List Str)
  unfolding parse_items
  parse_origins raw = if is_empty raw then err origins_required else parse_items (split_commas raw)

  unfoldable pub read_key : Str → Result ConfigError Bytes
  read_key file = if is_empty file then err key_file_required else key_of (env.read_file file)

  unfoldable pub duration : Str → Duration → Result ConfigError Duration
  duration name fallback =
      if is_empty (env.getenv name)
      then ok fallback
      else positive (bad_duration name) (env.parse_duration (env.getenv name))

  unfoldable pub positive_int : Str → ℕ → Result ConfigError ℕ
  positive_int name fallback =
      if is_empty (env.getenv name)
      then ok fallback
      else positive (bad_integer name) (env.atoi (env.getenv name))

  abbrev pub endpoint_ok : Str → Bool
  endpoint_ok raw = is_empty raw || parses_to_http (env.parse_url raw)

  -- The numbers, in the order in which they are read.
  unfoldable pub load_limits : Result ConfigError Limits
  unfolding duration positive_int
  load_limits = do
    ticket_ttl ← duration (str "TICKET_TTL") (60 * second)
    session_max_duration ← duration (str "SESSION_MAX_DURATION") (900 * second)
    idempotency_ttl ← duration (str "IDEMPOTENCY_TTL") (900 * second)
    handshake ← duration (str "WS_HANDSHAKE_TIMEOUT") (10 * second)
    request ← duration (str "RUNTIME_REQUEST_TIMEOUT") (30 * second)
    idle ← duration (str "WS_IDLE_TIMEOUT") (600 * second)
    grace ← duration (str "SHUTDOWN_GRACE_PERIOD") (25 * second)
    max_active ← positive_int (str "MAX_ACTIVE_SESSIONS") 100
    per_subject ← positive_int (str "MAX_ACTIVE_PER_SUBJECT") 5
    max_bytes ← positive_int (str "WS_MAX_MESSAGE_BYTES") 65536
    ok (record {
      ticket_ttl = ticket_ttl;
      session_max_duration = session_max_duration;
      idempotency_ttl = idempotency_ttl;
      ws_handshake_timeout = handshake;
      runtime_request_timeout = request;
      ws_idle_timeout = idle;
      shutdown_grace_period = grace;
      max_active_sessions = max_active;
      max_active_per_subject = per_subject;
      ws_max_message_bytes = max_bytes;
    })

  -- The checks of the texts that come before the numbers.
  abbrev pub texts_checked : Texts → Result ConfigError (Unit {0})
  texts_checked t = do
    require (env.is_host_port t.http_addr) (bad_addr (str "HTTP_ADDR"))
    require (env.is_host_port t.grpc_addr) (bad_addr (str "GRPC_ADDR"))
    require (not (str_eq t.http_addr t.grpc_addr)) same_addr
    require (str_eq t.store_mode (str "memory") || str_eq t.store_mode (str "redis")) bad_store_mode
    require (not (str_eq t.store_mode (str "redis") && is_empty t.redis_url)) redis_url_required
    require (not (is_empty t.otel_service_name)) service_name_empty
    require (endpoint_ok t.otel_exporter_endpoint) bad_endpoint

  abbrev pub texts : Texts
  texts = record {
    http_addr = env_or (str "HTTP_ADDR") (str ":8080");
    grpc_addr = env_or (str "GRPC_ADDR") (str ":9090");
    store_mode = env_or (str "STORE_MODE") (str "redis");
    redis_url = env.getenv (str "REDIS_URL");
    ticket_key_file = env.getenv (str "TICKET_ENCRYPTION_KEY_FILE");
    otel_service_name = env_or (str "OTEL_SERVICE_NAME") (str "ani-session-gateway");
    otel_exporter_endpoint = env.getenv (str "OTEL_EXPORTER_OTLP_ENDPOINT");
  }

  unfoldable pub load : Result ConfigError Config
  unfolding parse_public_url parse_origins read_key load_limits env_or insecure
  load = do
    url ← parse_public_url (env.getenv (str "PUBLIC_WS_BASE_URL"))
    origins ← parse_origins (env.getenv (str "ALLOWED_ORIGINS"))
    key ← read_key texts.ticket_key_file
    texts_checked texts
    limits ← load_limits
    require (ltb limits.ticket_ttl limits.session_max_duration) ticket_ttl_too_long
    require (not (insecure url.scheme origins)) insecure_origins
    ok (record {
      public_ws_base_url = url;
      allowed_origins = origins;
      ticket_key = key;
      texts = texts;
      limits = limits;
    })
