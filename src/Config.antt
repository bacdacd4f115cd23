-- ===== src/Config.antt =====
-- internal/config/config.go: the configuration read from the environment. The file system is an
-- argument: whether ensureWritableDirectory finds a directory writable. So is time.ParseDuration,
-- whose answer is a number of nanoseconds.
pub mod PublicIp
pub mod Valid
use homebrain.Prelude.{
  ℕ, ◌%◌, Bool, true, false, not, ◌&&◌, ◌||◌, Option, none, some, List, [], ◌∷◌, ltb, leb, ◌==◌,
  if◌then◌else◌, is_empty,
}
use homebrain.Text.{Text, codes, text_eq, is_blank, to_lower}
use homebrain.Text.Booleans
use homebrain.Text.Number.{ℤ, pos, negsuc, parse_uint}
use PublicIp.{Address, parse_public_ipv4}

pub data LogLevel : Type 0 where
  level_debug level_info level_warn level_error : LogLevel

pub record Config : Type 0 where
  pub http_addr : Text
  pub public_ip : Address
  pub udp_port_min : ℕ
  pub udp_port_max : ℕ
  pub session_api_token : Text
  pub recordings_dir : Text
  pub session_ttl : ℤ
  pub log_level : LogLevel
  pub ice_lite : Bool
  pub audio_prime_enabled : Bool
  pub audio_prime_duration : ℤ
  pub audio_prime_mode : Text

pub data ConfigError : Type 0 where
  bad_public_ip bad_port bad_port_range empty_token bad_directory bad_ttl : ConfigError
  bad_level bad_bool bad_duration bad_mode : ConfigError

pub data Loaded (A : Type 0) : Type 0 where
  ok : A → Loaded A
  err : ConfigError → Loaded A

-- valueOr
abbrev pub value_or : Text → Text → Text
value_or raw fallback = if is_empty raw then fallback else raw

-- parsePort
unfoldable pub parse_port : Text → ℕ → Loaded ℕ
parse_port raw fallback = if is_empty raw then ok fallback else elim (parse_uint raw 16) [
  | none ↦ err bad_port
  | some n ↦ if n == 0 then err bad_port else ok n
]

-- parseBool
unfoldable pub parse_bool : Text → Loaded Bool
parse_bool raw =
    if is_empty raw
    then ok false
    else elim (Booleans.parse_bool raw) [ none ↦ err bad_bool | some b ↦ ok b ]

-- parseLogLevel
unfoldable pub parse_log_level : Text → Loaded LogLevel
parse_log_level raw =
    let lowered = to_lower raw in
    if text_eq lowered (codes "debug")
    then ok level_debug
    else if text_eq lowered (codes "info")
    then ok level_info
    else if text_eq lowered (codes "warn") || text_eq lowered (codes "warning")
    then ok level_warn
    else if text_eq lowered (codes "error")
    then ok level_error
    else err bad_level

-- A positive duration, and one of whole frames of 20 ms.
abbrev pub is_positive : ℤ → Bool
is_positive (pos n) = ltb 0 n
is_positive (negsuc n) = false

abbrev pub frame : ℕ
frame = 20000000

abbrev pub is_whole_frames : ℤ → Bool
is_whole_frames (pos n) = leb frame n && n % frame == 0
is_whole_frames (negsuc n) = false

-- The blocks of Load that read a duration, with the test that refuses one.
unfoldable pub load_duration : (Text → Option ℤ) → (ℤ → Bool) → ConfigError → ℤ → Text → Loaded ℤ
load_duration parse accepts error fallback raw =
    if is_empty raw
    then ok fallback
    else elim (parse raw) [ none ↦ err error | some d ↦ if accepts d then ok d else err error ]

abbrev pub is_mode : Text → Bool
is_mode mode = text_eq mode (codes "silence") || text_eq mode (codes "tone")

module _ (getenv : Text → Text) (is_writable : Text → Bool) (parse_duration : Text → Option ℤ) where
  abbrev directory : Text
  directory = value_or (getenv (codes "RECORDINGS_DIR")) (codes "/data/recordings")

  abbrev mode : Text
  mode = value_or (getenv (codes "RTC_AUDIO_PRIME_MODE")) (codes "silence")

  -- Load, from the audio prime duration on, with what is read before.
  load_prime : Config → Loaded Config
  load_prime c =
      elim (load_duration parse_duration is_whole_frames bad_duration (pos 10000000000)
        (getenv (codes "RTC_AUDIO_PRIME_DURATION"))) [
          | err e ↦ err e
          | ok d ↦
              if not (is_mode mode)
              then err bad_mode
              else ok (record c { audio_prime_duration = d; audio_prime_mode = mode })
        ]

  load_prime_enabled : Config → Loaded Config
  unfolding load_prime
  load_prime_enabled c = elim (parse_bool (getenv (codes "RTC_AUDIO_PRIME_ENABLED"))) [
    | err e ↦ err e
    | ok b ↦ load_prime (record c { audio_prime_enabled = b })
  ]

  load_ice_lite : Config → Loaded Config
  unfolding load_prime_enabled
  load_ice_lite c = elim (parse_bool (getenv (codes "ICE_LITE"))) [
    | err e ↦ err e
    | ok b ↦ load_prime_enabled (record c { ice_lite = b })
  ]

  load_level : Config → Loaded Config
  unfolding load_ice_lite
  load_level c = elim (parse_log_level (value_or (getenv (codes "LOG_LEVEL")) (codes "info"))) [
    | err e ↦ err e
    | ok level ↦ load_ice_lite (record c { log_level = level })
  ]

  load_ttl : Config → Loaded Config
  unfolding load_level
  load_ttl c =
      elim (load_duration parse_duration is_positive bad_ttl (pos 600000000000)
        (getenv (codes "SESSION_TTL"))) [
          | err e ↦ err e
          | ok ttl ↦ load_level (record c { session_ttl = ttl })
        ]

  -- Load, behind the ports.
  load_rest : Config → Loaded Config
  unfolding load_ttl
  load_rest c =
      let token = getenv (codes "SESSION_API_TOKEN") in
      if is_blank token
      then err empty_token
      else if not (is_writable directory)
      then err bad_directory
      else load_ttl (record c { session_api_token = token; recordings_dir = directory })

  -- The fields read up to the ports, and the others by their zero values.
  abbrev pub initial : Address → ℕ → ℕ → Config
  initial address lo hi = record {
    http_addr = value_or (getenv (codes "HTTP_ADDR")) (codes ":8080");
    public_ip = address;
    udp_port_min = lo;
    udp_port_max = hi;
    session_api_token = [];
    recordings_dir = [];
    session_ttl = pos 0;
    log_level = level_info;
    ice_lite = false;
    audio_prime_enabled = false;
    audio_prime_duration = pos 0;
    audio_prime_mode = [];
  }

  load_ports : Address → Loaded Config
  unfolding load_rest
  load_ports address = elim (parse_port (getenv (codes "UDP_PORT_MIN")) 40000) [
    | err e ↦ err e
    | ok lo ↦ elim (parse_port (getenv (codes "UDP_PORT_MAX")) 40020) [
      | err e ↦ err e
      | ok hi ↦ if ltb hi lo then err bad_port_range else load_rest (initial address lo hi)
    ]
  ]

  -- Load, where getenv is not nil. The fields are put into the record as they are read.
  unfoldable pub load : Loaded Config
  unfolding load_ports
  load = elim (parse_public_ipv4 (getenv (codes "PUBLIC_IP"))) [
    | none ↦ err bad_public_ip
    | some address ↦ load_ports address
  ]
