-- ===== src/Config/Valid.antt =====
-- What a configuration that Load answers is good for.
use homebrain.Prelude.{
  ℕ, ◌≤◌, ◌<◌, Bool, true, false, Option, some, ◌≡◌, ◌⊎◌, inl, inr, refl, arith, Option-cases,
}
use homebrain.Text.{Text, codes, is_blank}
use homebrain.Text.Number.{ℤ, pos, parse_uint, parse_uint_iff}
use homebrain.Config.PublicIp.{Address, parse_public_ipv4}
use homebrain.Config.{
  Config, Loaded, ok, err, ConfigError, parse_port, load_duration, load_prime, load_prime_enabled,
  load_ice_lite, load_level, load_ttl, load_rest, load_ports, load, is_positive, is_whole_frames,
  is_mode, bad_duration, bad_ttl, parse_bool, parse_log_level, value_or, initial,
}

-- Ports in order and in range, a token that is not blank, a positive time to live, and an audio
-- prime of whole frames in a mode that there is.
pub record IsValid (c : Config) : Type 0 where
  pub port_low : 0 < c.udp_port_min
  pub port_order : c.udp_port_min ≤ c.udp_port_max
  pub port_high : c.udp_port_max ≤ 65535
  pub token : is_blank c.session_api_token ≡ false
  pub ttl : is_positive c.session_ttl ≡ true
  pub frames : is_whole_frames c.audio_prime_duration ≡ true
  pub mode : is_mode c.audio_prime_mode ≡ true

parse_uint_bound : (raw : Text) (n : ℕ) → parse_uint raw 16 ≡ some n → n ≤ 65535
parse_uint_bound raw n h =
    let (digits, all, e, bound) = (parse_uint_iff raw 16 n).0 h in omega (arith, e, bound)

parse_port-range :
    (raw : Text) (fallback n : ℕ)
    → 0 < fallback
    → fallback ≤ 65535
    → parse_port raw fallback ≡ ok n
    → (0 < n) × (n ≤ 65535)
unfolding parse_port
parse_port-range raw fallback n low high h = ground (arith, parse_uint_bound raw n)

load_duration-accepted :
    (parse : Text → Option ℤ) (accepts : ℤ → Bool) (error : ConfigError) (fallback d : ℤ)
    (raw : Text)
    → accepts fallback ≡ true
    → load_duration parse accepts error fallback raw ≡ ok d
    → accepts d ≡ true
unfolding load_duration
load_duration-accepted parse accepts error fallback d raw f h = ground arith

pub Loaded-cases :
    {A : Type 0} (x : Loaded A) → ((e : ConfigError) × (x ≡ err e)) ⊎ ((a : A) × (x ≡ ok a))
Loaded-cases (ok a) = inr (a, refl)
Loaded-cases (err e) = inl (e, refl)

ok-injective : {A : Type 0} (a b : A) → ok a ≡ ok b → a ≡ b
ok-injective a b h = cc h

-- What is known of the configuration when the ports and the token have been read.
record IsBegun (c : Config) : Type 0 where
  port_low : 0 < c.udp_port_min
  port_order : c.udp_port_min ≤ c.udp_port_max
  port_high : c.udp_port_max ≤ 65535
  token : is_blank c.session_api_token ≡ false

module _ (getenv : Text → Text) (is_writable : Text → Bool) (parse : Text → Option ℤ) where
  load_prime-IsValid :
      (b c : Config)
      → IsBegun b
      → is_positive b.session_ttl ≡ true
      → load_prime getenv is_writable parse b ≡ ok c
      → IsValid c
  unfolding load_prime
  load_prime-IsValid b c begun ttl h = ground (
    arith,
    load_duration-accepted parse is_whole_frames bad_duration (pos 10000000000)
        c.audio_prime_duration (getenv (codes "RTC_AUDIO_PRIME_DURATION")) refl,
  )

  load_prime_enabled-IsValid :
      (b c : Config)
      → IsBegun b
      → is_positive b.session_ttl ≡ true
      → load_prime_enabled getenv is_writable parse b ≡ ok c
      → IsValid c
  unfolding load_prime_enabled
  load_prime_enabled-IsValid b c begun ttl h =
      elim (Loaded-cases (parse_bool (getenv (codes "RTC_AUDIO_PRIME_ENABLED")))) [
        | inl (e, p) ↦ absurd (ground arith)
        | inr (v, p) ↦
            load_prime-IsValid (record b { audio_prime_enabled = v }) c (ground arith) ttl
              (ground arith)
      ]

  load_ice_lite-IsValid :
      (b c : Config)
      → IsBegun b
      → is_positive b.session_ttl ≡ true
      → load_ice_lite getenv is_writable parse b ≡ ok c
      → IsValid c
  unfolding load_ice_lite
  load_ice_lite-IsValid b c begun ttl h =
      elim (Loaded-cases (parse_bool (getenv (codes "ICE_LITE")))) [
        | inl (e, p) ↦ absurd (ground arith)
        | inr (v, p) ↦
            load_prime_enabled-IsValid (record b { ice_lite = v }) c (ground arith) ttl
              (ground arith)
      ]

  load_level-IsValid :
      (b c : Config)
      → IsBegun b
      → is_positive b.session_ttl ≡ true
      → load_level getenv is_writable parse b ≡ ok c
      → IsValid c
  unfolding load_level
  load_level-IsValid b c begun ttl h =
      elim (Loaded-cases (parse_log_level (value_or (getenv (codes "LOG_LEVEL")) (codes "info")))) [
        | inl (e, p) ↦ absurd (ground arith)
        | inr (v, p) ↦
            load_ice_lite-IsValid (record b { log_level = v }) c (ground arith) ttl (ground arith)
      ]

  load_ttl-IsValid :
      (b c : Config) → IsBegun b → load_ttl getenv is_writable parse b ≡ ok c → IsValid c
  unfolding load_ttl
  load_ttl-IsValid b c begun h =
      let raw = getenv (codes "SESSION_TTL") in
      let default = pos 600000000000 in
      elim (Loaded-cases (load_duration parse is_positive bad_ttl default raw)) [
        | inl (e, p) ↦ absurd (ground arith)
        | inr (v, p) ↦
            load_level-IsValid (record b { session_ttl = v }) c (ground arith)
              (load_duration-accepted parse is_positive bad_ttl default v raw refl p) (ground arith)
      ]

  load_rest-IsValid :
      (b c : Config)
      → 0 < b.udp_port_min
      → b.udp_port_min ≤ b.udp_port_max
      → b.udp_port_max ≤ 65535
      → load_rest getenv is_writable parse b ≡ ok c
      → IsValid c
  unfolding load_rest
  load_rest-IsValid b c low order high h =
      let token = getenv (codes "SESSION_API_TOKEN") in
      let dir = value_or (getenv (codes "RECORDINGS_DIR")) (codes "/data/recordings") in
      load_ttl-IsValid (record b { session_api_token = token; recordings_dir = dir }) c
        (ground arith) (ground arith)

  load_ports-IsValid :
      (x : Address) (c : Config) → load_ports getenv is_writable parse x ≡ ok c → IsValid c
  unfolding load_ports
  load_ports-IsValid x c h =
      let lowest = getenv (codes "UDP_PORT_MIN") in
      let highest = getenv (codes "UDP_PORT_MAX") in
      elim (Loaded-cases (parse_port lowest 40000)) [
        | inl (e, p) ↦ absurd (ground arith)
        | inr (lo, p) ↦ elim (Loaded-cases (parse_port highest 40020)) [
          | inl (e, q) ↦ absurd (ground arith)
          | inr (hi, q) ↦
              load_rest-IsValid (initial getenv is_writable parse x lo hi) c
                (parse_port-range lowest 40000 lo (omega arith) (omega arith) p).0 (ground arith)
                (parse_port-range highest 40020 hi (omega arith) (omega arith) q).1 (ground arith)
        ]
      ]

  -- Every configuration that Load answers is valid, whatever the environment, the file system and
  -- the parser of durations.
  pub load-IsValid : (c : Config) → load getenv is_writable parse ≡ ok c → IsValid c
  unfolding load
  load-IsValid c h = elim (Option-cases (parse_public_ipv4 (getenv (codes "PUBLIC_IP")))) [
    | inl p ↦ absurd (ground arith)
    | inr (x, p) ↦ load_ports-IsValid x c (ground arith)
  ]
