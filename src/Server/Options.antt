-- ===== src/Server/Options.antt =====
-- NewServer of internal/rtc/server.go, and the options that cmd/rtc-server/main.go makes from a
-- configuration. The calls of the WebRTC library that can fail are the environment.
use homebrain.Prelude.{
  ℕ, zero, suc, ◌/◌, ◌%◌, ◌≤◌, ◌<◌, Bool, true, false, not, ◌&&◌, ◌||◌, Option, none, some, List,
  [], ◌∷◌, ◌≡◌, refl, arith, ltb, ◌==◌, if◌then◌else◌, is_empty, length,
}
use homebrain.Text.{Text, codes, text_eq}
use homebrain.Text.Number.{ℤ, pos, negsuc}
use homebrain.Config.{Config, ok, load, frame, is_whole_frames, is_mode}
use homebrain.Config.Valid.{load-IsValid}

pub record Options : Type 0 where
  pub public_ip : Option (List ℕ)  -- net.IP, by its bytes
  pub udp_port_min : ℕ
  pub udp_port_max : ℕ
  pub audio_prime_enabled : Bool
  pub audio_prime_duration : ℤ
  pub audio_prime_mode : Text
  pub has_recordings : Bool  -- Recordings != nil
  pub answer_timeout : ℤ
  pub disconnect_grace : ℤ

pub record Server : Type 0 where
  pub answer_timeout : ℕ
  pub disconnect_grace : ℕ
  pub audio_prime_enabled : Bool
  pub audio_prime_duration : ℕ
  pub audio_prime_mode : Text

pub data ServerError : Type 0 where
  bad_ip bad_ports no_recordings bad_duration bad_mode : ServerError
  codec_failed port_range_failed rewrite_failed : ServerError

pub data Made : Type 0 where
  refused : ServerError → Made
  made : Server → Made

-- What RegisterCodec, SetEphemeralUDPPortRange and SetICEAddressRewriteRules answer.
pub record Library : Type 0 where
  pub codec_registered : Bool
  pub port_range_set : Bool
  pub rewrite_set : Bool

-- `ip != nil && ip.To4() != nil`
abbrev is_mapped : List ℕ → Bool
is_mapped (a ∷ b ∷ c ∷ d ∷ e ∷ f ∷ g ∷ h ∷ i ∷ j ∷ k ∷ l ∷ rest) =
    text_eq (a ∷ b ∷ c ∷ d ∷ e ∷ f ∷ g ∷ h ∷ i ∷ j ∷ [])
      (0 ∷ 0 ∷ 0 ∷ 0 ∷ 0 ∷ 0 ∷ 0 ∷ 0 ∷ 0 ∷ 0 ∷ [])
    && k == 255
    && l == 255
    && length rest == 4
is_mapped _ = false

pub is_ipv4 : Option (List ℕ) → Bool
is_ipv4 none = false
is_ipv4 (some bytes) = length bytes == 4 || is_mapped bytes

-- `if d <= 0 { d = fallback }`
unfoldable pub or_default : ℤ → ℕ → ℕ
or_default (pos zero) fallback = fallback
or_default (pos (suc n)) fallback = suc n
or_default (negsuc n) fallback = fallback

abbrev mode_of : Text → Text
mode_of mode = if is_empty mode then codes "silence" else mode

abbrev server_of : Options → Server
server_of o = record {
  answer_timeout = or_default o.answer_timeout 4500000000;
  disconnect_grace = or_default o.disconnect_grace 5000000000;
  audio_prime_enabled = o.audio_prime_enabled;
  audio_prime_duration = or_default o.audio_prime_duration 10000000000;
  audio_prime_mode = mode_of o.audio_prime_mode;
}

-- The calls of the library, in their order.
set_up : Library → Server → Made
set_up lib server =
    if not lib.codec_registered
    then refused codec_failed
    else if not lib.port_range_set
    then refused port_range_failed
    else if not lib.rewrite_set
    then refused rewrite_failed
    else made server

-- NewServer
unfoldable pub new_server : Library → Options → Made
unfolding is_ipv4 or_default set_up
new_server lib o =
    let server = server_of o in
    if not (is_ipv4 o.public_ip)
    then refused bad_ip
    else if o.udp_port_min == 0 || ltb o.udp_port_max o.udp_port_min
    then refused bad_ports
    else if not o.has_recordings
    then refused no_recordings
    else if ltb server.audio_prime_duration frame || not (server.audio_prime_duration % frame == 0)
    then refused bad_duration
    else if not (is_mode server.audio_prime_mode)
    then refused bad_mode
    else set_up lib server

-- The options that `run` of cmd/rtc-server/main.go makes.
unfoldable pub options_of : Config → Options
options_of c = record {
  public_ip = some (c.public_ip.a ∷ c.public_ip.b ∷ c.public_ip.c ∷ c.public_ip.d ∷ []);
  udp_port_min = c.udp_port_min;
  udp_port_max = c.udp_port_max;
  audio_prime_enabled = c.audio_prime_enabled;
  audio_prime_duration = c.audio_prime_duration;
  audio_prime_mode = c.audio_prime_mode;
  has_recordings = true;
  answer_timeout = pos 4500000000;
  disconnect_grace = pos 5000000000;
}

or_default-positive : (d : ℤ) (fallback : ℕ) → 0 < fallback → 0 < or_default d fallback
unfolding or_default
or_default-positive (pos zero) fallback h = h
or_default-positive (pos (suc n)) fallback h = omega arith
or_default-positive (negsuc n) fallback h = h

-- A server that NewServer makes has positive timeouts, and an audio prime of one frame at least,
-- of whole frames, in a mode that there is, whatever the options left out.
pub new_server_lem :
    (lib : Library) (o : Options) (s : Server)
    → new_server lib o ≡ made s
    → (0 < s.answer_timeout)
      × (0 < s.disconnect_grace)
      × (0 < s.audio_prime_duration / frame)
      × (s.audio_prime_duration % frame ≡ 0)
      × (is_mode s.audio_prime_mode ≡ true)
unfolding new_server
new_server_lem lib o s h = ground (
  arith,
  or_default-positive o.answer_timeout 4500000000,
  or_default-positive o.disconnect_grace 5000000000,
)

or_default-whole :
    (d : ℤ) (fallback : ℕ)
    → is_whole_frames d ≡ true
    → (frame ≤ or_default d fallback) × (or_default d fallback % frame ≡ 0)
unfolding or_default
or_default-whole (pos zero) fallback h = ground arith
or_default-whole (pos (suc n)) fallback h = ground arith
or_default-whole (negsuc n) fallback h = absurd (ground arith)

mode_of-is_mode : (mode : Text) → is_mode mode ≡ true → is_mode (mode_of mode) ≡ true
mode_of-is_mode [] h = refl
mode_of-is_mode (c ∷ mode) h = h

-- What Load answers is good for NewServer: the options that the gateway makes from it pass every
-- check, and the server is made where the WebRTC library accepts its settings.
pub load-new_server :
    (getenv : Text → Text) (is_writable : Text → Bool) (parse : Text → Option ℤ) (c : Config)
    (lib : Library)
    → load getenv is_writable parse ≡ ok c
    → lib.codec_registered ≡ true
    → lib.port_range_set ≡ true
    → lib.rewrite_set ≡ true
    → new_server lib (options_of c) ≡ made (server_of (options_of c))
unfolding new_server options_of is_ipv4
load-new_server getenv is_writable parse c lib h codec range rewrite =
    let valid = load-IsValid getenv is_writable parse c h in
    ground (
      arith,
      valid,
      or_default-whole c.audio_prime_duration 10000000000,
      mode_of-is_mode c.audio_prime_mode,
    )
