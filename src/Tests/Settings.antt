-- ===== src/Tests/Settings.antt =====
-- Configurations and the options made from them.
use homebrain.Prelude.{Bool, true, false, Option, none, some, [], ◌≡◌, ◌↔◌, refl, if◌then◌else◌}
use homebrain.Text.{Text, codes, text_eq, split, is_blank}
use homebrain.Text.Number.{ℤ, pos, parse_uint}
use homebrain.Config.{
  Config, ok, load, level_info, parse_port, parse_bool, parse_log_level, load_duration,
}
use homebrain.Config.PublicIp.{IsPublic, parse_ipv4, parse_public_ipv4, parse_public_ipv4_iff}
use homebrain.Config.Valid.{IsValid, load-IsValid}
use homebrain.Server.Options.{Library, Server, made, new_server, options_of, load-new_server}

abbrev pub environment : Text → Text
environment key =
    if text_eq key (codes "PUBLIC_IP")
    then codes "8.8.4.4"
    else if text_eq key (codes "SESSION_API_TOKEN")
    then codes "secret"
    else if text_eq key (codes "UDP_PORT_MIN")
    then codes "40010"
    else []

abbrev pub writable : Text → Bool
writable _ = true

abbrev pub no_duration : Text → Option ℤ
no_duration _ = none

abbrev pub settings : Config
settings = record {
  http_addr = codes ":8080";
  public_ip = record { a = 8; b = 8; c = 4; d = 4 };
  udp_port_min = 40010;
  udp_port_max = 40020;
  session_api_token = codes "secret";
  recordings_dir = codes "/data/recordings";
  session_ttl = pos 600000000000;
  log_level = level_info;
  ice_lite = false;
  audio_prime_enabled = false;
  audio_prime_duration = pos 10000000000;
  audio_prime_mode = codes "silence";
}

pub settings_loaded : load environment writable no_duration ≡ ok settings
unfolding load parse_public_ipv4 split parse_uint is_blank parse_port parse_bool parse_log_level
    load_duration
settings_loaded = refl

private_refused : parse_public_ipv4 (codes "172.31.0.1") ≡ none
unfolding parse_public_ipv4 split parse_uint
private_refused = refl

load-IsValid_example : IsValid settings
load-IsValid_example = load-IsValid environment writable no_duration settings settings_loaded

parse_public_ipv4_iff_example :
    (parse_public_ipv4 (codes "8.8.4.4") ≡ some settings.public_ip)
    ↔ ((parse_ipv4 (codes "8.8.4.4") ≡ some settings.public_ip) × IsPublic settings.public_ip)
parse_public_ipv4_iff_example = parse_public_ipv4_iff (codes "8.8.4.4") settings.public_ip

abbrev pub willing : Library
willing = record { codec_registered = true; port_range_set = true; rewrite_set = true }

abbrev server : Server
server = record {
  answer_timeout = 4500000000;
  disconnect_grace = 5000000000;
  audio_prime_enabled = false;
  audio_prime_duration = 10000000000;
  audio_prime_mode = codes "silence";
}

server_made : new_server willing (options_of settings) ≡ made server
unfolding new_server options_of
server_made = refl

load-new_server_example : new_server willing (options_of settings) ≡ made server
unfolding options_of new_server
load-new_server_example =
    load-new_server environment writable no_duration settings willing settings_loaded refl refl refl
