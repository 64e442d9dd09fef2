-- ===== src/Server/Examples.antt =====
-- A server that is started without any variable in its environment.
use midnight_council.Base.{◌≡◌, refl, true, [], none, is_some}
use midnight_council.Text.{GoString, str_eq, trim_space}
use midnight_council.Room.Examples.{room}
use midnight_council.Room.Hub.{
  new_hub, default_room_idle_timeout, default_max_rooms, default_max_spectators,
}
use midnight_council.Room.Timing.{default_phase_durations, durations_valid}
use midnight_council.Ws.Float.{Tenths, tenths_float}
use midnight_council.Ws.RateLimit.{default_event_rate_limits, validate_event_limits, validate_limit}
use midnight_council.Ws.Admission.{default_connection_limits, validate_connection_limits}
use midnight_council.Ws.Proxy.{Netip, parse_trusted_proxies}
use midnight_council.Ws.OriginCheck.{Web, parse_allowed_origins}
use midnight_council.Ws.Handler.{new_handler}
use midnight_council.Server.{
  Environment, Config, ◌>>=◌, ◌>>◌, check, check_text, getenv, getenv_with, getenv_duration,
  getenv_float, getenv_int, listen_address, read_phase_durations, read_limit, read_rate_limits,
  read_connection_limits, read_config, hub_settings, handler_settings,
}
use midnight_council.Server.Startup.{read_config-starts}

abbrev bare : Environment Tenths
bare = record {
  variable = λ key. [];
  parse_int = λ s. midnight_council.Base.some (midnight_council.Base.pos 8080);
  parse_float = λ s. none;
  parse_duration = λ s. none;
}

abbrev no_net : Netip GoString GoString
no_net = record {
  parse_addr = λ s. none;
  parse_prefix = λ s. none;
  parse_addr_port = λ s. none;
  split_host_port = λ s. none;
  unmap = λ a. a;
  masked = λ p. p;
  whole_prefix = λ a. a;
  contains = str_eq;
  addr_text = λ a. a;
}

abbrev no_web : Web
no_web = record { parse_url = λ s. none; to_lower = λ s. s; equal_fold = str_eq }

abbrev config : Config Tenths GoString
config = record {
  address = midnight_council.Text.text ":8080";
  room_idle_timeout = default_room_idle_timeout;
  phase_durations = default_phase_durations;
  rate_limits = default_event_rate_limits;
  connection_limits = default_connection_limits;
  allowed_origins = [];
  trusted_proxies = [];
  max_rooms = default_max_rooms;
  max_spectators = default_max_spectators;
}

read_config-starts_example :
    (is_some (new_hub (hub_settings config)) ≡ true)
    × (is_some (new_handler no_web (handler_settings config)) ≡ true)
unfolding room ◌>>=◌ ◌>>◌ check check_text getenv getenv_with getenv_duration getenv_float
    getenv_int listen_address read_phase_durations read_limit read_rate_limits
    read_connection_limits read_config durations_valid default_event_rate_limits
    validate_event_limits validate_limit default_connection_limits validate_connection_limits
    parse_trusted_proxies parse_allowed_origins trim_space str_eq
read_config-starts_example = read_config-starts no_net no_web bare config refl tt
