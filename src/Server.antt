-- ===== src/Server.antt =====
-- cmd/server/main.go: the configuration that the server reads from its environment, up to the hub and
-- the handler that it starts with.
pub mod Startup
mod Examples
use midnight_council.Base.{
  ℕ, ◌≡◌, Bool, true, false, not, ◌&&◌, ◌||◌, List, [], ◌∷◌, ◌++◌, Option, none, some, ℤ, pos,
  int_lt, if◌then◌else◌, ◌==◌,
}
use midnight_council.Text.{GoString, text, str_Eq}
use midnight_council.Room.Types.{Duration}
use midnight_council.Room.Timing.{PhaseDurations, default_phase_durations, durations_valid}
use midnight_council.Room.Hub.{
  Hub, HubOption, default_room_idle_timeout, default_max_rooms, default_max_spectators, new_hub,
}
use midnight_council.Ws.Float.{Float64}
use midnight_council.Ws.RateLimit.{
  RateLimit, EventRateLimits, default_event_rate_limits, validate_event_limits,
}
use midnight_council.Ws.Admission.{
  ConnectionLimits, default_connection_limits, validate_connection_limits,
}
use midnight_council.Ws.Proxy.{Netip, ProxyError, ProxyList, proxies, parse_trusted_proxies}
use midnight_council.Ws.OriginCheck.{
  Web, OriginError, OriginResult, fine, bad, parse_allowed_origins,
}
use midnight_council.Ws.Handler.{Handler, HandlerOption, new_handler}

-- `os.Getenv`, `strconv.Atoi`, `strconv.ParseFloat` and `time.ParseDuration`; `none` is an error.
pub record Environment {ℓ} (W : Type ℓ) : Type ℓ where
  pub variable : GoString → GoString
  pub parse_int : GoString → Option ℤ
  pub parse_float : GoString → Option W
  pub parse_duration : GoString → Option Duration

-- The calls of `log.Fatal`.
pub data Fatal : Type 0 where
  bad_port : GoString → Fatal
  bad_value : GoString → GoString → Fatal
  bad_phase_durations : Fatal
  bad_rate_limits bad_connection_limits : GoString → Fatal
  bad_origins : OriginError → Fatal
  bad_proxies : ProxyError → Fatal
  bad_max_rooms bad_max_spectators : Fatal

pub data Start {ℓ} (V : Type ℓ) : Type ℓ where
  runs : V → Start V
  stops : Fatal → Start V

infixl 5 ◌>>=◌ ◌>>◌
unfoldable pub ◌>>=◌ {ℓ κ} : {V : Type ℓ} {W : Type κ} → Start V → (V → Start W) → Start W
runs v >>= rest = rest v
stops e >>= rest = stops e

unfoldable pub ◌>>◌ {κ} : {W : Type κ} → Start (Unit {0}) → Start W → Start W
first >> rest = first >>= λ _. rest

-- `if !test { log.Fatal(...) }`
unfoldable pub check : Bool → Fatal → Start (Unit {0})
check true e = runs tt
check false e = stops e

-- `if err != nil { log.Fatal(...) }`, of an error text
unfoldable pub check_text : Option GoString → (GoString → Fatal) → Start (Unit {0})
check_text none e = runs tt
check_text (some reason) e = stops (e reason)

abbrev parsed {ℓ} : {V : Type ℓ} → GoString → GoString → Option V → Start V
parsed key value none = stops (bad_value key value)
parsed key value (some v) = runs v

module _ {ℓ} {W : Type ℓ} (env : Environment W) where
  unfoldable pub getenv : GoString → GoString → GoString
  getenv key fallback = let value = env.variable key in if value == [] then fallback else value

  -- `getenvDuration`, `getenvFloat64` and `getenvInt` differ in what parses the value.
  unfoldable pub getenv_with {κ} : {V : Type κ} → (GoString → Option V) → GoString → V → Start V
  getenv_with parse key fallback =
      let value = env.variable key in
      if value == [] then runs fallback else parsed key value (parse value)

  unfoldable pub getenv_duration : GoString → Duration → Start Duration
  getenv_duration key fallback = getenv_with env.parse_duration key fallback

  unfoldable pub getenv_float : GoString → W → Start W
  getenv_float key fallback = getenv_with env.parse_float key fallback

  unfoldable pub getenv_int : GoString → ℤ → Start ℤ
  getenv_int key fallback = getenv_with env.parse_int key fallback

  abbrev port_valid : Option ℤ → Bool
  port_valid none = false
  port_valid (some port) = int_lt (pos 0) port && int_lt port (pos 65536)

  unfoldable pub listen_address : Start GoString
  listen_address =
      let address = env.variable (text "ADDR") in
      let port = getenv (text "PORT") (text "8080") in
      if not (address == [])
      then runs address
      else if not (port_valid (env.parse_int port))
      then stops (bad_port port)
      else runs (text ":" ++ port)

-- What `main` has read.
pub record Config {ℓ κ} (W : Type ℓ) (Prefix : Type κ) : Type (ℓ ⊔ κ) where
  pub address : GoString
  pub room_idle_timeout : Duration
  pub phase_durations : PhaseDurations
  pub rate_limits : EventRateLimits W
  pub connection_limits : ConnectionLimits W
  pub allowed_origins : List GoString
  pub trusted_proxies : List Prefix
  pub max_rooms : ℤ
  pub max_spectators : ℤ

module _ {ℓ} {W : Type ℓ} ⦃f : Float64 W⦄ (env : Environment W) where
  unfoldable pub read_phase_durations : Start PhaseDurations
  read_phase_durations = do
    night ← getenv_duration env (text "NIGHT_DURATION") default_phase_durations.night
    day_discussion ←
        getenv_duration env (text "DAY_DISCUSSION_DURATION") default_phase_durations.day_discussion
    day_voting ← getenv_duration env (text "DAY_VOTING_DURATION") default_phase_durations.day_voting
    last_words ← getenv_duration env (text "LAST_WORDS_DURATION") default_phase_durations.last_words
    let durations : PhaseDurations = record {
      night = night;
      day_discussion = day_discussion;
      day_voting = day_voting;
      last_words = last_words;
    }
    check (durations_valid durations) bad_phase_durations
    runs durations

  unfoldable pub read_limit : GoString → GoString → RateLimit W → Start (RateLimit W)
  read_limit rate_key burst_key fallback = do
    rate ← getenv_float env rate_key fallback.events_per_second
    burst ← getenv_int env burst_key fallback.burst
    runs (record { events_per_second = rate; burst = burst })

  unfoldable pub read_rate_limits : Start (EventRateLimits W)
  read_rate_limits = do
    let fallback : EventRateLimits W = default_event_rate_limits
    chat ← read_limit (text "WS_CHAT_EVENTS_PER_SECOND") (text "WS_CHAT_BURST") fallback.chat
    game ← read_limit (text "WS_GAME_EVENTS_PER_SECOND") (text "WS_GAME_BURST") fallback.game
    let limits : EventRateLimits W = record { chat = chat; game = game }
    check_text (validate_event_limits limits) bad_rate_limits
    runs limits

  unfoldable pub read_connection_limits : Start (ConnectionLimits W)
  read_connection_limits = do
    let fallback : ConnectionLimits W = default_connection_limits
    connections ←
        read_limit (text "WS_CONNECTIONS_PER_SECOND") (text "WS_CONNECTION_BURST")
          fallback.connections
    max_per_ip ← getenv_int env (text "WS_MAX_CONNECTIONS_PER_IP") fallback.max_per_ip
    room_creates ←
        read_limit (text "WS_ROOM_CREATIONS_PER_SECOND") (text "WS_ROOM_CREATION_BURST")
          fallback.room_creates
    let limits : ConnectionLimits W = record {
      connections = connections;
      max_per_ip = max_per_ip;
      room_creates = room_creates;
    }
    check_text (validate_connection_limits limits) bad_connection_limits
    runs limits

abbrev or_bad_origins {ℓ} : {V : Type ℓ} → OriginResult V → Start V
or_bad_origins (fine v) = runs v
or_bad_origins (bad e) = stops (bad_origins e)

abbrev or_bad_proxies {ℓ} : {Prefix : Type ℓ} → ProxyList Prefix → Start (List Prefix)
or_bad_proxies (proxies list) = runs list
or_bad_proxies (ProxyList.refused e) = stops (bad_proxies e)

module _ {ℓ κ} {W : Type ℓ} {Addr Prefix : Type κ} ⦃f : Float64 W⦄ (net : Netip Addr Prefix)
    (web : Web) (env : Environment W) where
  -- The first half of `main`, in its order.
  unfoldable pub read_config : Start (Config W Prefix)
  read_config = do
    address ← listen_address env
    room_idle_timeout ← getenv_duration env (text "ROOM_IDLE_TIMEOUT") default_room_idle_timeout
    phase_durations ← read_phase_durations env
    rate_limits ← read_rate_limits env
    connection_limits ← read_connection_limits env
    allowed_origins ←
        or_bad_origins (parse_allowed_origins web (env.variable (text "ALLOWED_ORIGINS")))
    trusted_proxies ←
        or_bad_proxies (parse_trusted_proxies net (env.variable (text "TRUSTED_PROXIES")))
    max_rooms ← getenv_int env (text "MAX_ROOMS") default_max_rooms
    check (int_lt (pos 0) max_rooms) bad_max_rooms
    max_spectators ← getenv_int env (text "MAX_SPECTATORS_PER_ROOM") default_max_spectators
    check (int_lt (pos 0) max_spectators) bad_max_spectators
    runs (record {
      address = address;
      room_idle_timeout = room_idle_timeout;
      phase_durations = phase_durations;
      rate_limits = rate_limits;
      connection_limits = connection_limits;
      allowed_origins = allowed_origins;
      trusted_proxies = trusted_proxies;
      max_rooms = max_rooms;
      max_spectators = max_spectators;
    })

module _ {ℓ κ} {W : Type ℓ} {Prefix : Type κ} where
  -- The options that `main` gives to `NewHub` and `NewHandler`.
  unfoldable pub hub_settings : Config W Prefix → List HubOption
  hub_settings c =
      HubOption.with_room_idle_timeout c.room_idle_timeout
      ∷ HubOption.with_phase_durations c.phase_durations
      ∷ HubOption.with_max_rooms c.max_rooms
      ∷ HubOption.with_max_spectators c.max_spectators
      ∷ []

  unfoldable pub handler_settings : Config W Prefix → List (HandlerOption W Prefix)
  handler_settings c =
      HandlerOption.with_event_rate_limits c.rate_limits
      ∷ HandlerOption.with_connection_limits c.connection_limits
      ∷ HandlerOption.with_allowed_origins c.allowed_origins
      ∷ HandlerOption.with_trusted_proxies c.trusted_proxies
      ∷ []
