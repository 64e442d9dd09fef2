-- ===== src/Ws/Handler.antt =====
-- internal/ws/handler.go: the options of the handler, and the tests that a request passes before the
-- connection opens.
pub mod Serve
pub mod Counting
pub mod Entry
pub mod Registering
use midnight_council.Base.{
  ℕ, Bool, true, false, not, ◌&&◌, ◌||◌, List, [], ◌∷◌, Option, none, some, if◌then◌else◌, ◌==◌,
  is_some,
}
use midnight_council.Text.{GoString, text, str_Eq, trim_space}
use midnight_council.Room.Errors.{Result, ok, err}
use midnight_council.Room.Event.{Event}
use midnight_council.Room.Types.{EventType, zero_time}
use midnight_council.Room.Identity.{normalize_participant_identity}
use midnight_council.Room.Texts.{Texts, error_text}
use midnight_council.Room.Actor.{own_event}
use midnight_council.Moderation.{ChatPolicy, allow_all_chat}
use midnight_council.Ws.Float.{Float64}
use midnight_council.Ws.RateLimit.{
  EventRateLimits, default_event_rate_limits, validate_event_limits,
}
use midnight_council.Ws.Admission.{
  ConnectionLimits, default_connection_limits, validate_connection_limits,
}
use midnight_council.Ws.OriginCheck.{Web, OriginPolicy, OriginResult, fine, bad, new_origin_policy}
use midnight_council.Ws.Path.{room_id_from_path, reconnect_token_pattern}

-- The configuration of a handler; the hub and the admission limiter are parts of the state.
pub record Handler {ℓ κ} (W : Type ℓ) (Prefix : Type κ) : Type (ℓ ⊔ κ) where
  pub rate_limits : EventRateLimits W
  pub connection_limits : ConnectionLimits W
  pub trusted_proxies : List Prefix
  pub origins : OriginPolicy
  pub chat_policy : Option ChatPolicy

-- `HandlerOption`
pub data HandlerOption {ℓ κ} (W : Type ℓ) (Prefix : Type κ) : Type (ℓ ⊔ κ) where
  with_event_rate_limits : EventRateLimits W → HandlerOption W Prefix
  with_connection_limits : ConnectionLimits W → HandlerOption W Prefix
  with_trusted_proxies : List Prefix → HandlerOption W Prefix
  with_allowed_origins : List GoString → HandlerOption W Prefix
  with_chat_policy : Option ChatPolicy → HandlerOption W Prefix

module _ {ℓ κ} {W : Type ℓ} {Prefix : Type κ} (web : Web) where
  abbrev with_origins : OriginResult OriginPolicy → Handler W Prefix → Option (Handler W Prefix)
  with_origins (bad e) h = none
  with_origins (fine policy) h = some (record h { origins = policy })

  -- `none` is the panic of `WithAllowedOrigins`.
  unfoldable pub handler_option :
      HandlerOption W Prefix → Handler W Prefix → Option (Handler W Prefix)
  handler_option (HandlerOption.with_event_rate_limits limits) h =
      some (record h { rate_limits = limits })
  handler_option (HandlerOption.with_connection_limits limits) h =
      some (record h { connection_limits = limits })
  handler_option (HandlerOption.with_trusted_proxies proxies) h =
      some (record h { trusted_proxies = proxies })
  handler_option (HandlerOption.with_allowed_origins origins) h =
      with_origins (new_origin_policy web origins) h
  handler_option (HandlerOption.with_chat_policy policy) h =
      some (record h { chat_policy = policy })

  unfoldable pub handler_options :
      List (HandlerOption W Prefix) → Handler W Prefix → Option (Handler W Prefix)
  handler_options [] h = some h
  handler_options (option ∷ options) h = elim (handler_option option h) [
    | none ↦ none
    | some next ↦ handler_options options next
  ]

module _ {ℓ κ} {W : Type ℓ} {Prefix : Type κ} ⦃f : Float64 W⦄ (web : Web) where
  unfoldable pub default_handler : Handler W Prefix
  default_handler = record {
    rate_limits = default_event_rate_limits;
    connection_limits = default_connection_limits;
    trusted_proxies = [];
    origins = record { allowed = [] };
    chat_policy = some allow_all_chat;
  }

  unfoldable pub handler_valid : Handler W Prefix → Bool
  handler_valid h =
      not (is_some (validate_event_limits h.rate_limits))
      && not (is_some (validate_connection_limits h.connection_limits))
      && is_some h.chat_policy

  -- `NewHandler`, where `none` is a panic.
  unfoldable pub new_handler : List (HandlerOption W Prefix) → Option (Handler W Prefix)
  new_handler options = elim (handler_options web options default_handler) [
    | none ↦ none
    | some h ↦ if handler_valid h then some h else none
  ]

-- The path and the values of the query of a request.
pub record Query : Type 0 where
  pub path : GoString
  pub player_id : GoString
  pub name : GoString
  pub reconnect_token : GoString
  pub spectator : GoString

-- What the handler has read of a request.
pub record Arrival : Type 0 where
  pub room_id : GoString
  pub player_id : GoString
  pub player_name : GoString
  pub reconnect_token : GoString
  pub spectator : Bool

-- `strconv.ParseBool`
unfoldable pub parse_bool : GoString → Option Bool
parse_bool s =
    if s == text "1"
      || s == text "t"
      || s == text "T"
      || s == text "true"
      || s == text "TRUE"
      || s == text "True"
    then some true
    else if s == text "0"
        || s == text "f"
        || s == text "F"
        || s == text "false"
        || s == text "FALSE"
        || s == text "False"
    then some false
    else none

-- `spectator` of a request, which is false where it is not given.
unfoldable pub parse_spectator : GoString → Option Bool
parse_spectator raw =
    let value = trim_space raw in if not (value == []) then parse_bool value else some false

-- The event of a join
unfoldable pub join_event : Arrival → Event
join_event arrival = record (own_event EventType.join arrival.player_id zero_time) {
  player_name = arrival.player_name;
  reconnect_token = arrival.reconnect_token;
  spectator = arrival.spectator;
}

-- What is read, or the text of the answer 400.
pub data Request : Type 0 where
  arrives : Arrival → Request
  malformed : GoString → Request

unfoldable pub read_identity : Texts → Event → Query → GoString → Bool → Request
read_identity texts e q room_id spectator =
    let token = trim_space q.reconnect_token in
    elim (normalize_participant_identity (trim_space q.player_id) (trim_space q.name)) [
      | err x ↦ malformed (error_text texts e x)
      | ok (id, name) ↦
          if not (token == []) && not (reconnect_token_pattern token)
          then malformed (text "reconnect token is invalid")
          else arrives (record {
            room_id = room_id;
            player_id = id;
            player_name = name;
            reconnect_token = token;
            spectator = spectator;
          })
    ]

-- The first tests of `ServeHTTP`.
unfoldable pub read_request : Texts → Query → Request
read_request texts q = elim (room_id_from_path q.path) [
  | none ↦ malformed (text "room id is required")
  | some room_id ↦ elim (parse_spectator q.spectator) [
    | none ↦ malformed (text "spectator query param must be a boolean")
    | some spectator ↦
        read_identity texts (own_event EventType.join [] zero_time) q room_id spectator
  ]
]
