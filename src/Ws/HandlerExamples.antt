-- ===== src/Ws/HandlerExamples.antt =====
-- Inputs at which the theorems on internal/ws/handler.go apply.
use midnight_council.Base.{◌≡◌, refl, true, false, [], ◌∷◌, ◌++◌, some, arith}
use midnight_council.Text.{
  GoString, text, str_Eq, str_eq, trim_space, decode_rune, is_space, runes, trim_prefix, trim_byte,
  trim_left_byte, cut,
}
use midnight_council.Room.Event.{Event}
use midnight_council.Room.Texts.{Texts}
use midnight_council.Room.Actor.{
  reset_phase_timer, reset_idle_timer, disconnect_participant, without_participant, dismissed,
  broadcast, broadcast_within, disconnect_all, keep_up, fall_behind,
}
use midnight_council.Room.Actor.Rounds.{
  new_actor, command_round, obey, dispatch_event, add_subscriber, kicked_text,
}
use midnight_council.Room.Actor.Client.{
  served, possible, dispatch_call, subscribe_connection, receives, call_reply,
}
use midnight_council.Room.Hub.{
  default_hub, get_or_create, create, room_exists, can_create_room, room_count, new_hub,
  hub_options, hub_valid,
}
use midnight_council.Room.Examples.{host, room}
use midnight_council.Protocol.{sequence_value, room_event, present}
use midnight_council.Protocol.Shape.{
  check_fields, reject_unexpected_fields, accepted_fields, shape, validate_shape,
}
use midnight_council.Protocol.Decode.{decode_client_event}
use midnight_council.Protocol.Examples.{greeting, decoder}
use midnight_council.Moderation.{allow_all_chat}
use midnight_council.Ws.Float.{Tenths, tenths_float}
use midnight_council.Protocol.Shape
use midnight_council.Ws.RateLimit.{
  allow, settled, refilled, time_since, new_token_bucket, allow_event, default_event_rate_limits,
  new_connection_rate_limiter,
}
use midnight_council.Ws.Proxy.{remote_ip, request_peer_ip, contains_trusted_proxy}
use midnight_council.Ws.OriginCheck.{policy_allows}
use midnight_council.Ws.Admission.{
  acquire, admit, known_entry, new_entry, remove_expired, default_connection_limits,
  new_admission_limiter,
}
use midnight_council.Ws.Admission.Leases.{connections_of}
use midnight_council.Ws.Moderation.{moderate_chat, decided}
use midnight_council.Ws.WritePump.{write_pump, IsWritten, write_pump-IsWritten, reply, tick}
use midnight_council.Ws.ReadPump.{
  error_envelope, Session, Turn, Pump, Frame, screened, moderated, handled,
}
use midnight_council.Ws.ReadPump.Replies.{IsAnswered, handled-IsAnswered}
use midnight_council.Ws.ReadPump.Forwarding.{IsProper, screened-IsProper}
use midnight_council.Ws.Path.{
  room_prefix, room_id_pattern, room_id_from_path, room_id_from_path_lem, all_bytes,
}
use midnight_council.Ws.Handler.{
  Handler, Arrival, arrives, default_handler, read_request, read_identity, parse_spectator,
  join_event,
}
use midnight_council.Ws.Handler.Entry.{IsValid, serve_http-IsValid}
use midnight_council.Ws.Handler.Serve.{
  HttpRequest, Circumstances, Server, is_connected, serve_http, admit_arrival, upgrade, settle,
  enter_room, enter_actor, at_actor, join_room, subscribe_room,
}
use midnight_council.Room.Hub.Registry.{Serves, Continues}
use midnight_council.Room.Timing.{durations_valid}
use midnight_council.Ws.Handler.Registering.{GoesOn, Reaches, requested, serve_http-Reaches}
use midnight_council.Ws.Handler.Counting.{count_after, serve_http-connections_of}
use midnight_council.Ws.LimitExamples.{plain_net, plain_web, client_ip}

abbrev texts : Texts
texts = record { decimal = λ n. []; no_entropy = [] }

abbrev session : Session
session = record {
  subscription_id = text "s1";
  room_id = text "room";
  player_id = text "ada";
  player_name = text "Ada";
  chat_policy = allow_all_chat;
  decoder = decoder;
  texts = texts;
  library_texts = record { json_error = λ s. []; schema_error = λ s. [] };
}

abbrev turn : Turn
turn = record {
  frame = Frame.message (text "{}");
  now = 7;
  host = host;
  wait = served;
  reason = [];
}

abbrev pump : Pump Tenths
pump = record {
  limiter = new_connection_rate_limiter default_event_rate_limits 0;
  outgoing = [];
  actor = new_actor host 60 room;
}

handled-IsAnswered_example :
    IsAnswered session 4
      (screened session greeting (allow_event pump.limiter greeting.type 7).0)
      (λ e. (dispatch_call host served [] (text "s1") e pump.actor).1)
      []
      ((handled session turn greeting pump).0.outgoing, (handled session turn greeting pump).1)
unfolding sequence_value
handled-IsAnswered_example =
    handled-IsAnswered session turn greeting pump (λ e. ground (arith, e)) (omega arith)

abbrev greeted : Event
greeted = record (room_event greeting (text "ada") (text "Ada")) { message = text "hello" }

screened-IsProper_example : (true ≡ true) × IsProper session greeting greeted
unfolding decode_client_event validate_shape shape reject_unexpected_fields check_fields present
    midnight_council.Protocol.Shape.allows accepted_fields str_eq trim_space runes decode_rune
    is_space screened moderated moderate_chat decided allow_all_chat room_event
screened-IsProper_example = screened-IsProper session (text "{}") greeting true greeted refl refl

room_id_from_path_lem_example :
    room_id_from_path (room_prefix ++ text "den_7") ≡ some (text "den_7")
unfolding room room_id_pattern all_bytes
room_id_from_path_lem_example = room_id_from_path_lem (text "den_7") refl

abbrev handler : Handler Tenths GoString
handler = default_handler plain_web

abbrev request : HttpRequest
request = record {
  query = record {
    path = text "/ws/rooms/den";
    player_id = text "ada";
    name = text "Ada";
    reconnect_token = [];
    spectator = [];
  };
  origin = record { remote_addr = client_ip; forwarded_for = []; forwarded = [] };
  page = record { origin = []; host = text "council.example" };
}

abbrev circumstances : Circumstances
circumstances = record {
  now = 5;
  later = 9;
  upgrades = true;
  host = host;
  join_host = host;
  join_wait = served;
  subscribe_host = host;
  subscribe_wait = served;
  reason = [];
  new_id = text "s1";
  meantime = λ hub. hub;
  before_join = λ hub. hub;
  before_subscribe = λ hub. hub;
}

abbrev server : Server Tenths
server = record { hub = default_hub; admission = new_admission_limiter default_connection_limits }

serve_http-connections_of_example :
    connections_of client_ip
      (serve_http plain_net plain_web texts handler circumstances request
        server).0.admission.entries
    ≡ count_after plain_net plain_web texts handler client_ip
        (is_connected (serve_http plain_net plain_web texts handler circumstances request server).1)
        (remote_ip plain_net [] request.origin)
        server
unfolding new_admission_limiter default_handler
serve_http-connections_of_example =
    serve_http-connections_of plain_net plain_web texts handler circumstances request server
      client_ip tt

serve_http-IsValid_example :
    (policy_allows plain_web handler.origins request.page ≡ true)
    × ((a : Arrival) × (read_request texts request.query ≡ arrives a) × IsValid a)
unfolding room serve_http read_request read_identity parse_spectator join_event room_id_from_path
    room_id_pattern all_bytes trim_prefix trim_byte trim_left_byte admit_arrival upgrade
    policy_allows settle enter_room enter_actor at_actor join_room subscribe_room possible
    get_or_create create room_exists can_create_room room_count default_hub new_actor
    reset_phase_timer reset_idle_timer dispatch_call subscribe_connection receives call_reply
    command_round obey dispatch_event add_subscriber disconnect_participant without_participant
    dismissed broadcast broadcast_within disconnect_all keep_up fall_behind acquire admit
    known_entry new_entry remove_expired new_admission_limiter default_connection_limits
    default_handler new_token_bucket allow settled refilled time_since remote_ip request_peer_ip cut
    contains_trusted_proxy
serve_http-IsValid_example =
    serve_http-IsValid plain_net plain_web texts handler circumstances request server refl

-- A kick ends the connection, whatever else waits.
write_pump-IsWritten_example :
    IsWritten (write_pump (reply (error_envelope kicked_text) true false ∷ tick true ∷ []))
write_pump-IsWritten_example =
    write_pump-IsWritten (reply (error_envelope kicked_text) true false ∷ tick true ∷ [])

default_made : new_hub [] ≡ some default_hub
unfolding new_hub hub_options hub_valid default_hub durations_valid
default_made = refl

alone : GoesOn circumstances
alone = record {
  upgrading = λ hub. Continues.stays;
  joining = λ hub. Continues.stays;
  subscribing = λ hub. Continues.stays;
}

serve_http-Reaches_example : Reaches [] (requested (read_request texts request.query)) (
  (serve_http plain_net plain_web texts handler circumstances request server).0.hub,
  (serve_http plain_net plain_web texts handler circumstances request server).1,
)
unfolding default_handler
serve_http-Reaches_example =
    serve_http-Reaches plain_net plain_web texts handler [] circumstances request server alone
      (Serves.made default_made)
