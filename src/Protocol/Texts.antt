-- ===== src/Protocol/Texts.antt =====
-- The texts of the errors of internal/protocol/client_event.go.
use midnight_council.Base.{◌++◌}
use midnight_council.Text.{GoString, text}
use midnight_council.Room.Types.{EventType}
use midnight_council.Room.Texts.{event_type_text}
use midnight_council.Protocol.{
  ClientField, ProtocolError, invalid_json, invalid_schema, missing_field, message_too_long,
  invalid_game_preset, field_not_accepted, unsupported_type, field_ready, field_message,
  field_target_id, field_locked, field_max_players, field_preset, field_night_duration,
  field_day_discussion_duration, field_day_voting_duration, field_last_words_duration,
  field_minimum_players, field_reveal_roles_on_death, field_killers, field_detectives,
  field_doctors, field_escorts, field_shooters, field_sequence, field_afk,
}

-- What the JSON decoder and the validator say of an input.
pub record LibraryTexts : Type 0 where
  pub json_error : GoString → GoString
  pub schema_error : GoString → GoString

unfoldable pub field_text : ClientField → GoString
field_text field_ready = text "ready"
field_text field_message = text "message"
field_text field_target_id = text "target_id"
field_text field_locked = text "locked"
field_text field_max_players = text "max_players"
field_text field_preset = text "preset"
field_text field_night_duration = text "night_duration"
field_text field_day_discussion_duration = text "day_discussion_duration"
field_text field_day_voting_duration = text "day_voting_duration"
field_text field_last_words_duration = text "last_words_duration"
field_text field_minimum_players = text "minimum_players"
field_text field_reveal_roles_on_death = text "reveal_roles_on_death"
field_text field_killers = text "killers"
field_text field_detectives = text "detectives"
field_text field_doctors = text "doctors"
field_text field_escorts = text "escorts"
field_text field_shooters = text "shooters"
field_text field_sequence = text "sequence"
field_text field_afk = text "afk"

-- What an event lacks; the default is the text for night actions, votes and the like.
unfoldable pub missing_text : EventType → GoString
unfolding event_type_text
missing_text EventType.ready = text "ready event requires ready"
missing_text EventType.chat = text "chat event requires message"
missing_text EventType.set_room_locked = text "set_room_locked event requires locked"
missing_text EventType.set_player_limit = text "set_player_limit event requires max_players"
missing_text EventType.set_game_preset = text "set_game_preset event requires preset"
missing_text EventType.set_game_settings =
    text "set_game_settings event requires all game setting fields"
missing_text EventType.presence = text "presence event requires afk"
missing_text type = event_type_text type ++ text " event requires target_id"

-- `Error`, of the error that an input has met.
unfoldable pub protocol_text : LibraryTexts → GoString → ProtocolError → GoString
unfolding event_type_text missing_text field_text
protocol_text texts input invalid_json =
    text "invalid client event JSON: " ++ texts.json_error input
protocol_text texts input invalid_schema =
    text "invalid client event schema: " ++ texts.schema_error input
protocol_text texts input (missing_field type) = missing_text type
protocol_text texts input message_too_long = text "message is too long"
protocol_text texts input invalid_game_preset = text "game preset is invalid"
protocol_text texts input (field_not_accepted type field) =
    event_type_text type ++ text " event does not accept " ++ field_text field
protocol_text texts input (unsupported_type type) =
    text "unsupported client event type: " ++ event_type_text type
