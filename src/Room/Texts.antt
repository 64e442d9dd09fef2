-- ===== src/Room/Texts.antt =====
-- The texts of the errors and of the event types of internal/room (state.go, rules.go, settings.go,
-- types.go).
use midnight_council.Base.{ℕ, ◌++◌}
use midnight_council.Text.{GoString, text}
use midnight_council.Room.Types.{EventType}
use midnight_council.Room.Errors.{Error}
use midnight_council.Room.Event.{Event}

-- What `fmt` and `crypto/rand` add to the texts.
pub record Texts : Type 0 where
  pub decimal : ℕ → GoString
  pub no_entropy : GoString

unfoldable pub event_type_text : EventType → GoString
event_type_text EventType.join = text "join"
event_type_text EventType.leave = text "leave"
event_type_text EventType.ready = text "ready"
event_type_text EventType.start_game = text "start_game"
event_type_text EventType.chat = text "chat"
event_type_text EventType.night_action = text "night_action"
event_type_text EventType.night_pass = text "night_pass"
event_type_text EventType.start_vote = text "start_vote"
event_type_text EventType.vote = text "vote"
event_type_text EventType.shoot = text "shoot"
event_type_text EventType.transfer_owner = text "transfer_owner"
event_type_text EventType.kick_participant = text "kick_participant"
event_type_text EventType.set_room_locked = text "set_room_locked"
event_type_text EventType.set_player_limit = text "set_player_limit"
event_type_text EventType.set_game_settings = text "set_game_settings"
event_type_text EventType.set_game_preset = text "set_game_preset"
event_type_text EventType.presence = text "presence"
event_type_text EventType.return_to_waiting = text "return_to_waiting"
event_type_text EventType.disconnect = text "disconnect"
event_type_text EventType.phase_timeout = text "phase_timeout"
event_type_text (EventType.custom s) = s

-- `Error`, of the error that an event has met.
unfoldable pub error_text : Texts → Event → Error → GoString
unfolding event_type_text
error_text texts e Error.player_id_required = text "player id is required"
error_text texts e Error.invalid_player_id =
    text "player id must contain 1-64 letters, numbers, hyphens, or underscores"
error_text texts e Error.player_name_required = text "player name is required"
error_text texts e Error.invalid_player_name = text "player name contains invalid characters"
error_text texts e Error.player_name_too_long =
    text "player name must be at most 32 characters and 128 bytes"
error_text texts e Error.player_not_found = text "player not found"
error_text texts e Error.reconnect_token_required = text "reconnect token is required"
error_text texts e Error.invalid_reconnect_token = text "reconnect token is invalid"
error_text texts e Error.owner_only = text "only the room owner can perform this action"
error_text texts e Error.room_not_waiting = text "room is not waiting"
error_text texts e Error.room_not_joinable = text "room is not joinable"
error_text texts e Error.room_locked = text "room is locked"
error_text texts e Error.room_full = text "room player limit has been reached"
error_text texts e Error.spectator_limit_reached = text "room spectator limit has been reached"
error_text texts e Error.wrong_phase = text "action is not allowed in the current phase"
error_text texts e Error.game_finished = text "game is already finished"
error_text texts e Error.not_enough_players = text "not enough players to start"
error_text texts e Error.players_not_ready = text "all non-owner players must be ready"
error_text texts e Error.empty_message = text "message is empty"
error_text texts e Error.message_too_long = text "message is too long"
error_text texts e Error.player_dead = text "player is dead"
error_text texts e Error.invalid_target = text "target is invalid"
error_text texts e Error.self_target_not_allowed = text "self target is not allowed"
error_text texts e Error.role_has_no_night_action = text "role has no night action"
error_text texts e Error.shooter_only = text "only the shooter can perform this action"
error_text texts e Error.shooter_already_used = text "shooter action has already been used"
error_text texts e Error.phase_deadline_not_reached = text "phase deadline has not been reached"
error_text texts e Error.participant_type_mismatch =
    text "participant type does not match the existing seat"
error_text texts e Error.spectator_cannot_chat = text "spectators cannot chat during an active game"
error_text texts e Error.last_words_speaker_only =
    text "only the executed player can speak during last words"
error_text texts e Error.participant_not_found = text "participant not found"
error_text texts e Error.cannot_kick_owner = text "the room owner cannot be kicked"
error_text texts e Error.kick_not_allowed =
    text "participants can only be kicked while waiting or after a game"
error_text texts e Error.kicked = text "removed from room by the owner"
error_text texts e Error.invalid_owner_target = text "new owner must be a connected seated player"
error_text texts e Error.player_limit_out_of_range = text "player limit is out of range"
error_text texts e Error.player_limit_below_current =
    text "player limit cannot be below the current player count"
error_text texts e Error.already_waiting = text "room is already waiting"
error_text texts e Error.connection_replaced = text "connection replaced by a newer session"
error_text texts e Error.duplicate_client_event =
    text "client event was already processed: sequence " ++ texts.decimal e.client_sequence
error_text texts e Error.invalid_rule_set = text "game rule set is invalid"
error_text texts e Error.invalid_game_preset = text "game preset is invalid"
error_text texts e Error.invalid_phase_duration = text "phase duration is invalid"
error_text texts e Error.minimum_players_out_of_range = text "minimum players is out of range"
error_text texts e Error.minimum_players_above_limit =
    text "minimum players cannot exceed the room player limit"
error_text texts e Error.invalid_role_configuration = text "role configuration is invalid"
error_text texts e Error.player_limit_below_minimum =
    text "player limit cannot be below the configured minimum players"
error_text texts e Error.no_entropy = texts.no_entropy
error_text texts e Error.unknown_room_event = text "unknown room event: " ++ event_type_text e.type
