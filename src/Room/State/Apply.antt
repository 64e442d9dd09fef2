-- ===== src/Room/State/Apply.antt =====
-- `Apply` of internal/room/state.go: the dispatch on the event's type, and the client sequences by
-- which a repeated event is refused.
use midnight_council.Base.{
  ℕ, Bool, false, ◌&&◌, Option, none, some, ltb, leb, nat_eq, if◌then◌else◌,
}
use midnight_council.Base.Dict.{lookup, modify}
use midnight_council.Text.{GoString, str_Eq}
use midnight_council.Room.Types.{EventType, Player, Spectator, zero_time}
use midnight_council.Room.Errors.{ok, err, duplicate_client_event, unknown_room_event}
use midnight_council.Room.Host.{Host}
use midnight_council.Room.Event.{Event}
use midnight_council.Room.State.{State}
use midnight_council.Room.State.Seats.{
  Outcome, fail, apply_join, apply_leave, apply_disconnect, apply_ready, apply_presence,
}
use midnight_council.Room.State.Game.{
  apply_start_game, apply_chat, apply_night_action, apply_night_pass, apply_start_vote, apply_vote,
  apply_shoot, apply_phase_timeout,
}
use midnight_council.Room.State.Admin.{
  apply_transfer_owner, apply_kick_participant, apply_set_room_locked, apply_set_player_limit,
  apply_set_game_settings, apply_set_game_preset, apply_return_to_waiting,
}

unfoldable pub last_client_sequence : State → GoString → Option ℕ
last_client_sequence s player_id = elim (lookup player_id s.players) [
  | some player ↦ some player.last_client_sequence
  | none ↦ elim (lookup player_id s.spectators) [
    | some spectator ↦ some spectator.last_client_sequence
    | none ↦ none
  ]
]

abbrev pub set_sequence : ℕ → Player → Player
set_sequence n p = record p { last_client_sequence = n }

abbrev pub set_spectator_sequence : ℕ → Spectator → Spectator
set_spectator_sequence n p = record p { last_client_sequence = n }

unfoldable pub record_client_sequence : GoString → ℕ → State → State
record_client_sequence player_id n s = elim (lookup player_id s.players) [
  | some player ↦ record s { players = modify player_id (set_sequence n) s.players }
  | none ↦ record s { spectators = modify player_id (set_spectator_sequence n) s.spectators }
]

-- The `switch` on the type of the event.
unfoldable pub dispatch : EventType → Host → State → Event → Outcome
dispatch EventType.join h s e = apply_join h s e
dispatch EventType.leave h s e = apply_leave h s e
dispatch EventType.disconnect h s e = apply_disconnect h s e
dispatch EventType.ready h s e = apply_ready h s e
dispatch EventType.start_game h s e = apply_start_game h s e
dispatch EventType.chat h s e = apply_chat h s e
dispatch EventType.night_action h s e = apply_night_action h s e
dispatch EventType.night_pass h s e = apply_night_pass h s e
dispatch EventType.start_vote h s e = apply_start_vote h s e
dispatch EventType.vote h s e = apply_vote h s e
dispatch EventType.shoot h s e = apply_shoot h s e
dispatch EventType.transfer_owner h s e = apply_transfer_owner h s e
dispatch EventType.kick_participant h s e = apply_kick_participant h s e
dispatch EventType.set_room_locked h s e = apply_set_room_locked h s e
dispatch EventType.set_player_limit h s e = apply_set_player_limit h s e
dispatch EventType.set_game_settings h s e = apply_set_game_settings h s e
dispatch EventType.set_game_preset h s e = apply_set_game_preset h s e
dispatch EventType.presence h s e = apply_presence h s e
dispatch EventType.return_to_waiting h s e = apply_return_to_waiting h s e
dispatch EventType.phase_timeout h s e = apply_phase_timeout h s e
dispatch (EventType.custom name) h s e = fail s unknown_room_event

-- `event.ClientSequence <= last`
abbrev pub at_most_last : ℕ → Option ℕ → Bool
at_most_last n none = false
at_most_last n (some last) = leb n last

unfoldable pub is_duplicate : State → Event → Bool
is_duplicate s e =
    ltb 0 e.client_sequence && at_most_last e.client_sequence (last_client_sequence s e.player_id)

-- The sequence is recorded when the handler has succeeded.
unfoldable pub recorded : Event → Outcome → Outcome
recorded e (s, err error) = (s, err error)
recorded e (s, ok envelope) = (
  if ltb 0 e.client_sequence then record_client_sequence e.player_id e.client_sequence s else s,
  ok envelope,
)

abbrev pub stamped : Host → Event → Event
stamped h e = record e { at = if nat_eq e.at zero_time then h.now else e.at }

unfoldable pub apply : Host → State → Event → Outcome
apply h s e =
    if is_duplicate s (stamped h e)
    then fail s duplicate_client_event
    else recorded (stamped h e) (dispatch e.type h s (stamped h e))
