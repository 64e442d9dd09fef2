-- ===== src/Protocol/Shape.antt =====
-- `validateShape` and `rejectUnexpectedFields` of internal/protocol/client_event.go: which fields an
-- event of each type must and may have.
use midnight_council.Base.{
  ℕ, ltb, nat_eq, Bool, true, false, not, ◌&&◌, ◌||◌, List, [], ◌∷◌, if◌then◌else◌, is_some, length,
}
use midnight_council.Text.{trim_space}
use midnight_council.Room.Types.{EventType}
use midnight_council.Room.Settings.{GamePreset}
use midnight_council.Room.State.{max_chat_bytes}
use midnight_council.Protocol.{
  ClientEvent, ClientField, field_ready, field_message, field_target_id, field_locked,
  field_max_players, field_preset, field_night_duration, field_day_discussion_duration,
  field_day_voting_duration, field_last_words_duration, field_minimum_players,
  field_reveal_roles_on_death, field_killers, field_detectives, field_doctors, field_escorts,
  field_shooters, field_sequence, field_afk, missing_field, message_too_long, invalid_game_preset,
  field_not_accepted, unsupported_type, Checked, accepted, refused, written, chosen, present,
  provided,
}

-- The strings of the fields are all different; here they are numbered.
abbrev pub number : ClientField → ℕ
number field_ready = 0
number field_message = 1
number field_target_id = 2
number field_locked = 3
number field_max_players = 4
number field_preset = 5
number field_night_duration = 6
number field_day_discussion_duration = 7
number field_day_voting_duration = 8
number field_last_words_duration = 9
number field_minimum_players = 10
number field_reveal_roles_on_death = 11
number field_killers = 12
number field_detectives = 13
number field_doctors = 14
number field_escorts = 15
number field_shooters = 16
number field_sequence = 17
number field_afk = 18

-- `allowed[field]`
unfoldable pub allows : List ClientField → ClientField → Bool
allows [] field = false
allows (f ∷ fields) field = nat_eq (number f) (number field) || allows fields field

-- The loop over the rows of the table.
unfoldable pub check_fields : ClientEvent → List ClientField → List ClientField → Checked (Unit {0})
check_fields e allowed [] = accepted tt
check_fields e allowed (field ∷ fields) =
    let rest = check_fields e allowed fields in
    if present e field && not (allows allowed field)
    then refused (field_not_accepted e.type field)
    else rest

unfoldable pub reject_unexpected_fields : ClientEvent → List ClientField → Checked (Unit {0})
reject_unexpected_fields e fields = check_fields e (field_sequence ∷ fields) provided

-- The fields that the call for each type of event allows.
unfoldable pub accepted_fields : EventType → List ClientField
accepted_fields EventType.ready = field_ready ∷ []
accepted_fields EventType.chat = field_message ∷ []
accepted_fields EventType.night_action = field_target_id ∷ []
accepted_fields EventType.shoot = field_target_id ∷ []
accepted_fields EventType.vote = field_target_id ∷ []
accepted_fields EventType.transfer_owner = field_target_id ∷ []
accepted_fields EventType.kick_participant = field_target_id ∷ []
accepted_fields EventType.set_room_locked = field_locked ∷ []
accepted_fields EventType.set_player_limit = field_max_players ∷ []
accepted_fields EventType.set_game_preset = field_preset ∷ []
accepted_fields EventType.set_game_settings =
    field_night_duration ∷ field_day_discussion_duration ∷ field_day_voting_duration
    ∷ field_last_words_duration ∷ field_minimum_players ∷ field_reveal_roles_on_death
    ∷ field_killers ∷ field_detectives ∷ field_doctors ∷ field_escorts ∷ field_shooters ∷ []
accepted_fields EventType.presence = field_afk ∷ []
accepted_fields _ = []

-- The presets of the inner `switch`.
abbrev pub offered : GamePreset → Bool
offered GamePreset.standard = true
offered GamePreset.quick = true
offered GamePreset.beginner = true
offered GamePreset.advanced = true
offered GamePreset.minimal = true
offered _ = false

abbrev pub all_settings_given : ClientEvent → Bool
all_settings_given e =
    written e.night_duration
    && written e.day_discussion_duration
    && written e.day_voting_duration
    && written e.last_words_duration
    && is_some e.minimum_players
    && is_some e.reveal_roles_on_death
    && is_some e.killers
    && is_some e.detectives
    && is_some e.doctors
    && is_some e.escorts
    && is_some e.shooters

abbrev pub demand : Bool → ClientEvent → Checked (Unit {0})
demand given e =
    if given
    then reject_unexpected_fields e (accepted_fields e.type)
    else refused (missing_field e.type)

-- The `switch` of `validateShape`.
unfoldable pub shape : EventType → ClientEvent → Checked (Unit {0})
shape EventType.ready e = demand (is_some e.ready) e
shape EventType.chat e =
    if written e.message && ltb max_chat_bytes (length (trim_space e.message))
    then refused message_too_long
    else demand (written e.message) e
shape EventType.night_action e = demand (written e.target_id) e
shape EventType.shoot e = demand (written e.target_id) e
shape EventType.vote e = demand true e
shape EventType.transfer_owner e = demand (written e.target_id) e
shape EventType.kick_participant e = demand (written e.target_id) e
shape EventType.set_room_locked e = demand (is_some e.locked) e
shape EventType.set_player_limit e = demand (is_some e.max_players) e
shape EventType.set_game_preset e =
    if chosen e.preset && not (offered e.preset)
    then refused invalid_game_preset
    else demand (chosen e.preset) e
shape EventType.set_game_settings e = demand (all_settings_given e) e
shape EventType.presence e = demand (is_some e.afk) e
shape EventType.start_game e = demand true e
shape EventType.night_pass e = demand true e
shape EventType.start_vote e = demand true e
shape EventType.return_to_waiting e = demand true e
shape _ e = refused (unsupported_type e.type)

unfoldable pub validate_shape : ClientEvent → Checked (Unit {0})
validate_shape e = shape e.type e
