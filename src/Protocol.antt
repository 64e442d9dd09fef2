-- ===== src/Protocol.antt =====
-- internal/protocol/client_event.go: the events that a client may send, and their translation into
-- events of a room. The JSON decoder and the struct validator that the code calls are arguments.
pub mod Shape
pub mod Decode
pub mod Accepted
pub mod Texts
pub mod Examples
use midnight_council.Base.{
  ℕ, ℤ, pos, ◌≡◌, ltb, Bool, true, false, not, ◌&&◌, ◌||◌, List, [], ◌∷◌, Option, none, some,
  if◌then◌else◌, is_some, length, ◌==◌,
}
use midnight_council.Text.{GoString, str_Eq, trim_space}
use midnight_council.Room.Types
use midnight_council.Room.Types.{EventType, Time, zero_time}
use midnight_council.Room.Settings
use midnight_council.Room.Settings.{GamePreset, GameSettings}
use midnight_council.Room.Event.{Event}
use midnight_council.Room.State.{max_chat_bytes}

pub record ClientEvent : Type 0 where
  pub type : EventType
  pub sequence : Option ℕ
  pub ready : Option Bool
  pub message : GoString
  pub target_id : GoString
  pub locked : Option Bool
  pub max_players : Option ℤ
  pub preset : GamePreset
  pub night_duration : GoString
  pub day_discussion_duration : GoString
  pub day_voting_duration : GoString
  pub last_words_duration : GoString
  pub minimum_players : Option ℤ
  pub reveal_roles_on_death : Option Bool
  pub killers : Option ℤ
  pub detectives : Option ℤ
  pub doctors : Option ℤ
  pub escorts : Option ℤ
  pub shooters : Option ℤ
  pub afk : Option Bool

-- `clientField`
pub data ClientField : Type 0 where
  field_ready field_message field_target_id field_locked field_max_players field_preset :
      ClientField
  field_night_duration field_day_discussion_duration field_day_voting_duration : ClientField
  field_last_words_duration field_minimum_players field_reveal_roles_on_death : ClientField
  field_killers field_detectives field_doctors field_escorts field_shooters : ClientField
  field_sequence field_afk : ClientField

-- The errors of the package, those of the JSON decoder and the validator in one constructor each.
pub data ProtocolError : Type 0 where
  invalid_json invalid_schema : ProtocolError
  missing_field : EventType → ProtocolError
  message_too_long invalid_game_preset : ProtocolError
  field_not_accepted : EventType → ClientField → ProtocolError
  unsupported_type : EventType → ProtocolError

pub data Checked {ℓ} (V : Type ℓ) : Type ℓ where
  accepted : V → Checked V
  refused : ProtocolError → Checked V

abbrev pub or_zero : Option ℤ → ℤ
or_zero none = pos 0
or_zero (some n) = n

abbrev pub or_false : Option Bool → Bool
or_false none = false
or_false (some b) = b

-- `SequenceValue`
unfoldable pub sequence_value : ClientEvent → ℕ
sequence_value e = elim e.sequence [ none ↦ 0 | some n ↦ n ]

-- `RoomEvent`; the zero time is replaced when the room applies the event.
unfoldable pub room_event : ClientEvent → GoString → GoString → Event
unfolding sequence_value
room_event e player_id player_name = record {
  type = e.type;
  player_id = player_id;
  player_name = player_name;
  reconnect_token = [];
  spectator = false;
  ready = or_false e.ready;
  locked = or_false e.locked;
  max_players = or_zero e.max_players;
  game_settings = record {
    preset = GamePreset.custom;
    night_duration = trim_space e.night_duration;
    day_discussion_duration = trim_space e.day_discussion_duration;
    day_voting_duration = trim_space e.day_voting_duration;
    last_words_duration = trim_space e.last_words_duration;
    minimum_players = or_zero e.minimum_players;
    reveal_roles_on_death = or_false e.reveal_roles_on_death;
    roles = record {
      killers = or_zero e.killers;
      detectives = or_zero e.detectives;
      doctors = or_zero e.doctors;
      escorts = or_zero e.escorts;
      shooters = or_zero e.shooters;
    };
  };
  game_preset = e.preset;
  afk = or_false e.afk;
  client_sequence = sequence_value e;
  message = trim_space e.message;
  target_id = trim_space e.target_id;
  at = zero_time;
}

abbrev pub written : GoString → Bool
written s = not (trim_space s == [])

abbrev pub chosen : GamePreset → Bool
chosen GamePreset.no_preset = false
chosen _ = true

-- The column `present` of the table `provided`.
unfoldable pub present : ClientEvent → ClientField → Bool
present e field_ready = is_some e.ready
present e field_message = written e.message
present e field_target_id = written e.target_id
present e field_locked = is_some e.locked
present e field_max_players = is_some e.max_players
present e field_preset = chosen e.preset
present e field_night_duration = written e.night_duration
present e field_day_discussion_duration = written e.day_discussion_duration
present e field_day_voting_duration = written e.day_voting_duration
present e field_last_words_duration = written e.last_words_duration
present e field_minimum_players = is_some e.minimum_players
present e field_reveal_roles_on_death = is_some e.reveal_roles_on_death
present e field_killers = is_some e.killers
present e field_detectives = is_some e.detectives
present e field_doctors = is_some e.doctors
present e field_escorts = is_some e.escorts
present e field_shooters = is_some e.shooters
present e field_sequence = is_some e.sequence
present e field_afk = is_some e.afk

-- The rows of the table, in its order.
abbrev pub provided : List ClientField
provided =
    field_ready ∷ field_message ∷ field_target_id ∷ field_locked ∷ field_max_players ∷ field_preset
    ∷ field_night_duration ∷ field_day_discussion_duration ∷ field_day_voting_duration
    ∷ field_last_words_duration ∷ field_minimum_players ∷ field_reveal_roles_on_death
    ∷ field_killers ∷ field_detectives ∷ field_doctors ∷ field_escorts ∷ field_shooters
    ∷ field_sequence ∷ field_afk ∷ []
