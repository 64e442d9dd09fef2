-- ===== src/Protocol/Examples.antt =====
-- Inputs at which the theorems on internal/protocol/client_event.go apply.
use midnight_council.Base.{true, [], some, none}
use midnight_council.Text.{text}
use midnight_council.Room.Types.{EventType}
use midnight_council.Room.Settings.{GamePreset}
use midnight_council.Protocol.{ClientEvent}
use midnight_council.Protocol.Decode.{Decoder}

abbrev pub greeting : ClientEvent
greeting = record {
  type = EventType.chat;
  sequence = some 4;
  ready = none;
  message = text " hello ";
  target_id = [];
  locked = none;
  max_players = none;
  preset = GamePreset.no_preset;
  night_duration = [];
  day_discussion_duration = [];
  day_voting_duration = [];
  last_words_duration = [];
  minimum_players = none;
  reveal_roles_on_death = none;
  killers = none;
  detectives = none;
  doctors = none;
  escorts = none;
  shooters = none;
  afk = none;
}

-- A decoder that reads the same event from any input.
abbrev pub decoder : Decoder
decoder = record { decode = λ input. some (greeting, []); at_end = λ rest. true; valid = λ e. true }
