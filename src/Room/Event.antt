-- ===== src/Room/Event.antt =====
-- The events that a room applies, and the messages that it sends (internal/room/types.go).
use midnight_council.Base.{ℕ, ℤ, Bool, List, Option}
use midnight_council.Text.{GoString}
use midnight_council.Room.Types.{
  Time, Phase, EventType, Role, InvestigationResult, GameResult, LogEntry, ChatMessage,
}
use midnight_council.Room.Settings.{GamePreset, GameSettings}

pub record Event : Type 0 where
  pub type : EventType
  pub player_id : GoString
  pub player_name : GoString
  pub reconnect_token : GoString
  pub spectator : Bool
  pub ready : Bool
  pub locked : Bool
  pub max_players : ℤ
  pub game_settings : GameSettings
  pub game_preset : GamePreset
  pub afk : Bool
  pub client_sequence : ℕ
  pub message : GoString
  pub target_id : GoString
  pub at : Time

pub record PlayerView : Type 0 where
  pub id : GoString
  pub name : GoString
  pub ready : Bool
  pub connected : Bool
  pub owner : Bool
  pub alive : Bool
  pub afk : Bool
  pub role : Role

pub record SpectatorView : Type 0 where
  pub id : GoString
  pub name : GoString
  pub connected : Bool
  pub afk : Bool

pub record Snapshot : Type 0 where
  pub room_id : GoString
  pub owner_id : GoString
  pub phase : Phase
  pub phase_started_at : Time
  pub phase_deadline : Option Time
  pub round : ℕ
  pub players : List PlayerView
  pub spectators : List SpectatorView
  pub locked : Bool
  pub max_players : ℤ
  pub max_spectators : ℤ
  pub game_settings : GameSettings
  pub game_presets : List GameSettings
  pub last_words_id : GoString
  pub result : Option GameResult
  pub log : List LogEntry
  pub updated_at : Time
  pub server_time : Time

pub record PrivatePlayerView : Type 0 where
  pub player_id : GoString
  pub reconnect_token : GoString
  pub spectator : Bool
  pub role : Role
  pub alive : Bool
  pub action_required : Bool
  pub available : List EventType
  pub can_vote : Bool
  pub voted_for : GoString
  pub can_shoot : Bool
  pub investigations : List InvestigationResult

pub record EventAck : Type 0 where
  pub sequence : ℕ
  pub status : GoString

-- The four texts that an envelope has for its type.
pub data EnvelopeType : Type 0 where
  state chat ack error : EnvelopeType

pub record Envelope : Type 0 where
  pub type : EnvelopeType
  pub snapshot : Option Snapshot
  pub message : Option ChatMessage
  pub event_ack : Option EventAck
  pub error_text : GoString
  pub private : Option PrivatePlayerView
