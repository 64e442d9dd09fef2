-- ===== src/Room.antt =====
-- internal/room: the game state of one room, its rules and its settings.
pub mod Types
pub mod Errors
pub mod Timing
pub mod Rules
pub mod Host
pub mod Settings
pub mod Identity
pub mod Event
pub mod State
pub mod Frame
pub mod Moves
pub mod Invariant
pub mod Trace
pub mod Ids
pub mod Phases
pub mod Sequences
pub mod Authority
pub mod Deaths
pub mod Ballots
pub mod Actor
pub mod Hub
pub mod Texts
pub mod Tally
pub mod Plurality
pub mod Privacy
pub mod Shuffle
pub mod Deal
pub mod Start
pub mod Presets
pub mod Examples
mod GameExamples
mod ActorExamples
mod HubExamples
mod PresetExamples
