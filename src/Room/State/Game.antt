-- ===== src/Room/State/Game.antt =====
-- The course of a game: `applyStartGame`, `applyChat`, `applyNightAction`, `applyNightPass`,
-- `applyStartVote`, `applyVote`, `applyShoot`, `applyPhaseTimeout` and the shuffle of the roles, of
-- internal/room/state.go.
mod Start
mod Talk
mod Turns
mod Shots
unfoldable pub use Start.*
unfoldable pub use Talk.*
unfoldable pub use Turns.*
unfoldable pub use Shots.*
