-- ===== src/Room/State/Seats.antt =====
-- Who sits in the room: `applyJoin`, `applyLeave`, `applyDisconnect`, `applyReady`, `applyPresence`
-- and the choice of an owner, of internal/room/state.go.
mod Owner
mod Joining
mod Leaving
unfoldable pub use Owner.*
unfoldable pub use Joining.*
unfoldable pub use Leaving.*
