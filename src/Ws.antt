-- ===== src/Ws.antt =====
-- internal/ws: the WebSocket front of the server, its limits and its policies.
pub mod Float
pub mod RateLimit
pub mod Admission
pub mod Proxy
pub mod Moderation
pub mod ReadPump
pub mod OriginCheck
pub mod Path
pub mod WritePump
pub mod Handler
mod LimitExamples
mod HandlerExamples
