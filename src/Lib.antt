-- ===== src/Lib.antt =====
-- Midnight Council: the game rooms of the server, as a model whose properties are proved.
--
-- A browser opens a connection to the handler (directory internal/ws), which tests the request, its
-- origin and the limits of its address, finds or makes the room in the hub, and joins it. The
-- connection's pumps then decode the client's events (internal/protocol), hold back what exceeds the
-- rate limits or moderation (internal/moderation), pass the rest to the actor of the room and
-- acknowledge each. The actor applies events one after the other to the state of the room (directory
-- internal/room) and sends everybody the resulting views. A room is made by `new_state`, and its life is
-- `Room.Trace.run`: events applied one after the other, each with what the runtime gives.
--
-- Which file models which part:
--   Base, Text          natural numbers, maps, sorting, and the bytes and runes of Go strings
--   Room.Types          internal/room/types.go: phases, roles, players, log entries
--   Room.Event          internal/room/types.go: events, snapshots, private views, envelopes
--   Room.Errors         the errors of internal/room, and calls that may fail
--   Room.Timing         internal/room/timing.go
--   Room.Rules          internal/room/rules.go (NewRuleSet, RoleDeck, OrderNightActions)
--   Room.Settings       internal/room/settings.go (presets, validation)
--   Room.Identity       internal/room/identity.go (NormalizeParticipantIdentity)
--   Room.Host           clock, entropy and duration texts, which the room takes from the runtime
--   Room.State          internal/room/state.go: the record State and its small methods
--   Room.State.Win      checkWin, finish, advanceAfterDay
--   Room.State.Night    resolveNight, recordInvestigation, allNightActionsSubmitted
--   Room.State.Vote     resolveVote, topVoteTarget, pruneVotes, allLivingPlayersVoted
--   Room.State.Views    Snapshot, PrivateView, EnvelopeForPlayer, Personalize
--   Room.State.Seats    applyJoin, applyLeave, applyDisconnect, applyReady, applyPresence
--   Room.State.Game     applyStartGame, applyChat, applyNightAction, applyNightPass, applyStartVote,
--                       applyVote, applyShoot, applyPhaseTimeout, shuffleRoles
--   Room.State.Admin    applyTransferOwner, applyKickParticipant, applySetRoomLocked,
--                       applySetPlayerLimit, applySetGameSettings, applySetGamePreset,
--                       applyReturnToWaiting
--   Room.State.Apply    Apply and the client sequences
--   Room.Actor          internal/room/actor.go: broadcast, disconnectParticipant, the timers
--   Room.Actor.Rounds   the loop of run, a round for each command and timer
--   Room.Actor.Client   Dispatch, DispatchFrom, SubscribeConnection
--   Room.Hub            internal/room/hub.go
--   Room.Texts          the texts of errors and of event types
--   Protocol            internal/protocol/client_event.go: ClientEvent, RoomEvent
--   Protocol.Shape      validateShape, rejectUnexpectedFields
--   Protocol.Decode     DecodeClientEvent
--   Protocol.Texts      the texts of its errors
--   Moderation          internal/moderation/chat.go
--   Ws.Float            the float64 operations that the limits use, and the laws assumed of them
--   Ws.RateLimit        internal/ws/rate_limit.go
--   Ws.Admission        internal/ws/admission.go: acquire, release, removeExpired
--   Ws.Proxy            internal/ws/admission.go: ParseTrustedProxies, remoteIP
--   Ws.OriginCheck      internal/ws/origin.go
--   Ws.Moderation       internal/ws/moderation.go
--   Ws.Path             internal/ws/handler.go: roomIDFromPath and the patterns
--   Ws.Handler          internal/ws/handler.go: NewHandler, and what ServeHTTP reads of a request
--   Ws.Handler.Serve    ServeHTTP
--   Ws.ReadPump         readPump, sendAck, sendError
--   Ws.WritePump        writePump, terminalEnvelope, writeCloseControl
--   Server              cmd/server/main.go: the configuration from the environment
-- The proofs stand in Room.Frame (what each part leaves alone), Room.Moves (a step relation that
-- every handler refines), Room.Invariant, and one module for each group of properties.
--
-- How state and operations correspond: a method that changes the State is a function that returns the
-- new one; a handler returns the state with an envelope or an error. A map is an association list in
-- the order of insertion; where Go ranges over a map the model follows that order, and where Go sorts
-- the keys first, so does the model. A string is a list of bytes, a time a number of nanoseconds with
-- 0 for the zero time, an `int` an integer, but the round, which counts modulo 2^64. A nil pointer
-- and a missing key are `none`; a panic is `none`, or leaves the value as it is where a comment says so.
-- Each loop recurses on the list or the number that it counts. Only `broadcast` runs on fuel, one more
-- than there are subscribers, which is enough since each round of its recursion drops one.
--
-- Where others act at the same time, a relation has a step for them: `Rounds` for an actor, its timers
-- and the connections that read its channels, `Serves` and `Continues` for the hub, `Serving` for the
-- admission limiter and `Reads` for the read pump. What a mutex guards is one step. A round of an actor
-- is one step too; the connections that read during it do so as `Host.reads` tells. Between the upgrade
-- of a connection, its join and its subscription others act on the hub (`Circumstances`).
--
-- Not modelled: the start and the end of the HTTP server (cmd/server/main.go), the deadlines and the
-- JSON of a connection, the web interface (internal/webui) and the load test (cmd/loadtest), which are
-- input and output. Parameters stand for what is not in the repository: the JSON decoder and the struct
-- validator (`Protocol.Decode.Decoder`, `Protocol.Texts.LibraryTexts`), net/netip (`Ws.Proxy.Netip`),
-- net/url and the case of letters (`Ws.OriginCheck.Web`), the environment and its parsers
-- (`Server.Environment`), and `time.ParseDuration`, `Duration.String`, `time.Now` and `crypto/rand`
-- (`Host`). Nothing is assumed of them but where a theorem names it. Of float64 (`Ws.Float.Float64`) the
-- limits assume the laws `IsFloat`, which tenths of natural numbers meet.
pub mod Base
pub mod Text
pub mod Room
pub mod Protocol
pub mod Moderation
pub mod Ws
pub mod Server
