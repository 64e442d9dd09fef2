-- ===== src/Ws/WritePump.antt =====
-- internal/ws/handler.go: `writePump`, which writes to a connection what the room and `readPump` send.
use midnight_council.Base.{
  ℕ, ◌≡◌, ◌≤◌, inl, inr, Bool, true, false, ◌&&◌, ◌||◌, List, [], ◌∷◌, Option, none, some, arith,
  ltb, length, if◌then◌else◌, ◌==◌, Bool-cases,
}
use midnight_council.Text.{GoString, text, str_Eq, str_eq_iff}
use midnight_council.Room.Event.{Envelope, EnvelopeType, error}
use midnight_council.Room.Actor.Rounds.{kicked_text, replaced_text}

-- `websocket.ClosePolicyViolation`
abbrev pub policy_violation : ℕ
policy_violation = 1008

-- A call that writes to the connection, with whether it succeeds. An envelope has been written where
-- `writeEnvelope` returns no error.
pub data Written : Type 0 where
  envelope : Envelope → Bool → Written
  ping : Bool → Written
  close : ℕ → GoString → Bool → Written

abbrev is_error : EnvelopeType → Bool
is_error error = true
is_error _ = false

unfoldable pub terminal_envelope : Envelope → Bool
terminal_envelope e =
    is_error e.type && (e.error_text == kicked_text || e.error_text == replaced_text)

-- `writeCloseControl`, which discards the error of the write.
unfoldable pub close_control : GoString → Bool → Written
close_control message sent =
    close policy_violation
      (if ltb 120 (length message) then text "connection rejected" else message) sent

-- `writeTerminalError`, which goes on where the envelope is not written.
unfoldable pub terminal_error : GoString → Bool → Bool → List Written
terminal_error message sent closed =
    envelope
      (record {
        type = error;
        snapshot = none;
        message = none;
        event_ack = none;
        error_text = message;
        private = none;
      })
      sent
    ∷ close_control message closed
    ∷ []

-- What the `select` takes: an envelope of the room or its closed channel, an envelope of `readPump`,
-- the ticker, or the end of `readPump`; with whether the write that follows succeeds, and the close
-- frame after it, where there is one.
pub data Ready : Type 0 where
  event : Option Envelope → Bool → Bool → Ready
  reply : Envelope → Bool → Bool → Ready
  tick : Bool → Ready
  finished : Ready

-- After an envelope has been taken, where `later` is what follows without a `return`.
abbrev deliver : Envelope → Bool → Bool → List Written → List Written
deliver e false closed later = envelope e false ∷ []
deliver e true closed later =
    envelope e true
    ∷ (if terminal_envelope e then close_control e.error_text closed ∷ [] else later)

-- All that the loop writes.
unfoldable pub write_pump : List Ready → List Written
write_pump [] = []
write_pump (Ready.event none sent closed ∷ rest) = []
write_pump (Ready.event (some e) sent closed ∷ rest) = deliver e sent closed (write_pump rest)
write_pump (Ready.reply e sent closed ∷ rest) = deliver e sent closed (write_pump rest)
write_pump (Ready.tick false ∷ rest) = ping false ∷ []
write_pump (Ready.tick true ∷ rest) = ping true ∷ write_pump rest
write_pump (Ready.finished ∷ rest) = []

-- What may be written: a write that fails is the last one; an envelope that ends the connection, once
-- written, is followed by the write of one close frame, with its text as the reason, and by nothing
-- else; and no other close frame is written.
pub data IsWritten : List Written → Type 0 where
  stops : IsWritten []
  ping_fails : IsWritten (ping false ∷ [])
  pings : {rest : List Written} → IsWritten rest → IsWritten (ping true ∷ rest)
  send_fails : (e : Envelope) → IsWritten (envelope e false ∷ [])
  sends :
      {rest : List Written} (e : Envelope)
      → terminal_envelope e ≡ false
      → IsWritten rest
      → IsWritten (envelope e true ∷ rest)
  ends :
      (e : Envelope) (closed : Bool)
      → terminal_envelope e ≡ true
      → length e.error_text ≤ 120
      → IsWritten (envelope e true ∷ close policy_violation e.error_text closed ∷ [])

-- Both texts that end a connection fit into a control frame.
terminal_fits : (e : Envelope) → terminal_envelope e ≡ true → length e.error_text ≤ 120
unfolding terminal_envelope
terminal_fits e terminal = elim (Bool-cases (e.error_text == kicked_text)) [
  | inl kicked ↦ rw ((str_eq_iff e.error_text kicked_text).0 kicked) (omega arith)
  | inr other ↦
      rw ((str_eq_iff e.error_text replaced_text).0 (ground (arith, terminal, other))) (omega arith)
]

deliver-IsWritten :
    (e : Envelope) (sent closed : Bool) (later : List Written)
    → IsWritten later
    → IsWritten (deliver e sent closed later)
unfolding close_control
deliver-IsWritten e false closed later h = IsWritten.send_fails e
deliver-IsWritten e true closed later h = elim (Bool-cases (terminal_envelope e)) [
  | inl terminal ↦ do
    let fits = terminal_fits e terminal
    let short : ltb 120 (length e.error_text) ≡ false = ground (arith, fits)
    rw (terminal, short) (IsWritten.ends e closed terminal fits)
  | inr plain ↦ rw plain (IsWritten.sends e plain h)
]

-- For any sequence of what the loop takes, and whatever writes fail: the loop ends with the first write
-- that fails; an envelope that ends the connection, once written, is followed by the write of a close
-- frame with its text, of at most 120 bytes, as the reason, whether or not that succeeds, and by
-- nothing else; and a close frame is written only there.
pub write_pump-IsWritten : (ready : List Ready) → IsWritten (write_pump ready)
unfolding write_pump
write_pump-IsWritten [] = IsWritten.stops
write_pump-IsWritten (Ready.event none sent closed ∷ rest) = IsWritten.stops
write_pump-IsWritten (Ready.event (some e) sent closed ∷ rest) =
    deliver-IsWritten e sent closed _ (write_pump-IsWritten rest)
write_pump-IsWritten (Ready.reply e sent closed ∷ rest) =
    deliver-IsWritten e sent closed _ (write_pump-IsWritten rest)
write_pump-IsWritten (Ready.tick false ∷ rest) = IsWritten.ping_fails
write_pump-IsWritten (Ready.tick true ∷ rest) = IsWritten.pings (write_pump-IsWritten rest)
write_pump-IsWritten (Ready.finished ∷ rest) = IsWritten.stops
