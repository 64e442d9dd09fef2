-- ===== src/Ws/ReadPump/Channel.antt =====
-- How many envelopes wait in the channel through which `readPump` of internal/ws/handler.go answers.
use midnight_council.Base.{
  ℕ, ◌≡◌, ◌≤◌, refl, ◌⊎◌, Bool, true, false, [], ◌∷◌, arith, length, drop, length-append,
  length-drop, nat_eq, Bool-cases, inl, inr,
}
use midnight_council.Text.{GoString, text}
use midnight_council.Room.Types.{Time}
use midnight_council.Room.Event.{Event, Envelope}
use midnight_council.Room.Actor.{Actor}
use midnight_council.Room.Actor.Rounds.{Rounds}
use midnight_council.Room.Actor.Client.{Call, answered, failed}
use midnight_council.Protocol.{
  ClientEvent, ProtocolError, Checked, sequence_value, accepted, refused,
}
use midnight_council.Protocol.Decode.{decode_client_event}
use midnight_council.Ws.Float.{Float64}
use midnight_council.Ws.RateLimit.{EventRateLimits, new_connection_rate_limiter, allow_event}
use midnight_council.Ws.ReadPump.{
  Channel, Frame, Next, Session, Turn, Pump, channel_capacity, try_send, send_ack, send_error,
  continued, duplicate_error, replaced_error, turn_away, acknowledge, Screened, screened, forwarded,
  held, handled, read_frame,
}

abbrev pub Fits : Channel → Type 0
Fits outgoing = length outgoing ≤ channel_capacity

try_send-Fits :
    (envelope : Envelope) (outgoing : Channel) → Fits outgoing → Fits (try_send envelope outgoing).1
unfolding try_send
try_send-Fits envelope outgoing fits = ground (arith, length-append outgoing (envelope ∷ []))

send_ack-Fits :
    (sequence : ℕ) (status : GoString) (outgoing : Channel)
    → Fits outgoing
    → Fits (send_ack sequence status outgoing).1
unfolding send_ack
send_ack-Fits sequence status outgoing fits = elim (Bool-cases (nat_eq sequence 0)) [
  | inl silent ↦ rw (send_ack, silent) fits
  | inr loud ↦ rw (send_ack, loud) (try_send-Fits _ outgoing fits)
]

send_error-Fits :
    (reason : GoString) (outgoing : Channel) → Fits outgoing → Fits (send_error reason outgoing).1
unfolding send_error
send_error-Fits reason outgoing fits = try_send-Fits _ outgoing fits

continued-Fits : (sent : Bool × Channel) → Fits sent.1 → Fits (continued sent).0
continued-Fits (true, outgoing) fits = fits
continued-Fits (false, outgoing) fits = fits

turn_away-Fits :
    (reason : GoString) (sequence : ℕ) (outgoing : Channel)
    → Fits outgoing
    → Fits (turn_away reason sequence outgoing).0
unfolding turn_away
turn_away-Fits reason sequence outgoing fits = do
  let told = send_error-Fits reason outgoing fits
  elim (Bool-cases (send_error reason outgoing).0) [
    | inl sent ↦
        rw (turn_away, sent) (continued-Fits _ (send_ack-Fits sequence (text "rejected") _ told))
    | inr stuck ↦ rw (turn_away, stuck) told
  ]

acknowledge-Fits :
    (s : Session) (sequence : ℕ) (e : Event) (answer : Call Envelope) (outgoing : Channel)
    → Fits outgoing
    → Fits (acknowledge s sequence e answer outgoing).0
unfolding acknowledge
acknowledge-Fits s sequence e (answered envelope) outgoing fits =
    continued-Fits _ (send_ack-Fits sequence (text "applied") outgoing fits)
acknowledge-Fits s sequence e (failed x) outgoing fits = elim (Bool-cases (duplicate_error x)) [
  | inl again ↦
      rw (acknowledge, again)
        (continued-Fits _ (send_ack-Fits sequence (text "duplicate") outgoing fits))
  | inr new ↦ elim (Bool-cases (replaced_error x)) [
    | inl gone ↦ rw (acknowledge, new, gone) fits
    | inr here ↦ rw (acknowledge, new, here) (turn_away-Fits _ sequence outgoing fits)
  ]
]

pub Screened-cases :
    (o : Screened) → ((e : Event) × (o ≡ forwarded e)) ⊎ ((reason : GoString) × (o ≡ held reason))
Screened-cases (forwarded e) = inl (e, refl)
Screened-cases (held reason) = inr (reason, refl)

pub Checked-cases :
    (o : Checked ClientEvent)
    → ((e : ClientEvent) × (o ≡ accepted e)) ⊎ ((x : ProtocolError) × (o ≡ refused x))
Checked-cases (accepted e) = inl (e, refl)
Checked-cases (refused x) = inr (x, refl)

module _ {ℓ} {W : Type ℓ} ⦃f : Float64 W⦄ where
  handled-Fits :
      (s : Session) (turn : Turn) (incoming : ClientEvent) (pump : Pump W)
      → Fits pump.outgoing
      → Fits (handled s turn incoming pump).0.outgoing
  unfolding handled
  handled-Fits s turn incoming pump fits =
      elim (Screened-cases
        (screened s incoming (allow_event pump.limiter incoming.type turn.now).0)) [
          | inl (e, passed) ↦
              rw (handled, passed)
                (acknowledge-Fits s (sequence_value incoming) e _ pump.outgoing fits)
          | inr (reason, stopped) ↦
              rw (handled, stopped)
                (turn_away-Fits reason (sequence_value incoming) pump.outgoing fits)
        ]

  pub read_frame-Fits :
      (s : Session) (turn : Turn) (frame : Frame) (pump : Pump W)
      → Fits pump.outgoing
      → Fits (read_frame s turn frame pump).0.outgoing
  unfolding read_frame
  read_frame-Fits s turn (Frame.close_frame code reason) pump fits = fits
  read_frame-Fits s turn Frame.read_error pump fits = fits
  read_frame-Fits s turn Frame.binary pump fits =
      continued-Fits _ (send_error-Fits _ pump.outgoing fits)
  read_frame-Fits s turn (Frame.message payload) pump fits =
      elim (Checked-cases (decode_client_event s.decoder payload)) [
        | inl (incoming, read) ↦ rw (read_frame, read) (handled-Fits s turn incoming pump fits)
        | inr (x, bad) ↦
            rw (read_frame, bad) (continued-Fits _ (send_error-Fits _ pump.outgoing fits))
      ]

  -- The life of a pump: it reads frames; the envelopes are written in the meantime, oldest first, and
  -- others use the room.
  pub data Reads (s : Session) : Pump W → Type ℓ where
    starts :
        (limits : EventRateLimits W) (now : Time) (actor : Actor)
        → Reads s (record {
          limiter = new_connection_rate_limiter limits now;
          outgoing = [];
          actor = actor;
        })
    reads :
        {pump : Pump W} (turn : Turn)
        → Reads s pump
        → (read_frame s turn turn.frame pump).1 ≡ Next.goes_on
        → Reads s (read_frame s turn turn.frame pump).0
    writes :
        {pump : Pump W} (n : ℕ)
        → Reads s pump
        → Reads s (record pump { outgoing = drop n pump.outgoing })
    others :
        {pump : Pump W} (actor : Actor)
        → Reads s pump
        → Rounds pump.actor actor
        → Reads s (record pump { actor = actor })

  pub Reads-Fits : (s : Session) {pump : Pump W} → Reads s pump → Fits pump.outgoing
  Reads-Fits s (starts limits now actor) = omega arith
  Reads-Fits s (reads {pump} turn before same) =
      read_frame-Fits s turn turn.frame pump (Reads-Fits s before)
  Reads-Fits s (writes {pump} n before) =
      omega (arith, Reads-Fits s before, length-drop n pump.outgoing)
  Reads-Fits s (others actor before rounds) = Reads-Fits s before
