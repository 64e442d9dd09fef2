-- ===== src/Ws/ReadPump.antt =====
-- internal/ws/handler.go: `readPump`, which reads the frames of a connection, and the two channels
-- that it answers through.
pub mod Channel
pub mod Replies
pub mod Forwarding
use midnight_council.Base.{
  ℕ, zero, suc, ◌≡◌, Bool, true, false, not, ◌&&◌, List, [], ◌∷◌, ◌++◌, Option, none, some, ltb,
  nat_eq, if◌then◌else◌, ◌==◌, length,
}
use midnight_council.Text.{GoString, text, str_Eq}
use midnight_council.Room.Types.{Time, EventType}
use midnight_council.Room.Errors.{Error}
use midnight_council.Room.Host.{Host}
use midnight_council.Room.Event.{Event, Envelope, EventAck, error, ack}
use midnight_council.Room.Texts.{Texts}
use midnight_council.Room.Actor.{Actor}
use midnight_council.Room.Actor.Client.{
  Wait, Call, CallError, answered, failed, dispatch_call, call_error_text,
}
use midnight_council.Protocol.{ClientEvent, Checked, accepted, refused, room_event, sequence_value}
use midnight_council.Protocol.Decode.{Decoder, decode_client_event}
use midnight_council.Protocol.Texts.{LibraryTexts, protocol_text}
use midnight_council.Moderation.{ChatPolicy}
use midnight_council.Ws.Float.{Float64}
use midnight_council.Ws.RateLimit.{ConnectionRateLimiter, allow_event, rate_limit_error, is_chat}
use midnight_council.Ws.Moderation.{moderate_chat}

-- `make(chan room.Envelope, 8)`
abbrev pub channel_capacity : ℕ
channel_capacity = 8

abbrev pub Channel : Type 0
Channel = List Envelope

-- What `ReadMessage` returns: the code and text of a close frame, another error, a frame that is not
-- text, or a text frame.
pub data Frame : Type 0 where
  close_frame : ℕ → GoString → Frame
  read_error : Frame
  binary : Frame
  message : GoString → Frame

-- `continue`, and `return` with what it returns.
pub data Next : Type 0 where
  goes_on : Next
  returns : Bool → Next

-- The arguments of `readPump`, with what it takes from elsewhere.
pub record Session : Type 0 where
  pub subscription_id : GoString
  pub room_id : GoString
  pub player_id : GoString
  pub player_name : GoString
  pub chat_policy : ChatPolicy
  pub decoder : Decoder
  pub texts : Texts
  pub library_texts : LibraryTexts

-- What happens while a frame is handled: the clock, the host of the room, and how the call of the
-- room ends.
pub record Turn : Type 0 where
  pub frame : Frame
  pub now : Time
  pub host : Host
  pub wait : Wait
  pub reason : GoString

pub record Pump {ℓ} (W : Type ℓ) : Type ℓ where
  pub limiter : ConnectionRateLimiter W
  pub outgoing : Channel
  pub actor : Actor

abbrev pub ack_envelope : ℕ → GoString → Envelope
ack_envelope sequence status = record {
  type = ack;
  snapshot = none;
  message = none;
  event_ack = some (record { sequence = sequence; status = status });
  error_text = [];
  private = none;
}

abbrev pub error_envelope : GoString → Envelope
error_envelope reason = record {
  type = error;
  snapshot = none;
  message = none;
  event_ack = none;
  error_text = reason;
  private = none;
}

-- A send that does not wait.
unfoldable pub try_send : Envelope → Channel → Bool × Channel
try_send envelope outgoing =
    if ltb (length outgoing) channel_capacity
    then (true, outgoing ++ envelope ∷ [])
    else (false, outgoing)

unfoldable pub send_ack : ℕ → GoString → Channel → Bool × Channel
send_ack sequence status outgoing =
    if nat_eq sequence 0 then (true, outgoing) else try_send (ack_envelope sequence status) outgoing

unfoldable pub send_error : GoString → Channel → Bool × Channel
send_error reason outgoing = try_send (error_envelope reason) outgoing

-- `if !send { return false }; continue`
abbrev pub continued : Bool × Channel → Channel × Next
continued (true, outgoing) = (outgoing, Next.goes_on)
continued (false, outgoing) = (outgoing, Next.returns false)

-- `if !sendError(...) || !sendAck(...) { return false }; continue`
unfoldable pub turn_away : GoString → ℕ → Channel → Channel × Next
turn_away reason sequence outgoing =
    let (told, after) = send_error reason outgoing in
    if told
    then continued (send_ack sequence (text "rejected") after)
    else (after, Next.returns false)

-- `errors.Is(err, room.ErrDuplicateClientEvent)` and `errors.Is(err, room.ErrConnectionReplaced)`
abbrev pub duplicate_error : CallError → Bool
duplicate_error (CallError.room_error Error.duplicate_client_event) = true
duplicate_error _ = false

abbrev pub replaced_error : CallError → Bool
replaced_error (CallError.room_error Error.connection_replaced) = true
replaced_error _ = false

-- After `DispatchFrom`
unfoldable pub acknowledge : Session → ℕ → Event → Call Envelope → Channel → Channel × Next
acknowledge s sequence e (answered envelope) outgoing =
    continued (send_ack sequence (text "applied") outgoing)
acknowledge s sequence e (failed x) outgoing =
    if duplicate_error x
    then continued (send_ack sequence (text "duplicate") outgoing)
    else if replaced_error x
    then (outgoing, Next.goes_on)
    else turn_away (call_error_text s.texts e x) sequence outgoing

-- Whether an event goes to the room, and in what form, or what the client is told.
pub data Screened : Type 0 where
  forwarded : Event → Screened
  held : GoString → Screened

unfoldable pub moderated : Session → Event → Screened
moderated s e =
    let outcome = moderate_chat s.chat_policy (record {
      room_id = s.room_id;
      player_id = s.player_id;
      player_name = s.player_name;
      message = e.message;
    }) in
    if not (outcome.public_error == [])
    then held outcome.public_error
    else forwarded (record e { message = outcome.message })

unfoldable pub screened : Session → ClientEvent → Bool → Screened
screened s incoming allowed =
    let e = room_event incoming s.player_id s.player_name in
    if not allowed
    then held (rate_limit_error incoming.type)
    else if is_chat e.type
    then moderated s e
    else forwarded e

module _ {ℓ} {W : Type ℓ} ⦃f : Float64 W⦄ where
  abbrev pub left : Pump W → Channel × Next → Pump W × Next
  left pump (outgoing, next) = (record pump { outgoing = outgoing }, next)

  unfoldable pub handled : Session → Turn → ClientEvent → Pump W → Pump W × Next
  handled s turn incoming pump =
      let (allowed, limiter) = allow_event pump.limiter incoming.type turn.now in
      let sequence = sequence_value incoming in
      let metered : Pump W = record pump { limiter = limiter } in
      elim (screened s incoming allowed) [
        | held reason ↦ left metered (turn_away reason sequence pump.outgoing)
        | forwarded e ↦
            let (actor, answer) =
              dispatch_call turn.host turn.wait turn.reason s.subscription_id e pump.actor in
            left (record metered { actor = actor }) (acknowledge s sequence e answer pump.outgoing)
      ]

  -- One round of the loop of `readPump`
  unfoldable pub read_frame : Session → Turn → Frame → Pump W → Pump W × Next
  read_frame s turn (Frame.close_frame code reason) pump =
      (pump, Next.returns (nat_eq code 1000 && reason == text "player left"))
  read_frame s turn Frame.read_error pump = (pump, Next.returns false)
  read_frame s turn Frame.binary pump =
      left pump
        (continued (send_error (text "client events must be text JSON messages") pump.outgoing))
  read_frame s turn (Frame.message payload) pump = elim (decode_client_event s.decoder payload) [
    | refused x ↦
        left pump (continued (send_error (protocol_text s.library_texts payload x) pump.outgoing))
    | accepted incoming ↦ handled s turn incoming pump
  ]
