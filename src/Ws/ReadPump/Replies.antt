-- ===== src/Ws/ReadPump/Replies.antt =====
-- How `readPump` of internal/ws/handler.go answers an event that asks for an acknowledgement.
use mathlib.Core.List.{append_assoc, append-nil}
use midnight_council.Base.{
  ℕ, ◌+◌, ◌≡◌, ◌≢◌, ◌≤◌, ◌<◌, refl, sym, Bool-cases, ◌∙◌, ap, inl, inr, true, false, [], ◌∷◌, ◌++◌,
  arith, length, length-append, ltb, nat_eq,
}
use midnight_council.Text.{GoString, text}
use midnight_council.Room.Errors.{Error}
use midnight_council.Room.Event.{Event, Envelope}
use midnight_council.Room.Actor.Client.{
  Call, CallError, answered, failed, dispatch_call, call_error_text,
}
use midnight_council.Protocol.{ClientEvent, sequence_value}
use midnight_council.Ws.Float.{Float64}
use midnight_council.Ws.RateLimit.{allow_event}
use midnight_council.Ws.ReadPump.{
  Channel, Next, Session, Turn, Pump, channel_capacity, ack_envelope, error_envelope, try_send,
  send_ack, send_error, continued, duplicate_error, replaced_error, turn_away, acknowledge,
  Screened, screened, forwarded, held, handled,
}
use midnight_council.Ws.ReadPump.Channel.{Screened-cases}

-- The envelopes that answer an event: one acknowledgement, after the reason where the event is turned
-- away, and none where another connection has taken the place of this one.
pub data IsReply (s : Session) (sequence : ℕ) (outcome : Screened) (room : Event → Call Envelope)
    : Channel → Type 0 where
  applied :
      (e : Event) (envelope : Envelope)
      → outcome ≡ forwarded e
      → room e ≡ answered envelope
      → IsReply s sequence outcome room (ack_envelope sequence (text "applied") ∷ [])
  duplicate :
      (e : Event)
      → outcome ≡ forwarded e
      → room e ≡ failed (CallError.room_error Error.duplicate_client_event)
      → IsReply s sequence outcome room (ack_envelope sequence (text "duplicate") ∷ [])
  replaced :
      (e : Event)
      → outcome ≡ forwarded e
      → room e ≡ failed (CallError.room_error Error.connection_replaced)
      → IsReply s sequence outcome room []
  rejected :
      (e : Event) (x : CallError)
      → outcome ≡ forwarded e
      → room e ≡ failed x
      → x ≢ CallError.room_error Error.duplicate_client_event
      → x ≢ CallError.room_error Error.connection_replaced
      → IsReply s sequence outcome room (
          error_envelope (call_error_text s.texts e x)
          ∷ ack_envelope sequence (text "rejected")
          ∷ [])
  held_back :
      (reason : GoString)
      → outcome ≡ held reason
      → IsReply s sequence outcome room
          (error_envelope reason ∷ ack_envelope sequence (text "rejected") ∷ [])

try_send_space :
    (envelope : Envelope) (outgoing : Channel)
    → length outgoing < channel_capacity
    → try_send envelope outgoing ≡ (true, outgoing ++ envelope ∷ [])
unfolding try_send
try_send_space envelope outgoing space = do
  let fits : ltb (length outgoing) channel_capacity ≡ true = ground arith
  rw (try_send, fits) refl

send_ack_space :
    (sequence : ℕ) (status : GoString) (outgoing : Channel)
    → sequence ≢ 0
    → length outgoing < channel_capacity
    → continued (send_ack sequence status outgoing)
      ≡ (outgoing ++ ack_envelope sequence status ∷ [], Next.goes_on)
unfolding send_ack
send_ack_space sequence status outgoing numbered space = do
  let loud : nat_eq sequence 0 ≡ false = ground arith
  rw (send_ack, loud, try_send_space (ack_envelope sequence status) outgoing space) refl

turn_away_space :
    (reason : GoString) (sequence : ℕ) (outgoing : Channel)
    → sequence ≢ 0
    → length outgoing + 2 ≤ channel_capacity
    → turn_away reason sequence outgoing ≡ (
      outgoing ++ error_envelope reason ∷ ack_envelope sequence (text "rejected") ∷ [],
      Next.goes_on,
    )
unfolding turn_away send_error
turn_away_space reason sequence outgoing numbered space = do
  let reply = error_envelope reason
  let told = try_send_space reply outgoing (omega (arith, space))
  let room : length (outgoing ++ reply ∷ []) < channel_capacity =
      omega (arith, space, length-append outgoing (reply ∷ []))
  rw
      (
        turn_away,
        told,
        send_ack_space sequence (text "rejected") (outgoing ++ reply ∷ []) numbered room,
        append_assoc outgoing (reply ∷ []) (ack_envelope sequence (text "rejected") ∷ []),
      )
      refl

abbrev pub IsAnswered :
    Session → ℕ → Screened → (Event → Call Envelope) → Channel → Channel × Next → Type 0
IsAnswered s sequence outcome room before (after, next) =
    (next ≡ Next.goes_on)
    × ((reply : Channel) × (after ≡ before ++ reply) × IsReply s sequence outcome room reply)

-- A pair that is known.
reply_known :
    (s : Session) (sequence : ℕ) (outcome : Screened) (room : Event → Call Envelope)
    (before reply : Channel) (result : Channel × Next)
    → result ≡ (before ++ reply, Next.goes_on)
    → IsReply s sequence outcome room reply
    → IsAnswered s sequence outcome room before result
reply_known s sequence outcome room before reply result same is = rw same (refl, (reply, refl, is))

duplicate_error_lem :
    (x : CallError)
    → duplicate_error x ≡ true
    → x ≡ CallError.room_error Error.duplicate_client_event
duplicate_error_lem x h = ground arith

replaced_error_lem :
    (x : CallError) → replaced_error x ≡ true → x ≡ CallError.room_error Error.connection_replaced
replaced_error_lem x h = ground arith

module _ (s : Session) (sequence : ℕ) (outcome : Screened) (room : Event → Call Envelope)
    (before : Channel) (numbered : sequence ≢ 0)
    (space : length before + 2 ≤ channel_capacity) where
  failed-IsAnswered :
      (e : Event) (x : CallError)
      → outcome ≡ forwarded e
      → room e ≡ failed x
      → IsAnswered s sequence outcome room before (acknowledge s sequence e (failed x) before)
  unfolding acknowledge
  failed-IsAnswered e x passed answer = elim (Bool-cases (duplicate_error x)) [
    | inl again ↦
        rw (acknowledge, again)
          (reply_known s sequence outcome room before _ _
            (send_ack_space sequence (text "duplicate") before numbered (omega (arith, space)))
            (IsReply.duplicate e passed (answer ∙ ap failed (duplicate_error_lem x again))))
    | inr new ↦ elim (Bool-cases (replaced_error x)) [
      | inl gone ↦
          rw (acknowledge, new, gone)
            (
              refl,
              (
                [],
                sym (append-nil before),
                IsReply.replaced e passed (answer ∙ ap failed (replaced_error_lem x gone)),
              ),
            )
      | inr here ↦
          rw (acknowledge, new, here)
            (reply_known s sequence outcome room before _ _
              (turn_away_space (call_error_text s.texts e x) sequence before numbered space)
              (IsReply.rejected e x passed answer (λ same. ground (arith, same, new))
                (λ same. ground (arith, same, here))))
    ]
  ]

  acknowledge-IsAnswered :
      (e : Event) (answer : Call Envelope)
      → outcome ≡ forwarded e
      → room e ≡ answer
      → IsAnswered s sequence outcome room before (acknowledge s sequence e answer before)
  unfolding acknowledge
  acknowledge-IsAnswered e (answered envelope) passed answer =
      reply_known s sequence outcome room before _ _
        (send_ack_space sequence (text "applied") before numbered (omega (arith, space)))
        (IsReply.applied e envelope passed answer)
  acknowledge-IsAnswered e (failed x) passed answer = failed-IsAnswered e x passed answer

module _ {ℓ} {W : Type ℓ} ⦃f : Float64 W⦄ where
  -- An event with a sequence other than 0, where the channel has space for two envelopes, keeps the
  -- connection open and is answered by one acknowledgement of its sequence: "applied" where the room
  -- has taken it, "duplicate" where the room knew it, and "rejected" after the reason otherwise, be it
  -- from the limits, from moderation or from the room; only where another connection has taken the
  -- place of this one is there no answer.
  pub handled-IsAnswered :
      (s : Session) (turn : Turn) (incoming : ClientEvent) (pump : Pump W)
      → sequence_value incoming ≢ 0
      → length pump.outgoing + 2 ≤ channel_capacity
      → IsAnswered s
          (sequence_value incoming)
          (screened s incoming (allow_event pump.limiter incoming.type turn.now).0)
          (λ e. (dispatch_call turn.host turn.wait turn.reason s.subscription_id e pump.actor).1)
          pump.outgoing
          ((handled s turn incoming pump).0.outgoing, (handled s turn incoming pump).1)
  unfolding handled
  handled-IsAnswered s turn incoming pump numbered space = do
    let outcome = screened s incoming (allow_event pump.limiter incoming.type turn.now).0
    let room = λ (e : Event).
        (dispatch_call turn.host turn.wait turn.reason s.subscription_id e pump.actor).1
    elim (Screened-cases outcome) [
      | inl (e, passed) ↦
          rw (handled, passed)
            (acknowledge-IsAnswered s (sequence_value incoming) (forwarded e) room pump.outgoing
              numbered space e (room e) refl refl)
      | inr (reason, stopped) ↦
          rw (handled, stopped)
            (reply_known s (sequence_value incoming) (held reason) room pump.outgoing _ _
              (turn_away_space reason (sequence_value incoming) pump.outgoing numbered space)
              (IsReply.held_back reason refl))
    ]
