-- ===== src/Ws/ReadPump/Forwarding.antt =====
-- What `readPump` of internal/ws/handler.go passes on to the room: protocol, limits and moderation
-- together.
use midnight_council.Base.{
  ◌≡◌, ◌≢◌, ◌<◌, refl, sym, subst, ◌∙◌, inl, inr, Bool, true, [], ◌∷◌, arith, length, Bool-cases,
  ◌==◌,
}
use midnight_council.Text.{GoString, str_eq, str_Eq, str_eq_iff}
use midnight_council.Room.Types.{EventType}
use midnight_council.Room.Event.{Event}
use midnight_council.Protocol.{ClientEvent, accepted, room_event, sequence_value}
use midnight_council.Protocol.Decode.{decode_client_event}
use midnight_council.Protocol.Accepted.{
  client_types, IsOneOf, decode_client_event_lem, decode_client_event_chat,
}
use midnight_council.Moderation.{ChatRequest}
use midnight_council.Ws.RateLimit.{is_chat}
use midnight_council.Ws.Moderation.{
  moderate_chat, Moderated, IsModerated, IsChat, moderate_chat-IsModerated,
}
use midnight_council.Ws.ReadPump.{Session, screened, moderated, forwarded}

-- An event as a room may get it from a connection.
pub record IsProper (s : Session) (incoming : ClientEvent) (e : Event) : Type 0 where
  pub of_player : e.player_id ≡ s.player_id
  pub of_name : e.player_name ≡ s.player_name
  pub of_type : e.type ≡ incoming.type
  pub of_sequence : e.client_sequence ≡ sequence_value incoming
  pub for_clients : IsOneOf client_types e.type
  pub chat_bounds : e.type ≡ EventType.chat → IsChat e.message

is_chat_lem : (type : EventType) → is_chat type ≡ true → type ≡ EventType.chat
is_chat_lem type h = ground arith

IsModerated_message :
    (m : Moderated) → IsModerated m → (m.public_error == []) ≡ true → IsChat m.message
unfolding str_eq
IsModerated_message m (IsModerated.sent message bounds) quiet = bounds
IsModerated_message m (IsModerated.held public_error logged loud) quiet =
    absurd (loud ((str_eq_iff public_error []).0 quiet))

nonempty_length : (s : GoString) → s ≢ [] → 0 < length s
nonempty_length [] h = absurd (h refl)
nonempty_length (c ∷ s) h = omega arith

forwarded_eq : (e d : Event) → forwarded e ≡ forwarded d → e ≡ d
forwarded_eq e d h = cc

moderated-IsChat :
    (s : Session) (e d : Event)
    → IsChat e.message
    → moderated s e ≡ forwarded d
    → (message : GoString) × (record e { message = message } ≡ d) × IsChat message
unfolding moderated
moderated-IsChat s e d h passed = do
  let request : ChatRequest = record {
    room_id = s.room_id;
    player_id = s.player_id;
    player_name = s.player_name;
    message = e.message;
  }
  let outcome = moderate_chat s.chat_policy request
  elim (Bool-cases (outcome.public_error == [])) [
    | inr loud ↦ absurd (ground (arith, loud, passed))
    | inl quiet ↦ do
      let same : moderated s e ≡ forwarded (record e { message = outcome.message }) =
          rw (moderated, quiet) refl
      (
        outcome.message,
        forwarded_eq _ d (sym same ∙ passed),
        IsModerated_message outcome (moderate_chat-IsModerated s.chat_policy request h) quiet,
      )
  ]

decoded-IsProper :
    (s : Session) (payload : GoString) (incoming : ClientEvent) (message : GoString)
    → decode_client_event s.decoder payload ≡ accepted incoming
    → (incoming.type ≡ EventType.chat → IsChat message)
    → IsProper s incoming
        (record (room_event incoming s.player_id s.player_name) { message = message })
unfolding room_event
decoded-IsProper s payload incoming message read bounds = record {
  of_player = refl;
  of_name = refl;
  of_type = refl;
  of_sequence = refl;
  for_clients = (decode_client_event_lem s.decoder payload incoming read).0;
  chat_bounds = bounds;
}

-- Whatever the decoder and the chat policy are, an event that is decoded from a frame and passed on to
-- the room has passed the rate limit, carries the id and the name of the connection and the type and
-- the sequence of the frame, is of a type for clients, and has 1 to 500 bytes if it is a chat message.
pub screened-IsProper :
    (s : Session) (payload : GoString) (incoming : ClientEvent) (allowed : Bool) (e : Event)
    → decode_client_event s.decoder payload ≡ accepted incoming
    → screened s incoming allowed ≡ forwarded e
    → (allowed ≡ true) × IsProper s incoming e
unfolding screened room_event
screened-IsProper s payload incoming allowed e read passed = do
  let plain = room_event incoming s.player_id s.player_name
  elim (Bool-cases allowed) [
    | inr stopped ↦ absurd (ground (arith, stopped, passed))
    | inl let_through ↦ elim (Bool-cases (is_chat incoming.type)) [
      | inr other ↦ do
        let same : screened s incoming allowed ≡ forwarded plain =
            rw (screened, let_through, other) refl
        let no_chat : incoming.type ≡ EventType.chat → IsChat plain.message =
            λ chat. absurd (ground (arith, chat, other))
        (
          let_through,
          subst (IsProper s incoming) (forwarded_eq plain e (sym same ∙ passed))
              (decoded-IsProper s payload incoming plain.message read no_chat),
        )
      | inl chat ↦ do
        let same : screened s incoming allowed ≡ moderated s plain =
            rw (screened, let_through, chat) refl
        let (some_text, short) =
            decode_client_event_chat s.decoder payload incoming s.player_id s.player_name read
              (is_chat_lem incoming.type chat)
        let (message, whole, bounds) =
            moderated-IsChat s plain e (nonempty_length _ some_text, short) (sym same ∙ passed)
        (
          let_through,
          subst (IsProper s incoming) whole
              (decoded-IsProper s payload incoming message read λ is. bounds),
        )
    ]
  ]
