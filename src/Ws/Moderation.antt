-- ===== src/Ws/Moderation.antt =====
-- internal/ws/moderation.go: what becomes of a chat message.
use midnight_council.Base.{
  ◌≡◌, ◌≢◌, ◌≤◌, ◌<◌, inl, inr, false, [], ◌∷◌, Option, none, some, ltb, if◌then◌else◌, ◌==◌,
  length, arith, Option-cases, Bool-cases,
}
use midnight_council.Text.{GoString, text, str_eq, str_Eq, str_eq_iff, trim_space}
use midnight_council.Moderation.{ChatAction, ChatRequest, ChatDecision, ChatPolicy}
use midnight_council.Room.State.{max_chat_bytes}

-- The error that the server logs.
pub data ModerationError : Type 0 where
  review_failed replacement_empty replacement_too_long : ModerationError
  unsupported_action : GoString → ModerationError

-- What `moderateChat` returns: the message, the public error and the error.
pub record Moderated : Type 0 where
  pub message : GoString
  pub public_error : GoString
  pub logged : Option ModerationError

abbrev pub unavailable_text : GoString
unavailable_text = text "chat moderation unavailable; retry later"

abbrev pub default_rejection : GoString
default_rejection = text "chat message rejected by moderation"

abbrev passes : GoString → Moderated
passes message = record { message = message; public_error = []; logged = none }

abbrev fails : ModerationError → Moderated
fails e = record { message = []; public_error = unavailable_text; logged = some e }

unfoldable pub rejection : GoString → Moderated
rejection raw =
    let reason = trim_space raw in
    record {
      message = [];
      public_error = if reason == [] then default_rejection else reason;
      logged = none;
    }

unfoldable pub replacement_for : GoString → Moderated
replacement_for raw =
    let replacement = trim_space raw in
    if replacement == []
    then fails ModerationError.replacement_empty
    else if ltb max_chat_bytes (length replacement)
    then fails ModerationError.replacement_too_long
    else passes replacement

unfoldable pub decided : ChatRequest → ChatAction → ChatDecision → Moderated
decided request ChatAction.chat_allow decision = passes request.message
decided request ChatAction.chat_reject decision = rejection decision.reason
decided request ChatAction.chat_replace decision = replacement_for decision.replacement
decided request (ChatAction.custom action) decision =
    fails (ModerationError.unsupported_action action)

unfoldable pub moderate_chat : ChatPolicy → ChatRequest → Moderated
moderate_chat policy request = elim (policy request) [
  | none ↦ fails ModerationError.review_failed
  | some decision ↦ decided request decision.action decision
]

-- A message that a room takes.
abbrev pub IsChat : GoString → Type 0
IsChat message = (0 < length message) × (length message ≤ max_chat_bytes)

-- A message goes on, or the sender gets an error, and an error that is logged is one of the latter.
pub data IsModerated : Moderated → Type 0 where
  sent :
      (message : GoString)
      → IsChat message
      → IsModerated (record { message = message; public_error = []; logged = none })
  held :
      (public_error : GoString) (logged : Option ModerationError)
      → public_error ≢ []
      → IsModerated (record { message = []; public_error = public_error; logged = logged })

rejection-IsModerated : (reason : GoString) → IsModerated (rejection reason)
unfolding rejection
rejection-IsModerated reason =
    IsModerated.held _ none (ground (arith, str_eq_iff (trim_space reason) []))

length_nonempty : (s : GoString) → (s == []) ≡ false → 0 < length s
unfolding str_eq
length_nonempty [] h = cc
length_nonempty (c ∷ s) h = omega arith

replacement_for-IsModerated : (raw : GoString) → IsModerated (replacement_for raw)
unfolding replacement_for
replacement_for-IsModerated raw = elim (Bool-cases (trim_space raw == [])) [
  | inl nothing ↦ rw (replacement_for, nothing) (IsModerated.held unavailable_text _ (ground arith))
  | inr something ↦ elim (Bool-cases (ltb max_chat_bytes (length (trim_space raw)))) [
    | inl long ↦
        rw (replacement_for, something, long) (IsModerated.held unavailable_text _ (ground arith))
    | inr short ↦
        rw (replacement_for, something, short)
          (IsModerated.sent (trim_space raw)
            (ground (arith, length_nonempty (trim_space raw) something, short)))
  ]
]

decided-IsModerated :
    (request : ChatRequest) (action : ChatAction) (decision : ChatDecision)
    → IsChat request.message
    → IsModerated (decided request action decision)
unfolding decided
decided-IsModerated request ChatAction.chat_allow decision h = IsModerated.sent request.message h
decided-IsModerated request ChatAction.chat_reject decision h = rejection-IsModerated _
decided-IsModerated request ChatAction.chat_replace decision h = replacement_for-IsModerated _
decided-IsModerated request (ChatAction.custom action) decision h =
    IsModerated.held unavailable_text _ (ground arith)

pub moderate_chat-IsModerated :
    (policy : ChatPolicy) (request : ChatRequest)
    → IsChat request.message
    → IsModerated (moderate_chat policy request)
unfolding moderate_chat
moderate_chat-IsModerated policy request h = elim (Option-cases (policy request)) [
  | inl failed ↦ rw (moderate_chat, failed) (IsModerated.held unavailable_text _ (ground arith))
  | inr (decision, made) ↦
      rw (moderate_chat, made) (decided-IsModerated request decision.action decision h)
]
