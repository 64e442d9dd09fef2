-- ===== src/Protocol/Accepted.antt =====
-- What `DecodeClientEvent` of internal/protocol/client_event.go lets through.
use midnight_council.Base.{
  ◌≤◌, ◌≡◌, ◌≢◌, subst, ◌⊎◌, inl, inr, true, List, [], ◌∷◌, arith, length, Option-cases,
}
use midnight_council.Text.{GoString, trim_space, str_Eq, str_eq_iff}
use midnight_council.Room.Types.{EventType}
use midnight_council.Room.State.{max_chat_bytes}
use midnight_council.Protocol.{
  ClientEvent, ClientField, field_sequence, accepted, present, provided, room_event,
}
use midnight_council.Protocol.Shape.{
  number, allows, check_fields, reject_unexpected_fields, accepted_fields, shape, validate_shape,
}
use midnight_council.Protocol.Decode.{Decoder, decode_client_event}

number_injective : (f g : ClientField) → number f ≡ number g → f ≡ g
number_injective f g h = ground arith

check_fields_lem :
    (e : ClientEvent) (allowed fields : List ClientField) (f : ClientField)
    → check_fields e allowed fields ≡ accepted tt
    → allows fields f ≡ true
    → present e f ≡ true
    → allows allowed f ≡ true
unfolding check_fields allows
check_fields_lem e allowed [] f c h p = cc
check_fields_lem e allowed (g ∷ fields) f c h p =
    ground (arith, number_injective g f, check_fields_lem e allowed fields f)

all_provided : (f : ClientField) → allows provided f ≡ true
unfolding allows
all_provided f = ground arith

-- The types of events that a client may send.
abbrev pub client_types : List EventType
client_types =
    EventType.ready ∷ EventType.start_game ∷ EventType.chat ∷ EventType.night_action
    ∷ EventType.night_pass ∷ EventType.start_vote ∷ EventType.vote ∷ EventType.shoot
    ∷ EventType.transfer_owner ∷ EventType.kick_participant ∷ EventType.set_room_locked
    ∷ EventType.set_player_limit ∷ EventType.set_game_settings ∷ EventType.set_game_preset
    ∷ EventType.presence ∷ EventType.return_to_waiting ∷ []

abbrev pub IsOneOf : List EventType → EventType → Type 0
IsOneOf [] a = ⊥
IsOneOf (x ∷ xs) a = (a ≡ x) ⊎ IsOneOf xs a

-- The fields of an event are those of its type, and all of them are there but the target of a vote.
abbrev pub IsShaped : ClientEvent → Type 0
IsShaped e =
    ((f : ClientField)
      → present e f ≡ true
      → allows (field_sequence ∷ accepted_fields e.type) f ≡ true)
    × ((f : ClientField)
        → e.type ≢ EventType.vote
        → allows (accepted_fields e.type) f ≡ true
        → present e f ≡ true)

shape_type : (t : EventType) (e : ClientEvent) → shape t e ≡ accepted tt → IsOneOf client_types t
unfolding shape
shape_type t e h = ground arith

shape_checked :
    (t : EventType) (e : ClientEvent)
    → shape t e ≡ accepted tt
    → check_fields e (field_sequence ∷ accepted_fields e.type) provided ≡ accepted tt
unfolding shape reject_unexpected_fields
shape_checked t e h = ground arith

shape_required :
    (t : EventType) (e : ClientEvent) (f : ClientField)
    → shape t e ≡ accepted tt
    → t ≢ EventType.vote
    → allows (accepted_fields t) f ≡ true
    → present e f ≡ true
unfolding shape accepted_fields allows present
shape_required t e f h v a = ground arith

decoded :
    (d : Decoder) (input : GoString) (e : ClientEvent)
    → decode_client_event d input ≡ accepted e
    → shape e.type e ≡ accepted tt
unfolding decode_client_event validate_shape
decoded d input e h = elim (Option-cases (d.decode input)) [
  | inl bad ↦ absurd (ground arith)
  | inr ((read, rest), found) ↦ ground arith
]

pub decode_client_event_lem :
    (d : Decoder) (input : GoString) (e : ClientEvent)
    → decode_client_event d input ≡ accepted e
    → IsOneOf client_types e.type × IsShaped e
decode_client_event_lem d input e h =
    let good = decoded d input e h in
    (
      shape_type e.type e good,
      (
        λ f given.
            check_fields_lem e (field_sequence ∷ accepted_fields e.type) provided f
              (shape_checked e.type e good) (all_provided f) given,
        λ f vote wanted. shape_required e.type e f good vote wanted,
      ),
    )

shape_chat :
    (e : ClientEvent)
    → shape EventType.chat e ≡ accepted tt
    → (trim_space e.message ≢ []) × (length (trim_space e.message) ≤ max_chat_bytes)
unfolding shape
shape_chat e h = ground (arith, str_eq_iff (trim_space e.message) [])

-- The room event of a chat message that `DecodeClientEvent` accepts has a text of 1 to 500 bytes.
pub decode_client_event_chat :
    (d : Decoder) (input : GoString) (e : ClientEvent) (id name : GoString)
    → decode_client_event d input ≡ accepted e
    → e.type ≡ EventType.chat
    → ((room_event e id name).message ≢ [])
      × (length (room_event e id name).message ≤ max_chat_bytes)
unfolding room_event
decode_client_event_chat d input e id name h chat =
    shape_chat e (subst (λ t. shape t e ≡ accepted tt) chat (decoded d input e h))
