-- ===== src/Room/State/Game/Talk.antt =====
-- `applyChat` of internal/room/state.go.
use midnight_council.Base.{not, ◌&&◌, [], none, some, ◌==◌, ltb, if◌then◌else◌, length}
use midnight_council.Base.Dict.{lookup}
use midnight_council.Text.{GoString, str_Eq, trim_space}
use midnight_council.Room.Types.{waiting, last_words, finished, phase_Eq}
use midnight_council.Room.Errors.{
  Result, ok, err, last_words_speaker_only, player_dead, participant_not_found,
  spectator_cannot_chat, empty_message, message_too_long,
}
use midnight_council.Room.Host.{Host}
use midnight_council.Room.Event.{Event}
use midnight_council.Room.State.{State, touch, max_chat_bytes}
use midnight_council.Room.State.Views.{chat_envelope}
use midnight_council.Room.State.Seats.{Outcome, fail}

-- Who may speak now, and under which name.
unfoldable pub chat_name : State → GoString → Result GoString
chat_name s player_id = elim (lookup player_id s.players) [
  | some player ↦
      if s.phase == last_words && not (player.id == s.last_words_id)
      then err last_words_speaker_only
      else if not (s.phase == waiting)
          && not (s.phase == finished)
          && not (s.phase == last_words)
          && not player.alive
      then err player_dead
      else ok player.name
  | none ↦ elim (lookup player_id s.spectators) [
    | none ↦ err participant_not_found
    | some spectator ↦
        if not (s.phase == waiting) && not (s.phase == finished)
        then err spectator_cannot_chat
        else ok spectator.name
  ]
]

unfoldable pub apply_chat : Host → State → Event → Outcome
unfolding touch
apply_chat h s e = elim (chat_name s e.player_id) [
  | err error ↦ fail s error
  | ok name ↦
      let message = trim_space e.message in
      if message == []
      then fail s empty_message
      else if ltb max_chat_bytes (length message)
      then fail s message_too_long
      else (
        touch e.at s,
        ok (
            chat_envelope (record {
              room_id = s.room_id;
              player_id = e.player_id;
              name = name;
              message = message;
              sent_at = e.at;
            })),
      )
]
