-- ===== src/Room/State/Atomic.antt =====
-- The events that the handlers of internal/room/state.go refuse.
use midnight_council.Base.{◌≡◌, ◌⊎◌, arith}
use midnight_council.Room.Types.{EventType, waiting, finished, phase_Eq}
use midnight_council.Room.Errors.{Error, err}
use midnight_council.Room.Host.{Host}
use midnight_council.Room.Event.{Event}
use midnight_council.Room.State.{State}
use midnight_council.Room.State.Seats.{
  applied, apply_join, join_normalized, join_player_again, join_spectator_again, join_new_spectator,
  join_new_player, apply_leave, apply_disconnect, apply_ready, apply_presence,
}
use midnight_council.Room.State.Game.{
  apply_start_game, apply_chat, apply_night_action, apply_night_pass, apply_start_vote, apply_vote,
  apply_shoot, apply_phase_timeout,
}
use midnight_council.Room.State.Admin.{
  apply_transfer_owner, apply_kick_participant, apply_set_room_locked, apply_set_player_limit,
  apply_set_game_settings, apply_set_game_preset, apply_return_to_waiting,
}
use midnight_council.Room.State.Apply.{dispatch, recorded, apply, stamped}

-- No deadline runs while the room waits or after a game.
abbrev pub IsIdleUntimed : State → Type 0
IsIdleUntimed s = (s.phase ≡ waiting) ⊎ (s.phase ≡ finished) → s.phase_deadline ≡ 0

dispatch_error :
    (t : EventType) (h : Host) (s : State) (e : Event) (x : Error)
    → IsIdleUntimed s
    → (dispatch t h s e).1 ≡ err x
    → (dispatch t h s e).0 ≡ s
unfolding dispatch applied apply_join join_normalized join_player_again join_spectator_again
    join_new_spectator join_new_player apply_leave apply_disconnect apply_ready apply_presence
    apply_start_game apply_chat apply_night_action apply_night_pass apply_start_vote apply_vote
    apply_shoot apply_phase_timeout apply_transfer_owner apply_kick_participant
    apply_set_room_locked apply_set_player_limit apply_set_game_settings apply_set_game_preset
    apply_return_to_waiting
dispatch_error EventType.join h s e x timed r = ground arith
dispatch_error _ h s e x timed r = ground arith

pub apply_error_unchanged :
    (h : Host) (s : State) (e : Event) (x : Error)
    → IsIdleUntimed s
    → (apply h s e).1 ≡ err x
    → (apply h s e).0 ≡ s
unfolding apply recorded
apply_error_unchanged h s e x timed r =
    ground (arith, dispatch_error e.type h s (stamped h e) x timed)
