-- ===== src/Room/Moves/Ruling.antt =====
-- The handlers of what the owner decides (internal/room/state.go) against the step
-- relation.
use midnight_council.Base.{ℤ, ◌≡◌, true, arith}
use midnight_council.Text.{str_eq_iff}
use midnight_council.Room.Types.{phase_eq_iff, waiting}
use midnight_council.Room.Errors.{ok}
use midnight_council.Room.Host.{Host}
use midnight_council.Room.Timing.{PhaseDurations, durations_valid}
use midnight_council.Room.Rules.{RuleSet}
use midnight_council.Room.Settings.{
  GameSettings, parsed_durations, validate_with_rule_set, validate_for_start_with_rule_set,
}
use midnight_council.Room.Event.{Event}
use midnight_council.Room.State.{State}
use midnight_council.Room.State.Seats.{applied}
use midnight_council.Room.State.Admin.{
  apply_transfer_owner, apply_kick_participant, apply_set_room_locked, apply_set_player_limit,
  apply_set_game_settings, apply_set_game_preset, apply_return_to_waiting,
}
use midnight_council.Room.Moves.{
  Move, stay, hand_over, kick, unseat_spectator, lock, limit, configure, return,
}

-- Durations that pass a check are positive.
parsed_durations_valid :
    (h : Host) (g : GameSettings) (d : PhaseDurations)
    → parsed_durations h g ≡ ok d
    → durations_valid d ≡ true
unfolding parsed_durations
parsed_durations_valid h g d r = ground arith

pub validated_durations_valid :
    (h : Host) (g : GameSettings) (n : ℤ) (rules : RuleSet) (d : PhaseDurations)
    → validate_with_rule_set h g n rules ≡ ok d
    → durations_valid d ≡ true
unfolding validate_with_rule_set
validated_durations_valid h g n rules d r = ground (arith, parsed_durations_valid h g d)

pub startable_durations_valid :
    (h : Host) (g : GameSettings) (n : ℤ) (base : PhaseDurations) (rules : RuleSet)
    (d : PhaseDurations)
    → validate_for_start_with_rule_set h g n base rules ≡ ok d
    → durations_valid d ≡ true
unfolding validate_for_start_with_rule_set
startable_durations_valid h g n base rules d r =
    ground (arith, parsed_durations_valid h g d, validated_durations_valid h g n rules d)

module _ (h : Host) (s : State) (e : Event) where
  pub transfer_owner-Move : Move h e s (apply_transfer_owner h s e).0
  unfolding apply_transfer_owner applied
  transfer_owner-Move = grind (arith, stay, hand_over, str_eq_iff)

  pub kick_participant-Move : Move h e s (apply_kick_participant h s e).0
  unfolding apply_kick_participant applied
  kick_participant-Move = grind (arith, stay, kick, unseat_spectator, str_eq_iff)

  pub set_room_locked-Move : Move h e s (apply_set_room_locked h s e).0
  unfolding apply_set_room_locked applied
  set_room_locked-Move = grind (arith, stay, lock, str_eq_iff)

  pub set_player_limit-Move : Move h e s (apply_set_player_limit h s e).0
  unfolding apply_set_player_limit applied
  set_player_limit-Move = grind (arith, stay, limit, str_eq_iff)

  pub set_game_settings-Move : Move h e s (apply_set_game_settings h s e).0
  unfolding apply_set_game_settings applied
  set_game_settings-Move = grind (arith, stay, configure, validated_durations_valid, str_eq_iff)

  pub set_game_preset-Move : Move h e s (apply_set_game_preset h s e).0
  unfolding apply_set_game_preset applied
  set_game_preset-Move = grind (arith, stay, configure, startable_durations_valid, str_eq_iff)

  pub return_to_waiting-Move : Move h e s (apply_return_to_waiting h s e).0
  unfolding apply_return_to_waiting applied
  return_to_waiting-Move = grind (arith, stay, return, str_eq_iff, phase_eq_iff s.phase waiting)
