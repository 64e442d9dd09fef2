-- ===== src/Room/Moves/Playing.antt =====
-- The handlers of a running game (internal/room/state.go) against the step relation.
use midnight_council.Base.{◌≡◌, ◌⊎◌, arith}
use midnight_council.Text.{str_eq_iff}
use midnight_council.Room.Types.{phase_eq_iff, waiting, night, day_discussion, day_voting, finished}
use midnight_council.Room.Host.{Host}
use midnight_council.Room.Event.{Event}
use midnight_council.Room.State.{State, append_log, game_rules}
use midnight_council.Room.State.Seats.{applied}
use midnight_council.Room.State.Game.{
  apply_start_game, apply_chat, apply_night_action, apply_night_pass, apply_start_vote, apply_vote,
  apply_shoot, apply_phase_timeout,
}
use midnight_council.Room.Moves.{
  Move, stay, refresh, begin, submit, open_vote, ballot, fired, night_ends, talk_ends, vote_ends,
  words_end,
}

module _ (h : Host) (s : State) (e : Event) where
  pub start_game-Move : Move h e s (apply_start_game h s e).0
  unfolding apply_start_game applied
  start_game-Move =
      grind (arith, stay, begin, phase_eq_iff s.phase waiting, str_eq_iff e.player_id s.owner_id)

  pub chat-Move : Move h e s (apply_chat h s e).0
  unfolding apply_chat
  chat-Move = grind (arith, stay, refresh)

  pub night_action-Move : Move h e s (apply_night_action h s e).0
  unfolding apply_night_action applied
  night_action-Move = grind (arith, stay, submit, phase_eq_iff s.phase night)

  pub night_pass-Move : Move h e s (apply_night_pass h s e).0
  unfolding apply_night_pass applied
  night_pass-Move = grind (arith, stay, submit, phase_eq_iff s.phase night)

  pub start_vote-Move : Move h e s (apply_start_vote h s e).0
  unfolding apply_start_vote applied
  start_vote-Move = grind (
    arith,
    stay,
    open_vote,
    phase_eq_iff s.phase day_discussion,
    str_eq_iff e.player_id s.owner_id,
  )

  pub vote-Move : Move h e s (apply_vote h s e).0
  unfolding apply_vote applied
  vote-Move = grind (arith, stay, ballot, phase_eq_iff s.phase day_voting)

  pub shoot-Move : Move h e s (apply_shoot h s e).0
  unfolding apply_shoot applied
  shoot-Move = grind (arith, stay, fired, str_eq_iff)

  pub phase_timeout-Move :
      ((s.phase ≡ waiting) ⊎ (s.phase ≡ finished) → s.phase_deadline ≡ 0)
      → Move h e s (apply_phase_timeout h s e).0
  unfolding apply_phase_timeout applied append_log game_rules
  phase_timeout-Move idle = grind (arith, stay, night_ends, talk_ends, vote_ends, words_end)
