-- ===== src/Room/State/Game/Shots.antt =====
-- `applyShoot` and `applyPhaseTimeout` of internal/room/state.go.
use midnight_council.Base.{true, false, not, ◌&&◌, [], some, ◌==◌, ltb, nat_eq, if◌then◌else◌}
use midnight_council.Base.Dict.{modify}
use midnight_council.Text.{str_Eq, trim_space}
use midnight_council.Room.Types.{
  Time, Phase, waiting, night, day_discussion, day_voting, last_words, finished, phase_Eq,
  shooter_fired, phase_timed_out, Player,
}
use midnight_council.Room.Errors.{
  ok, err, wrong_phase, self_target_not_allowed, shooter_only, shooter_already_used,
  phase_deadline_not_reached,
}
use midnight_council.Room.Host.{Host}
use midnight_council.Room.Rules.{can_shoot}
use midnight_council.Room.Event.{Event}
use midnight_council.Room.State.{
  State, game_rules, append_log, blank_entry, start_voting, living_player, living_target,
  is_day_phase,
}
use midnight_council.Room.State.Win.{check_win}
use midnight_council.Room.State.Night.{resolve_night, pass_for_idle}
use midnight_council.Room.State.Vote.{
  prune_votes, resolve_vote, complete_last_words, all_living_players_voted, abstain_for_idle,
}
use midnight_council.Room.State.Seats.{Outcome, fail, applied}

abbrev pub use_shot : Player → Player
use_shot p = record p { shooter_used = true }

abbrev pub shot : Player → Player
shot p = record p { alive = false }

-- The writes of `applyShoot` up to `pruneVotes`.
unfoldable pub fire : Event → Player → Player → State → State
fire e shooter target s =
    let players = modify e.player_id use_shot s.players in
    let hit = record s { players = modify (trim_space e.target_id) shot players } in
    prune_votes (
      append_log shooter_fired e.at
        (record blank_entry { player_id = shooter.id; target_id = target.id }) hit)

unfoldable pub after_shot : Time → State → State
after_shot at s =
    let (checked, over) = check_win at s in
    if not over && checked.phase == day_voting && all_living_players_voted checked
    then resolve_vote at checked
    else checked

unfoldable pub apply_shoot : Host → State → Event → Outcome
apply_shoot h s e =
    if not (is_day_phase s.phase) then fail s wrong_phase else elim (living_player s e.player_id) [
      | err error ↦ fail s error
      | ok shooter ↦
          if not (can_shoot (game_rules s) shooter.role)
          then fail s shooter_only
          else if shooter.shooter_used
          then fail s shooter_already_used
          else elim (living_target s e.target_id) [
            | err error ↦ fail s error
            | ok target ↦
                if target.id == shooter.id
                then fail s self_target_not_allowed
                else applied h e.at (after_shot e.at (fire e shooter target s))
          ]
    ]

-- The `switch` of `applyPhaseTimeout`; in its default case the log entry stays behind.
unfoldable pub expire : Phase → Host → State → Event → Outcome
expire night h s e =
    let actions = pass_for_idle (game_rules s) s.players s.night_actions in
    applied h e.at (resolve_night e.at (record s { night_actions = actions }))
expire day_discussion h s e = applied h e.at (start_voting e.at [] s)
expire day_voting h s e =
    applied h e.at (resolve_vote e.at (record s { votes = abstain_for_idle s.players s.votes }))
expire last_words h s e = applied h e.at (complete_last_words e.at s)
expire waiting h s e = fail s wrong_phase
expire finished h s e = fail s wrong_phase

unfoldable pub apply_phase_timeout : Host → State → Event → Outcome
unfolding expire
apply_phase_timeout h s e =
    if nat_eq s.phase_deadline 0
    then fail s wrong_phase
    else if ltb e.at s.phase_deadline
    then fail s phase_deadline_not_reached
    else expire s.phase h
        (append_log phase_timed_out e.at (record blank_entry { phase = some s.phase }) s) e
