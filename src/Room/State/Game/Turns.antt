-- ===== src/Room/State/Game/Turns.antt =====
-- `applyNightAction`, `applyNightPass`, `applyStartVote` and `applyVote` of internal/room/state.go.
use midnight_council.Base.{not, ◌&&◌, [], none, some, ◌==◌, if◌then◌else◌}
use midnight_council.Base.Dict.{insert}
use midnight_council.Text.{GoString, str_Eq, trim_space}
use midnight_council.Room.Types.{
  Time, night, day_discussion, day_voting, phase_Eq, NightAction, pass, Player,
}
use midnight_council.Room.Errors.{
  ok, err, owner_only, wrong_phase, role_has_no_night_action, self_target_not_allowed,
}
use midnight_council.Room.Host.{Host}
use midnight_council.Room.Rules.{NightActionRule, night_action_for_role}
use midnight_council.Room.Event.{Event}
use midnight_council.Room.State.{State, game_rules, start_voting, living_player, living_target}
use midnight_council.Room.State.Night.{resolve_night, all_night_actions_submitted}
use midnight_council.Room.State.Vote.{resolve_vote, all_living_players_voted}
use midnight_council.Room.State.Seats.{Outcome, fail, applied}

-- `s.nightActions[player.ID] = action`, and the end of the night when nobody is left to act.
unfoldable pub submit_night_action : Time → NightAction → State → State
submit_night_action at action s =
    let noted = record s { night_actions = insert action.player_id action s.night_actions } in
    if all_night_actions_submitted noted noted.players then resolve_night at noted else noted

-- What follows once the rule of the role is known.
unfoldable pub aim_night_action : Host → State → Event → Player → NightActionRule → Outcome
aim_night_action h s e player rule = elim (living_target s e.target_id) [
  | err error ↦ fail s error
  | ok target ↦
      if target.id == player.id && not rule.allow_self_target
      then fail s self_target_not_allowed
      else applied h e.at (
          submit_night_action e.at
            (record { player_id = player.id; target_id = target.id; type = rule.type }) s)
]

unfoldable pub apply_night_action : Host → State → Event → Outcome
unfolding aim_night_action
apply_night_action h s e =
    if not (s.phase == night) then fail s wrong_phase else elim (living_player s e.player_id) [
      | err error ↦ fail s error
      | ok player ↦ elim (night_action_for_role (game_rules s) player.role) [
        | none ↦ fail s role_has_no_night_action
        | some rule ↦ aim_night_action h s e player rule
      ]
    ]

unfoldable pub apply_night_pass : Host → State → Event → Outcome
apply_night_pass h s e =
    if not (s.phase == night) then fail s wrong_phase else elim (living_player s e.player_id) [
      | err error ↦ fail s error
      | ok player ↦ elim (night_action_for_role (game_rules s) player.role) [
        | none ↦ fail s role_has_no_night_action
        | some rule ↦ applied h e.at (
            submit_night_action e.at (record { player_id = player.id; target_id = []; type = pass })
              s)
      ]
    ]

unfoldable pub apply_start_vote : Host → State → Event → Outcome
apply_start_vote h s e =
    if not (s.phase == day_discussion)
    then fail s wrong_phase
    else if not (e.player_id == s.owner_id)
    then fail s owner_only
    else applied h e.at (start_voting e.at e.player_id s)

-- `s.votes[voter.ID] = targetID`, and the count when everybody has voted.
unfoldable pub cast_vote : Time → GoString → GoString → State → State
cast_vote at voter_id target_id s =
    let noted = record s { votes = insert voter_id target_id s.votes } in
    if all_living_players_voted noted then resolve_vote at noted else noted

unfoldable pub apply_vote : Host → State → Event → Outcome
apply_vote h s e =
    if not (s.phase == day_voting) then fail s wrong_phase else elim (living_player s e.player_id) [
      | err error ↦ fail s error
      | ok voter ↦
          let target_id = trim_space e.target_id in
          let cast = applied h e.at (cast_vote e.at voter.id target_id s) in
          if target_id == []
          then cast
          else elim (living_target s target_id) [ err error ↦ fail s error | ok target ↦ cast ]
    ]
