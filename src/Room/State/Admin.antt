-- ===== src/Room/State/Admin.antt =====
-- What the owner of a room decides: `applyTransferOwner`, `applyKickParticipant`,
-- `applySetRoomLocked`, `applySetPlayerLimit`, `applySetGameSettings`, `applySetGamePreset` and
-- `applyReturnToWaiting` of internal/room/state.go.
use midnight_council.Base.{
  pos, int_lt, Bool, true, false, not, ◌&&◌, ◌||◌, List, [], ◌∷◌, none, some, ◌==◌, if◌then◌else◌,
  length,
}
use midnight_council.Base.Dict.{lookup, erase}
use midnight_council.Text.{GoString, str_Eq, trim_space}
use midnight_council.Room.Types.{waiting, finished, phase_Eq, no_role, Player, Spectator}
use midnight_council.Room.Errors.{
  ok, err, owner_only, invalid_owner_target, kick_not_allowed, cannot_kick_owner,
  participant_not_found, wrong_phase, player_limit_out_of_range, player_limit_below_current,
  player_limit_below_minimum, already_waiting,
}
use midnight_council.Room.Host.{Host}
use midnight_council.Room.Timing.{PhaseDurations}
use midnight_council.Room.Settings.{
  custom, GameSettings, min_players_to_start, max_players_allowed, game_settings_for_preset,
  validate_with_rule_set, validate_for_start_with_rule_set,
}
use midnight_council.Room.Event.{Event}
use midnight_council.Room.State.{State, Players, game_rules, enter_phase}
use midnight_council.Room.State.Seats.{Outcome, fail, applied, ensure_connected_owner}

unfoldable pub apply_transfer_owner : Host → State → Event → Outcome
apply_transfer_owner h s e =
    if not (e.player_id == s.owner_id)
    then fail s owner_only
    else elim (lookup (trim_space e.target_id) s.players) [
      | none ↦ fail s invalid_owner_target
      | some target ↦
          if not target.connected
          then fail s invalid_owner_target
          else applied h e.at (record s { owner_id = target.id })
    ]

-- `s.phase != PhaseWaiting && s.phase != PhaseFinished`
abbrev pub in_game : State → Bool
in_game s = not (s.phase == waiting) && not (s.phase == finished)

-- The loop of `applyKickParticipant` over the votes.
unfoldable pub drop_target : GoString → List (GoString × GoString) → List (GoString × GoString)
drop_target id [] = []
drop_target id ((voter, target) ∷ rest) =
    (voter, if target == id then [] else target) ∷ drop_target id rest

unfoldable pub kick_player : GoString → State → State
kick_player id s = record s {
  players = erase id s.players;
  night_actions = erase id s.night_actions;
  votes = drop_target id (erase id s.votes);
  investigations = erase id s.investigations;
}

unfoldable pub apply_kick_participant : Host → State → Event → Outcome
apply_kick_participant h s e =
    let target_id = trim_space e.target_id in
    if not (e.player_id == s.owner_id)
    then fail s owner_only
    else if in_game s
    then fail s kick_not_allowed
    else if target_id == s.owner_id
    then fail s cannot_kick_owner
    else elim (lookup target_id s.players) [
      | some target ↦ applied h e.at (kick_player target_id s)
      | none ↦ elim (lookup target_id s.spectators) [
        | some spectator ↦ applied h e.at (record s { spectators = erase target_id s.spectators })
        | none ↦ fail s participant_not_found
      ]
    ]

unfoldable pub apply_set_room_locked : Host → State → Event → Outcome
apply_set_room_locked h s e =
    if not (e.player_id == s.owner_id)
    then fail s owner_only
    else applied h e.at (record s { locked = e.locked })

unfoldable pub apply_set_player_limit : Host → State → Event → Outcome
apply_set_player_limit h s e =
    if not (e.player_id == s.owner_id)
    then fail s owner_only
    else if in_game s
    then fail s wrong_phase
    else if int_lt e.max_players (pos min_players_to_start)
        || int_lt (pos max_players_allowed) e.max_players
    then fail s player_limit_out_of_range
    else if int_lt e.max_players (pos (length s.players))
    then fail s player_limit_below_current
    else if int_lt e.max_players s.game_settings.minimum_players
    then fail s player_limit_below_minimum
    else applied h e.at (record s { max_players = e.max_players })

abbrev pub unready : Player → Player
unready p = record p { ready = false }

-- `clearReadiness`
unfoldable pub clear_readiness : GoString → Players → Players
clear_readiness owner_id [] = []
clear_readiness owner_id ((id, p) ∷ rest) =
    (id, if p.id == owner_id then p else unready p) ∷ clear_readiness owner_id rest

-- The writes that `applySetGameSettings` and `applySetGamePreset` share.
unfoldable pub use_settings : GameSettings → PhaseDurations → State → State
use_settings settings durations s = record s {
  game_settings = settings;
  phase_durations = durations;
  players = clear_readiness s.owner_id s.players;
}

unfoldable pub apply_set_game_settings : Host → State → Event → Outcome
apply_set_game_settings h s e =
    let settings = record (e.game_settings) { preset = custom } in
    if not (e.player_id == s.owner_id)
    then fail s owner_only
    else if in_game s
    then fail s wrong_phase
    else elim (validate_with_rule_set h settings s.max_players (game_rules s)) [
      | err error ↦ fail s error
      | ok durations ↦ applied h e.at (use_settings settings durations s)
    ]

unfoldable pub apply_set_game_preset : Host → State → Event → Outcome
apply_set_game_preset h s e =
    if not (e.player_id == s.owner_id)
    then fail s owner_only
    else if in_game s
    then fail s wrong_phase
    else elim (game_settings_for_preset h e.game_preset s.base_durations) [
      | err error ↦ fail s error
      | ok settings ↦
          elim (validate_for_start_with_rule_set h settings s.max_players s.base_durations
            (game_rules s)) [
              | err error ↦ fail s error
              | ok durations ↦ applied h e.at (use_settings settings durations s)
            ]
    ]

abbrev pub fresh_player : Player → Player
fresh_player p = record p { ready = false; role = no_role; alive = true; shooter_used = false }

-- The two loops of `applyReturnToWaiting`.
unfoldable pub returning_players : Players → Players
returning_players [] = []
returning_players ((id, p) ∷ rest) =
    let kept = returning_players rest in
    if not p.connected then kept else (id, fresh_player p) ∷ kept

unfoldable pub returning_spectators : List (GoString × Spectator) → List (GoString × Spectator)
returning_spectators [] = []
returning_spectators ((id, p) ∷ rest) =
    let kept = returning_spectators rest in if not p.connected then kept else (id, p) ∷ kept

unfoldable pub return_to_waiting_room : Event → State → State
return_to_waiting_room e s =
    let kept = record s {
      players = returning_players s.players;
      spectators = returning_spectators s.spectators;
    } in
    let entered = enter_phase waiting e.at (ensure_connected_owner kept) in
    record entered {
      round = 0;
      night_actions = [];
      votes = [];
      investigations = [];
      last_words_id = [];
      result = none;
      log = [];
    }

unfoldable pub apply_return_to_waiting : Host → State → Event → Outcome
apply_return_to_waiting h s e =
    if not (e.player_id == s.owner_id)
    then fail s owner_only
    else if s.phase == waiting
    then fail s already_waiting
    else applied h e.at (return_to_waiting_room e s)
