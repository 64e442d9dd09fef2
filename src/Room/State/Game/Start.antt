-- ===== src/Room/State/Game/Start.antt =====
-- `applyStartGame` of internal/room/state.go, with the shuffle and the deal of the roles.
use midnight_council.Base.{
  ℕ, zero, suc, pos, int_lt, ◌+◌, ◌-◌, Bool, true, false, not, ◌&&◌, ◌||◌, List, [], ◌∷◌, none,
  some, ◌==◌, if◌then◌else◌, length, get_elem?, set,
}
use midnight_council.Base.Dict.{modify}
use midnight_council.Text.{GoString, str_Eq}
use midnight_council.Room.Types.{
  waiting, night, finished, phase_Eq, Role, game_started, night_started, Player,
}
use midnight_council.Room.Errors.{
  Result, ok, err, game_finished, room_not_waiting, owner_only, not_enough_players,
  players_not_ready, no_entropy,
}
use midnight_council.Room.Host.{Host}
use midnight_council.Room.Timing.{PhaseDurations}
use midnight_council.Room.Rules.{role_deck}
use midnight_council.Room.Settings.{validate_for_start_with_rule_set}
use midnight_council.Room.Event.{Event}
use midnight_council.Room.State.{
  State, Players, game_rules, enter_phase, append_log, blank_entry, sorted_player_ids,
}
use midnight_council.Room.State.Seats.{Outcome, fail, applied}

-- `roles[i], roles[j] = roles[j], roles[i]`; out of range, where Go panics, nothing changes.
unfoldable pub swap : ℕ → ℕ → List Role → List Role
swap i j roles = elim (get_elem? roles i) [
  | none ↦ roles
  | some a ↦ elim (get_elem? roles j) [ none ↦ roles | some b ↦ set (set roles i b) j a ]
]

-- The loop of `shuffleRoles`, from the index `i` down to 1.
unfoldable pub shuffle_from : Host → ℕ → List Role → Result (List Role)
shuffle_from h zero roles = ok roles
shuffle_from h (suc i) roles = elim (h.draw (suc i + 1)) [
  | none ↦ err no_entropy
  | some j ↦ shuffle_from h i (swap (suc i) j roles)
]

unfoldable pub shuffle_roles : Host → List Role → Result (List Role)
shuffle_roles h roles = shuffle_from h (length roles - 1) roles

abbrev pub take_role : Role → Player → Player
take_role role p = record p { role = role; alive = true; shooter_used = false }

-- The loop over the sorted ids that gives each player a role. There are as many of either.
unfoldable pub deal : List GoString → List Role → Players → Players
deal (id ∷ ids) (role ∷ roles) players = deal ids roles (modify id (take_role role) players)
deal (id ∷ ids) [] players = players
deal [] roles players = players

-- `nonOwnersReady`
unfoldable pub non_owners_ready : GoString → Players → Bool
non_owners_ready owner_id [] = true
non_owners_ready owner_id ((id, p) ∷ rest) =
    (p.id == owner_id || p.ready) && non_owners_ready owner_id rest

-- The writes of `applyStartGame`.
unfoldable pub begin_game : PhaseDurations → List Role → Event → State → State
begin_game durations roles e s =
    let dealt = record s {
      phase_durations = durations;
      players = deal (sorted_player_ids s) roles s.players;
    } in
    let entered = enter_phase night e.at dealt in
    let cleared = record entered {
      round = 1;
      night_actions = [];
      votes = [];
      investigations = [];
      last_words_id = [];
      result = none;
      log = [];
    } in
    append_log night_started e.at blank_entry
      (append_log game_started e.at (record blank_entry { player_id = e.player_id }) cleared)

unfoldable pub apply_start_game : Host → State → Event → Outcome
apply_start_game h s e =
    if s.phase == finished
    then fail s game_finished
    else if not (s.phase == waiting)
    then fail s room_not_waiting
    else if not (e.player_id == s.owner_id)
    then fail s owner_only
    else elim (validate_for_start_with_rule_set h s.game_settings s.max_players s.base_durations
        (game_rules s)) [
          | err error ↦ fail s error
          | ok durations ↦
              if int_lt (pos (length s.players)) s.game_settings.minimum_players
              then fail s not_enough_players
              else if not (non_owners_ready s.owner_id s.players)
              then fail s players_not_ready
              else elim (shuffle_roles h
                  (role_deck (game_rules s) (length s.players) s.game_settings.roles)) [
                    | err error ↦ fail s error
                    | ok roles ↦ applied h e.at (begin_game durations roles e s)
                  ]
        ]
