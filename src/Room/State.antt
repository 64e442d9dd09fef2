-- ===== src/Room/State.antt =====
-- internal/room/state.go: the state of a room, and the small methods that every event uses. A method
-- of `*State` returns the new state. The maps hold pointers, so a write through one is `modify`.
pub mod Win
pub mod Night
pub mod Vote
pub mod Views
pub mod Seats
pub mod Admin
pub mod Game
pub mod Apply
pub mod Atomic
use midnight_council.Base.{
  ℕ, ℤ, pos, neg_part, pos_part, int_lt, ◌+◌, ◌-◌, ◌%◌, ◌^◌, Bool, true, false, not, ◌&&◌, ◌||◌,
  List, [], ◌∷◌, ◌++◌, Option, none, some, ltb, ◌==◌, if◌then◌else◌, is_some, length, drop, map,
}
use midnight_council.Base.Dict.{lookup, insert}
use midnight_council.Base.Sort.{sort_by}
use midnight_council.Text.{GoString, str_Eq, str_lt, trim_space}
use midnight_council.Room.Types.{
  Time, zero_time, Phase, waiting, day_discussion, day_voting, Player, Spectator, NightAction,
  InvestigationResult, GameResult, LogEntry, LogType, voting_started, Winner, phase_Eq, Role,
}
use midnight_council.Room.Errors.{
  Result, ok, err, Error, player_not_found, player_dead, invalid_target,
}
use midnight_council.Room.Timing.{PhaseDurations, durations_valid, duration_for}
use midnight_council.Room.Host.{Host}
use midnight_council.Room.Rules.{RuleSet, default_rule_set, night_action_for_role}
use midnight_council.Room.Settings.{GameSettings, standard_game_settings}

abbrev pub default_max_players : ℕ
default_max_players = 12

abbrev pub max_chat_bytes : ℕ
max_chat_bytes = 500

abbrev pub max_event_log_entries : ℕ
max_event_log_entries = 100

abbrev pub Players : Type 0
Players = List (GoString × Player)

-- `round` is the 64 bits of the Go `int`.
pub record State : Type 0 where
  pub room_id : GoString
  pub phase : Phase
  pub phase_started_at : Time
  pub phase_deadline : Time
  pub base_durations : PhaseDurations
  pub phase_durations : PhaseDurations
  pub rules : Option RuleSet
  pub game_settings : GameSettings
  pub owner_id : GoString
  pub players : Players
  pub spectators : List (GoString × Spectator)
  pub locked : Bool
  pub max_players : ℤ
  pub max_spectators : ℤ
  pub round : ℕ
  pub night_actions : List (GoString × NightAction)
  pub votes : List (GoString × GoString)
  pub investigations : List (GoString × List InvestigationResult)
  pub last_words_id : GoString
  pub result : Option GameResult
  pub log : List LogEntry
  pub updated_at : Time

-- The state that `newStateWithLimits` builds once its arguments have passed the tests.
unfoldable pub fresh_state : Host → GoString → PhaseDurations → RuleSet → ℤ → State
fresh_state h room_id durations rules max_spectators = record {
  room_id = room_id;
  phase = waiting;
  phase_started_at = h.now;
  phase_deadline = zero_time;
  base_durations = durations;
  phase_durations = durations;
  rules = some rules;
  game_settings = standard_game_settings h durations;
  owner_id = [];
  players = [];
  spectators = [];
  locked = false;
  max_players = pos default_max_players;
  max_spectators = max_spectators;
  round = 0;
  night_actions = [];
  votes = [];
  investigations = [];
  last_words_id = [];
  result = none;
  log = [];
  updated_at = h.now;
}

-- `newStateWithLimits`: `none` is a panic, and no rule set is the nil pointer.
unfoldable pub new_state : Host → GoString → PhaseDurations → Option RuleSet → ℤ → Option State
unfolding fresh_state
new_state h room_id durations none max_spectators = none
new_state h room_id durations (some rules) max_spectators =
    if not (durations_valid durations) || not (int_lt (pos 0) max_spectators)
    then none
    else some (fresh_state h room_id durations rules max_spectators)

abbrev or_default : Option RuleSet → RuleSet
or_default none = default_rule_set
or_default (some rules) = rules

unfoldable pub game_rules : State → RuleSet
game_rules s = or_default s.rules

unfoldable pub touch : Time → State → State
touch at s = record s { updated_at = at }

-- `at.Add(duration)`, called for a positive duration only.
unfoldable pub enter_phase : Phase → Time → State → State
enter_phase phase at s =
    let duration = duration_for s.phase_durations phase in
    record s {
      phase = phase;
      phase_started_at = at;
      phase_deadline = if int_lt (pos 0) duration then at + pos_part duration else zero_time;
    }

-- `LogEntry{}`; `append_log` overwrites the type.
abbrev pub blank_entry : LogEntry
blank_entry = record {
  type = voting_started;
  round = 0;
  phase = none;
  player_id = [];
  target_id = [];
  winner = none;
  reason = [];
  at = zero_time;
}

-- `s.log[len(s.log)-MaxEventLogEntries:]`, where the log has grown too long.
unfoldable pub capped : List LogEntry → List LogEntry
capped log =
    if ltb max_event_log_entries (length log)
    then drop (length log - max_event_log_entries) log
    else log

unfoldable pub append_log : LogType → Time → LogEntry → State → State
append_log type at entry s = record s {
  log = capped (s.log ++ record entry { type = type; round = s.round; at = at } ∷ []);
}

unfoldable pub start_voting : Time → GoString → State → State
start_voting at player_id s =
    let entered = enter_phase day_voting at s in
    let cleared = record entered { votes = [] } in
    append_log voting_started at (record blank_entry { player_id = player_id }) cleared

unfoldable pub living_player : State → GoString → Result Player
living_player s player_id = elim (lookup player_id s.players) [
  | none ↦ err player_not_found
  | some player ↦ if player.alive then ok player else err player_dead
]

-- The caller writes to the target under its key, the trimmed id.
unfoldable pub living_target : State → GoString → Result Player
living_target s target_id =
    let trimmed = trim_space target_id in
    if trimmed == [] then err invalid_target else elim (lookup trimmed s.players) [
      | none ↦ err invalid_target
      | some target ↦ if target.alive then ok target else err invalid_target
    ]

-- `player, ok := s.players[id]; ok && player.Alive`
unfoldable pub is_living : Players → GoString → Bool
is_living players id = elim (lookup id players) [ none ↦ false | some player ↦ player.alive ]

unfoldable pub sort_strings : List GoString → List GoString
sort_strings = sort_by str_lt

unfoldable pub sorted_player_ids : State → List GoString
sorted_player_ids s = sort_strings (map (λ e. e.0) s.players)

unfoldable pub is_day_phase : Phase → Bool
is_day_phase phase = phase == day_discussion || phase == day_voting

abbrev pub has_night_action : RuleSet → Role → Bool
has_night_action rules role = is_some (night_action_for_role rules role)

-- `nightActionSubmitted`
abbrev pub night_action_submitted : State → GoString → Bool
night_action_submitted s player_id = is_some (lookup player_id s.night_actions)
