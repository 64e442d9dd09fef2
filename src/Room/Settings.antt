-- ===== src/Room/Settings.antt =====
-- internal/room/settings.go: presets, and the checks that a set of settings passes.
use midnight_council.Base.{
  ℕ, ℤ, pos, int_lt, int_eq, ◌*◌, Bool, true, false, not, ◌&&◌, ◌||◌, List, [], ◌∷◌, ◌++◌, none,
  some, if◌then◌else◌,
}
use midnight_council.Text.{GoString, text, str_eq, str_Eq}
use midnight_council.Room.Types.{Duration}
use midnight_council.Room.Host.{Host}
use midnight_council.Room.Timing.{PhaseDurations, second, durations_valid}
use midnight_council.Room.Rules.{RuleSet, RoleConfiguration, validate_role_configuration}
use midnight_council.Room.Errors.{
  Result, ok, err, invalid_game_preset, invalid_phase_duration, minimum_players_out_of_range,
  minimum_players_above_limit, invalid_role_configuration, ◌>>=◌, ◌>>◌, reject, or_else,
}

-- `no_preset` is the empty string.
pub data GamePreset : Type 0 where
  no_preset standard quick beginner advanced minimal custom : GamePreset
  other : GoString → GamePreset

unfoldable pub preset_eq : GamePreset → GamePreset → Bool
preset_eq no_preset no_preset = true
preset_eq standard standard = true
preset_eq quick quick = true
preset_eq beginner beginner = true
preset_eq advanced advanced = true
preset_eq minimal minimal = true
preset_eq custom custom = true
preset_eq (other s) (other t) = str_eq s t
preset_eq _ _ = false

pub record GameSettings : Type 0 where
  pub preset : GamePreset
  pub night_duration : GoString
  pub day_discussion_duration : GoString
  pub day_voting_duration : GoString
  pub last_words_duration : GoString
  pub minimum_players : ℤ
  pub reveal_roles_on_death : Bool
  pub roles : RoleConfiguration

-- The bounds of state.go
abbrev pub min_players_to_start : ℕ
min_players_to_start = 2

abbrev pub max_players_allowed : ℕ
max_players_allowed = 20

abbrev pub min_configurable : ℕ
min_configurable = second

abbrev pub max_configurable : ℕ
max_configurable = 3600 * second

abbrev common_roles : ℕ → RoleConfiguration
common_roles escorts = record {
  killers = pos 1;
  detectives = pos 1;
  doctors = pos 1;
  escorts = pos escorts;
  shooters = pos 1;
}

unfoldable pub standard_game_settings : Host → PhaseDurations → GameSettings
standard_game_settings h d = record {
  preset = standard;
  night_duration = h.show_duration d.night;
  day_discussion_duration = h.show_duration d.day_discussion;
  day_voting_duration = h.show_duration d.day_voting;
  last_words_duration = h.show_duration d.last_words;
  minimum_players = pos min_players_to_start;
  reveal_roles_on_death = false;
  roles = common_roles 0;
}

unfoldable pub game_settings_for_preset : Host → GamePreset → PhaseDurations → Result GameSettings
unfolding standard_game_settings
game_settings_for_preset h standard d = ok (standard_game_settings h d)
game_settings_for_preset h quick d = ok (record {
  preset = quick;
  night_duration = text "45s";
  day_discussion_duration = text "2m";
  day_voting_duration = text "45s";
  last_words_duration = text "15s";
  minimum_players = pos 4;
  reveal_roles_on_death = true;
  roles = common_roles 0;
})
game_settings_for_preset h beginner d = ok (record {
  preset = beginner;
  night_duration = text "2m";
  day_discussion_duration = text "7m";
  day_voting_duration = text "1m30s";
  last_words_duration = text "45s";
  minimum_players = pos 5;
  reveal_roles_on_death = true;
  roles = common_roles 0;
})
game_settings_for_preset h advanced d = ok (record {
  preset = advanced;
  night_duration = text "1m30s";
  day_discussion_duration = text "4m";
  day_voting_duration = text "1m";
  last_words_duration = text "30s";
  minimum_players = pos 6;
  reveal_roles_on_death = false;
  roles = common_roles 1;
})
game_settings_for_preset h minimal d = ok (record {
  preset = minimal;
  night_duration = text "1m";
  day_discussion_duration = text "2m";
  day_voting_duration = text "45s";
  last_words_duration = text "15s";
  minimum_players = pos 2;
  reveal_roles_on_death = false;
  roles = record {
    killers = pos 1;
    detectives = pos 0;
    doctors = pos 0;
    escorts = pos 0;
    shooters = pos 0;
  };
})
game_settings_for_preset h _ d = err invalid_game_preset

add_preset : Result GameSettings → List GameSettings → List GameSettings
add_preset (ok settings) presets = presets ++ settings ∷ []
add_preset (err e) presets = presets

catalog_loop : Host → PhaseDurations → List GamePreset → List GameSettings → List GameSettings
unfolding add_preset game_settings_for_preset
catalog_loop h d [] presets = presets
catalog_loop h d (p ∷ ps) presets =
    catalog_loop h d ps (add_preset (game_settings_for_preset h p d) presets)

unfoldable pub game_preset_catalog : Host → PhaseDurations → List GameSettings
unfolding catalog_loop
game_preset_catalog h d =
    catalog_loop h d (standard ∷ quick ∷ beginner ∷ advanced ∷ minimal ∷ []) []

unfoldable pub roles_eq : RoleConfiguration → RoleConfiguration → Bool
roles_eq a b =
    int_eq a.killers b.killers
    && int_eq a.detectives b.detectives
    && int_eq a.doctors b.doctors
    && int_eq a.escorts b.escorts
    && int_eq a.shooters b.shooters

unfoldable pub bool_eq : Bool → Bool → Bool
bool_eq true b = b
bool_eq false b = not b

-- `==` of two settings
unfoldable pub settings_eq : GameSettings → GameSettings → Bool
unfolding preset_eq roles_eq bool_eq
settings_eq a b =
    preset_eq a.preset b.preset
    && str_eq a.night_duration b.night_duration
    && str_eq a.day_discussion_duration b.day_discussion_duration
    && str_eq a.day_voting_duration b.day_voting_duration
    && str_eq a.last_words_duration b.last_words_duration
    && int_eq a.minimum_players b.minimum_players
    && bool_eq a.reveal_roles_on_death b.reveal_roles_on_death
    && roles_eq a.roles b.roles

parse : Host → GoString → Result Duration
parse h s = elim (h.parse_duration s) [ none ↦ err invalid_phase_duration | some d ↦ ok d ]

-- `GameSettings.phaseDurations`
unfoldable pub parsed_durations : Host → GameSettings → Result PhaseDurations
unfolding parse durations_valid
parsed_durations h s = do
  night ← parse h s.night_duration
  discussion ← parse h s.day_discussion_duration
  voting ← parse h s.day_voting_duration
  last ← parse h s.last_words_duration
  let durations : PhaseDurations = record {
    night = night;
    day_discussion = discussion;
    day_voting = voting;
    last_words = last;
  }
  reject (not (durations_valid durations)) invalid_phase_duration
  ok durations

unfoldable pub validate_room_constraints : GameSettings → ℤ → RuleSet → Result (Unit {0})
validate_room_constraints s max_players rules = do
  reject
      (int_lt s.minimum_players (pos min_players_to_start)
        || int_lt (pos max_players_allowed) s.minimum_players)
      minimum_players_out_of_range
  reject (int_lt max_players s.minimum_players) minimum_players_above_limit
  or_else (validate_role_configuration rules s.roles) invalid_role_configuration

abbrev pub out_of_range : Duration → Bool
out_of_range d = int_lt d (pos min_configurable) || int_lt (pos max_configurable) d

-- `ValidateWithRuleSet`, of a rule set that is not nil. The first of the loop's four tests that
-- fails gives the error, which is the same for all.
unfoldable pub validate_with_rule_set : Host → GameSettings → ℤ → RuleSet → Result PhaseDurations
validate_with_rule_set h s max_players rules = do
  durations ← parsed_durations h s
  reject
      (out_of_range durations.night
        || out_of_range durations.day_discussion
        || out_of_range durations.day_voting
        || out_of_range durations.last_words)
      invalid_phase_duration
  validate_room_constraints s max_players rules
  ok durations

unfoldable pub validate_for_start_with_rule_set :
    Host → GameSettings → ℤ → PhaseDurations → RuleSet → Result PhaseDurations
validate_for_start_with_rule_set h s max_players standard_durations rules =
    if not (settings_eq s (standard_game_settings h standard_durations))
    then validate_with_rule_set h s max_players rules
    else do
      durations ← parsed_durations h s
      validate_room_constraints s max_players rules
      ok durations
