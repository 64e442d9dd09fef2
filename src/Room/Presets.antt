-- ===== src/Room/Presets.antt =====
-- The presets of internal/room/settings.go: what their settings are checked for, and how
-- `applySetGamePreset` of internal/room/state.go answers.
use midnight_council.Base.{
  ℕ, ℤ, pos, ◌||◌, int_lt, ◌≡◌, refl, inl, inr, Bool, true, false, not, subst, some, arith, ◌==◌,
  if◌then◌else◌, ◌*◌,
}
use midnight_council.Base.Dict.{lookup, insert}
use midnight_council.Text.{GoString, text, str_eq, str_eq_iff, str_Eq}
use midnight_council.Room.Types.{Duration, role_eq, action_eq}
use midnight_council.Room.Errors.{
  Result, ok, err, Error, minimum_players_above_limit, owner_only, wrong_phase, invalid_game_preset,
  Result-cases,
}
use midnight_council.Room.Host.{Host}
use midnight_council.Room.Timing.{second, PhaseDurations, durations_valid}
use midnight_council.Room.Rules.{
  default_rule_set, validate_role_configuration, new_rule_set, configured_role_count,
}
use midnight_council.Room.Settings.{
  roles_eq, bool_eq, GamePreset, no_preset, standard, quick, beginner, advanced, minimal, custom,
  GameSettings, standard_game_settings, out_of_range, game_settings_for_preset, preset_eq,
  settings_eq, parsed_durations, validate_room_constraints, validate_with_rule_set,
  validate_for_start_with_rule_set,
}
use midnight_council.Room.Event.{Event}
use midnight_council.Room.State.{State, game_rules}
use midnight_council.Room.State.Seats.{Outcome, fail, applied}
use midnight_council.Room.State.Admin.{in_game, use_settings, apply_set_game_preset}

-- What `time.ParseDuration` documents of the texts of the presets, and of what `Duration.String` gives.
pub record ReadsDurations (h : Host) : Type 0 where
  pub shown : (d : Duration) → h.parse_duration (h.show_duration d) ≡ some d
  pub read_15s : h.parse_duration (text "15s") ≡ some (pos (15 * second))
  pub read_30s : h.parse_duration (text "30s") ≡ some (pos (30 * second))
  pub read_45s : h.parse_duration (text "45s") ≡ some (pos (45 * second))
  pub read_1m : h.parse_duration (text "1m") ≡ some (pos (60 * second))
  pub read_1m30s : h.parse_duration (text "1m30s") ≡ some (pos (90 * second))
  pub read_2m : h.parse_duration (text "2m") ≡ some (pos (120 * second))
  pub read_4m : h.parse_duration (text "4m") ≡ some (pos (240 * second))
  pub read_7m : h.parse_duration (text "7m") ≡ some (pos (420 * second))

-- How a set of settings is answered that only the limit of players can stand against.
pub Startable : Host → GameSettings → ℤ → PhaseDurations → Type 0
Startable h g limit base =
    (durations : PhaseDurations) × (validate_for_start_with_rule_set h g limit base default_rule_set
      ≡ (if int_lt limit g.minimum_players then err minimum_players_above_limit else ok durations))

abbrev lasting : ℕ → ℕ → ℕ → ℕ → PhaseDurations
lasting night discussion voting last = record {
  night = pos (night * second);
  day_discussion = pos (discussion * second);
  day_voting = pos (voting * second);
  last_words = pos (last * second);
}

ranged : PhaseDurations → Bool
ranged d = not (
    out_of_range d.night
    || out_of_range d.day_discussion
    || out_of_range d.day_voting
    || out_of_range d.last_words)

str_eq_same : (s : GoString) → str_eq s s ≡ true
str_eq_same s = (str_eq_iff s s).1 refl

-- The constraints of a room on settings of 2 to 20 players whose roles are accepted.
validate_room_constraints_lem :
    (g : GameSettings) (limit : ℤ)
    → int_lt g.minimum_players (pos 2) ≡ false
    → int_lt (pos 20) g.minimum_players ≡ false
    → validate_role_configuration default_rule_set g.roles ≡ ok tt
    → validate_room_constraints g limit default_rule_set
      ≡ (if int_lt limit g.minimum_players then err minimum_players_above_limit else ok tt)
unfolding validate_room_constraints
validate_room_constraints_lem g limit low high roles = ground arith

-- Settings whose durations are read and lie between a second and an hour.
ranged-Startable :
    (h : Host) (g : GameSettings) (limit : ℤ) (base d : PhaseDurations)
    → parsed_durations h g ≡ ok d
    → ranged d ≡ true
    → int_lt g.minimum_players (pos 2) ≡ false
    → int_lt (pos 20) g.minimum_players ≡ false
    → validate_role_configuration default_rule_set g.roles ≡ ok tt
    → Startable h g limit base
unfolding Startable validate_for_start_with_rule_set validate_with_rule_set ranged
ranged-Startable h g limit base d parsed inside low high roles =
    (d, ground (arith, validate_room_constraints_lem g limit low high roles))

durations_read :
    (h : Host) (g : GameSettings) (d : PhaseDurations)
    → h.parse_duration g.night_duration ≡ some d.night
    → h.parse_duration g.day_discussion_duration ≡ some d.day_discussion
    → h.parse_duration g.day_voting_duration ≡ some d.day_voting
    → h.parse_duration g.last_words_duration ≡ some d.last_words
    → durations_valid d ≡ true
    → parsed_durations h g ≡ ok d
unfolding parsed_durations durations_valid
durations_read h g d night discussion voting last valid = ground arith

preset_eq_same : (p : GamePreset) → preset_eq p p ≡ true
unfolding preset_eq
preset_eq_same no_preset = refl
preset_eq_same standard = refl
preset_eq_same quick = refl
preset_eq_same beginner = refl
preset_eq_same advanced = refl
preset_eq_same minimal = refl
preset_eq_same custom = refl
preset_eq_same (GamePreset.other name) = str_eq_same name

bool_eq_same : (b : Bool) → bool_eq b b ≡ true
unfolding bool_eq
bool_eq_same true = refl
bool_eq_same false = refl

settings_eq_same : (g : GameSettings) → settings_eq g g ≡ true
unfolding settings_eq roles_eq
settings_eq_same g = ground (
  arith,
  preset_eq_same g.preset,
  str_eq_same g.night_duration,
  str_eq_same g.day_discussion_duration,
  str_eq_same g.day_voting_duration,
  str_eq_same g.last_words_duration,
  bool_eq_same g.reveal_roles_on_death,
)

standard-Startable :
    (h : Host) (limit : ℤ) (base : PhaseDurations)
    → ReadsDurations h
    → durations_valid base ≡ true
    → Startable h (standard_game_settings h base) limit base
unfolding Startable standard_game_settings validate_for_start_with_rule_set
    validate_role_configuration default_rule_set configured_role_count role_eq action_eq lookup
    insert new_rule_set
standard-Startable h limit base reads valid =
    let g = standard_game_settings h base in
    let parsed =
      durations_read h g base (reads.shown _) (reads.shown _) (reads.shown _) (reads.shown _)
        valid in
    (
      base,
      ground
          (arith, parsed, settings_eq_same g, validate_room_constraints_lem g limit refl refl refl),
    )

ok_injective {ℓ} : {V : Type ℓ} {a b : V} → Result.ok a ≡ ok b → a ≡ b
ok_injective h = cc

preset-Startable :
    (h : Host) (p : GamePreset) (g : GameSettings) (limit : ℤ) (base : PhaseDurations)
    → ReadsDurations h
    → durations_valid base ≡ true
    → game_settings_for_preset h p base ≡ ok g
    → Startable h g limit base
unfolding game_settings_for_preset validate_role_configuration default_rule_set
    configured_role_count role_eq action_eq lookup insert new_rule_set ranged durations_valid
preset-Startable h standard g limit base reads valid given =
    subst (λ g. Startable h g limit base) (ok_injective given)
      (standard-Startable h limit base reads valid)
preset-Startable h quick g limit base reads valid given =
    subst (λ g. Startable h g limit base) (ok_injective given)
      (ranged-Startable h _ limit base (lasting 45 120 45 15)
        (durations_read h _ _ reads.read_45s reads.read_2m reads.read_45s reads.read_15s refl) refl
        refl refl refl)
preset-Startable h beginner g limit base reads valid given =
    subst (λ g. Startable h g limit base) (ok_injective given)
      (ranged-Startable h _ limit base (lasting 120 420 90 45)
        (durations_read h _ _ reads.read_2m reads.read_7m reads.read_1m30s reads.read_45s refl) refl
        refl refl refl)
preset-Startable h advanced g limit base reads valid given =
    subst (λ g. Startable h g limit base) (ok_injective given)
      (ranged-Startable h _ limit base (lasting 90 240 60 30)
        (durations_read h _ _ reads.read_1m30s reads.read_4m reads.read_1m reads.read_30s refl) refl
        refl refl refl)
preset-Startable h minimal g limit base reads valid given =
    subst (λ g. Startable h g limit base) (ok_injective given)
      (ranged-Startable h _ limit base (lasting 60 120 45 15)
        (durations_read h _ _ reads.read_1m reads.read_2m reads.read_45s reads.read_15s refl) refl
        refl refl refl)
preset-Startable h no_preset g limit base reads valid given = ground arith
preset-Startable h custom g limit base reads valid given = ground arith
preset-Startable h (GamePreset.other name) g limit base reads valid given = ground arith

-- How `applySetGamePreset` answers in a room with the default rules.
pub data PresetAnswer (h : Host) (s : State) (e : Event) : Outcome → Type 0 where
  stranger : (e.player_id == s.owner_id) ≡ false → PresetAnswer h s e (fail s owner_only)
  playing : in_game s ≡ true → PresetAnswer h s e (fail s wrong_phase)
  unknown :
      game_settings_for_preset h e.game_preset s.base_durations ≡ err invalid_game_preset
      → PresetAnswer h s e (fail s invalid_game_preset)
  too_small :
      (g : GameSettings)
      → game_settings_for_preset h e.game_preset s.base_durations ≡ ok g
      → int_lt s.max_players g.minimum_players ≡ true
      → PresetAnswer h s e (fail s minimum_players_above_limit)
  chosen :
      (g : GameSettings) (d : PhaseDurations)
      → game_settings_for_preset h e.game_preset s.base_durations ≡ ok g
      → int_lt s.max_players g.minimum_players ≡ false
      → validate_for_start_with_rule_set h g s.max_players s.base_durations default_rule_set ≡ ok d
      → PresetAnswer h s e (applied h e.at (use_settings g d s))

preset_unknown :
    (h : Host) (p : GamePreset) (base : PhaseDurations) (x : Error)
    → game_settings_for_preset h p base ≡ err x
    → x ≡ invalid_game_preset
unfolding game_settings_for_preset
preset_unknown h p base x given = grind arith

-- In a room with the default rules and valid standard durations, and where durations are read as
-- documented: the owner of a room that is not in a game gets any preset, fit to start a game with,
-- unless its name is unknown or it asks for more players than the room may have.
pub apply_set_game_preset-PresetAnswer :
    (h : Host) (s : State) (e : Event)
    → ReadsDurations h
    → durations_valid s.base_durations ≡ true
    → game_rules s ≡ default_rule_set
    → PresetAnswer h s e (apply_set_game_preset h s e)
unfolding apply_set_game_preset Startable
apply_set_game_preset-PresetAnswer h s e reads valid rules =
    elim (Result-cases (game_settings_for_preset h e.game_preset s.base_durations)) [
      | inl (x, failed) ↦
          let named = preset_unknown h e.game_preset s.base_durations x failed in
          grind (arith, PresetAnswer.stranger, PresetAnswer.playing, PresetAnswer.unknown)
      | inr (g, given) ↦
          let (d, answer) =
            preset-Startable h e.game_preset g s.max_players s.base_durations reads valid given in
          grind (
            arith, PresetAnswer.stranger, PresetAnswer.playing, PresetAnswer.too_small,
            PresetAnswer.chosen,
          )
    ]
