-- ===== src/Room/Examples.antt =====
-- A room with three players, as the tests play it: concrete inputs at which the theorems apply.
use midnight_council.Base.{pos, ◌≡◌, refl, ◌-◌, true, false, List, [], ◌∷◌, some, if◌then◌else◌}
use midnight_council.Text.{
  GoString, text, str_eq, str_lt, is_space, is_control, trim_space, decode_rune, runes,
  valid_string, rune_count,
}
use midnight_council.Room.Types.{EventType, night, role_Eq, phase_eq, role_eq, action_eq}
use midnight_council.Room.Host.{Host}
use midnight_council.Room.Timing.{default_phase_durations, durations_valid, duration_for}
use midnight_council.Room.Settings.{
  GameSettings, GamePreset, preset_eq, standard_game_settings, game_settings_for_preset,
  game_preset_catalog, settings_eq, parsed_durations, validate_room_constraints,
  validate_with_rule_set, validate_for_start_with_rule_set,
}
use midnight_council.Room.Event.{Event}
use midnight_council.Room.State.{
  State, fresh_state, new_state, game_rules, touch, enter_phase, capped, append_log, start_voting,
  living_player, living_target, is_living, sort_strings, sorted_player_ids, is_day_phase,
}
use midnight_council.Room.Errors.{owner_only}
use midnight_council.Room.Ballots.{IsPending}
use midnight_council.Room.Trace.{
  run-IsPending, run-IsCoherent, run-IsSeated, run-IsBalanced, run-apply_error_unchanged, run,
}
use midnight_council.Room.Invariant.{IsCoherent}
use midnight_council.Room.Invariant.Seats.{IsSeated}
use midnight_council.Room.Invariant.Balance.{IsBalanced}
use midnight_council.Base.Dict.{lookup, insert, erase, modify}
use midnight_council.Base.Sort.{insert_by, sort_by}
use midnight_council.Room.Identity.{id_character, all_id_characters, normalize_participant_identity}
use midnight_council.Room.Rules.{
  new_rule_set, default_rule_set, role_rule, night_action_for_role, can_shoot, is_killer_aligned,
  configured_role_count, validate_role_configuration, special_cards, fill_with, role_deck,
  night_action_priority, action_before, order_night_actions,
}
use midnight_council.Room.State.Admin.{
  apply_transfer_owner, drop_target, kick_player, apply_kick_participant, apply_set_room_locked,
  apply_set_player_limit, clear_readiness, use_settings, apply_set_game_settings,
  apply_set_game_preset, returning_players, returning_spectators, return_to_waiting_room,
  apply_return_to_waiting,
}
use midnight_council.Room.State.Apply.{
  last_client_sequence, record_client_sequence, dispatch, is_duplicate, recorded, apply,
}
use midnight_council.Room.State.Game.{
  swap, shuffle_from, shuffle_roles, deal, non_owners_ready, begin_game, apply_start_game,
  chat_name, apply_chat, submit_night_action, aim_night_action, apply_night_action,
  apply_night_pass, apply_start_vote, cast_vote, apply_vote, fire, after_shot, apply_shoot, expire,
  apply_phase_timeout,
}
use midnight_council.Room.State.Night.{
  has, add_to, record_investigation, night_kill, perform, night_step, run_night, log_eliminated,
  announce, night_run, dawn, resolve_night, all_night_actions_submitted, pass_for_idle,
}
use midnight_council.Room.State.Seats.{
  applied, first_connected, owner_connected, ensure_connected_owner, next_owner_id, check_token,
  join_player_again, join_spectator_again, join_new_spectator, join_new_player, join_normalized,
  apply_join, remove_player, disconnect_player, apply_leave, apply_disconnect, apply_ready,
  apply_presence,
}
use midnight_council.Room.State.Views.{
  role_revealed, player_view, spectator_view, player_before, spectator_before, snapshot,
  acts_at_night, votes_now, shoots_now, private_player_view, private_view, state_envelope,
  chat_envelope, envelope_for_player, personalize,
}
use midnight_council.Room.State.Vote.{
  prune_ballots, prune_votes, tally_of, tally, top_step, top_loop, top_vote_target, execute_target,
  execution, after_execution, resolve_vote, complete_last_words, all_living_players_voted,
  abstain_for_idle,
}
use midnight_council.Room.State.Win.{
  living_killers, living_others, finish, check_win, advance_after_day,
}

-- A runtime whose entropy is fixed, and which reads two texts of durations.
abbrev pub host : Host
host = record {
  now = 1000;
  token = some (text "0f");
  draw = λ n. some (n - 1);
  parse_duration =
      λ s. if str_eq s (text "1m") then some (pos 60_000_000_000) else some (pos 45_000_000_000);
  show_duration = λ d. text "1m";
  reads = λ cause id. 0;
}

abbrev pub no_settings : GameSettings
no_settings = record {
  preset = GamePreset.no_preset;
  night_duration = [];
  day_discussion_duration = [];
  day_voting_duration = [];
  last_words_duration = [];
  minimum_players = pos 0;
  reveal_roles_on_death = false;
  roles = record {
    killers = pos 0;
    detectives = pos 0;
    doctors = pos 0;
    escorts = pos 0;
    shooters = pos 0;
  };
}

abbrev pub event : EventType → GoString → Event
event type id = record {
  type = type;
  player_id = id;
  player_name = id;
  reconnect_token = [];
  spectator = false;
  ready = true;
  locked = false;
  max_players = pos 0;
  game_settings = no_settings;
  game_preset = GamePreset.no_preset;
  afk = false;
  client_sequence = 0;
  message = [];
  target_id = [];
  at = 2000;
}

unfoldable pub room : State
unfolding abstain_for_idle action_before action_eq acts_at_night add_to advance_after_day
    after_execution after_shot aim_night_action all_id_characters all_living_players_voted
    all_night_actions_submitted announce append_log applied apply apply_chat apply_disconnect
    apply_join apply_kick_participant apply_leave apply_night_action apply_night_pass
    apply_phase_timeout apply_presence apply_ready apply_return_to_waiting apply_set_game_preset
    apply_set_game_settings apply_set_player_limit apply_set_room_locked apply_shoot
    apply_start_game apply_start_vote apply_transfer_owner apply_vote begin_game can_shoot capped
    cast_vote chat_envelope chat_name check_token check_win clear_readiness complete_last_words
    configured_role_count dawn deal decode_rune default_rule_set disconnect_player dispatch
    drop_target duration_for durations_valid ensure_connected_owner enter_phase envelope_for_player
    erase execute_target execution expire fill_with finish fire first_connected fresh_state
    game_preset_catalog game_rules game_settings_for_preset has id_character insert insert_by
    is_control is_day_phase is_duplicate is_killer_aligned is_living is_space join_new_player
    join_new_spectator join_normalized join_player_again join_spectator_again kick_player
    last_client_sequence living_killers living_others living_player living_target log_eliminated
    lookup modify new_rule_set new_state next_owner_id night_action_for_role night_action_priority
    night_kill night_run night_step non_owners_ready normalize_participant_identity
    order_night_actions owner_connected parsed_durations pass_for_idle perform personalize phase_eq
    player_before player_view preset_eq private_player_view private_view prune_ballots prune_votes
    record_client_sequence record_investigation recorded remove_player resolve_night resolve_vote
    return_to_waiting_room returning_players returning_spectators role_deck role_eq role_revealed
    role_rule run run_night rune_count runes settings_eq shoots_now shuffle_from shuffle_roles
    snapshot sort_by sort_strings sorted_player_ids special_cards spectator_before spectator_view
    standard_game_settings start_voting state_envelope str_eq str_lt submit_night_action swap tally
    tally_of top_loop top_step top_vote_target touch trim_space use_settings valid_string
    validate_for_start_with_rule_set validate_role_configuration validate_room_constraints
    validate_with_rule_set votes_now
room = fresh_state host (text "room") default_phase_durations default_rule_set (pos 24)

unfoldable pub seated : State
unfolding room
seated = run room (
    (host, event EventType.join (text "ada"))
    ∷ (host, event EventType.join (text "bob"))
    ∷ (host, event EventType.join (text "cyd"))
    ∷ [])

unfoldable pub started : State
unfolding seated
started = run seated (
    (host, event EventType.ready (text "bob"))
    ∷ (host, event EventType.ready (text "cyd"))
    ∷ (host, event EventType.start_game (text "ada"))
    ∷ [])

started_at_night : started.phase ≡ night
unfolding started
started_at_night = refl

abbrev rejoining : List (Host × Event)
rejoining =
    (host, event EventType.join (text "ada"))
    ∷ (host, event EventType.join (text "bob"))
    ∷ (host, event EventType.start_game (text "bob"))
    ∷ []

pub room_made :
    new_state host (text "room") default_phase_durations (some default_rule_set) (pos 24)
    ≡ some room
unfolding room
room_made = refl

run-IsCoherent_example : IsCoherent (run room rejoining)
run-IsCoherent_example =
    run-IsCoherent host (text "room") default_phase_durations (some default_rule_set) (pos 24) room
      rejoining room_made

run-IsSeated_example : IsSeated (run room rejoining)
run-IsSeated_example =
    run-IsSeated host (text "room") default_phase_durations (some default_rule_set) (pos 24) room
      rejoining room_made

run-IsBalanced_example : IsBalanced (run room rejoining)
run-IsBalanced_example =
    run-IsBalanced host (text "room") default_phase_durations (some default_rule_set) (pos 24) room
      rejoining room_made

abbrev pub intrusion : Event
intrusion = event EventType.start_game (text "eve")

run-apply_error_unchanged_example :
    (apply host (run room rejoining) intrusion).0 ≡ run room rejoining
unfolding room
run-apply_error_unchanged_example =
    run-apply_error_unchanged host (text "room") default_phase_durations (some default_rule_set)
      (pos 24) room rejoining host intrusion owner_only room_made refl

abbrev pub opening : List (Host × Event)
opening =
    (host, event EventType.join (text "ada"))
    ∷ (host, event EventType.join (text "bob"))
    ∷ (host, event EventType.join (text "cyd"))
    ∷ (host, event EventType.ready (text "bob"))
    ∷ (host, event EventType.ready (text "cyd"))
    ∷ (host, event EventType.start_game (text "ada"))
    ∷ []

pub started-IsCoherent : IsCoherent started
unfolding started
started-IsCoherent =
    run-IsCoherent host (text "room") default_phase_durations (some default_rule_set) (pos 24) room
      opening room_made

run-IsPending_example : IsPending (run room opening)
run-IsPending_example =
    run-IsPending host (text "room") default_phase_durations (some default_rule_set) (pos 24) room
      opening room_made
