-- ===== src/Room/Moves.antt =====
-- What an event may do to a room: a step relation between the states before and after `Apply`
-- (internal/room/state.go), with the guards under which the code takes each step.
pub mod Seating
pub mod Playing
pub mod Ruling
pub mod Dispatch
use midnight_council.Base.{
  ℕ, ℤ, pos, int_lt, ◌≡◌, ◌≢◌, ◌⊎◌, Bool, true, false, List, [], none, some, length, ◌≤◌, ltb,
}
use midnight_council.Base
use midnight_council.Text
use midnight_council.Base.Dict.{lookup, insert, erase, modify}
use midnight_council.Text.{GoString, str_Eq, trim_space}
use midnight_council.Room.Types.{
  Time, waiting, night, day_discussion, day_voting, last_words, finished, Role, Player, Spectator,
  NightAction, NightActionType, pass, phase_timed_out,
}
use midnight_council.Room.Errors.{ok}
use midnight_council.Room.Host.{Host}
use midnight_council.Room.Identity.{normalize_participant_identity}
use midnight_council.Room.Timing.{PhaseDurations, durations_valid}
use midnight_council.Room.Rules.{NightActionRule, night_action_for_role, role_deck, can_shoot}
use midnight_council.Room.Settings.{
  GameSettings, min_players_to_start, max_players_allowed, validate_for_start_with_rule_set,
}
use midnight_council.Room.Event.{Event}
use midnight_council.Room.State.{
  State, game_rules, touch, start_voting, living_player, living_target, is_day_phase, append_log,
  blank_entry,
}
use midnight_council.Room.State.Night.{resolve_night, pass_for_idle}
use midnight_council.Room.State.Vote.{resolve_vote, complete_last_words, abstain_for_idle}
use midnight_council.Room.State.Seats.{
  new_player, new_spectator, ensure_connected_owner, remove_player,
}
use midnight_council.Room.State.Game.{
  shuffle_roles, begin_game, submit_night_action, cast_vote, fire, after_shot,
}
use midnight_council.Room.State.Admin.{in_game, kick_player, use_settings, return_to_waiting_room}

-- A write to a player that leaves the id and the part in the game alone.
pub record Keeps (f : Player → Player) : Type 0 where
  pub same_id : (p : Player) → (f p).id ≡ p.id
  pub same_role : (p : Player) → (f p).role ≡ p.role
  pub same_alive : (p : Player) → (f p).alive ≡ p.alive
  pub same_shot : (p : Player) → (f p).shooter_used ≡ p.shooter_used

abbrev pub KeepsSpectator : (Spectator → Spectator) → Type 0
KeepsSpectator f = (p : Spectator) → (f p).id ≡ p.id

-- The log entry that a timeout writes before it acts.
abbrev pub timed_out : Event → State → State
timed_out e s = append_log phase_timed_out e.at (record blank_entry { phase = some s.phase }) s

abbrev pub IsExpired : Event → State → Type 0
IsExpired e s = (s.phase_deadline ≢ 0) × (s.phase_deadline ≤ e.at)

pub data Move (h : Host) (e : Event) (s : State) : State → Type 0 where
  stay : Move h e s s
  refresh : Move h e s (touch e.at s)
  edit_player :
      (id : GoString) (f : Player → Player)
      → Keeps f
      → Move h e s (touch e.at (record s { players = modify id f s.players }))
  reown_player :
      (id : GoString) (f : Player → Player)
      → Keeps f
      → Move h e s
          (touch e.at (ensure_connected_owner (record s { players = modify id f s.players })))
  edit_spectator :
      (id : GoString) (f : Spectator → Spectator)
      → KeepsSpectator f
      → Move h e s (touch e.at (record s { spectators = modify id f s.spectators }))
  seat_player :
      (id name token : GoString)
      → normalize_participant_identity e.player_id e.player_name ≡ ok (id, name)
      → lookup id s.players ≡ none
      → lookup id s.spectators ≡ none
      → s.locked ≡ false
      → s.phase ≡ waiting
      → int_lt (pos (length s.players)) s.max_players ≡ true
      → Move h e s (
          touch e.at (record s {
            players =
                insert id
                  (new_player (record e { player_id = id; player_name = name }) token)
                  s.players;
            owner_id = Base.if◌then◌else◌ (Text.str_eq s.owner_id []) id s.owner_id;
          }))
  seat_spectator :
      (id name token : GoString)
      → normalize_participant_identity e.player_id e.player_name ≡ ok (id, name)
      → lookup id s.players ≡ none
      → lookup id s.spectators ≡ none
      → s.locked ≡ false
      → int_lt (pos (length s.spectators)) s.max_spectators ≡ true
      → Move h e s (
          touch e.at (record s {
            spectators =
                insert id
                  (new_spectator (record e { player_id = id; player_name = name }) token)
                  s.spectators;
          }))
  unseat_player :
      (p : Player)
      → lookup e.player_id s.players ≡ some p
      → s.phase ≡ waiting
      → Move h e s (touch e.at (remove_player e.player_id s))
  unseat_spectator :
      (id : GoString) → Move h e s (touch e.at (record s { spectators = erase id s.spectators }))
  begin :
      (d : PhaseDurations) (roles : List Role)
      → s.phase ≡ waiting
      → e.player_id ≡ s.owner_id
      → validate_for_start_with_rule_set h s.game_settings s.max_players s.base_durations
          (game_rules s)
        ≡ ok d
      → int_lt (pos (length s.players)) s.game_settings.minimum_players ≡ false
      → shuffle_roles h (role_deck (game_rules s) (length s.players) s.game_settings.roles)
        ≡ ok roles
      → Move h e s (touch e.at (begin_game d roles e s))
  submit :
      (p : Player) (rule : NightActionRule) (target : GoString) (type : NightActionType)
      → s.phase ≡ night
      → living_player s e.player_id ≡ ok p
      → night_action_for_role (game_rules s) p.role ≡ some rule
      → Move h e s (
          touch e.at (
            submit_night_action e.at
              (record { player_id = p.id; target_id = target; type = type })
              s))
  open_vote :
      s.phase ≡ day_discussion
      → e.player_id ≡ s.owner_id
      → Move h e s (touch e.at (start_voting e.at e.player_id s))
  ballot :
      (p : Player) (target : GoString)
      → s.phase ≡ day_voting
      → living_player s e.player_id ≡ ok p
      → Move h e s (touch e.at (cast_vote e.at p.id target s))
  fired :
      (p q : Player)
      → is_day_phase s.phase ≡ true
      → living_player s e.player_id ≡ ok p
      → can_shoot (game_rules s) p.role ≡ true
      → p.shooter_used ≡ false
      → living_target s e.target_id ≡ ok q
      → q.id ≢ p.id
      → Move h e s (touch e.at (after_shot e.at (fire e p q s)))
  hand_over :
      (p : Player)
      → e.player_id ≡ s.owner_id
      → lookup (trim_space e.target_id) s.players ≡ some p
      → p.connected ≡ true
      → Move h e s (touch e.at (record s { owner_id = p.id }))
  kick :
      (id : GoString) (p : Player)
      → e.player_id ≡ s.owner_id
      → in_game s ≡ false
      → id ≢ s.owner_id
      → lookup id s.players ≡ some p
      → Move h e s (touch e.at (kick_player id s))
  lock : e.player_id ≡ s.owner_id → Move h e s (touch e.at (record s { locked = e.locked }))
  limit :
      e.player_id ≡ s.owner_id
      → in_game s ≡ false
      → int_lt e.max_players (pos min_players_to_start) ≡ false
      → int_lt (pos max_players_allowed) e.max_players ≡ false
      → int_lt e.max_players (pos (length s.players)) ≡ false
      → int_lt e.max_players s.game_settings.minimum_players ≡ false
      → Move h e s (touch e.at (record s { max_players = e.max_players }))
  configure :
      (g : GameSettings) (d : PhaseDurations)
      → e.player_id ≡ s.owner_id
      → in_game s ≡ false
      → durations_valid d ≡ true
      → Move h e s (touch e.at (use_settings g d s))
  return :
      e.player_id ≡ s.owner_id
      → s.phase ≢ waiting
      → Move h e s (touch e.at (return_to_waiting_room e s))
  night_ends :
      s.phase ≡ night
      → IsExpired e s
      → Move h e s (
          touch e.at (
            resolve_night e.at (record (timed_out e s) {
              night_actions = pass_for_idle (game_rules s) s.players s.night_actions;
            })))
  talk_ends :
      s.phase ≡ day_discussion
      → IsExpired e s
      → Move h e s (touch e.at (start_voting e.at [] (timed_out e s)))
  vote_ends :
      s.phase ≡ day_voting
      → IsExpired e s
      → Move h e s (
          touch e.at (
            resolve_vote e.at
              (record (timed_out e s) { votes = abstain_for_idle s.players s.votes })))
  words_end :
      s.phase ≡ last_words
      → IsExpired e s
      → Move h e s (touch e.at (complete_last_words e.at (timed_out e s)))
