-- ===== src/Room/State/Views.antt =====
-- What a room shows: `Snapshot`, `PrivateView`, `EnvelopeForPlayer` and `Personalize` of
-- internal/room/state.go.
use midnight_council.Base.{
  Bool, true, false, not, ◌&&◌, ◌||◌, List, [], ◌∷◌, ◌++◌, Option, none, some, ◌==◌, nat_eq,
  if◌then◌else◌, map,
}
use midnight_council.Base.Dict.{lookup}
use midnight_council.Base.Sort.{sort_by}
use midnight_council.Text.{GoString, str_Eq, str_lt}
use midnight_council.Room.Types.{
  zero_time, Phase, waiting, night, day_voting, finished, phase_Eq, no_role, Player, Spectator,
  InvestigationResult, night_action, night_pass, vote, shoot, ChatMessage,
}
use midnight_council.Room.Host.{Host}
use midnight_council.Room.Rules.{can_shoot}
use midnight_council.Room.Settings.{game_preset_catalog}
use midnight_council.Room.Event.{
  PlayerView, SpectatorView, Snapshot, PrivatePlayerView, Envelope, EnvelopeType, state, chat,
}
use midnight_council.Room.State.{
  State, game_rules, is_day_phase, has_night_action, night_action_submitted,
}

-- In the waiting room everybody counts as alive.
abbrev shown_alive : Phase → Player → Bool
shown_alive phase p = if phase == waiting then true else p.alive

-- Whether the snapshot carries the role of a player.
unfoldable pub role_revealed : State → Player → Bool
role_revealed s p =
    s.phase == finished
    || (s.game_settings.reveal_roles_on_death && not (s.phase == waiting) && not p.alive)

unfoldable pub player_view : State → Player → PlayerView
player_view s p = record {
  id = p.id;
  name = p.name;
  ready = p.ready;
  connected = p.connected;
  owner = p.id == s.owner_id;
  alive = shown_alive s.phase p;
  afk = p.afk;
  role = if role_revealed s p then p.role else no_role;
}

unfoldable pub spectator_view : Spectator → SpectatorView
spectator_view p = record { id = p.id; name = p.name; connected = p.connected; afk = p.afk }

-- The comparison of the two `sort.Slice` calls: by name, then by id.
abbrev named_before : GoString → GoString → GoString → GoString → Bool
named_before name id name' id' = if name == name' then str_lt id id' else str_lt name name'

unfoldable pub player_before : PlayerView → PlayerView → Bool
player_before a b = named_before a.name a.id b.name b.id

unfoldable pub spectator_before : SpectatorView → SpectatorView → Bool
spectator_before a b = named_before a.name a.id b.name b.id

unfoldable pub snapshot : Host → State → Snapshot
snapshot h s = record {
  room_id = s.room_id;
  owner_id = s.owner_id;
  phase = s.phase;
  phase_started_at = s.phase_started_at;
  phase_deadline = if nat_eq s.phase_deadline zero_time then none else some s.phase_deadline;
  round = s.round;
  players = sort_by player_before (map (λ e. player_view s e.1) s.players);
  spectators = sort_by spectator_before (map (λ e. spectator_view e.1) s.spectators);
  locked = s.locked;
  max_players = s.max_players;
  max_spectators = s.max_spectators;
  game_settings = s.game_settings;
  game_presets = game_preset_catalog h s.base_durations;
  last_words_id = s.last_words_id;
  result = s.result;
  log = s.log;
  updated_at = s.updated_at;
  server_time = h.now;
}

abbrev or_no_results : Option (List InvestigationResult) → List InvestigationResult
or_no_results none = []
or_no_results (some results) = results

abbrev or_blank : Option GoString → GoString
or_blank none = []
or_blank (some id) = id

-- The three tests that fill in what a player may do now.
unfoldable pub acts_at_night : State → Player → Bool
acts_at_night s p = s.phase == night && p.alive && has_night_action (game_rules s) p.role

unfoldable pub votes_now : State → Player → Bool
votes_now s p = s.phase == day_voting && p.alive

unfoldable pub shoots_now : State → Player → Bool
shoots_now s p =
    is_day_phase s.phase && p.alive && can_shoot (game_rules s) p.role && not p.shooter_used

unfoldable pub private_player_view : State → Player → PrivatePlayerView
private_player_view s p = record {
  player_id = p.id;
  reconnect_token = p.reconnect_token;
  spectator = false;
  role = if not (s.phase == waiting) then p.role else no_role;
  alive = shown_alive s.phase p;
  action_required = acts_at_night s p && not (night_action_submitted s p.id);
  available =
      (if acts_at_night s p then night_action ∷ night_pass ∷ [] else [])
      ++ (if votes_now s p then vote ∷ [] else [])
      ++ (if shoots_now s p then shoot ∷ [] else []);
  can_vote = votes_now s p;
  voted_for = if votes_now s p then or_blank (lookup p.id s.votes) else [];
  can_shoot = shoots_now s p;
  investigations = or_no_results (lookup p.id s.investigations);
}

abbrev private_spectator_view : Spectator → PrivatePlayerView
private_spectator_view p = record {
  player_id = p.id;
  reconnect_token = p.reconnect_token;
  spectator = true;
  role = no_role;
  alive = false;
  action_required = false;
  available = [];
  can_vote = false;
  voted_for = [];
  can_shoot = false;
  investigations = [];
}

unfoldable pub private_view : State → GoString → Option PrivatePlayerView
private_view s player_id = elim (lookup player_id s.players) [
  | none ↦ elim (lookup player_id s.spectators) [
    | none ↦ none
    | some spectator ↦ some (private_spectator_view spectator)
  ]
  | some player ↦ some (private_player_view s player)
]

-- `stateEnvelope`
unfoldable pub state_envelope : Snapshot → Envelope
state_envelope shown = record {
  type = state;
  snapshot = some shown;
  message = none;
  event_ack = none;
  error_text = [];
  private = none;
}

-- The envelope that `applyChat` returns.
unfoldable pub chat_envelope : ChatMessage → Envelope
chat_envelope message = record {
  type = chat;
  snapshot = none;
  message = some message;
  event_ack = none;
  error_text = [];
  private = none;
}

unfoldable pub envelope_for_player : Host → State → GoString → Envelope
unfolding state_envelope
envelope_for_player h s player_id =
    let shown = state_envelope (snapshot h s) in record shown { private = private_view s player_id }

abbrev is_state : EnvelopeType → Bool
is_state state = true
is_state _ = false

abbrev or_snapshot : Option Snapshot → Snapshot → Snapshot
or_snapshot none fallback = fallback
or_snapshot (some shown) fallback = shown

unfoldable pub personalize : Host → State → Envelope → GoString → Envelope
personalize h s envelope player_id =
    if not (is_state envelope.type) then envelope else record envelope {
      snapshot = some (or_snapshot envelope.snapshot (snapshot h s));
      private = private_view s player_id;
    }
