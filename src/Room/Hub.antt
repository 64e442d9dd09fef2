-- ===== src/Room/Hub.antt =====
-- internal/room/hub.go: the registry of the rooms. A pointer to an actor is its number in the list of
-- the actors that were made, each with the room id that it was made for.
pub mod Registry
pub mod Steps
pub mod Life
pub mod Answers
pub mod Forward
use midnight_council.Base.{
  ℕ, ◌*◌, ◌≡◌, Bool, true, false, not, ◌&&◌, ◌||◌, List, [], ◌∷◌, ◌++◌, Option, none, some, ltb,
  nat_eq, ℤ, pos, pos_part, int_lt, length, get_elem?, if◌then◌else◌,
}
use midnight_council.Base.Dict.{lookup, insert, erase}
use midnight_council.Text.{GoString, text, str_Eq}
use midnight_council.Room.Types.{Duration}
use midnight_council.Room.Host.{Host}
use midnight_council.Room.Timing.{PhaseDurations, default_phase_durations, durations_valid}
use midnight_council.Room.Rules.{RuleSet, default_rule_set}
use midnight_council.Room.State.{State, new_state}
use midnight_council.Room.Actor.{Actor}
use midnight_council.Room.Actor.Rounds.{new_actor}

-- 30 minutes
abbrev pub default_room_idle_timeout : Duration
default_room_idle_timeout = pos (30 * 60 * 1000000000)

abbrev pub default_max_rooms : ℤ
default_max_rooms = pos 1000

abbrev pub default_max_spectators : ℤ
default_max_spectators = pos 24

abbrev pub room_limit_text : GoString
room_limit_text = text "server room limit has been reached"

pub record Hub : Type 0 where
  pub rooms : List (GoString × ℕ)
  pub actors : List (GoString × Actor)
  pub idle_timeout : Duration
  pub phase_durations : PhaseDurations
  pub rule_set : Option RuleSet
  pub max_rooms : ℤ
  pub max_spectators : ℤ

-- `HubOption`
pub data HubOption : Type 0 where
  with_room_idle_timeout : Duration → HubOption
  with_phase_durations : PhaseDurations → HubOption
  with_rule_set : Option RuleSet → HubOption
  with_max_rooms : ℤ → HubOption
  with_max_spectators : ℤ → HubOption

unfoldable pub hub_option : HubOption → Hub → Hub
hub_option (HubOption.with_room_idle_timeout timeout) hub = record hub { idle_timeout = timeout }
hub_option (HubOption.with_phase_durations durations) hub = record hub {
  phase_durations = durations;
}
hub_option (HubOption.with_rule_set rules) hub = record hub { rule_set = rules }
hub_option (HubOption.with_max_rooms limit) hub = record hub { max_rooms = limit }
hub_option (HubOption.with_max_spectators limit) hub = record hub { max_spectators = limit }

unfoldable pub hub_options : List HubOption → Hub → Hub
hub_options [] hub = hub
hub_options (option ∷ options) hub = hub_options options (hub_option option hub)

unfoldable pub default_hub : Hub
default_hub = record {
  rooms = [];
  actors = [];
  idle_timeout = default_room_idle_timeout;
  phase_durations = default_phase_durations;
  rule_set = some default_rule_set;
  max_rooms = default_max_rooms;
  max_spectators = default_max_spectators;
}

abbrev has_rules : Option RuleSet → Bool
has_rules none = false
has_rules (some _) = true

-- The tests of `NewHub`, which panics where one fails.
unfoldable pub hub_valid : Hub → Bool
hub_valid hub =
    durations_valid hub.phase_durations
    && has_rules hub.rule_set
    && int_lt (pos 0) hub.max_rooms
    && int_lt (pos 0) hub.max_spectators

unfoldable pub new_hub : List HubOption → Option Hub
new_hub options =
    let hub = hub_options options default_hub in if hub_valid hub then some hub else none

-- The number of an actor, `ErrRoomLimitReached`, or a panic of `newStateWithLimits`.
pub data Access : Type 0 where
  opened : ℕ → Access
  limit_reached : Access
  panicked : Access

abbrev pub is_done : Option (GoString × Actor) → Bool
is_done none = true
is_done (some (room_id, a)) = a.done

-- `h.rooms[roomID].Closed()`
abbrev pub closed_at : Hub → ℕ → Bool
closed_at hub i = is_done (get_elem? hub.actors i)

-- The second half of `GetOrCreate`
unfoldable pub create : Host → GoString → Hub → Hub × Access
create h room_id hub =
    let fresh = length hub.actors in
    if not (int_lt (pos (length hub.rooms)) hub.max_rooms)
    then (hub, Access.limit_reached)
    else elim (new_state h room_id hub.phase_durations hub.rule_set hub.max_spectators) [
      | none ↦ (hub, Access.panicked)
      | some s ↦ (
        record hub {
          rooms = insert room_id fresh hub.rooms;
          actors = hub.actors ++ (room_id, new_actor h (pos_part hub.idle_timeout) s) ∷ [];
        },
        Access.opened fresh,
      )
    ]

unfoldable pub get_or_create : Host → GoString → Hub → Hub × Access
get_or_create h room_id hub = elim (lookup room_id hub.rooms) [
  | none ↦ create h room_id hub
  | some i ↦
      let renewed = create h room_id (record hub { rooms = erase room_id hub.rooms }) in
      if not (closed_at hub i) then (hub, Access.opened i) else renewed
]

unfoldable pub room_exists : GoString → Hub → Bool
room_exists room_id hub = elim (lookup room_id hub.rooms) [
  | none ↦ false
  | some i ↦ not (closed_at hub i)
]

unfoldable pub room_count : Hub → ℕ
room_count hub = length hub.rooms

unfoldable pub can_create_room : Hub → Bool
can_create_room hub = int_lt (pos (room_count hub)) hub.max_rooms

abbrev pub points_at : ℕ → Option ℕ → Bool
points_at i none = false
points_at i (some j) = nat_eq j i

-- `remove`, which the actor calls when its idle timer has fired.
unfoldable pub remove : GoString → ℕ → Hub → Hub
remove room_id i hub =
    if points_at i (lookup room_id hub.rooms)
    then record hub { rooms = erase room_id hub.rooms }
    else hub
