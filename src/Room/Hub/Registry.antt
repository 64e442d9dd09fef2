-- ===== src/Room/Hub/Registry.antt =====
-- The life of a hub of internal/room/hub.go, and what its registry holds.
use midnight_council.Base.{ℕ, ◌≡◌, ◌≤◌, true, false, List, some, pos_part, get_elem?, set}
use midnight_council.Base.Dict.{lookup}
use midnight_council.Base.Dict.Laws.{Distinct}
use midnight_council.Text.{GoString, str_Eq}
use midnight_council.Room.Host.{Host}
use midnight_council.Room.Actor.{Actor}
use midnight_council.Room.Actor.Rounds.{Rounds}
use midnight_council.Room.Hub.{
  Hub, HubOption, new_hub, hub_valid, get_or_create, remove, room_count,
}

-- The life of a hub: rooms are looked up or created, actors go through rounds, and an actor that has
-- stopped has itself removed, at once or later.
pub data Serves (options : List HubOption) : Hub → Type 0 where
  made : {hub : Hub} → new_hub options ≡ some hub → Serves options hub
  access :
      {hub : Hub} (h : Host) (room_id : GoString)
      → Serves options hub
      → Serves options (get_or_create h room_id hub).0
  play :
      {hub : Hub} (i : ℕ) (room_id : GoString) (a b : Actor)
      → Serves options hub
      → get_elem? hub.actors i ≡ some (room_id, a)
      → Rounds a b
      → Serves options (record hub { actors = set hub.actors i (room_id, b) })
  removal :
      {hub : Hub} (i : ℕ) (room_id : GoString) (a : Actor)
      → Serves options hub
      → get_elem? hub.actors i ≡ some (room_id, a)
      → a.done ≡ true
      → Serves options (remove room_id i hub)

-- What a hub that is there goes through, in the same steps.
pub data Continues (start : Hub) : Hub → Type 0 where
  stays : Continues start start
  accesses :
      {hub : Hub} (h : Host) (room_id : GoString)
      → Continues start hub
      → Continues start (get_or_create h room_id hub).0
  plays :
      {hub : Hub} (i : ℕ) (room_id : GoString) (a b : Actor)
      → Continues start hub
      → get_elem? hub.actors i ≡ some (room_id, a)
      → Rounds a b
      → Continues start (record hub { actors = set hub.actors i (room_id, b) })
  removes :
      {hub : Hub} (i : ℕ) (room_id : GoString) (a : Actor)
      → Continues start hub
      → get_elem? hub.actors i ≡ some (room_id, a)
      → a.done ≡ true
      → Continues start (remove room_id i hub)

pub record IsRegistered (hub : Hub) : Type 0 where
  pub valid : hub_valid hub ≡ true
  pub keys : Distinct hub.rooms
  pub within : room_count hub ≤ pos_part hub.max_rooms
  -- a registered number is that of an actor of the room
  pub known :
      (room_id : GoString) (i : ℕ)
      → lookup room_id hub.rooms ≡ some i
      → (a : Actor) × (get_elem? hub.actors i ≡ some (room_id, a))
  -- an actor that runs is registered under its room
  pub live :
      (room_id : GoString) (i : ℕ) (a : Actor)
      → get_elem? hub.actors i ≡ some (room_id, a)
      → a.done ≡ false
      → lookup room_id hub.rooms ≡ some i
