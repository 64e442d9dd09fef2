-- ===== src/Room/Hub/Life.antt =====
-- What holds of the registry of internal/room/hub.go, whatever rooms open, play and close.
use midnight_council.Base.{◌≡◌, refl, subst, true, List, [], ◌∷◌, some, arith, Bool-cases, inl, inr}
use midnight_council.Base.Dict.{lookup}
use midnight_council.Text.{str_Eq}
use midnight_council.Room.Hub.{
  Hub, HubOption, new_hub, hub_options, hub_option, hub_valid, default_hub, room_count,
}
use midnight_council.Room.Hub.Registry.{Serves, IsRegistered}
use midnight_council.Room.Hub.Steps.{played-IsRegistered, removed-IsRegistered, got-IsRegistered}

hub_option_empty :
    (option : HubOption) (hub : Hub)
    → ((hub_option option hub).rooms ≡ hub.rooms) × ((hub_option option hub).actors ≡ hub.actors)
unfolding hub_option
hub_option_empty option hub = ground arith

hub_options_empty :
    (options : List HubOption) (hub : Hub)
    → ((hub_options options hub).rooms ≡ hub.rooms)
      × ((hub_options options hub).actors ≡ hub.actors)
unfolding hub_options
hub_options_empty [] hub = (refl, refl)
hub_options_empty (option ∷ options) hub =
    ground (arith, hub_option_empty option hub, hub_options_empty options (hub_option option hub))

empty-IsRegistered :
    (hub : Hub) → hub.rooms ≡ [] → hub.actors ≡ [] → hub_valid hub ≡ true → IsRegistered hub
unfolding room_count lookup
empty-IsRegistered hub no_rooms no_actors valid = record {
  valid = valid;
  keys = rw no_rooms tt;
  within = ground (arith, no_rooms);
  known = λ r i registered. absurd (ground (arith, no_rooms, registered));
  live = λ r i a there runs. absurd (ground (arith, no_actors, there));
}

made-IsRegistered :
    (options : List HubOption) (hub : Hub) → new_hub options ≡ some hub → IsRegistered hub
unfolding new_hub default_hub
made-IsRegistered options hub start = do
  let configured = hub_options options default_hub
  let (rooms, actors) = hub_options_empty options default_hub
  elim (Bool-cases (hub_valid configured)) [
    | inr invalid ↦ absurd (ground (arith, start, invalid))
    | inl valid ↦ do
      let same : configured ≡ hub = ground (arith, start, valid)
      subst IsRegistered same (empty-IsRegistered configured rooms actors valid)
  ]

-- In any hub that `NewHub` has made, whatever rooms are asked for, whatever the actors go through, and
-- however late an actor that has stopped has itself removed: no room is registered twice, there are no
-- more than the limit, each is registered with an actor that was made for it, and an actor that runs is
-- the one registered for its room.
pub Serves-IsRegistered :
    (options : List HubOption) {hub : Hub} → Serves options hub → IsRegistered hub
Serves-IsRegistered options (Serves.made {hub} start) = made-IsRegistered options hub start
Serves-IsRegistered options (Serves.access h room_id before) =
    got-IsRegistered h room_id _ (Serves-IsRegistered options before)
Serves-IsRegistered options (Serves.play i room_id a b before there rounds) =
    played-IsRegistered _ i room_id a b there rounds (Serves-IsRegistered options before)
Serves-IsRegistered options (Serves.removal i room_id a before there stopped) =
    removed-IsRegistered _ i room_id a there stopped (Serves-IsRegistered options before)
