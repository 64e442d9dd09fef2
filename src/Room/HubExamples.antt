-- ===== src/Room/HubExamples.antt =====
-- A hub with a room: inputs at which the theorems on internal/room/hub.go apply.
use midnight_council.Base.{◌≡◌, ◌≤◌, ℕ, refl, true, false, List, [], ◌∷◌, some, none, arith}
use midnight_council.Text.{text, str_Eq}
use midnight_council.Room.Hub.{
  Hub, HubOption, with_max_rooms, default_hub, new_hub, hub_options, hub_option, hub_valid,
  get_or_create,
}
use midnight_council.Room.Hub.Registry.{Serves, made, access, IsRegistered}
use midnight_council.Room.Hub.Life.{Serves-IsRegistered}
use midnight_council.Room.Hub.Answers.{IsAnswer, get_or_create-IsAnswer}
use midnight_council.Room.Examples.{host, room}

abbrev options : List HubOption
options = with_max_rooms (midnight_council.Base.pos 2) ∷ []

abbrev small_hub : Hub
small_hub = record default_hub { max_rooms = midnight_council.Base.pos 2 }

small_hub-Serves : Serves options small_hub
unfolding room new_hub hub_options hub_option hub_valid default_hub
small_hub-Serves = made refl

Serves-IsRegistered_example : IsRegistered (get_or_create host (text "den") small_hub).0
Serves-IsRegistered_example =
    Serves-IsRegistered options (access host (text "den") small_hub-Serves)

get_or_create-IsAnswer_example :
    IsAnswer (text "den") small_hub (get_or_create host (text "den") small_hub)
get_or_create-IsAnswer_example = get_or_create-IsAnswer options host (text "den") small_hub-Serves
