-- ===== src/Room/Hub/Forward.antt =====
-- From one state of a hub of internal/room/hub.go to a later one.
use midnight_council.Base.{
  ℕ, ◌≡◌, inl, inr, List, [], ◌∷◌, ◌++◌, some, get_elem?, set, arith, int_lt, pos, length, nat_eq,
  Bool-cases, Option-cases, get_elem?-append, get_elem?-below, get_elem?-set,
}
use midnight_council.Base.Dict.{lookup, erase}
use midnight_council.Text.{GoString, str_Eq}
use midnight_council.Room.Host.{Host}
use midnight_council.Room.State.{new_state}
use midnight_council.Room.Actor.{Actor}
use midnight_council.Room.Hub.{Hub, HubOption, create, get_or_create, remove, points_at, closed_at}
use midnight_council.Room.Hub.Registry.{Serves, Continues}

pub Continues-Serves :
    (options : List HubOption) {start hub : Hub}
    → Serves options start
    → Continues start hub
    → Serves options hub
Continues-Serves options serves Continues.stays = serves
Continues-Serves options serves (Continues.accesses h room_id before) =
    Serves.access h room_id (Continues-Serves options serves before)
Continues-Serves options serves (Continues.plays i room_id a b before there rounds) =
    Serves.play i room_id a b (Continues-Serves options serves before) there rounds
Continues-Serves options serves (Continues.removes i room_id a before there stopped) =
    Serves.removal i room_id a (Continues-Serves options serves before) there stopped

-- An actor made for a room stands at a number.
abbrev pub IsMadeAt : GoString → ℕ → Hub → Type 0
IsMadeAt room_id i hub = (a : Actor) × (get_elem? hub.actors i ≡ some (room_id, a))

kept_below :
    (actors : List (GoString × Actor)) (i : ℕ) (x y : GoString × Actor)
    → get_elem? actors i ≡ some x
    → get_elem? (actors ++ y ∷ []) i ≡ some x
kept_below actors i x y there =
    ground (arith, there, get_elem?-below actors i x there, get_elem?-append actors y i)

created-IsMadeAt :
    (h : Host) (asked : GoString) (hub : Hub) (room_id : GoString) (i : ℕ)
    → IsMadeAt room_id i hub
    → IsMadeAt room_id i (create h asked hub).0
unfolding create
created-IsMadeAt h asked hub room_id i (a, there) = do
  let start = new_state h asked hub.phase_durations hub.rule_set hub.max_spectators
  elim (Bool-cases (int_lt (pos (length hub.rooms)) hub.max_rooms)) [
    | inr full ↦ rw (create, full) (a, there)
    | inl space ↦ elim (Option-cases start) [
      | inl panics ↦ rw (create, space, panics) (a, there)
      | inr (s, started) ↦ rw (create, space, started) (a, kept_below hub.actors i _ _ there)
    ]
  ]

got-IsMadeAt :
    (h : Host) (asked : GoString) (hub : Hub) (room_id : GoString) (i : ℕ)
    → IsMadeAt room_id i hub
    → IsMadeAt room_id i (get_or_create h asked hub).0
unfolding get_or_create
got-IsMadeAt h asked hub room_id i there = elim (Option-cases (lookup asked hub.rooms)) [
  | inl missing ↦ rw (get_or_create, missing) (created-IsMadeAt h asked hub room_id i there)
  | inr (j, found) ↦ elim (Bool-cases (closed_at hub j)) [
    | inr running ↦ rw (get_or_create, found, running) there
    | inl closed ↦
        rw (get_or_create, found, closed)
          (created-IsMadeAt h asked (record hub { rooms = erase asked hub.rooms }) room_id i there)
  ]
]

removed-IsMadeAt :
    (hub : Hub) (j : ℕ) (asked room_id : GoString) (i : ℕ)
    → IsMadeAt room_id i hub
    → IsMadeAt room_id i (remove asked j hub)
unfolding remove
removed-IsMadeAt hub j asked room_id i there =
    elim (Bool-cases (points_at j (lookup asked hub.rooms))) [
      | inl points ↦ rw (remove, points) there
      | inr other ↦ rw (remove, other) there
    ]

pub played-IsMadeAt :
    (hub : Hub) (j : ℕ) (asked : GoString) (a b : Actor) (room_id : GoString) (i : ℕ)
    → get_elem? hub.actors j ≡ some (asked, a)
    → IsMadeAt room_id i hub
    → IsMadeAt room_id i (record hub { actors = set hub.actors j (asked, b) })
played-IsMadeAt hub j asked a b room_id i here (c, there) = do
  let written = get_elem?-set hub.actors j i (asked, b) (asked, a) here
  elim (Bool-cases (nat_eq j i)) [
    | inl same ↦ (b, ground (arith, written, same, here, there))
    | inr other ↦ (c, ground (arith, written, other, there))
  ]

pub Continues-IsMadeAt :
    (room_id : GoString) (i : ℕ) {start hub : Hub}
    → IsMadeAt room_id i start
    → Continues start hub
    → IsMadeAt room_id i hub
Continues-IsMadeAt room_id i there Continues.stays = there
Continues-IsMadeAt room_id i there (Continues.accesses {hub} h asked before) =
    got-IsMadeAt h asked hub room_id i (Continues-IsMadeAt room_id i there before)
Continues-IsMadeAt room_id i there (Continues.plays {hub} j asked a b before here rounds) =
    played-IsMadeAt hub j asked a b room_id i here (Continues-IsMadeAt room_id i there before)
Continues-IsMadeAt room_id i there (Continues.removes {hub} j asked a before here stopped) =
    removed-IsMadeAt hub j asked room_id i (Continues-IsMadeAt room_id i there before)
