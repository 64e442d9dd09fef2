-- ===== src/Room/Hub/Steps.antt =====
-- The operations of internal/room/hub.go, one by one, on what the registry holds.
use midnight_council.Base.{
  ℕ, ◌+◌, ◌≡◌, refl, true, false, List, [], ◌∷◌, ◌++◌, none, some, arith, nat_eq, pos, pos_part,
  int_lt, length, get_elem?, set, Option-cases, Bool-cases, inl, inr, get_elem?-append,
  get_elem?-set, ◌==◌, get_elem?-below,
}
use midnight_council.Base.Dict.{lookup, insert, erase}
use midnight_council.Base.Dict.Laws.{
  lookup-insert, lookup-erase, insert-Distinct, erase-Distinct, length-insert, length-erase,
}
use midnight_council.Text.{GoString, str_Eq, str_eq_iff}
use midnight_council.Room.Host.{Host}
use midnight_council.Room.State.{State, new_state}
use midnight_council.Room.Actor.{Actor, reset_phase_timer, reset_idle_timer}
use midnight_council.Room.Actor.Rounds.{Rounds, new_actor, read_event}
use midnight_council.Room.Hub.{
  Hub, hub_valid, create, get_or_create, remove, points_at, closed_at, room_count,
}
use midnight_council.Room.Hub.Registry.{IsRegistered}

Rounds-done : {a b : Actor} → Rounds a b → a.done ≡ true → b.done ≡ true
unfolding read_event
Rounds-done Rounds.begin h = h
Rounds-done (Rounds.command host c before runs) h = cc (Rounds-done before h, runs)
Rounds-done (Rounds.expiry host d before runs timer late) h = cc (Rounds-done before h, runs)
Rounds-done (Rounds.idle host d before runs timer late) h = cc (Rounds-done before h, runs)
Rounds-done (Rounds.read id before) h = Rounds-done before h

pub new_actor_done : (h : Host) (timeout : ℕ) (s : State) → (new_actor h timeout s).done ≡ false
unfolding new_actor reset_phase_timer reset_idle_timer
new_actor_done h timeout s = refl

length-erase_found :
    (room_id : GoString) (i : ℕ) (rooms : List (GoString × ℕ))
    → lookup room_id rooms ≡ some i
    → length (erase room_id rooms) + 1 ≡ length rooms
unfolding lookup erase
length-erase_found room_id i [] h = cc
length-erase_found room_id i ((k, j) ∷ rooms) h = ground (arith, length-erase_found room_id i rooms)

-- Without the room of an actor that has stopped.
pub erased-IsRegistered :
    (room_id : GoString) (i : ℕ) (hub : Hub)
    → lookup room_id hub.rooms ≡ some i
    → closed_at hub i ≡ true
    → IsRegistered hub
    → IsRegistered (record hub { rooms = erase room_id hub.rooms })
unfolding room_count hub_valid
erased-IsRegistered room_id i hub found closed h = record {
  valid = h.valid;
  keys = erase-Distinct room_id hub.rooms h.keys;
  within = omega (arith, length-erase room_id hub.rooms, h.within);
  known = λ r j registered.
      h.known r j
        (ground (arith, str_eq_iff room_id r, lookup-erase room_id r hub.rooms h.keys, registered));
  live = λ r j a there runs. do
    let before = h.live r j a there runs
    ground (
      arith,
      str_eq_iff room_id r,
      lookup-erase room_id r hub.rooms h.keys,
      before,
      found,
      closed,
      there,
      runs,
    );
}

pub entered-IsRegistered :
    (room_id : GoString) (a : Actor) (hub : Hub)
    → lookup room_id hub.rooms ≡ none
    → int_lt (pos (length hub.rooms)) hub.max_rooms ≡ true
    → a.done ≡ false
    → IsRegistered hub
    → IsRegistered (record hub {
      rooms = insert room_id (length hub.actors) hub.rooms;
      actors = hub.actors ++ (room_id, a) ∷ [];
    })
unfolding hub_valid room_count
entered-IsRegistered room_id a hub missing space running reg = record {
  valid = reg.valid;
  keys = insert-Distinct room_id (length hub.actors) hub.rooms reg.keys;
  within = ground (arith, length-insert room_id (length hub.actors) hub.rooms, space);
  known = λ r j registered. do
    let entered = lookup-insert room_id r (length hub.actors) hub.rooms
    let added = get_elem?-append hub.actors (room_id, a) j
    elim (Bool-cases (room_id == r)) [
      | inl same ↦ (a, ground (arith, str_eq_iff room_id r, entered, added, same, registered))
      | inr other ↦ do
        let (c, before) = reg.known r j (ground (arith, entered, other, registered))
        (c, ground (arith, get_elem?-below hub.actors j (r, c) before, added, before))
    ];
  live = λ r j c there runs. ground (
    arith,
    str_eq_iff room_id r,
    lookup-insert room_id r (length hub.actors) hub.rooms,
    get_elem?-append hub.actors (room_id, a) j,
    there,
    missing,
    reg.live r j c,
    runs,
  );
}

pub created-IsRegistered :
    (h : Host) (room_id : GoString) (hub : Hub)
    → lookup room_id hub.rooms ≡ none
    → IsRegistered hub
    → IsRegistered (create h room_id hub).0
unfolding create
created-IsRegistered h room_id hub missing reg =
    elim (Bool-cases (int_lt (pos (length hub.rooms)) hub.max_rooms)) [
      | inr full ↦ rw (create, full) reg
      | inl space ↦ do
        let start = new_state h room_id hub.phase_durations hub.rule_set hub.max_spectators
        elim (Option-cases start) [
          | inl panics ↦ rw (create, space, panics) reg
          | inr (s, started) ↦
              rw (create, space, started)
                (entered-IsRegistered room_id _ hub missing space
                  (new_actor_done h (pos_part hub.idle_timeout) s) reg)
        ]
    ]

pub played-IsRegistered :
    (hub : Hub) (i : ℕ) (room_id : GoString) (a b : Actor)
    → get_elem? hub.actors i ≡ some (room_id, a)
    → Rounds a b
    → IsRegistered hub
    → IsRegistered (record hub { actors = set hub.actors i (room_id, b) })
unfolding hub_valid room_count
played-IsRegistered hub i room_id a b there rounds reg = record {
  valid = reg.valid;
  keys = reg.keys;
  within = reg.within;
  known = λ r j registered. do
    let (c, before) = reg.known r j registered
    let written = get_elem?-set hub.actors i j (room_id, b) (room_id, a) there
    elim (Bool-cases (nat_eq i j)) [
      | inl same ↦ (b, ground (arith, written, same, before, there))
      | inr other ↦ (c, ground (arith, written, other, before))
    ];
  live = λ r j c now_there runs. do
    let written = get_elem?-set hub.actors i j (room_id, b) (room_id, a) there
    elim (Bool-cases a.done) [
      | inl stopped ↦
          ground (arith, written, now_there, runs, Rounds-done rounds stopped, reg.live r j c)
      | inr running ↦
          ground
            (arith, written, now_there, runs, reg.live room_id i a there running, reg.live r j c)
    ];
}

pub removed-IsRegistered :
    (hub : Hub) (i : ℕ) (room_id : GoString) (a : Actor)
    → get_elem? hub.actors i ≡ some (room_id, a)
    → a.done ≡ true
    → IsRegistered hub
    → IsRegistered (remove room_id i hub)
unfolding remove
removed-IsRegistered hub i room_id a there stopped reg =
    elim (Bool-cases (points_at i (lookup room_id hub.rooms))) [
      | inr other ↦ rw (remove, other) reg
      | inl points ↦ do
        let found : lookup room_id hub.rooms ≡ some i = ground (arith, points)
        rw (remove, points)
            (erased-IsRegistered room_id i hub found (ground (arith, there, stopped)) reg)
    ]

pub got-IsRegistered :
    (h : Host) (room_id : GoString) (hub : Hub)
    → IsRegistered hub
    → IsRegistered (get_or_create h room_id hub).0
unfolding get_or_create
got-IsRegistered h room_id hub reg = elim (Option-cases (lookup room_id hub.rooms)) [
  | inl missing ↦ rw (get_or_create, missing) (created-IsRegistered h room_id hub missing reg)
  | inr (i, found) ↦ elim (Bool-cases (closed_at hub i)) [
    | inr running ↦ rw (get_or_create, found, running) reg
    | inl closed ↦
        rw (get_or_create, found, closed)
          (created-IsRegistered h room_id (record hub { rooms = erase room_id hub.rooms })
            (ground
              (arith, str_eq_iff room_id room_id, lookup-erase room_id room_id hub.rooms reg.keys))
            (erased-IsRegistered room_id i hub found closed reg))
  ]
]
