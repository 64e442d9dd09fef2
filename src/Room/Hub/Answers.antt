-- ===== src/Room/Hub/Answers.antt =====
-- What the callers of the hub of internal/room/hub.go get.
use midnight_council.Base.{
  ℕ, ◌≡◌, ◌≤◌, refl, true, false, List, some, arith, pos, pos_part, int_lt, length, get_elem?,
  Option-cases, Bool-cases, inl, inr, get_elem?-append,
}
use midnight_council.Base.Dict.{lookup, erase}
use midnight_council.Base.Dict.Laws.{lookup-insert}
use midnight_council.Text.{GoString, str_Eq, str_eq_iff}
use midnight_council.Room.Host.{Host}
use midnight_council.Room.State.{State, new_state}
use midnight_council.Room.Actor.{Actor}
use midnight_council.Room.Actor.Rounds.{new_actor}
use midnight_council.Room.Hub.{
  Hub, HubOption, Access, hub_valid, create, get_or_create, closed_at, room_exists, room_count,
}
use midnight_council.Room.Hub.Registry.{Serves}
use midnight_council.Room.Hub.Steps.{new_actor_done}
use midnight_council.Room.Hub.Life.{Serves-IsRegistered}

-- Two actors that run for the same room are the same.
pub same_actor :
    (options : List HubOption) {hub : Hub} (room_id : GoString) (i j : ℕ) (a b : Actor)
    → Serves options hub
    → get_elem? hub.actors i ≡ some (room_id, a)
    → get_elem? hub.actors j ≡ some (room_id, b)
    → a.done ≡ false
    → b.done ≡ false
    → i ≡ j
same_actor options room_id i j a b serves first second runs too = do
  let reg = Serves-IsRegistered options serves
  let at_i = reg.live room_id i a first runs
  let at_j = reg.live room_id j b second too
  ground (arith, at_i, at_j)

-- The actor at a number runs for a room, and is registered under it.
pub record IsRunning (room_id : GoString) (hub : Hub) (i : ℕ) : Type 0 where
  pub actor : Actor
  pub there : get_elem? hub.actors i ≡ some (room_id, actor)
  pub runs : actor.done ≡ false
  pub registered : lookup room_id hub.rooms ≡ some i

-- What `GetOrCreate` may answer: a running actor of the room, or, where no actor of the room runs,
-- that the limit is reached.
pub data IsAnswer (room_id : GoString) (hub : Hub) : Hub × Access → Type 0 where
  opens :
      {after : Hub} (i : ℕ)
      → IsRunning room_id after i
      → IsAnswer room_id hub (after, Access.opened i)
  refuses :
      {after : Hub}
      → room_exists room_id hub ≡ false
      → pos_part after.max_rooms ≤ room_count after
      → IsAnswer room_id hub (after, Access.limit_reached)

new_state_total :
    (h : Host) (room_id : GoString) (hub : Hub)
    → hub_valid hub ≡ true
    → (s : State) × (new_state h room_id hub.phase_durations hub.rule_set hub.max_spectators
        ≡ some s)
unfolding hub_valid new_state
new_state_total h room_id hub valid = do
  let start = new_state h room_id hub.phase_durations hub.rule_set hub.max_spectators
  elim (Option-cases start) [
    | inl panics ↦ absurd (ground (arith, valid, panics))
    | inr found ↦ found
  ]

create-IsAnswer :
    (h : Host) (room_id : GoString) (hub before : Hub)
    → hub_valid hub ≡ true
    → room_exists room_id before ≡ false
    → IsAnswer room_id before (create h room_id hub)
unfolding create room_count
create-IsAnswer h room_id hub before valid absent =
    elim (Bool-cases (int_lt (pos (length hub.rooms)) hub.max_rooms)) [
      | inr full ↦ rw (create, full) (IsAnswer.refuses absent (ground (arith, full)))
      | inl space ↦ do
        let (s, started) = new_state_total h room_id hub valid
        let a = new_actor h (pos_part hub.idle_timeout) s
        rw (create, space, started)
            (IsAnswer.opens (length hub.actors) (record {
              actor = a;
              there = ground (arith, get_elem?-append hub.actors (room_id, a) (length hub.actors));
              runs = new_actor_done h (pos_part hub.idle_timeout) s;
              registered = ground (
                arith,
                lookup-insert room_id room_id (length hub.actors) hub.rooms,
                str_eq_iff room_id room_id,
              );
            }))
    ]

-- In any state of a hub that `NewHub` has made, `GetOrCreate` does not panic: it answers with an actor
-- that runs and is registered for the room, or with the error of the limit, and then no actor of the
-- room was running and the hub has as many rooms as the limit.
pub get_or_create-IsAnswer :
    (options : List HubOption) {hub : Hub} (h : Host) (room_id : GoString)
    → Serves options hub
    → IsAnswer room_id hub (get_or_create h room_id hub)
unfolding get_or_create room_exists hub_valid
get_or_create-IsAnswer options {hub} h room_id serves = do
  let reg = Serves-IsRegistered options serves
  elim (Option-cases (lookup room_id hub.rooms)) [
    | inl missing ↦
        rw (get_or_create, missing)
          (create-IsAnswer h room_id hub hub reg.valid (rw (room_exists, missing) refl))
    | inr (i, found) ↦ do
      let (a, there) = reg.known room_id i found
      elim (Bool-cases (closed_at hub i)) [
        | inr running ↦
            rw (get_or_create, found, running)
              (IsAnswer.opens i (record {
                actor = a;
                there = there;
                runs = ground (arith, there, running);
                registered = found;
              }))
        | inl closed ↦
            rw (get_or_create, found, closed)
              (create-IsAnswer h room_id (record hub { rooms = erase room_id hub.rooms }) hub
                reg.valid (rw (room_exists, found, closed) refl))
      ]
  ]
