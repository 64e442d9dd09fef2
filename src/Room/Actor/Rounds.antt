-- ===== src/Room/Actor/Rounds.antt =====
-- The `select` of `run` in internal/room/actor.go: what the actor does with a command and with a timer
-- that has fired.
use midnight_council.Base.{
  ℕ, ◌≡◌, ◌≤◌, Bool, true, false, not, ◌&&◌, [], ◌∷◌, ◌++◌, Option, none, some, is_some,
  if◌then◌else◌, ◌==◌,
}
use midnight_council.Base.Dict.{lookup, insert, erase, modify}
use midnight_council.Text.{GoString, text, str_Eq}
use midnight_council.Room.Types.{Time, EventType}
use midnight_council.Room.Errors.{Result, ok, err, connection_replaced}
use midnight_council.Room.Host.{Host}
use midnight_council.Room.Event.{Event, Envelope}
use midnight_council.Room.State.{State}
use midnight_council.Room.State.Views.{envelope_for_player}
use midnight_council.Room.State.Apply.{apply}
use midnight_council.Room.Actor.{
  Actor, Subscription, after_reads, own_event, announced, broadcast, disconnect_participant,
  reset_phase_timer, reset_idle_timer, nobody,
}

-- `command`: an event with the id of the subscription that it comes from, or none; a participant who
-- subscribes, with the random id of the new subscription; and the end of a subscription.
pub data Command : Type 0 where
  dispatch_from : GoString → Event → Command
  subscribe : GoString → GoString → Command
  unsubscribe : GoString → Bool → Command

abbrev pub is_kick : EventType → Bool
is_kick EventType.kick_participant = true
is_kick _ = false

abbrev pub kicked_text : GoString
kicked_text = text "removed from room by the owner"

abbrev pub replaced_text : GoString
replaced_text = text "connection replaced by a newer session"

-- What the actor does after `Apply` has accepted an event.
abbrev pub kick_first : Event → Actor → Actor
kick_first e a = if is_kick e.type then disconnect_participant e.target_id kicked_text a else a

abbrev pub delivered : Host → Event → Actor → State × Result Envelope → Actor
delivered h e a (t, ok envelope) = broadcast h envelope (kick_first e (record a { room = t }))
delivered h e a (t, err x) = record a { room = t }

-- `sub, ok := subscribers[id]; !ok || sub.playerID != event.PlayerID`
abbrev pub belongs_to : GoString → Option Subscription → Bool
belongs_to player_id none = false
belongs_to player_id (some sub) = sub.player_id == player_id

unfoldable pub dispatch_event : Host → GoString → Event → Actor → Actor × Result Envelope
dispatch_event h sub_id e a =
    let outcome = apply h a.room e in
    if not (sub_id == []) && not (belongs_to e.player_id (lookup sub_id a.subscribers))
    then (a, err connection_replaced)
    else (delivered h e a outcome, outcome.1)

unfoldable pub add_subscriber : Host → GoString → GoString → Actor → Actor
add_subscriber h new_id player_id a =
    let alone = disconnect_participant player_id replaced_text a in
    record alone {
      subscribers =
          insert new_id
            (record { player_id = player_id; events = envelope_for_player h a.room player_id ∷ [] })
            alone.subscribers;
    }

unfoldable pub remove_subscriber : Host → GoString → Bool → Actor → Actor
remove_subscriber h id permanent a = elim (lookup id a.subscribers) [
  | none ↦ a
  | some sub ↦
      let type = if permanent then EventType.leave else EventType.disconnect in
      announced (broadcast h)
        (record a { subscribers = erase id a.subscribers; closed = a.closed ++ (id, sub) ∷ [] })
        (apply h a.room (own_event type sub.player_id h.now))
]

unfoldable pub obey : Host → Command → Actor → Actor
obey h (dispatch_from sub_id e) a = (dispatch_event h sub_id e a).0
obey h (subscribe new_id player_id) a = add_subscriber h new_id player_id a
obey h (unsubscribe id permanent) a = remove_subscriber h id permanent a

-- A round of the loop that begins with a command.
unfoldable pub command_round : Host → Command → Actor → Actor
command_round h c a = reset_phase_timer (reset_idle_timer h.now (obey h c a))

-- A round that begins with the phase timer.
unfoldable pub phase_round : Host → Actor → Actor
phase_round h a =
    let told =
      announced (broadcast h) a (apply h a.room (own_event EventType.phase_timeout [] h.now)) in
    let timed = reset_phase_timer told in
    if not (nobody a.subscribers) && nobody timed.subscribers
    then reset_idle_timer h.now timed
    else timed

-- A round that begins with the idle timer ends the loop, and stops both timers.
unfoldable pub idle_round : Actor → Actor
idle_round a = record a { phase_timer = none; idle_timer = none; done = true }

-- The actor before its first round.
unfoldable pub new_actor : Host → ℕ → State → Actor
new_actor h idle_timeout s = reset_phase_timer (
    reset_idle_timer h.now (record {
      room = s;
      subscribers = [];
      closed = [];
      phase_timer = none;
      idle_timer = none;
      idle_timeout = idle_timeout;
      done = false;
    }))

-- `case envelope, ok := <-events` of `writePump`: the connection with the subscription `id` takes an
-- envelope from its channel, which may be open or closed.
unfoldable pub read_event : GoString → Actor → Actor
read_event id a = record a {
  subscribers = modify id (after_reads 1) a.subscribers;
  closed =
      if is_some (lookup id a.subscribers) then a.closed else modify id (after_reads 1) a.closed;
}

-- What happens to an actor: rounds of its loop, where a timer begins one no sooner than it fires, and
-- connections that read, also once it has stopped. During a round a connection reads just before the
-- actor sends to it, as `Host` tells.
pub data Rounds : Actor → Actor → Type 0 where
  begin : {a : Actor} → Rounds a a
  command :
      {a b : Actor} (h : Host) (c : Command)
      → Rounds a b
      → b.done ≡ false
      → Rounds a (command_round h c b)
  expiry :
      {a b : Actor} (h : Host) (d : Time)
      → Rounds a b
      → b.done ≡ false
      → b.phase_timer ≡ some d
      → d ≤ h.now
      → Rounds a (phase_round h b)
  idle :
      {a b : Actor} (h : Host) (d : Time)
      → Rounds a b
      → b.done ≡ false
      → b.idle_timer ≡ some d
      → d ≤ h.now
      → Rounds a (idle_round b)
  read : {a b : Actor} (id : GoString) → Rounds a b → Rounds a (read_event id b)
