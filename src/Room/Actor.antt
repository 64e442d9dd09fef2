-- ===== src/Room/Actor.antt =====
-- internal/room/actor.go: the loop that owns a room, `run`, one round at a time. A channel is the list
-- of the envelopes that wait in it; a timer is the time at which it fires.
pub mod Rounds
pub mod Client
pub mod Delivery
pub mod Life
pub mod Reach
pub mod Sessions
use midnight_council.Base.{
  ℕ, zero, suc, ◌+◌, Bool, true, false, not, ◌&&◌, ◌||◌, List, [], ◌∷◌, ◌++◌, Option, none, some,
  ltb, drop, nat_eq, if◌then◌else◌, length, ◌==◌,
}
use midnight_council.Base.Dict.{lookup, insert, erase}
use midnight_council.Text.{GoString, text, str_Eq}
use midnight_council.Room.Types
use midnight_council.Room.Types.{Time, zero_time, EventType}
use midnight_council.Room.Errors.{Result, ok, err, Error, connection_replaced}
use midnight_council.Room.Host.{Host}
use midnight_council.Room.Settings.{GameSettings}
use midnight_council.Room.Event.{Event, Envelope, error}
use midnight_council.Room.State.{State}
use midnight_council.Room.State.Views.{envelope_for_player, personalize}
use midnight_council.Room.State.Apply.{apply}

-- The capacity of a subscription's channel.
abbrev pub capacity : ℕ
capacity = 16

pub record Subscription : Type 0 where
  pub player_id : GoString
  pub events : List Envelope

abbrev pub Subscribers : Type 0
Subscribers = List (GoString × Subscription)

-- The variables of `run`. `closed` are the channels that the actor has closed, with what is left in
-- them; `done` is the channel that tells that the actor has stopped.
pub record Actor : Type 0 where
  pub room : State
  pub subscribers : Subscribers
  pub closed : Subscribers
  pub phase_timer : Option Time
  pub idle_timer : Option Time
  pub idle_timeout : ℕ
  pub done : Bool

-- `sub.events <- envelope`, where there is room.
abbrev pub enqueue : Envelope → Subscription → Subscription
enqueue envelope sub = record sub { events = sub.events ++ envelope ∷ [] }

abbrev pub has_space : Subscription → Bool
has_space sub = ltb (length sub.events) capacity

-- The channel after its connection has taken some envelopes from it, the oldest first.
abbrev pub after_reads : ℕ → Subscription → Subscription
after_reads n sub = record sub { events = drop n sub.events }

-- The first loop of `broadcast`: who keeps up, and who is dropped. `cause` is the subscription that was
-- dropped, where this is a broadcast of its disconnection.
unfoldable pub keep_up : Host → GoString → State → Envelope → Subscribers → Subscribers
keep_up h cause s envelope [] = []
keep_up h cause s envelope ((id, before) ∷ rest) =
    let sub = after_reads (h.reads cause id) before in
    let kept = keep_up h cause s envelope rest in
    if has_space sub
    then (id, enqueue (personalize h s envelope sub.player_id) sub) ∷ kept
    else kept

unfoldable pub fall_behind : Host → GoString → Subscribers → Subscribers
fall_behind h cause [] = []
fall_behind h cause ((id, before) ∷ rest) =
    let sub = after_reads (h.reads cause id) before in
    let dropped = fall_behind h cause rest in if has_space sub then dropped else (id, sub) ∷ dropped

abbrev no_settings : GameSettings
no_settings = record {
  preset = midnight_council.Room.Settings.GamePreset.no_preset;
  night_duration = [];
  day_discussion_duration = [];
  day_voting_duration = [];
  last_words_duration = [];
  minimum_players = midnight_council.Base.pos 0;
  reveal_roles_on_death = false;
  roles = record {
    killers = midnight_council.Base.pos 0;
    detectives = midnight_council.Base.pos 0;
    doctors = midnight_council.Base.pos 0;
    escorts = midnight_council.Base.pos 0;
    shooters = midnight_council.Base.pos 0;
  };
}

-- `Event{Type: ..., PlayerID: ..., At: time.Now().UTC()}`
abbrev pub own_event : EventType → GoString → Time → Event
own_event type player_id now = record {
  type = type;
  player_id = player_id;
  player_name = [];
  reconnect_token = [];
  spectator = false;
  ready = false;
  locked = false;
  max_players = midnight_council.Base.pos 0;
  game_settings = no_settings;
  game_preset = midnight_council.Room.Settings.GamePreset.no_preset;
  afk = false;
  client_sequence = 0;
  message = [];
  target_id = [];
  at = now;
}

-- Apply an event, and broadcast what it returns.
abbrev pub announced : (Envelope → Actor → Actor) → Actor → State × Result Envelope → Actor
announced send a (t, ok envelope) = send envelope (record a { room = t })
announced send a (t, err e) = record a { room = t }

-- The second loop of `broadcast`, where `send` is the call of `broadcast` itself, after the
-- subscription that it is given was dropped.
unfoldable pub disconnect_all :
    Host → (GoString → Envelope → Actor → Actor) → Subscribers → Actor → Actor
disconnect_all h send [] a = a
disconnect_all h send ((id, sub) ∷ rest) a =
    disconnect_all h send rest
      (announced (send id) a (apply h a.room (own_event EventType.disconnect sub.player_id h.now)))

-- `broadcast`, on fuel.
unfoldable pub broadcast_within : ℕ → Host → GoString → Envelope → Actor → Actor
broadcast_within zero h cause envelope a = a
broadcast_within (suc n) h cause envelope a =
    let dropped = fall_behind h cause a.subscribers in
    disconnect_all h (broadcast_within n h) dropped (record a {
      subscribers = keep_up h cause a.room envelope a.subscribers;
      closed = a.closed ++ dropped;
    })

-- Each round of the recursion drops a subscriber.
unfoldable pub broadcast : Host → Envelope → Actor → Actor
broadcast h envelope a = broadcast_within (length a.subscribers + 1) h [] envelope a

-- The text of an error, as the actor sends it to a connection that it closes.
abbrev farewell : GoString → Envelope
farewell reason = record {
  type = error;
  snapshot = none;
  message = none;
  event_ack = none;
  error_text = reason;
  private = none;
}

-- `disconnectParticipant` empties the channel before it sends the reason.
unfoldable pub without_participant : GoString → Subscribers → Subscribers
without_participant player_id [] = []
without_participant player_id ((id, sub) ∷ rest) =
    let others = without_participant player_id rest in
    if sub.player_id == player_id then others else (id, sub) ∷ others

unfoldable pub dismissed : GoString → GoString → Subscribers → Subscribers
dismissed player_id reason [] = []
dismissed player_id reason ((id, sub) ∷ rest) =
    let others = dismissed player_id reason rest in
    if sub.player_id == player_id
    then (id, record sub { events = farewell reason ∷ [] }) ∷ others
    else others

unfoldable pub disconnect_participant : GoString → GoString → Actor → Actor
disconnect_participant player_id reason a = record a {
  subscribers = without_participant player_id a.subscribers;
  closed = a.closed ++ dismissed player_id reason a.subscribers;
}

unfoldable pub reset_phase_timer : Actor → Actor
reset_phase_timer a = record a {
  phase_timer = if nat_eq a.room.phase_deadline zero_time then none else some a.room.phase_deadline;
}

abbrev pub nobody : Subscribers → Bool
nobody [] = true
nobody (_ ∷ _) = false

unfoldable pub reset_idle_timer : Time → Actor → Actor
reset_idle_timer now a = record a {
  idle_timer =
      if nat_eq a.idle_timeout 0 || not (nobody a.subscribers)
      then none
      else some (now + a.idle_timeout);
}
