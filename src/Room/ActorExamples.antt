-- ===== src/Room/ActorExamples.antt =====
-- An actor whose commands play the opening of a game: inputs at which the theorems on
-- internal/room/actor.go apply.
use midnight_council.Base.{
  ℕ, length, is_some, true, none, Bool, Option, false, pos, ◌≡◌, refl, [], some, arith,
}
use midnight_council.Text.{text, str_Eq}
use midnight_council.Room.Types.{EventType, Player}
use midnight_council.Room.Errors.{err, connection_replaced}
use midnight_council.Room.Timing.{default_phase_durations}
use midnight_council.Room.Rules.{default_rule_set}
use midnight_council.Room.State.Views.{envelope_for_player}
use midnight_council.Room.Actor.{
  Actor, Subscription, broadcast, broadcast_within, disconnect_all, keep_up, fall_behind,
  reset_phase_timer, reset_idle_timer, without_participant, disconnect_participant,
}
use midnight_council.Room.Actor.Rounds.{
  Command, dispatch_from, subscribe, dispatch_event, add_subscriber, obey, command_round, new_actor,
  Rounds, begin, command, read, read_event, unsubscribe, remove_subscriber,
}
use midnight_council.Room.Actor.Delivery.{broadcast_ends}
use midnight_council.Room.Actor.Reach.{HasRun, Rounds-HasRun, phase_timer_lem}
use midnight_council.Base.Dict.{lookup, modify}
use midnight_council.Room.Event.{Event}
use midnight_council.Room.Actor.Sessions.{sessions, dispatch_event-add_subscriber}
use midnight_council.Room.Examples.{host, event, room, started, room_made}

idle_actor : Actor
idle_actor = new_actor host 60 room

joined : Actor
unfolding idle_actor
joined = command_round host (dispatch_from [] (event EventType.join (text "ada"))) idle_actor

joined-Rounds : Rounds idle_actor joined
unfolding joined new_actor reset_phase_timer reset_idle_timer
joined-Rounds = command host (dispatch_from [] (event EventType.join (text "ada"))) begin refl

subscribed : Actor
unfolding joined
subscribed = command_round host (subscribe (text "s1") (text "ada")) joined

subscribed-Rounds : Rounds idle_actor subscribed
unfolding subscribed room new_actor reset_phase_timer reset_idle_timer command_round obey
    dispatch_event broadcast broadcast_within disconnect_all keep_up fall_behind
subscribed-Rounds = command host (subscribe (text "s1") (text "ada")) joined-Rounds refl

-- The connection has taken the envelope that its subscription began with.
drained : Actor
drained = read_event (text "s1") subscribed

drained-Rounds : Rounds idle_actor drained
unfolding drained
drained-Rounds = read (text "s1") subscribed-Rounds

waiting_events : Option Subscription → ℕ
waiting_events none = 0
waiting_events (some sub) = length sub.events

drained_test :
    (waiting_events (lookup (text "s1") subscribed.subscribers) ≡ 1)
    × (is_some (lookup (text "s1") drained.subscribers) ≡ true)
    × (waiting_events (lookup (text "s1") drained.subscribers) ≡ 0)
unfolding drained subscribed waiting_events started command_round obey dispatch_event add_subscriber
    broadcast broadcast_within disconnect_all keep_up fall_behind new_actor reset_phase_timer
    reset_idle_timer disconnect_participant without_participant read_event modify lookup
drained_test = (refl, refl, refl)

Rounds-HasRun_example : HasRun room drained
unfolding idle_actor
Rounds-HasRun_example = Rounds-HasRun host 60 room drained drained-Rounds

broadcast_ends_example :
    broadcast_within 9 host [] (envelope_for_player host room (text "ada")) idle_actor
    ≡ broadcast host (envelope_for_player host room (text "ada")) idle_actor
unfolding idle_actor new_actor reset_phase_timer reset_idle_timer
broadcast_ends_example =
    broadcast_ends 9 host (envelope_for_player host room (text "ada")) idle_actor (omega arith)

dispatch_event-add_subscriber_example :
    dispatch_event host
      (text "s1")
      (event EventType.vote (text "ada"))
      (add_subscriber host (text "s2") (text "ada") subscribed)
    ≡ (add_subscriber host (text "s2") (text "ada") subscribed, err connection_replaced)
dispatch_event-add_subscriber_example =
    dispatch_event-add_subscriber host host (text "s2") (text "s1")
      (event EventType.vote (text "ada")) subscribed (λ e. ground (arith, e))
      (λ e. ground (arith, e))

abbrev told : EventType → Command
told type = dispatch_from [] (event type (text "ada"))

abbrev asked : EventType → Command
asked type = dispatch_from [] (event type (text "bob"))

playing : Actor
unfolding idle_actor started command_round obey dispatch_event broadcast broadcast_within
    disconnect_all keep_up fall_behind new_actor reset_phase_timer reset_idle_timer
playing = command_round host (told EventType.start_game) (
    command_round host (asked EventType.ready) (
      command_round host (asked EventType.join)
        (command_round host (told EventType.join) idle_actor)))

phase_timer_lem_example : playing.phase_timer ≡ some playing.room.phase_deadline
unfolding playing
phase_timer_lem_example =
    phase_timer_lem host (text "room") default_phase_durations (some default_rule_set) (pos 24) 60
      room playing room_made
      (command host (told EventType.start_game)
        (command host (asked EventType.ready)
          (command host (asked EventType.join) (command host (told EventType.join) begin refl) refl)
          refl)
        refl)
      refl (ground arith)

abbrev seen : Option Player → Bool
seen none = false
seen (some p) = p.connected

abbrev rejoin : Event
rejoin = record (event EventType.join (text "ada")) { reconnect_token = text "0f" }

-- A reconnection whose join and subscription are parted by the end of the old connection.
raced : Actor
unfolding subscribed started command_round obey dispatch_event add_subscriber remove_subscriber
    broadcast broadcast_within disconnect_all keep_up fall_behind new_actor reset_phase_timer
    reset_idle_timer disconnect_participant without_participant
raced = command_round host (subscribe (text "s2") (text "ada")) (
    command_round host (unsubscribe (text "s1") false)
      (command_round host (dispatch_from [] rejoin) subscribed))

-- The participant is subscribed, and shown as disconnected.
raced_test :
    (sessions (text "ada") raced.subscribers ≡ 1)
    × (seen (lookup (text "ada") raced.room.players) ≡ false)
unfolding raced
raced_test = (refl, refl)
