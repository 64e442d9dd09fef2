-- ===== src/Room/Actor/Life.antt =====
-- What holds of an actor (internal/room/actor.go) after any rounds of its loop.
use midnight_council.Base.{
  inl, inr, Bool, not, ◌&&◌, [], Option, if◌then◌else◌, ◌==◌, Option-cases, Bool-cases,
}
use midnight_council.Base.Dict.{lookup, erase}
use midnight_council.Text.{GoString, str_Eq}
use midnight_council.Room.Types.{Time, EventType}
use midnight_council.Room.Errors.{ok, err, Result}
use midnight_council.Room.Host.{Host}
use midnight_council.Room.Event.{Event, Envelope}
use midnight_council.Room.State.{State}
use midnight_council.Room.State.Apply.{apply}
use midnight_council.Room.Actor.{
  Actor, Subscribers, own_event, announced, broadcast, disconnect_participant, reset_phase_timer,
  reset_idle_timer, nobody,
}
use midnight_council.Room.Actor.Rounds.{
  Command, dispatch_from, subscribe, unsubscribe, is_kick, delivered, belongs_to, dispatch_event,
  add_subscriber, remove_subscriber, obey, command_round, phase_round, idle_round, Rounds, begin,
  command, expiry, idle, read, read_event,
}
use midnight_council.Room.Actor.Delivery.{sent, announced_rule, broadcast_rule}

-- A predicate that the parts of a command keep is kept by every command.
module _ {ℓ} (P : Actor → Type ℓ)
    (moved : (h : Host) (e : Event) (a : Actor)
      → P a
      → P (record a { room = (apply h a.room e).0 }))
    (passed : (h : Host) (cause : GoString) (envelope : Envelope) (a : Actor)
      → P a
      → P (sent h cause envelope a))
    (dropped : (id reason : GoString) (a : Actor) → P a → P (disconnect_participant id reason a))
    (added : (h : Host) (new_id id : GoString) (a : Actor) → P a → P (add_subscriber h new_id id a))
    (removed : (id : GoString) (left : Subscribers) (a : Actor)
      → P a
      → P (record a { subscribers = erase id a.subscribers; closed = left })) where
  delivered_rule :
      (h : Host) (e : Event) (a : Actor) (o : State × Result Envelope)
      → P a
      → P (record a { room = o.0 })
      → P (delivered h e a o)
  delivered_rule h e a (t, ok envelope) p q = elim (Bool-cases (is_kick e.type)) [
    | inl kick ↦ rw kick (broadcast_rule P moved passed h envelope _ (dropped _ _ _ q))
    | inr other ↦ rw other (broadcast_rule P moved passed h envelope _ q)
  ]
  delivered_rule h e a (t, err x) p q = q

  dispatch_rule :
      (h : Host) (sub_id : GoString) (e : Event) (a : Actor)
      → P a
      → P (dispatch_event h sub_id e a).0
  unfolding dispatch_event
  dispatch_rule h sub_id e a p =
      elim (Bool-cases
        (not (sub_id == []) && not (belongs_to e.player_id (lookup sub_id a.subscribers)))) [
          | inl replaced ↦ rw replaced p
          | inr current ↦ rw current (delivered_rule h e a (apply h a.room e) p (moved h e a p))
        ]

  remove_rule :
      (h : Host) (id : GoString) (permanent : Bool) (a : Actor)
      → P a
      → P (remove_subscriber h id permanent a)
  unfolding remove_subscriber
  remove_rule h id permanent a p = elim (Option-cases (lookup id a.subscribers)) [
    | inl gone ↦ rw (remove_subscriber, gone) p
    | inr (sub, found) ↦
        rw (remove_subscriber, found)
          (announced_rule P moved (broadcast h) (broadcast_rule P moved passed h) h
            (own_event (if permanent then EventType.leave else EventType.disconnect) sub.player_id
              h.now)
            _ (removed id _ a p))
  ]

  pub obey_rule : (h : Host) (c : Command) (a : Actor) → P a → P (obey h c a)
  unfolding obey
  obey_rule h (dispatch_from sub_id e) a p = dispatch_rule h sub_id e a p
  obey_rule h (subscribe new_id id) a p = added h new_id id a p
  obey_rule h (unsubscribe id permanent) a p = remove_rule h id permanent a p

-- A predicate that each of the parts of a round keeps is kept by every round.
module _ {ℓ} (P : Actor → Type ℓ)
    (moved : (h : Host) (e : Event) (a : Actor)
      → P a
      → P (record a { room = (apply h a.room e).0 }))
    (passed : (h : Host) (cause : GoString) (envelope : Envelope) (a : Actor)
      → P a
      → P (sent h cause envelope a))
    (dropped : (id reason : GoString) (a : Actor) → P a → P (disconnect_participant id reason a))
    (added : (h : Host) (new_id id : GoString) (a : Actor) → P a → P (add_subscriber h new_id id a))
    (removed : (id : GoString) (left : Subscribers) (a : Actor)
      → P a
      → P (record a { subscribers = erase id a.subscribers; closed = left }))
    (timed : (p i : Option Time) (d : Bool) (a : Actor)
      → P a
      → P (record a { phase_timer = p; idle_timer = i; done = d }))
    (taken : (id : GoString) (a : Actor) → P a → P (read_event id a)) where
  command_rule : (h : Host) (c : Command) (a : Actor) → P a → P (command_round h c a)
  unfolding command_round reset_phase_timer reset_idle_timer
  command_rule h c a p = timed _ _ _ _ (obey_rule P moved passed dropped added removed h c a p)

  expiry_rule : (h : Host) (a : Actor) → P a → P (phase_round h a)
  unfolding phase_round reset_phase_timer reset_idle_timer
  expiry_rule h a p =
      let timeout = own_event EventType.phase_timeout [] h.now in
      let told = announced (broadcast h) a (apply h a.room timeout) in
      let q : P told =
        announced_rule P moved (broadcast h) (broadcast_rule P moved passed h) h timeout a p in
      elim (Bool-cases (not (nobody a.subscribers) && nobody told.subscribers)) [
        | inl empty ↦ rw empty (timed _ _ _ _ q)
        | inr other ↦ rw other (timed _ _ _ _ q)
      ]

  idle_rule : (a : Actor) → P a → P (idle_round a)
  unfolding idle_round
  idle_rule a p = timed _ _ _ _ p

  pub Rounds_rule : {a b : Actor} → Rounds a b → P a → P b
  Rounds_rule begin p = p
  Rounds_rule (command h c r live) p = command_rule h c _ (Rounds_rule r p)
  Rounds_rule (expiry h d r live due late) p = expiry_rule h _ (Rounds_rule r p)
  Rounds_rule (idle h d r live due late) p = idle_rule _ (Rounds_rule r p)
  Rounds_rule (read id r) p = taken id _ (Rounds_rule r p)
