-- ===== src/Room/Actor/Client.antt =====
-- internal/room/actor.go: the calls that send an actor a command and wait for its reply.
use midnight_council.Room.Actor.Life.{obey_rule}
use midnight_council.Room.Actor.{disconnect_participant, reset_phase_timer, reset_idle_timer, Actor}
use midnight_council.Room.Actor.Rounds.{
  add_subscriber, Rounds, Command, dispatch_event, command_round,
}
use midnight_council.Base.{
  ◌≡◌, ◌≢◌, refl, ◌⊎◌, Bool-cases, arith, if◌then◌else◌, inl, inr, Bool, true, false,
}
use midnight_council.Text.{GoString, text}
use midnight_council.Room.Errors.{Error, Result, ok, err}
use midnight_council.Room.Host.{Host}
use midnight_council.Room.Event.{Event, Envelope}
use midnight_council.Room.Texts.{Texts, error_text}

-- Which case of the two `select` statements of a call is taken: the actor receives the command and
-- the reply is read; or the actor has stopped, or the context ends, before or after it receives it.
pub data Wait : Type 0 where
  served stopped_before stopped_after ended_before ended_after : Wait

-- The room's own error, `ErrRoomClosed`, or the error of the context.
pub data CallError : Type 0 where
  room_error : Error → CallError
  room_closed : CallError
  context_error : GoString → CallError

pub data Call {ℓ} (V : Type ℓ) : Type ℓ where
  answered : V → Call V
  failed : CallError → Call V

unfoldable pub call_error_text : Texts → Event → CallError → GoString
call_error_text texts e (CallError.room_error x) = error_text texts e x
call_error_text texts e CallError.room_closed = text "room actor is closed"
call_error_text texts e (CallError.context_error reason) = reason

-- A command reaches the actor only while it runs.
abbrev pub IsPossible : Wait → Actor → Type 0
IsPossible Wait.served a = a.done ≡ false
IsPossible Wait.stopped_before a = a.done ≡ true
IsPossible Wait.stopped_after a = a.done ≡ false
IsPossible Wait.ended_before a = Unit
IsPossible Wait.ended_after a = a.done ≡ false

abbrev unreceived : Wait → Wait
unreceived Wait.ended_before = Wait.ended_before
unreceived Wait.ended_after = Wait.ended_before
unreceived _ = Wait.stopped_before

-- What may become of a call of an actor that may have stopped: a `select` cannot send to it then.
unfoldable pub possible : Wait → Actor → Wait
possible wait a = if a.done then unreceived wait else wait

-- The actor after a call, whose context ends with the error `reason` where it ends.
unfoldable pub receives : Host → Wait → Command → Actor → Actor
receives h Wait.served c a = command_round h c a
receives h Wait.stopped_before c a = a
receives h Wait.stopped_after c a = command_round h c a
receives h Wait.ended_before c a = a
receives h Wait.ended_after c a = command_round h c a

unfoldable pub call_reply {ℓ} : {V : Type ℓ} → Wait → GoString → Call V → Call V
call_reply Wait.served reason answer = answer
call_reply Wait.stopped_before reason answer = failed CallError.room_closed
call_reply Wait.stopped_after reason answer = failed CallError.room_closed
call_reply Wait.ended_before reason answer = failed (CallError.context_error reason)
call_reply Wait.ended_after reason answer = failed (CallError.context_error reason)

abbrev called : Result Envelope → Call Envelope
called (ok envelope) = answered envelope
called (err x) = failed (CallError.room_error x)

-- `DispatchFrom`, and `Dispatch`, which names no subscription.
unfoldable pub dispatch_call :
    Host → Wait → GoString → GoString → Event → Actor → Actor × Call Envelope
dispatch_call h wait reason sub_id e a = (
  receives h wait (Command.dispatch_from sub_id e) a,
  call_reply wait reason (called (dispatch_event h sub_id e a).1),
)

-- `SubscribeConnection`: the id of the subscription, which the actor draws.
unfoldable pub subscribe_connection :
    Host → Wait → GoString → GoString → GoString → Actor → Actor × Call GoString
subscribe_connection h wait reason new_id player_id a = (
  receives h wait (Command.subscribe new_id player_id) a,
  call_reply wait reason (answered new_id),
)

-- The function that `SubscribeConnection` returns, which waits for nothing but the actor.
unfoldable pub unsubscribe_connection : Host → Bool → GoString → Bool → Actor → Actor
unsubscribe_connection h true sub_id permanent a = a
unsubscribe_connection h false sub_id permanent a =
    command_round h (Command.unsubscribe sub_id permanent) a

pub receives-Rounds :
    (h : Host) (wait : Wait) (c : Command) (a : Actor)
    → IsPossible wait a
    → Rounds a (receives h wait c a)
unfolding receives
receives-Rounds h Wait.served c a possible = Rounds.command h c Rounds.begin possible
receives-Rounds h Wait.stopped_before c a possible = Rounds.begin
receives-Rounds h Wait.stopped_after c a possible = Rounds.command h c Rounds.begin possible
receives-Rounds h Wait.ended_before c a possible = Rounds.begin
receives-Rounds h Wait.ended_after c a possible = Rounds.command h c Rounds.begin possible

-- Whether an actor has stopped is not a matter of commands.
command_round-runs :
    (h : Host) (c : Command) (a : Actor) → a.done ≡ false → (command_round h c a).done ≡ false
unfolding command_round reset_phase_timer reset_idle_timer
command_round-runs h c a runs =
    obey_rule (λ b. b.done ≡ false) (λ h e b p. p) (λ h cause envelope b p. p)
      (λ id reason b p. unfold disconnect_participant in p)
      (λ h new_id id b p. unfold add_subscriber disconnect_participant in p) (λ id left b p. p) h c
      a runs

-- After a call that is made while an actor runs, it still runs.
receives-runs :
    (h : Host) (wait : Wait) (c : Command) (a : Actor)
    → a.done ≡ false
    → (receives h wait c a).done ≡ false
unfolding receives
receives-runs h Wait.served c a runs = command_round-runs h c a runs
receives-runs h Wait.stopped_before c a runs = runs
receives-runs h Wait.stopped_after c a runs = command_round-runs h c a runs
receives-runs h Wait.ended_before c a runs = runs
receives-runs h Wait.ended_after c a runs = command_round-runs h c a runs

receives_running :
    (h : Host) (wait : Wait) (c : Command) {a b : Actor}
    → Rounds b a
    → a.done ≡ false
    → Rounds b (receives h wait c a)
unfolding receives
receives_running h Wait.served c rounds runs = Rounds.command h c rounds runs
receives_running h Wait.stopped_before c rounds runs = rounds
receives_running h Wait.stopped_after c rounds runs = Rounds.command h c rounds runs
receives_running h Wait.ended_before c rounds runs = rounds
receives_running h Wait.ended_after c rounds runs = Rounds.command h c rounds runs

receives_stopped :
    (h : Host) (wait : Wait) (c : Command) (a : Actor) → receives h (unreceived wait) c a ≡ a
unfolding receives
receives_stopped h Wait.served c a = refl
receives_stopped h Wait.stopped_before c a = refl
receives_stopped h Wait.stopped_after c a = refl
receives_stopped h Wait.ended_before c a = refl
receives_stopped h Wait.ended_after c a = refl

possible_stopped : (wait : Wait) (a : Actor) → a.done ≡ true → possible wait a ≡ unreceived wait
unfolding possible
possible_stopped wait a stopped = ground (arith, stopped)

possible_running : (wait : Wait) (a : Actor) → a.done ≡ false → possible wait a ≡ wait
unfolding possible
possible_running wait a running = ground (arith, running)

-- Whatever becomes of a call, the actor goes on by rounds.
pub receives-possible :
    (h : Host) (wait : Wait) (c : Command) (a : Actor) → Rounds a (receives h (possible wait a) c a)
receives-possible h wait c a = elim (Bool-cases a.done) [
  | inl stopped ↦ rw (possible_stopped wait a stopped, receives_stopped h wait c a) Rounds.begin
  | inr running ↦
      rw (possible_running wait a running) (receives_running h wait c Rounds.begin running)
]

unreceived_fails {ℓ} :
    {V : Type ℓ} (wait : Wait) (reason : GoString) (answer : Call V) (value : V)
    → call_reply (unreceived wait) reason answer ≢ answered value
unfolding call_reply
unreceived_fails Wait.served reason answer value h = cc
unreceived_fails Wait.stopped_before reason answer value h = cc
unreceived_fails Wait.stopped_after reason answer value h = cc
unreceived_fails Wait.ended_before reason answer value h = cc
unreceived_fails Wait.ended_after reason answer value h = cc

-- An actor that answers runs.
pub answers_running {ℓ} :
    {V : Type ℓ} (h : Host) (wait : Wait) (c : Command) (a : Actor) (reason : GoString)
    (answer : Call V) (value : V)
    → call_reply (possible wait a) reason answer ≡ answered value
    → (receives h (possible wait a) c a).done ≡ false
answers_running h wait c a reason answer value answers = elim (Bool-cases a.done) [
  | inl stopped ↦
      absurd (
        unreceived_fails wait reason answer value (rw (possible_stopped wait a stopped) at answers))
  | inr running ↦ rw (possible_running wait a running) (receives-runs h wait c a running)
]

pub Call-cases {ℓ} :
    {V : Type ℓ} (call : Call V)
    → ((x : CallError) × (call ≡ failed x)) ⊎ ((value : V) × (call ≡ answered value))
Call-cases (answered value) = inr (value, refl)
Call-cases (failed x) = inl (x, refl)
