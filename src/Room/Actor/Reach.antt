-- ===== src/Room/Actor/Reach.antt =====
-- The room and the phase timer of an actor (internal/room/actor.go).
use midnight_council.Base.{
  ℕ, ℤ, ◌≡◌, refl, ap, subst, ◌∙◌, inl, inr, false, not, ◌&&◌, List, [], ◌∷◌, ◌++◌, Option, none,
  some, if◌then◌else◌, arith, nat_eq, Bool-cases,
}
use midnight_council.Text.{GoString}
use midnight_council.Room.Types.{EventType}
use midnight_council.Room.Host.{Host}
use midnight_council.Room.Timing.{PhaseDurations}
use midnight_council.Room.Rules.{RuleSet}
use midnight_council.Room.Event.{Event}
use midnight_council.Room.State.{State, new_state}
use midnight_council.Room.State.Apply.{apply}
use midnight_council.Room.Invariant.{IsCoherent, IsRunning}
use midnight_council.Room.Trace.{run, run-IsCoherent}
use midnight_council.Room.Actor.{
  Actor, disconnect_participant, own_event, announced, broadcast, nobody, reset_phase_timer,
  reset_idle_timer,
}
use midnight_council.Room.Actor.Rounds.{
  Command, add_subscriber, command_round, phase_round, idle_round, new_actor, Rounds, begin,
  command, expiry, idle, read, read_event,
}
use midnight_council.Room.Actor.Life.{Rounds_rule}

run-snoc :
    (s : State) (es : List (Host × Event)) (h : Host) (e : Event)
    → run s (es ++ (h, e) ∷ []) ≡ (apply h (run s es) e).0
unfolding run
run-snoc s [] h e = refl
run-snoc s ((h', e') ∷ es) h e = run-snoc (apply h' s e').0 es h e

-- The room of the actor is where some events lead from `s`.
abbrev pub HasRun : State → Actor → Type 0
HasRun s a = (es : List (Host × Event)) × (run s es ≡ a.room)

HasRun-apply :
    (s : State) (h : Host) (e : Event) (a : Actor)
    → HasRun s a
    → HasRun s (record a { room = (apply h a.room e).0 })
HasRun-apply s h e a (es, r) = (es ++ (h, e) ∷ [], run-snoc s es h e ∙ ap (λ t. (apply h t e).0) r)

-- Whatever rounds an actor goes through, with commands, timers, dropped subscribers and connections that
-- read, its room is in a state that events applied one after the other lead to from the state it began
-- with.
pub Rounds-HasRun :
    (h : Host) (n : ℕ) (s : State) (a : Actor) → Rounds (new_actor h n s) a → HasRun s a
Rounds-HasRun h n s a r =
    Rounds_rule (HasRun s) (HasRun-apply s) (λ h cause envelope a p. p)
      (λ id reason a p. unfold disconnect_participant in p)
      (λ h new_id id a p. unfold add_subscriber disconnect_participant in p) (λ id left a p. p)
      (λ p i d a q. q) (λ id a p. unfold read_event in p) r
      (unfold new_actor reset_phase_timer reset_idle_timer run in ([], refl))

abbrev IsArmed : Actor → Type 0
IsArmed a =
    a.done ≡ false
    → a.phase_timer ≡ (if nat_eq a.room.phase_deadline 0 then none else some a.room.phase_deadline)

command_round-IsArmed : (h : Host) (c : Command) (a : Actor) → IsArmed (command_round h c a)
unfolding command_round reset_phase_timer
command_round-IsArmed h c a live = refl

phase_round-IsArmed : (h : Host) (a : Actor) → IsArmed (phase_round h a)
unfolding phase_round reset_phase_timer reset_idle_timer
phase_round-IsArmed h a live =
    let timeout = own_event EventType.phase_timeout [] h.now in
    let told = announced (broadcast h) a (apply h a.room timeout) in
    elim (Bool-cases (not (nobody a.subscribers) && nobody told.subscribers)) [
      | inl empty ↦ rw empty refl
      | inr other ↦ rw other refl
    ]

idle_round-IsArmed : (a : Actor) → IsArmed (idle_round a)
unfolding idle_round
idle_round-IsArmed a live = cc

Rounds-IsArmed : {a b : Actor} → Rounds a b → IsArmed a → IsArmed b
unfolding read_event
Rounds-IsArmed begin p = p
Rounds-IsArmed (command h c r live) p = command_round-IsArmed h c _
Rounds-IsArmed (expiry h d r live due late) p = phase_round-IsArmed h _
Rounds-IsArmed (idle h d r live due late) p = idle_round-IsArmed _
Rounds-IsArmed (read id r) p = Rounds-IsArmed r p

-- While an actor runs, whatever its rounds and whoever reads, its phase timer is set in every phase of
-- a running game, and to the deadline of the phase.
pub phase_timer_lem :
    (h : Host) (id : GoString) (d : PhaseDurations) (rules : Option RuleSet) (m : ℤ) (n : ℕ)
    (s : State) (a : Actor)
    → new_state h id d rules m ≡ some s
    → Rounds (new_actor h n s) a
    → a.done ≡ false
    → IsRunning a.room.phase
    → a.phase_timer ≡ some a.room.phase_deadline
phase_timer_lem h id d rules m n s a made r live running =
    let (es, ran) = Rounds-HasRun h n s a r in
    let c : IsCoherent a.room = subst IsCoherent ran (run-IsCoherent h id d rules m s es made) in
    ground (
      arith,
      c.timed,
      running,
      Rounds-IsArmed r (λ l. unfold new_actor reset_phase_timer reset_idle_timer in refl) live,
    )
