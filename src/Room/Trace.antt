-- ===== src/Room/Trace.antt =====
-- The life of a room: the events that its actor applies one after the other
-- (internal/room/state.go, called from internal/room/actor.go).
use midnight_council.Base.{ℤ, ◌≡◌, List, [], ◌∷◌, Option, none, some, arith}
use midnight_council.Text.{GoString}
use midnight_council.Room.Types.{phase_eq}
use midnight_council.Room.Errors.{Error, err}
use midnight_council.Room.Host.{Host}
use midnight_council.Room.Timing.{PhaseDurations}
use midnight_council.Room.Rules.{RuleSet}
use midnight_council.Room.Event.{Event}
use midnight_council.Room.State.{State, new_state, is_day_phase}
use midnight_council.Room.State.Apply.{apply}
use midnight_council.Room.State.Atomic.{apply_error_unchanged}
use midnight_council.Room.Invariant.{IsCoherent}
use midnight_council.Room.Invariant.Events.{apply-IsCoherent}
use midnight_council.Room.Ballots.{IsPending, apply-IsPending}
use midnight_council.Room.Invariant.Balance.{IsBalanced, apply-IsBalanced}
use midnight_council.Room.Invariant.Seats.{IsSeated}
use midnight_council.Room.Invariant.Occupancy.{apply-IsSeated}

-- Each event comes with what the runtime gives while it is applied.
unfoldable pub run : State → List (Host × Event) → State
run s [] = s
run s ((h, e) ∷ es) = run (apply h s e).0 es

-- A predicate that `Apply` keeps holds after any events.
pub run_rule {ℓ} :
    (P : State → Type ℓ)
    → ((h : Host) (s : State) (e : Event) → P s → P (apply h s e).0)
    → (s : State) (es : List (Host × Event)) → P s
    → P (run s es)
unfolding run
run_rule P step s [] p = p
run_rule P step s ((h, e) ∷ es) p = run_rule P step (apply h s e).0 es (step h s e p)

new_state-IsCoherent :
    (h : Host) (id : GoString) (d : PhaseDurations) (rules : Option RuleSet) (n : ℤ) (s : State)
    → new_state h id d rules n ≡ some s
    → IsCoherent s
unfolding new_state
new_state-IsCoherent h id d none n s r = cc
new_state-IsCoherent h id d (some rules) n s r = ground arith

-- Whatever events a new room has applied, its phase agrees with the rest of its state.
pub run-IsCoherent :
    (h : Host) (id : GoString) (d : PhaseDurations) (rules : Option RuleSet) (n : ℤ) (s : State)
    (es : List (Host × Event))
    → new_state h id d rules n ≡ some s
    → IsCoherent (run s es)
run-IsCoherent h id d rules n s es r =
    run_rule IsCoherent apply-IsCoherent s es (new_state-IsCoherent h id d rules n s r)

-- In any state that a new room reaches, an event that is refused changes nothing.
pub run-apply_error_unchanged :
    (h : Host) (id : GoString) (d : PhaseDurations) (rules : Option RuleSet) (n : ℤ) (s : State)
    (es : List (Host × Event)) (h' : Host) (e : Event) (x : Error)
    → new_state h id d rules n ≡ some s
    → (apply h' (run s es) e).1 ≡ err x
    → (apply h' (run s es) e).0 ≡ run s es
run-apply_error_unchanged h id d rules n s es h' e x r refused =
    apply_error_unchanged h' (run s es) e x (run-IsCoherent h id d rules n s es r).idle refused

new_state-IsBalanced :
    (h : Host) (id : GoString) (d : PhaseDurations) (rules : Option RuleSet) (n : ℤ) (s : State)
    → new_state h id d rules n ≡ some s
    → IsBalanced s
unfolding new_state is_day_phase phase_eq
new_state-IsBalanced h id d none n s r = cc
new_state-IsBalanced h id d (some rules) n s r = ground arith

-- By day, in any state that a new room reaches, some killer lives and the killers are fewer than the
-- other living players.
pub run-IsBalanced :
    (h : Host) (id : GoString) (d : PhaseDurations) (rules : Option RuleSet) (n : ℤ) (s : State)
    (es : List (Host × Event))
    → new_state h id d rules n ≡ some s
    → IsBalanced (run s es)
run-IsBalanced h id d rules n s es r =
    (run_rule (λ t. IsCoherent t × IsBalanced t)
      (λ h' t e p. (apply-IsCoherent h' t e p.0, apply-IsBalanced h' t e p.0 p.1)) s es
      (new_state-IsCoherent h id d rules n s r, new_state-IsBalanced h id d rules n s r)).1

new_state-IsSeated :
    (h : Host) (id : GoString) (d : PhaseDurations) (rules : Option RuleSet) (n : ℤ) (s : State)
    → new_state h id d rules n ≡ some s
    → IsSeated s
unfolding new_state
new_state-IsSeated h id d none n s r = cc
new_state-IsSeated h id d (some rules) n s r = ground arith

-- In any state that a new room reaches, players and spectators sit under their own ids, nobody twice or
-- in both roles, neither of them are more than their limit, and the limit of players stays between 2
-- and 20.
pub run-IsSeated :
    (h : Host) (id : GoString) (d : PhaseDurations) (rules : Option RuleSet) (n : ℤ) (s : State)
    (es : List (Host × Event))
    → new_state h id d rules n ≡ some s
    → IsSeated (run s es)
run-IsSeated h id d rules n s es r =
    (run_rule (λ t. IsCoherent t × IsSeated t)
      (λ h' t e p. (apply-IsCoherent h' t e p.0, apply-IsSeated h' t e p.0 p.1)) s es
      (new_state-IsCoherent h id d rules n s r, new_state-IsSeated h id d rules n s r)).1

new_state-IsPending :
    (h : Host) (id : GoString) (d : PhaseDurations) (rules : Option RuleSet) (n : ℤ) (s : State)
    → new_state h id d rules n ≡ some s
    → IsPending s
unfolding new_state
new_state-IsPending h id d none n s r = cc
new_state-IsPending h id d (some rules) n s r = ground arith

-- In any state that a new room reaches, a vote that is open waits for some living player: it is not
-- so that every living player has voted.
pub run-IsPending :
    (h : Host) (id : GoString) (d : PhaseDurations) (rules : Option RuleSet) (n : ℤ) (s : State)
    (es : List (Host × Event))
    → new_state h id d rules n ≡ some s
    → IsPending (run s es)
run-IsPending h id d rules n s es r =
    (run_rule (λ t. IsCoherent t × IsPending t)
      (λ h' t e p. (apply-IsCoherent h' t e p.0, apply-IsPending h' t e p.0 p.1)) s es
      (new_state-IsCoherent h id d rules n s r, new_state-IsPending h id d rules n s r)).1
