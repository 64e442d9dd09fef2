-- ===== src/Room/Invariant/SameSeats.antt =====
-- The writes of internal/room/state.go that leave everybody in their seat.
use midnight_council.Base.{◌≡◌, ◌≢◌, refl, sym, ◌∙◌, List, [], ◌∷◌, arith, none, length}
use midnight_council.Base.Dict.{lookup, modify}
use midnight_council.Base.Dict.Laws.{Distinct, Entries}
use midnight_council.Text.{GoString, str_Eq}
use midnight_council.Room.Types.{Time, Player, Role, NightAction, NightActionType}
use midnight_council.Room.State.{State, Players, append_log}
use midnight_council.Room.State.Night.{
  NightRun, record_investigation, night_kill, perform, night_step, run_night, night_run, dawn,
  eliminate,
}
use midnight_council.Room.State.Vote
use midnight_council.Room.State.Vote.{execution, execute_target, execute}
use midnight_council.Room.State.Game.{deal, take_role}
use midnight_council.Room.State.Admin.{clear_readiness}
use midnight_council.Room.Frame.{announce_frame}

abbrev pub SameSeats : Players → Players → Type 0
SameSeats [] [] = Unit
SameSeats ((k, p) ∷ ps) ((j, q) ∷ qs) = (k ≡ j) × (p.id ≡ q.id) × SameSeats ps qs
SameSeats _ _ = ⊥

pub SameSeats-refl : (ps : Players) → SameSeats ps ps
SameSeats-refl [] = tt
SameSeats-refl ((k, p) ∷ ps) = (refl, refl, SameSeats-refl ps)

pub SameSeats-trans : (ps qs rs : Players) → SameSeats ps qs → SameSeats qs rs → SameSeats ps rs
SameSeats-trans [] [] [] a b = tt
SameSeats-trans ((k, p) ∷ ps) ((j, q) ∷ qs) ((i, r) ∷ rs) a b =
    (a.0 ∙ b.0, a.1 ∙ b.1, SameSeats-trans ps qs rs a.2 b.2)
SameSeats-trans [] [] (_ ∷ _) a b = b
SameSeats-trans [] (_ ∷ _) _ a b = absurd a
SameSeats-trans (_ ∷ _) [] _ a b = absurd a
SameSeats-trans (_ ∷ _) (_ ∷ _) [] a b = b

module _ (f : Player → Player) (same : (p : Player) → (f p).id ≡ p.id) where
  pub modify-SameSeats : (k : GoString) (ps : Players) → SameSeats ps (modify k f ps)
  unfolding modify
  modify-SameSeats k [] = tt
  modify-SameSeats k ((j, p) ∷ ps) =
      ground (arith, same p, modify-SameSeats k ps, SameSeats-refl ps)

pub deal-SameSeats :
    (ids : List GoString) (roles : List Role) (ps : Players) → SameSeats ps (deal ids roles ps)
unfolding deal
deal-SameSeats [] roles ps = SameSeats-refl ps
deal-SameSeats (id ∷ ids) [] ps = SameSeats-refl ps
deal-SameSeats (id ∷ ids) (role ∷ roles) ps =
    SameSeats-trans ps (modify id (take_role role) ps) _
      (modify-SameSeats (take_role role) (λ p. refl) id ps)
      (deal-SameSeats ids roles (modify id (take_role role) ps))

pub clear_readiness-SameSeats :
    (owner : GoString) (ps : Players) → SameSeats ps (clear_readiness owner ps)
unfolding clear_readiness
clear_readiness-SameSeats owner [] = tt
clear_readiness-SameSeats owner ((k, p) ∷ ps) = ground (arith, clear_readiness-SameSeats owner ps)

perform-SameSeats :
    (t : NightActionType) (a : NightAction) (r : NightRun)
    → SameSeats r.state.players (perform t a r).state.players
unfolding perform night_kill record_investigation
perform-SameSeats NightActionType.kill a r = ground (
  arith,
  SameSeats-refl r.state.players,
  modify-SameSeats eliminate (λ p. refl) a.target_id r.state.players,
)
perform-SameSeats _ a r = ground (arith, SameSeats-refl r.state.players)

night_step-SameSeats :
    (a : NightAction) (r : NightRun) → SameSeats r.state.players (night_step r a).state.players
unfolding night_step
night_step-SameSeats a r =
    ground (arith, perform-SameSeats a.type a r, SameSeats-refl r.state.players)

run_night-SameSeats :
    (actions : List NightAction) (r : NightRun)
    → SameSeats r.state.players (run_night actions r).state.players
unfolding run_night
run_night-SameSeats [] r = SameSeats-refl r.state.players
run_night-SameSeats (a ∷ rest) r =
    SameSeats-trans r.state.players (night_step r a).state.players _ (night_step-SameSeats a r)
      (run_night-SameSeats rest (night_step r a))

pub dawn-SameSeats : (at : Time) (s : State) → SameSeats s.players (dawn at s).players
unfolding dawn night_run Vote.prune_votes
dawn-SameSeats at s =
    let r = night_run s in rw (announce_frame at r.eliminated r.state) (run_night-SameSeats _ _)

pub execution-SameSeats : (at : Time) (s : State) → SameSeats s.players (execution at s).0.players
unfolding execution execute_target append_log
execution-SameSeats at s =
    let id = (Vote.top_vote_target (Vote.tally s.votes [])).0 in
    ground (arith, SameSeats-refl s.players, modify-SameSeats execute (λ p. refl) id s.players)

module _ {ℓ} {V : Type ℓ} where
  pub SameSeats-Entries-lookup :
      (ps qs : Players) (m : List (GoString × V))
      → SameSeats ps qs
      → Entries (λ k p. lookup k m ≡ none) ps
      → Entries (λ k p. lookup k m ≡ none) qs
  SameSeats-Entries-lookup [] [] m s h = tt
  SameSeats-Entries-lookup ((k, p) ∷ ps) ((j, q) ∷ qs) m s h =
      (rw (← s.0) h.0, SameSeats-Entries-lookup ps qs m s.2 h.1)
  SameSeats-Entries-lookup [] (_ ∷ _) m s h = absurd s
  SameSeats-Entries-lookup (_ ∷ _) [] m s h = absurd s

pub SameSeats-lookup-none :
    (k : GoString) (ps qs : Players) → SameSeats ps qs → lookup k ps ≡ none → lookup k qs ≡ none
unfolding lookup
SameSeats-lookup-none k [] [] s h = refl
SameSeats-lookup-none k ((i, p) ∷ ps) ((j, q) ∷ qs) s h =
    ground (arith, SameSeats-lookup-none k ps qs s.2)
SameSeats-lookup-none k [] (_ ∷ _) s h = absurd s
SameSeats-lookup-none k (_ ∷ _) [] s h = absurd s

pub SameSeats-Distinct : (ps qs : Players) → SameSeats ps qs → Distinct ps → Distinct qs
SameSeats-Distinct [] [] s d = tt
SameSeats-Distinct ((i, p) ∷ ps) ((j, q) ∷ qs) s d =
    (rw (← s.0) (SameSeats-lookup-none i ps qs s.2 d.0), SameSeats-Distinct ps qs s.2 d.1)
SameSeats-Distinct [] (_ ∷ _) s d = absurd s
SameSeats-Distinct (_ ∷ _) [] s d = absurd s

-- Everybody sits under a key that is their id and not blank.
abbrev pub IsKeyed : Players → Type 0
IsKeyed = Entries (λ k p. (p.id ≡ k) × (k ≢ []))

pub SameSeats-IsKeyed : (ps qs : Players) → SameSeats ps qs → IsKeyed ps → IsKeyed qs
SameSeats-IsKeyed [] [] s h = tt
SameSeats-IsKeyed ((i, p) ∷ ps) ((j, q) ∷ qs) s h =
    ((sym s.1 ∙ h.0.0 ∙ s.0, rw (← s.0) h.0.1), SameSeats-IsKeyed ps qs s.2 h.1)
SameSeats-IsKeyed [] (_ ∷ _) s h = absurd s
SameSeats-IsKeyed (_ ∷ _) [] s h = absurd s

pub SameSeats-length : (ps qs : Players) → SameSeats ps qs → length qs ≡ length ps
SameSeats-length [] [] s = refl
SameSeats-length ((i, p) ∷ ps) ((j, q) ∷ qs) s = omega (arith, SameSeats-length ps qs s.2)
SameSeats-length [] (_ ∷ _) s = absurd s
SameSeats-length (_ ∷ _) [] s = absurd s
