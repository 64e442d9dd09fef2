-- ===== src/Room/Deaths.antt =====
-- Who dies in a night: the loop of `resolveNight` (internal/room/state.go) over the actions in the order
-- of the default rules (`OrderNightActions`, internal/room/rules.go).
use midnight_council.Base.{
  pos, ◌≡◌, ◌≢◌, refl, Bool, true, false, not, ◌&&◌, ◌||◌, arith, some, List, [], ◌∷◌, ◌++◌, map,
}
use midnight_council.Base.Dict.{lookup}
use midnight_council.Base.Dict.Laws.{lookup-modify}
use midnight_council.Base.Sort.{insert_by, sort_by}
use midnight_council.Text.{GoString, str_eq, str_Eq, str_eq_iff}
use midnight_council.Room.Types.{
  NightAction, kill, block, protect, investigate, role_eq, action_eq, action_Eq, action_eq_iff,
}
use midnight_council.Room.Rules.{
  default_rule_set, action_before, night_action_priority, order_night_actions,
}
use midnight_council.Room.State.{State, is_living, game_rules}
use midnight_council.Room.State.Night.{
  night_run, has, add_to, NightRun, night_kill, perform, night_step, run_night,
  record_investigation, eliminate,
}

has-append :
    (x y : GoString) (ids : List GoString) → has x (ids ++ y ∷ []) ≡ (has x ids || str_eq y x)
unfolding has
has-append x y [] = ground arith
has-append x y (j ∷ ids) = ground (arith, has-append x y ids)

has-add_to :
    (x y : GoString) (ids : List GoString) → has x (add_to y ids) ≡ (has x ids || str_eq y x)
unfolding add_to
has-add_to x y ids = ground (arith, str_eq_iff y x, has-append x y ids)

-- Whether an action that is performed now kills `x`.
abbrev hits : NightRun → NightAction → GoString → Bool
hits run a x =
    action_eq a.type kill
    && str_eq a.target_id x
    && not (has a.player_id run.blocked)
    && not (has x run.protected)

night_kill_living :
    (t x : GoString) (run : NightRun)
    → is_living (night_kill t run).state.players x
      ≡ (is_living run.state.players x && not (str_eq t x))
unfolding night_kill is_living
night_kill_living t x run =
    ground (arith, str_eq_iff t x, lookup-modify t x eliminate run.state.players)

record_investigation_living :
    (a : NightAction) (s : State) → (record_investigation a s).players ≡ s.players
unfolding record_investigation
record_investigation_living a s = ground arith

night_step_living :
    (run : NightRun) (a : NightAction) (x : GoString)
    → x ≢ []
    → is_living (night_step run a).state.players x
      ≡ (is_living run.state.players x && not (hits run a x))
unfolding night_step perform action_eq
night_step_living run a x given = ground (
  arith,
  str_eq_iff a.target_id x,
  str_eq_iff a.target_id [],
  night_kill_living a.target_id x run,
  record_investigation_living a run.state,
)

-- An action that neither blocks nor protects.
abbrev late : NightAction → Bool
late a = not (action_eq a.type block || action_eq a.type protect)

abbrev AllLate : List NightAction → Type 0
AllLate [] = Unit
AllLate (a ∷ rest) = (late a ≡ true) × AllLate rest

-- Blocks and protections come before all else.
abbrev IsStaged : List NightAction → Type 0
IsStaged [] = Unit
IsStaged (a ∷ rest) = (late a ≡ true → AllLate rest) × IsStaged rest

late_kill : (a : NightAction) → action_eq a.type kill ≡ true → late a ≡ true
unfolding action_eq
late_kill a h = ground arith

default_priorities :
    default_rule_set.night_priorities
    ≡ (kill, pos 30) ∷ (investigate, pos 40) ∷ (protect, pos 20) ∷ (block, pos 10) ∷ []
unfolding default_rule_set role_eq action_eq
default_priorities = refl

early_first :
    (a b : NightAction) → late a ≡ true → late b ≡ false → action_before default_rule_set b a ≡ true
unfolding action_before night_action_priority lookup action_eq
early_first a b l e = ground (arith, default_priorities)

late_after :
    (a b : NightAction)
    → late b ≡ true
    → late a ≡ false
    → action_before default_rule_set b a ≡ false
unfolding action_before night_action_priority lookup action_eq
late_after a b l e = ground (arith, default_priorities)

insert_by-AllLate :
    (a : NightAction) (acts : List NightAction)
    → late a ≡ true
    → AllLate acts
    → AllLate (insert_by (action_before default_rule_set) a acts)
unfolding insert_by
insert_by-AllLate a [] l h = (l, tt)
insert_by-AllLate a (b ∷ acts) l h = ground (arith, insert_by-AllLate a acts l h.1)

insert_by-IsStaged :
    (a : NightAction) (acts : List NightAction)
    → IsStaged acts
    → IsStaged (insert_by (action_before default_rule_set) a acts)
unfolding insert_by
insert_by-IsStaged a [] s = (λ l. tt, tt)
insert_by-IsStaged a (b ∷ acts) s = ground (
  arith,
  s.0,
  early_first a b,
  late_after a b,
  insert_by-AllLate a acts,
  insert_by-IsStaged a acts s.1,
)

sort_by-IsStaged :
    (acts : List NightAction) → IsStaged (sort_by (action_before default_rule_set) acts)
unfolding sort_by
sort_by-IsStaged [] = tt
sort_by-IsStaged (a ∷ acts) = insert_by-IsStaged a _ (sort_by-IsStaged acts)

late_step :
    (run : NightRun) (a : NightAction)
    → late a ≡ true
    → ((night_step run a).blocked ≡ run.blocked) × ((night_step run a).protected ≡ run.protected)
unfolding night_step perform action_eq night_kill
late_step run a l = ground arith

late_run :
    (acts : List NightAction) (run : NightRun)
    → AllLate acts
    → ((run_night acts run).blocked ≡ run.blocked)
      × ((run_night acts run).protected ≡ run.protected)
unfolding run_night
late_run [] run l = (refl, refl)
late_run (a ∷ acts) run l =
    ground (arith, late_step run a l.0, late_run acts (night_step run a) l.1)

-- Whether some action kills `x`, as things stand at the end of the night.
abbrev pub struck : NightRun → List NightAction → GoString → Bool
struck run [] x = false
struck run (a ∷ rest) x = hits run a x || struck run rest x

run_night_living :
    (acts : List NightAction) (run : NightRun) (x : GoString)
    → x ≢ []
    → IsStaged acts
    → is_living (run_night acts run).state.players x
      ≡ (is_living run.state.players x && not (struck (run_night acts run) acts x))
unfolding run_night
run_night_living [] run x given s = ground arith
run_night_living (a ∷ acts) run x given s = ground (
  arith,
  night_step_living run a x given,
  run_night_living acts (night_step run a) x given s.1,
  late_step run a,
  late_run acts (night_step run a),
  s.0,
  action_eq_iff a.type kill,
  late_kill a,
)

struck-insert_by :
    (lt : NightAction → NightAction → Bool) (run : NightRun) (x : GoString) (a : NightAction)
    (acts : List NightAction)
    → struck run (insert_by lt a acts) x ≡ struck run (a ∷ acts) x
unfolding insert_by
struck-insert_by lt run x a [] = refl
struck-insert_by lt run x a (b ∷ acts) = ground (arith, struck-insert_by lt run x a acts)

struck-sort_by :
    (lt : NightAction → NightAction → Bool) (run : NightRun) (x : GoString)
    (acts : List NightAction)
    → struck run (sort_by lt acts) x ≡ struck run acts x
unfolding sort_by
struck-sort_by lt run x [] = refl
struck-sort_by lt run x (a ∷ acts) =
    ground (arith, struck-insert_by lt run x a (sort_by lt acts), struck-sort_by lt run x acts)

-- Under the default rules, in whatever order the actions came in: who lives after the night is who
-- lived before it and is the target of no kill, or of kills by blocked players only, or protected,
-- where blocked and protected are as the night leaves them.
pub night_run_living :
    (s : State) (x : GoString)
    → s.rules ≡ some default_rule_set
    → x ≢ []
    → is_living (night_run s).state.players x
      ≡ (is_living s.players x && not (struck (night_run s) (map (λ e. e.1) s.night_actions) x))
unfolding night_run order_night_actions game_rules
night_run_living s x default given =
    let acts = map (λ e. e.1) s.night_actions in
    let sorted = sort_by (action_before (game_rules s)) acts in
    let run : NightRun = record { blocked = []; protected = []; eliminated = []; state = s } in
    ground (
      arith,
      run_night_living sorted run x given (rw default (sort_by-IsStaged acts)),
      struck-sort_by (action_before (game_rules s)) (run_night sorted run) x acts,
    )
