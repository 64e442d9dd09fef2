-- ===== src/Room/State/Night.antt =====
-- `resolveNight`, `recordInvestigation` and `allNightActionsSubmitted` of internal/room/state.go.
use midnight_council.Base.{
  Bool, true, false, not, ◌&&◌, ◌||◌, List, [], ◌∷◌, ◌++◌, Option, none, some, ◌==◌, if◌then◌else◌,
  is_some,
}
use midnight_council.Base.Dict.{lookup, insert, modify}
use midnight_council.Text.{GoString, str_Eq}
use midnight_council.Room.Types.{
  Time, Player, day_discussion, NightAction, NightActionType, kill, investigate, protect, block,
  pass, InvestigationResult, night_no_elimination, night_eliminated, day_started,
}
use midnight_council.Room.Rules.{RuleSet, is_killer_aligned, order_night_actions}
use midnight_council.Room.State.{
  State, Players, game_rules, enter_phase, append_log, blank_entry, sort_strings, has_night_action,
  night_action_submitted,
}
use midnight_council.Room.State.Vote.{prune_votes}
use midnight_council.Room.State.Win.{check_win}

-- A `map[string]bool` whose values are all true.
unfoldable pub has : GoString → List GoString → Bool
has id [] = false
has id (x ∷ xs) = x == id || has id xs

unfoldable pub add_to : GoString → List GoString → List GoString
add_to id ids = if has id ids then ids else ids ++ id ∷ []

-- The variables of the loop over the ordered actions.
pub record NightRun : Type 0 where
  pub blocked : List GoString
  pub protected : List GoString
  pub eliminated : List GoString
  pub state : State

abbrev or_empty : Option (List InvestigationResult) → List InvestigationResult
or_empty none = []
or_empty (some results) = results

unfoldable pub record_investigation : NightAction → State → State
record_investigation action s = elim (lookup action.target_id s.players) [
  | none ↦ s
  | some target ↦
      let found : InvestigationResult = record {
        round = s.round;
        target_id = target.id;
        target_name = target.name;
        is_killer = is_killer_aligned (game_rules s) target.role;
      } in
      record s {
        investigations =
            insert action.player_id
              (or_empty (lookup action.player_id s.investigations) ++ found ∷ []) s.investigations;
      }
]

abbrev pub eliminate : Player → Player
eliminate p = record p { alive = false }

unfoldable pub night_kill : GoString → NightRun → NightRun
night_kill target_id run = elim (lookup target_id run.state.players) [
  | none ↦ run
  | some target ↦
      if target.alive
      then record run {
        eliminated = add_to target.id run.eliminated;
        state = record (run.state) { players = modify target_id eliminate run.state.players };
      }
      else run
]

-- The `switch` on the type of an action that is not blocked.
unfoldable pub perform : NightActionType → NightAction → NightRun → NightRun
perform block action run =
    if action.target_id == []
    then run
    else record run { blocked = add_to action.target_id run.blocked }
perform protect action run =
    if action.target_id == []
    then run
    else record run { protected = add_to action.target_id run.protected }
perform kill action run =
    if action.target_id == [] || has action.target_id run.protected
    then run
    else night_kill action.target_id run
perform investigate action run = record run { state = record_investigation action run.state }
perform _ action run = run

unfoldable pub night_step : NightRun → NightAction → NightRun
night_step run action =
    if has action.player_id run.blocked then run else perform action.type action run

unfoldable pub run_night : List NightAction → NightRun → NightRun
run_night [] run = run
run_night (action ∷ rest) run = run_night rest (night_step run action)

unfoldable pub log_eliminated : Time → List GoString → State → State
log_eliminated at [] s = s
log_eliminated at (id ∷ ids) s =
    log_eliminated at ids (append_log night_eliminated at (record blank_entry { target_id = id }) s)

unfoldable pub announce : Time → List GoString → State → State
announce at [] s = append_log night_no_elimination at blank_entry s
announce at (id ∷ ids) s = log_eliminated at (sort_strings (id ∷ ids)) s

-- The loop of `resolveNight` on the actions of the state.
unfoldable pub night_run : State → NightRun
night_run s =
    run_night (order_night_actions (game_rules s) s.night_actions)
      (record { blocked = []; protected = []; eliminated = []; state = s })

-- What the night leaves behind when `resolveNight` asks for a winner.
unfoldable pub dawn : Time → State → State
dawn at s =
    let run = night_run s in
    prune_votes (record (announce at run.eliminated run.state) { night_actions = [] })

unfoldable pub resolve_night : Time → State → State
resolve_night at s =
    let (checked, over) = check_win at (dawn at s) in
    let entered = record (enter_phase day_discussion at checked) { votes = [] } in
    if over then checked else append_log day_started at blank_entry entered

-- `allNightActionsSubmitted`
unfoldable pub all_night_actions_submitted : State → Players → Bool
all_night_actions_submitted s [] = true
all_night_actions_submitted s ((id, p) ∷ rest) =
    not (p.alive && has_night_action (game_rules s) p.role && not (night_action_submitted s p.id))
    && all_night_actions_submitted s rest

-- The loop of `applyPhaseTimeout` that passes for every player who has not acted.
unfoldable pub pass_for_idle :
    RuleSet → Players → List (GoString × NightAction) → List (GoString × NightAction)
pass_for_idle rules [] actions = actions
pass_for_idle rules ((id, p) ∷ rest) actions = pass_for_idle rules rest (
    if has_night_action rules p.role && p.alive && not (is_some (lookup p.id actions))
    then insert p.id (record { player_id = p.id; target_id = []; type = pass }) actions
    else actions)
