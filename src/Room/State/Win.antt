-- ===== src/Room/State/Win.antt =====
-- `checkWin`, `finish` and `advanceAfterDay` of internal/room/state.go.
use midnight_council.Base.{
  ℕ, suc, ◌+◌, ◌%◌, ◌^◌, Bool, true, false, not, ◌&&◌, ◌||◌, [], ◌∷◌, some, leb, nat_eq, ◌==◌,
  if◌then◌else◌,
}
use midnight_council.Text.{GoString, text}
use midnight_council.Room.Types.{
  Time, waiting, night, finished, phase_Eq, Winner, villagers_win, killers_win, game_finished,
  night_started,
}
use midnight_council.Room.Rules.{RuleSet, is_killer_aligned}
use midnight_council.Room.State.{State, Players, game_rules, enter_phase, append_log, blank_entry}

-- The two counters of the loop over the players.
unfoldable pub living_killers : RuleSet → Players → ℕ
living_killers rules [] = 0
living_killers rules ((id, p) ∷ rest) =
    let counted = living_killers rules rest in
    if p.alive && is_killer_aligned rules p.role then suc counted else counted

unfoldable pub living_others : RuleSet → Players → ℕ
living_others rules [] = 0
living_others rules ((id, p) ∷ rest) =
    let counted = living_others rules rest in
    if p.alive && not (is_killer_aligned rules p.role) then suc counted else counted

unfoldable pub finish : Winner → GoString → Time → State → State
finish winner reason at s =
    let entered = enter_phase finished at s in
    let decided = record entered {
      result = some (record { winner = winner; reason = reason; finished_at = at });
    } in
    append_log game_finished at (record blank_entry { winner = some winner; reason = reason })
      decided

-- The state after the check, and whether the game is over.
unfoldable pub check_win : Time → State → State × Bool
check_win at s =
    let killers = living_killers (game_rules s) s.players in
    let others = living_others (game_rules s) s.players in
    if s.phase == waiting || s.phase == finished
    then (s, s.phase == finished)
    else if nat_eq killers 0
    then (finish villagers_win (text "all_killers_eliminated") at s, true)
    else if leb others killers
    then (finish killers_win (text "killers_control_the_room") at s, true)
    else (s, false)

-- `s.round++`
abbrev pub next_round : ℕ → ℕ
next_round round = (round + 1) % 2 ^ 64

unfoldable pub advance_after_day : Time → State → State
advance_after_day at s =
    let (checked, over) = check_win at s in
    let entered = enter_phase night at (record checked { round = next_round checked.round }) in
    let cleared = record entered { night_actions = [] } in
    if over then checked else append_log night_started at blank_entry cleared
