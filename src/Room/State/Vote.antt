-- ===== src/Room/State/Vote.antt =====
-- `resolveVote`, `topVoteTarget`, `pruneVotes` and `allLivingPlayersVoted` of
-- internal/room/state.go.
use midnight_council.Base.{
  ℕ, ◌+◌, Bool, true, false, not, ◌&&◌, ◌||◌, List, [], ◌∷◌, Option, none, some, ltb, nat_eq, ◌==◌,
  if◌then◌else◌, is_some, map,
}
use midnight_council.Base.Dict.{lookup, insert, modify}
use midnight_council.Text.{GoString, str_Eq}
use midnight_council.Room.Types.{
  Time, Player, last_words, vote_no_execution, player_executed, last_words_started,
}
use midnight_council.Room.State.{
  State, Players, enter_phase, append_log, blank_entry, sort_strings, is_living,
}
use midnight_council.Room.State.Win.{advance_after_day}

abbrev pub Votes : Type 0
Votes = List (GoString × GoString)

-- The loop of `pruneVotes`: each entry is dropped, kept or turned into an abstention by itself.
unfoldable pub prune_ballots : Players → Votes → Votes
prune_ballots players [] = []
prune_ballots players ((voter, target) ∷ rest) =
    let kept = prune_ballots players rest in
    if not (is_living players voter)
    then kept
    else if target == [] || is_living players target
    then (voter, target) ∷ kept
    else (voter, []) ∷ kept

unfoldable pub prune_votes : State → State
prune_votes s = record s { votes = prune_ballots s.players s.votes }

abbrev or_zero : Option ℕ → ℕ
or_zero none = 0
or_zero (some n) = n

-- `tallies[id]`
unfoldable pub tally_of : GoString → List (GoString × ℕ) → ℕ
tally_of id tallies = or_zero (lookup id tallies)

unfoldable pub tally : Votes → List (GoString × ℕ) → List (GoString × ℕ)
tally [] tallies = tallies
tally ((voter, target) ∷ rest) tallies =
    tally rest
      (if target == [] then tallies else insert target (tally_of target tallies + 1) tallies)

-- `topTarget`, `topCount` and `tied`
pub record Top : Type 0 where
  pub target : GoString
  pub count : ℕ
  pub tied : Bool

unfoldable pub top_step : GoString → ℕ → Top → Top
top_step id count top =
    if ltb top.count count
    then record { target = id; count = count; tied = false }
    else if nat_eq count top.count
    then record top { tied = true }
    else top

unfoldable pub top_loop : List (GoString × ℕ) → List GoString → Top → Top
top_loop tallies [] top = top
top_loop tallies (id ∷ ids) top = top_loop tallies ids (top_step id (tally_of id tallies) top)

abbrev pub no_top : Top
no_top = record { target = []; count = 0; tied = false }

unfoldable pub top_vote_target : List (GoString × ℕ) → GoString × Bool
top_vote_target tallies =
    let top = top_loop tallies (sort_strings (map (λ e. e.0) tallies)) no_top in
    (top.target, top.tied)

abbrev pub execute : Player → Player
execute p = record p { alive = false }

-- The branch of `resolveVote` for a target that leads alone, with the id of who was executed.
unfoldable pub execute_target : Time → GoString → State → State × GoString
execute_target at target_id s = elim (lookup target_id s.players) [
  | none ↦ (append_log vote_no_execution at blank_entry s, [])
  | some target ↦
      if target.alive
      then (
        append_log player_executed at (record blank_entry { target_id = target.id })
            (record s { players = modify target_id execute s.players }),
        target.id,
      )
      else (append_log vote_no_execution at blank_entry s, [])
]

unfoldable pub execution : Time → State → State × GoString
execution at s =
    let (target_id, tied) = top_vote_target (tally s.votes []) in
    let executed = execute_target at target_id s in
    if target_id == [] || tied
    then (append_log vote_no_execution at blank_entry s, [])
    else executed

-- What follows the count: last words of the executed player, or the next night.
unfoldable pub after_execution : Time → State × GoString → State
after_execution at (s, executed_id) =
    let cleared = record s { votes = [] } in
    let entered = enter_phase last_words at (record cleared { last_words_id = executed_id }) in
    if executed_id == []
    then advance_after_day at cleared
    else append_log last_words_started at (record blank_entry { target_id = executed_id }) entered

unfoldable pub resolve_vote : Time → State → State
resolve_vote at s = after_execution at (execution at (prune_votes s))

unfoldable pub complete_last_words : Time → State → State
complete_last_words at s = advance_after_day at (record s { last_words_id = [] })

abbrev pub some_living : Players → Bool
some_living [] = false
some_living ((id, p) ∷ rest) = p.alive || some_living rest

abbrev pub every_living_voted : Votes → Players → Bool
every_living_voted votes [] = true
every_living_voted votes ((id, p) ∷ rest) =
    (not p.alive || is_some (lookup p.id votes)) && every_living_voted votes rest

-- `allLivingPlayersVoted`: the loop returns false at the first living player with no vote.
unfoldable pub all_living_players_voted : State → Bool
all_living_players_voted s = every_living_voted s.votes s.players && some_living s.players

-- The loop of `applyPhaseTimeout` that abstains for every living player who has not voted.
unfoldable pub abstain_for_idle : Players → Votes → Votes
abstain_for_idle [] votes = votes
abstain_for_idle ((id, p) ∷ rest) votes =
    abstain_for_idle rest
      (if p.alive && not (is_some (lookup p.id votes)) then insert p.id [] votes else votes)
