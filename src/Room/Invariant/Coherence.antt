-- ===== src/Room/Invariant/Coherence.antt =====
-- The phase and the rest of the state, part by part of internal/room/state.go.
use midnight_council.Base.{
  ℕ, ◌≤◌, ◌-◌, ◌≡◌, ◌≢◌, ◌⊎◌, inl, inr, true, false, List, [], ◌∷◌, length, length-drop, arith,
  none,
}
use midnight_council.Text.{GoString, text, str_eq_iff}
use midnight_council.Room.Types.{
  Time, night, day_discussion, day_voting, last_words, phase_eq, LogEntry, Winner, villagers_win,
  killers_win, last_words_started, night_started, day_started,
}
use midnight_council.Room.Timing.{durations_valid, duration_for}
use midnight_council.Room.State.{
  State, capped, max_event_log_entries, append_log, enter_phase, start_voting, blank_entry,
  sort_strings,
}
use midnight_council.Room.State.Win.{next_round, finish, check_win, advance_after_day}
use midnight_council.Room.State.Vote.{
  prune_votes, execution, execute_target, after_execution, resolve_vote, complete_last_words,
}
use midnight_council.Room.State.Night.{log_eliminated, announce, night_run, dawn, resolve_night}
use midnight_council.Room.Frame.{announce_frame, night_run_frame, dawn_frame, execution_frame}
use midnight_council.Room.Invariant.{IsCoherent, IsRunning}

pub capped_le : (log : List LogEntry) → length (capped log) ≤ max_event_log_entries
unfolding capped
capped_le log = ground (arith, length-drop {0} (length log - max_event_log_entries) log)

-- Between two phases: what the code has cleared before it enters the next one.
pub record IsUnsettled (s : State) : Type 0 where
  pub positive : durations_valid s.phase_durations ≡ true
  pub open_result : s.result ≡ none
  pub silent : s.last_words_id ≡ []
  pub still : s.night_actions ≡ []
  pub logged : length s.log ≤ max_event_log_entries

finish-IsCoherent :
    (w : Winner) (reason : GoString) (at : Time) (s : State)
    → IsUnsettled s
    → IsCoherent (finish w reason at s)
unfolding finish append_log enter_phase duration_for
finish-IsCoherent w reason at s u = grind (arith, capped_le)

enter_night-IsCoherent :
    (at : Time) (n : ℕ) (s : State)
    → IsUnsettled s
    → s.votes ≡ []
    → IsCoherent (
        append_log night_started at blank_entry
          (record (enter_phase night at (record s { round = n })) { night_actions = [] }))
unfolding append_log enter_phase duration_for durations_valid
enter_night-IsCoherent at n s u v = grind (arith, capped_le)

advance_after_day-IsCoherent :
    (at : Time) (s : State)
    → IsRunning s.phase
    → IsUnsettled s
    → s.votes ≡ []
    → IsCoherent (advance_after_day at s)
unfolding advance_after_day check_win phase_eq
advance_after_day-IsCoherent at s r u v = ground (
  arith,
  enter_night-IsCoherent at (next_round s.round) s u v,
  finish-IsCoherent villagers_win (text "all_killers_eliminated") at s u,
  finish-IsCoherent killers_win (text "killers_control_the_room") at s u,
)

pub start_voting-IsCoherent :
    (at : Time) (id : GoString) (s : State) → IsUnsettled s → IsCoherent (start_voting at id s)
unfolding start_voting append_log enter_phase duration_for durations_valid
start_voting-IsCoherent at id s u = grind (arith, capped_le)

enter_last_words-IsCoherent :
    (at : Time) (id : GoString) (s : State)
    → IsUnsettled s
    → id ≢ []
    → IsCoherent (
        append_log last_words_started at
          (record blank_entry { target_id = id })
          (enter_phase last_words at (record s { votes = []; last_words_id = id })))
unfolding append_log enter_phase duration_for durations_valid
enter_last_words-IsCoherent at id s u n = grind (arith, capped_le)

enter_day-IsCoherent :
    (at : Time) (s : State)
    → IsUnsettled s
    → IsCoherent (
        append_log day_started at blank_entry
          (record (enter_phase day_discussion at s) { votes = [] }))
unfolding append_log enter_phase duration_for durations_valid
enter_day-IsCoherent at s u = grind (arith, capped_le)

log_eliminated_logged :
    (at : Time) (ids : List GoString) (s : State)
    → length s.log ≤ max_event_log_entries
    → length (log_eliminated at ids s).log ≤ max_event_log_entries
unfolding log_eliminated append_log
log_eliminated_logged at [] s h = h
log_eliminated_logged at (id ∷ ids) s h = log_eliminated_logged at ids _ (capped_le _)

announce_logged :
    (at : Time) (ids : List GoString) (s : State)
    → length s.log ≤ max_event_log_entries
    → length (announce at ids s).log ≤ max_event_log_entries
unfolding announce append_log
announce_logged at [] s h = capped_le _
announce_logged at (id ∷ ids) s h = log_eliminated_logged at (sort_strings (id ∷ ids)) s h

dawn-IsUnsettled :
    (at : Time) (s : State) → s.phase ≡ night → IsCoherent s → IsUnsettled (dawn at s)
unfolding dawn prune_votes
dawn-IsUnsettled at s p c =
    let run = night_run s in
    ground (
      arith,
      announce_frame at run.eliminated run.state,
      night_run_frame s,
      announce_logged at run.eliminated run.state,
    )

-- A check for a winner ends the game or changes nothing.
pub check_win_cases :
    (at : Time) (s : State)
    → IsRunning s.phase
    → IsUnsettled s
    → (((check_win at s).1 ≡ true) × IsCoherent (check_win at s).0) ⊎ (check_win at s ≡ (s, false))
unfolding check_win phase_eq
check_win_cases at s r u = ground (
  arith,
  finish-IsCoherent villagers_win (text "all_killers_eliminated") at s u,
  finish-IsCoherent killers_win (text "killers_control_the_room") at s u,
)

pub resolve_night-IsCoherent :
    (at : Time) (s : State) → s.phase ≡ night → IsCoherent s → IsCoherent (resolve_night at s)
unfolding resolve_night
resolve_night-IsCoherent at s p c =
    let u = dawn-IsUnsettled at s p c in
    elim (check_win_cases at (dawn at s) (ground (arith, dawn_frame at s)) u) [
      | inl (over, done) ↦ rw over done
      | inr e ↦ rw e (enter_day-IsCoherent at (dawn at s) u)
    ]

execution-IsUnsettled :
    (at : Time) (s : State) → s.phase ≡ day_voting → IsCoherent s → IsUnsettled (execution at s).0
unfolding execution execute_target append_log
execution-IsUnsettled at s p c = grind (arith, capped_le)

after_execution-IsCoherent :
    (at : Time) (s : State) (id : GoString)
    → IsRunning s.phase
    → IsUnsettled s
    → IsCoherent (after_execution at (s, id))
unfolding after_execution
after_execution-IsCoherent at s id r u = ground (
  arith,
  str_eq_iff id [],
  advance_after_day-IsCoherent at (record s { votes = [] }),
  enter_last_words-IsCoherent at id s u,
)

pub resolve_vote-IsCoherent :
    (at : Time) (s : State) → s.phase ≡ day_voting → IsCoherent s → IsCoherent (resolve_vote at s)
unfolding resolve_vote prune_votes
resolve_vote-IsCoherent at s p c =
    let pruned = prune_votes s in
    after_execution-IsCoherent at (execution at pruned).0 (execution at pruned).1
      (ground (arith, execution_frame at pruned)) (execution-IsUnsettled at pruned p (ground arith))

pub complete_last_words-IsCoherent :
    (at : Time) (s : State)
    → s.phase ≡ last_words
    → IsCoherent s
    → IsCoherent (complete_last_words at s)
unfolding complete_last_words
complete_last_words-IsCoherent at s p c =
    advance_after_day-IsCoherent at _ (ground arith) (ground arith) (ground arith)
