-- ===== src/Room/Invariant.antt =====
-- The facts that hold of a room between two events.
pub mod Coherence
pub mod Events
pub mod Balance
pub mod SameSeats
pub mod SameTable
pub mod Seats
pub mod Seating
pub mod Occupancy
use midnight_council.Base.{
  ℕ, ◌≤◌, ◌≡◌, ◌≢◌, refl, ◌⊎◌, inl, inr, none, true, [], is_some, length, arith,
}
use midnight_council.Room.Types.{Phase, waiting, night, day_voting, last_words, finished}
use midnight_council.Room.Timing.{durations_valid}
use midnight_council.Room.State.{State, max_event_log_entries}

-- The phase agrees with the deadline, the result, the speaker of last words, the night actions and
-- the votes, and the log keeps to its limit.
pub record IsCoherent (s : State) : Type 0 where
  pub positive : durations_valid s.phase_durations ≡ true
  pub idle : (s.phase ≡ waiting) ⊎ (s.phase ≡ finished) → s.phase_deadline ≡ 0
  pub timed : s.phase_deadline ≡ 0 → (s.phase ≡ waiting) ⊎ (s.phase ≡ finished)
  pub decided : s.phase ≡ finished → is_some s.result ≡ true
  pub undecided : s.phase ≢ finished → s.result ≡ none
  pub speaking : s.phase ≡ last_words → s.last_words_id ≢ []
  pub silent : s.phase ≢ last_words → s.last_words_id ≡ []
  pub acting : s.phase ≢ night → s.night_actions ≡ []
  pub voting : s.phase ≢ day_voting → s.phase ≢ finished → s.votes ≡ []
  pub logged : length s.log ≤ max_event_log_entries

-- A phase other than these two is one of a running game.
abbrev pub IsRunning : Phase → Type 0
IsRunning p = (p ≢ waiting) × (p ≢ finished)
