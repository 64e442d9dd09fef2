-- ===== src/Room/Timing.antt =====
-- internal/room/timing.go: how long each phase lasts.
use midnight_council.Base.{ℕ, pos, int_lt, ◌*◌, Bool, ◌&&◌}
use midnight_council.Room.Types.{
  Duration, Phase, waiting, night, day_discussion, day_voting, last_words, finished,
}

abbrev pub second : ℕ
second = 1_000_000_000

pub record PhaseDurations : Type 0 where
  pub night : Duration
  pub day_discussion : Duration
  pub day_voting : Duration
  pub last_words : Duration

abbrev pub default_phase_durations : PhaseDurations
default_phase_durations = record {
  night = pos (90 * second);
  day_discussion = pos (300 * second);
  day_voting = pos (60 * second);
  last_words = pos (30 * second);
}

abbrev pub is_positive : Duration → Bool
is_positive d = int_lt (pos 0) d

-- `PhaseDurations.Validate`: the loop stops at the first duration that is not positive. Only
-- whether it fails is kept, since no caller in the package passes its message on.
unfoldable pub durations_valid : PhaseDurations → Bool
durations_valid d =
    is_positive d.night
    && is_positive d.day_discussion
    && is_positive d.day_voting
    && is_positive d.last_words

unfoldable pub duration_for : PhaseDurations → Phase → Duration
duration_for d night = d.night
duration_for d day_discussion = d.day_discussion
duration_for d day_voting = d.day_voting
duration_for d last_words = d.last_words
duration_for d waiting = pos 0
duration_for d finished = pos 0
