-- ===== src/Room/PresetExamples.antt =====
-- Tests of the presets of internal/room/settings.go, with a runtime that reads their durations.
use midnight_council.Base.{
  pos, negsuc, zero, ◌≡◌, refl, [], ◌∷◌, Option, none, some, if◌then◌else◌, ◌==◌, ◌*◌,
}
use midnight_council.Text.{GoString, text, str_Eq, str_eq}
use midnight_council.Room.Types.{Duration, set_game_preset}
use midnight_council.Room.Host.{Host}
use midnight_council.Room.Timing.{second}
use midnight_council.Room.Settings.{quick}
use midnight_council.Room.Event.{Event}
use midnight_council.Room.State.Admin.{apply_set_game_preset}
use midnight_council.Room.Examples.{host, seated, event}
use midnight_council.Room.Presets.{ReadsDurations, PresetAnswer, apply_set_game_preset-PresetAnswer}

known_duration : GoString → Option Duration
known_duration s =
    if s == text "15s"
    then some (pos (15 * second))
    else if s == text "30s"
    then some (pos (30 * second))
    else if s == text "45s"
    then some (pos (45 * second))
    else if s == text "1m"
    then some (pos (60 * second))
    else if s == text "1m30s"
    then some (pos (90 * second))
    else if s == text "2m"
    then some (pos (120 * second))
    else if s == text "4m"
    then some (pos (240 * second))
    else if s == text "7m"
    then some (pos (420 * second))
    else none

-- Durations that are shown as one or two bytes are told apart from the texts of the presets.
abbrev read_duration : GoString → Option Duration
read_duration (n ∷ []) = some (pos n)
read_duration (n ∷ zero ∷ []) = some (negsuc n)
read_duration s = known_duration s

abbrev shown_duration : Duration → GoString
shown_duration (pos n) = n ∷ []
shown_duration (negsuc n) = n ∷ 0 ∷ []

abbrev reading_host : Host
reading_host = record host { parse_duration = read_duration; show_duration = shown_duration }

shown_read : (d : Duration) → read_duration (shown_duration d) ≡ some d
shown_read (pos n) = refl
shown_read (negsuc n) = refl

reading_host-ReadsDurations : ReadsDurations reading_host
unfolding known_duration str_eq
reading_host-ReadsDurations = record {
  shown = shown_read;
  read_15s = refl;
  read_30s = refl;
  read_45s = refl;
  read_1m = refl;
  read_1m30s = refl;
  read_2m = refl;
  read_4m = refl;
  read_7m = refl;
}

abbrev quick_chosen : Event
quick_chosen = record (event set_game_preset (text "ada")) { game_preset = quick }

apply_set_game_preset-PresetAnswer_example :
    PresetAnswer reading_host seated quick_chosen
      (apply_set_game_preset reading_host seated quick_chosen)
unfolding seated
apply_set_game_preset-PresetAnswer_example =
    apply_set_game_preset-PresetAnswer reading_host seated quick_chosen reading_host-ReadsDurations
      refl refl
