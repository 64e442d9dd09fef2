-- ===== src/Room/GameExamples.antt =====
-- States of a game at which the theorems on internal/room apply.
use midnight_council.Base.{
  ◌≡◌, refl, true, false, [], ◌∷◌, arith, ◌↔◌, ◌&&◌, not, map, length, ◌≢◌, All, is_some,
}
use midnight_council.Text.{text, str_eq_iff, str_eq}
use midnight_council.Room.Types.{
  EventType, night, day_voting, killer, villager, kill, detective, role_Eq,
}
use midnight_council.Room.Event.{Event}
use midnight_council.Room.State.{State, game_rules, is_living}
use midnight_council.Room.Errors.{is_ok, err, duplicate_client_event}
use midnight_council.Room.Rules.Deck.{count_role}
use midnight_council.Room.Phases.{Follows, apply-Follows, apply-phase_timeout}
use midnight_council.Room.Deal.{count_players}
use midnight_council.Room.Shuffle.{shuffle_roles_lem}
use midnight_council.Room.Start.{start_game_lem, start_game_one_killer}
use midnight_council.Room.Rules.{
  default_role_rules, default_deck_order, default_rule_set, role_deck,
}
use midnight_council.Room.Rules.Building.{Holds, IsDeck, new_rule_set_lem}
use midnight_council.Room.Sequences.{apply_duplicate}
use midnight_council.Room.Authority.{SameRules, apply-SameRules}
use midnight_council.Room.Plurality.{HasPlurality, execution_lem}
use midnight_council.Room.Deaths.{struck, night_run_living}
use midnight_council.Room.Privacy.{known_to, envelope_for_player-known_to}
use midnight_council.Base.Dict.{lookup}
use midnight_council.Room.State.Apply.{apply}
use midnight_council.Room.State.Game.{non_owners_ready, apply_start_game}
use midnight_council.Room.State.Night.{night_run}
use midnight_council.Room.State.Views.{envelope_for_player}
use midnight_council.Room.State.Vote.{execution}
use midnight_council.Room.Trace.{run}
use midnight_council.Room.Examples.{
  host, event, room, seated, started, intrusion, started-IsCoherent,
}

-- The ballots of a vote against bob.
abbrev voting : State
voting = record started {
  phase = day_voting;
  votes = (text "ada", text "bob") ∷ (text "bob", []) ∷ (text "cyd", text "bob") ∷ [];
}

HasPlurality-bob : HasPlurality (text "bob") voting.votes
unfolding str_eq
HasPlurality-bob = (ground arith, λ y shown other. ground (arith, str_eq_iff (text "bob") y))

execution_lem_example :
    ((is_living (execution 5000 voting).0.players (text "bob") ≡ false)
      ↔ HasPlurality (text "bob") voting.votes)
    × (((execution 5000 voting).1 ≡ text "bob") ↔ HasPlurality (text "bob") voting.votes)
unfolding started
execution_lem_example =
    execution_lem 5000 voting (text "bob") (ground arith) (λ e. ground arith) refl

abbrev hunted : State
hunted = record started {
  night_actions =
      (text "ada", record { player_id = text "ada"; target_id = text "cyd"; type = kill }) ∷ [];
}

night_run_living_example : is_living (night_run hunted).state.players (text "cyd") ≡ (
    is_living hunted.players (text "cyd")
    && not (struck (night_run hunted) (map (λ e. e.1) hunted.night_actions) (text "cyd")))
unfolding started
night_run_living_example = night_run_living hunted (text "cyd") refl (λ e. ground arith)

envelope_for_player-known_to_example :
    envelope_for_player host (known_to (text "bob") started) (text "bob")
    ≡ envelope_for_player host started (text "bob")
unfolding started
envelope_for_player-known_to_example =
    envelope_for_player-known_to host started (text "bob") (ground arith)

apply-Follows_example : Follows started.phase (apply host started intrusion).0.phase
apply-Follows_example = apply-Follows host started intrusion started-IsCoherent

abbrev sunrise : Event
sunrise = record (event EventType.phase_timeout []) { at = 60_000_002_000 }

apply-phase_timeout_example :
    ((apply host started sunrise).0.phase ≢ started.phase)
    × (is_ok (apply host started sunrise).1 ≡ true)
unfolding started
apply-phase_timeout_example =
    apply-phase_timeout host started sunrise started-IsCoherent (ground arith) refl refl
      (ground arith)

abbrev ready_room : State
ready_room =
    run seated
      ((host, event EventType.ready (text "bob")) ∷ (host, event EventType.ready (text "cyd")) ∷ [])

abbrev start : Event
start = event EventType.start_game (text "ada")

abbrev first_night : State
first_night = (apply_start_game host ready_room start).0

start_game_lem_example :
    (first_night.phase ≡ night)
    × (start.player_id ≡ ready_room.owner_id)
    × (non_owners_ready ready_room.owner_id ready_room.players ≡ true)
    × (count_players detective first_night.players
        ≡ count_role detective (
            role_deck
              (game_rules ready_room)
              (length ready_room.players)
              ready_room.game_settings.roles))
unfolding started
start_game_lem_example = start_game_lem host ready_room start detective (ground arith) refl

start_game_one_killer_example : count_players killer first_night.players ≡ 1
unfolding started
start_game_one_killer_example = start_game_one_killer host ready_room start (ground arith) refl refl

abbrev numbered : Event
numbered = record (event EventType.presence (text "bob")) { client_sequence = 7 }

apply_duplicate_example :
    apply host (apply host started numbered).0 numbered
    ≡ ((apply host started numbered).0, err duplicate_client_event)
unfolding started
apply_duplicate_example =
    apply_duplicate host host started numbered numbered (omega arith) (omega arith) refl refl refl

apply-SameRules_example : SameRules started (apply host started intrusion).0
unfolding started
apply-SameRules_example =
    apply-SameRules host started intrusion started-IsCoherent (λ e. ground arith)

shuffle_roles_lem_example :
    (count_role killer (killer ∷ villager ∷ []) ≡ count_role killer (killer ∷ villager ∷ []))
    × (length (killer ∷ villager ∷ []) ≡ 2)
unfolding started
shuffle_roles_lem_example =
    shuffle_roles_lem host (killer ∷ villager ∷ []) (killer ∷ villager ∷ []) killer refl

new_rule_set_lem_example :
    All (Holds default_rule_set) default_role_rules
    × (is_some (lookup villager default_rule_set.roles) ≡ true)
    × (default_rule_set.deck_order ≡ default_deck_order)
    × IsDeck default_rule_set default_rule_set.deck_order
unfolding room
new_rule_set_lem_example =
    new_rule_set_lem default_role_rules default_deck_order default_rule_set refl
