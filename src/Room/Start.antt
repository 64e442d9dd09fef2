-- ===== src/Room/Start.antt =====
-- A game that starts: what `applyStartGame` of internal/room/state.go makes of the waiting room.
use midnight_council.Base.{ℤ, pos, ◌≤ℤ◌, ◌≡◌, refl, true, List, length, arith, inl, inr, some}
use midnight_council.Base.Dict.Laws.{Distinct}
use midnight_council.Text.{str_Eq, str_eq_iff}
use midnight_council.Room.Types.{Role, killer, night}
use midnight_council.Room.Errors.{ok, is_ok, Result-cases}
use midnight_council.Room.Host.{Host}
use midnight_council.Room.Timing.{PhaseDurations}
use midnight_council.Room.Rules.{role_deck, default_rule_set, RuleSet, validate_role_configuration}
use midnight_council.Room.Rules.Deck.{count_role, length-role_deck, role_deck_one_killer}
use midnight_council.Room.Settings.{
  GameSettings, min_players_to_start, validate_room_constraints, validate_with_rule_set,
  validate_for_start_with_rule_set,
}
use midnight_council.Room.Event.{Event}
use midnight_council.Room.State.{
  State, game_rules, touch, enter_phase, append_log, sorted_player_ids,
}
use midnight_council.Room.State.Seats.{applied}
use midnight_council.Room.State.Game.{shuffle_roles, begin_game, apply_start_game, non_owners_ready}
use midnight_council.Room.Shuffle.{shuffle_roles_lem}
use midnight_council.Room.Deal.{count_players, deal_lem}

begin_game_lem :
    (d : PhaseDurations) (roles : List Role) (e : Event) (s : State) (r : Role)
    → Distinct s.players
    → length roles ≡ length s.players
    → ((begin_game d roles e s).phase ≡ night)
      × (count_players r (begin_game d roles e s).players ≡ count_role r roles)
unfolding begin_game enter_phase append_log sorted_player_ids
begin_game_lem d roles e s r distinct same = (refl, deal_lem r roles s.players distinct same)

-- A game that starts is in its first night, its owner started it with everybody ready, and as many
-- players hold a role as there are cards of it in the deck for that many players.
pub start_game_lem :
    (h : Host) (s : State) (e : Event) (r : Role)
    → Distinct s.players
    → is_ok (apply_start_game h s e).1 ≡ true
    → let t = (apply_start_game h s e).0 in
      (t.phase ≡ night)
      × (e.player_id ≡ s.owner_id)
      × (non_owners_ready s.owner_id s.players ≡ true)
      × (count_players r t.players
          ≡ count_role r (role_deck (game_rules s) (length s.players) s.game_settings.roles))
unfolding apply_start_game applied touch
start_game_lem h s e r distinct done =
    let deck = role_deck (game_rules s) (length s.players) s.game_settings.roles in
    elim (Result-cases (
      validate_for_start_with_rule_set h s.game_settings s.max_players s.base_durations
        (game_rules s))) [
          | inl (x, bad) ↦ ground arith
          | inr (d, good) ↦ elim (Result-cases (shuffle_roles h deck)) [
            | inl (x, bad) ↦ ground arith
            | inr (roles, dealt) ↦ ground (
              arith,
              str_eq_iff e.player_id s.owner_id,
              shuffle_roles_lem h deck roles r dealt,
              length-role_deck (game_rules s) (length s.players) s.game_settings.roles,
              begin_game_lem d roles e s r distinct,
            )
          ]
        ]

-- Settings with which a game may start ask for two players at least and one killer.
start_settings :
    (h : Host) (g : GameSettings) (max : ℤ) (base d : PhaseDurations) (rules : RuleSet)
    → validate_for_start_with_rule_set h g max base rules ≡ ok d
    → (pos min_players_to_start ≤ℤ g.minimum_players)
      × (validate_role_configuration rules g.roles ≡ ok tt)
unfolding validate_for_start_with_rule_set validate_with_rule_set validate_room_constraints
start_settings h g max base d rules e = ground arith

-- Under the default rules, a game that starts has exactly one killer.
pub start_game_one_killer :
    (h : Host) (s : State) (e : Event)
    → Distinct s.players
    → s.rules ≡ some default_rule_set
    → is_ok (apply_start_game h s e).1 ≡ true
    → count_players killer (apply_start_game h s e).0.players ≡ 1
unfolding apply_start_game game_rules
start_game_one_killer h s e distinct default done =
    elim (Result-cases (
      validate_for_start_with_rule_set h s.game_settings s.max_players s.base_durations
        (game_rules s))) [
          | inl (x, bad) ↦ ground arith
          | inr (d, good) ↦ ground (
            arith,
            start_game_lem h s e killer distinct,
            start_settings h s.game_settings s.max_players s.base_durations d (game_rules s) good,
            role_deck_one_killer (length s.players) s.game_settings.roles,
          )
        ]
