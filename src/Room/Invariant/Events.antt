-- ===== src/Room/Invariant/Events.antt =====
-- The phase and the rest of the state, step by step of internal/room/state.go.
use midnight_council.Base.{
  ℕ, ◌≡◌, ◌≢◌, refl, ◌⊎◌, inl, inr, Bool, true, false, List, [], ◌∷◌, arith, Bool-cases,
  Option-cases, none, some, not, ltb, nat_eq, if◌then◌else◌,
}
use midnight_council.Base
use midnight_council.Text.{GoString, str_Eq}
use midnight_council.Room.Types
use midnight_council.Room.Types.{
  Time, Phase, EventType, night, day_discussion, last_words, day_voting, waiting, finished,
  phase_eq, Player, NightAction,
}
use midnight_council.Room.Host.{Host}
use midnight_council.Room.Timing.{PhaseDurations, durations_valid, duration_for}
use midnight_council.Room.Settings.{GameSettings}
use midnight_council.Room.Event.{Event}
use midnight_council.Room.State.{
  State, enter_phase, append_log, is_day_phase, game_rules, touch, start_voting,
}
use midnight_council.Room.State.Vote.{
  prune_ballots, prune_votes, abstain_for_idle, resolve_vote, complete_last_words,
}
use midnight_council.Room.State.Seats.{remove_player, disconnect_player, ensure_connected_owner}
use midnight_council.Room.State.Game.{begin_game, submit_night_action, cast_vote, fire, after_shot}
use midnight_council.Room.State.Admin.{
  drop_target, kick_player, returning_players, returning_spectators, use_settings,
  return_to_waiting_room,
}
use midnight_council.Room.State.Apply.{apply, record_client_sequence}
use midnight_council.Base.Dict.{modify}
use midnight_council.Room.State.Night.{pass_for_idle, resolve_night}
use midnight_council.Room.Moves.Ruling.{startable_durations_valid}
use midnight_council.Room.Moves.Dispatch.{apply_rule}
use midnight_council.Room.Moves.{
  Move, timed_out, stay, refresh, edit_player, reown_player, edit_spectator, seat_player,
  seat_spectator, unseat_player, unseat_spectator, begin, submit, open_vote, ballot, fired,
  hand_over, kick, lock, limit, configure, return, night_ends, talk_ends, vote_ends, words_end,
}
use midnight_council.Room.Frame.{ensure_connected_owner_frame, record_client_sequence_frame}
use midnight_council.Room.Invariant.{IsCoherent}
use midnight_council.Room.Invariant.Coherence.{
  capped_le, check_win_cases, resolve_night-IsCoherent, resolve_vote-IsCoherent,
  complete_last_words-IsCoherent, start_voting-IsCoherent,
}

submit_night_action-IsCoherent :
    (at : Time) (a : NightAction) (s : State)
    → s.phase ≡ night
    → IsCoherent s
    → IsCoherent (submit_night_action at a s)
unfolding submit_night_action
submit_night_action-IsCoherent at a s p c = ground (
  arith,
  resolve_night-IsCoherent at
      (record s { night_actions = Base.Dict.insert a.player_id a s.night_actions }),
)

cast_vote-IsCoherent :
    (at : Time) (v t : GoString) (s : State)
    → s.phase ≡ day_voting
    → IsCoherent s
    → IsCoherent (cast_vote at v t s)
unfolding cast_vote
cast_vote-IsCoherent at v t s p c =
    ground (arith, resolve_vote-IsCoherent at (record s { votes = Base.Dict.insert v t s.votes }))

after_shot-IsCoherent :
    (at : Time) (s : State)
    → is_day_phase s.phase ≡ true
    → IsCoherent s
    → IsCoherent (after_shot at s)
unfolding after_shot is_day_phase phase_eq
after_shot-IsCoherent at s p c = ground (arith, check_win_cases at s, resolve_vote-IsCoherent at s)

fire-IsCoherent :
    (e : Event) (shooter target : Player) (s : State)
    → is_day_phase s.phase ≡ true
    → IsCoherent s
    → IsCoherent (fire e shooter target s) × (is_day_phase (fire e shooter target s).phase ≡ true)
unfolding fire prune_votes append_log prune_ballots
fire-IsCoherent e a b s p c = grind (arith, capped_le)

begin_game-IsCoherent :
    (d : PhaseDurations) (roles : List Types.Role) (e : Event) (s : State)
    → durations_valid d ≡ true
    → IsCoherent (begin_game d roles e s)
unfolding begin_game enter_phase append_log duration_for durations_valid
begin_game-IsCoherent d roles e s v = grind (arith, capped_le)

kick_player-IsCoherent : (id : GoString) (s : State) → IsCoherent s → IsCoherent (kick_player id s)
unfolding kick_player drop_target Base.Dict.erase
kick_player-IsCoherent id s c = ground arith

return_to_waiting_room-IsCoherent :
    (e : Event) (s : State) → IsCoherent s → IsCoherent (return_to_waiting_room e s)
unfolding return_to_waiting_room enter_phase duration_for
return_to_waiting_room-IsCoherent e s c =
    let kept = record s {
      players = returning_players s.players;
      spectators = returning_spectators s.spectators;
    } in
    ground (arith, ensure_connected_owner_frame kept)

disconnect_player-IsCoherent :
    (id : GoString) (s : State) → IsCoherent s → IsCoherent (disconnect_player id s)
unfolding disconnect_player ensure_connected_owner
disconnect_player-IsCoherent id s c = ground arith

use_settings-IsCoherent :
    (g : GameSettings) (d : PhaseDurations) (s : State)
    → durations_valid d ≡ true
    → IsCoherent s
    → IsCoherent (use_settings g d s)
unfolding use_settings
use_settings-IsCoherent g d s v c = ground arith

ensure_connected_owner-IsCoherent :
    (s : State) → IsCoherent s → IsCoherent (ensure_connected_owner s)
ensure_connected_owner-IsCoherent s c = ground (arith, ensure_connected_owner_frame s)

touch-IsCoherent : (at : Time) (s : State) → IsCoherent s → IsCoherent (touch at s)
unfolding touch
touch-IsCoherent at s c = ground arith

timed_out-IsCoherent : (e : Event) (s : State) → IsCoherent s → IsCoherent (timed_out e s)
unfolding append_log
timed_out-IsCoherent e s c = grind (arith, capped_le)

record_client_sequence-IsCoherent :
    (id : GoString) (n : ℕ) (s : State) → IsCoherent s → IsCoherent (record_client_sequence id n s)
record_client_sequence-IsCoherent id n s c = ground (arith, record_client_sequence_frame id n s)

module _ (e : Event) (s : State) where
  expired_night-IsCoherent :
      s.phase ≡ night
      → IsCoherent s
      → IsCoherent (
          resolve_night e.at (record (timed_out e s) {
            night_actions = pass_for_idle (game_rules s) s.players s.night_actions;
          }))
  unfolding append_log
  expired_night-IsCoherent p c =
      resolve_night-IsCoherent e.at _ p (ground (arith, timed_out-IsCoherent e s c))

  expired_talk-IsCoherent :
      s.phase ≡ day_discussion → IsCoherent s → IsCoherent (start_voting e.at [] (timed_out e s))
  unfolding append_log
  expired_talk-IsCoherent p c =
      start_voting-IsCoherent e.at [] _ (ground (arith, timed_out-IsCoherent e s c))

  expired_vote-IsCoherent :
      s.phase ≡ day_voting
      → IsCoherent s
      → IsCoherent (
          resolve_vote e.at (record (timed_out e s) { votes = abstain_for_idle s.players s.votes }))
  unfolding append_log
  expired_vote-IsCoherent p c =
      resolve_vote-IsCoherent e.at _ p (ground (arith, timed_out-IsCoherent e s c))

  expired_words-IsCoherent :
      s.phase ≡ last_words → IsCoherent s → IsCoherent (complete_last_words e.at (timed_out e s))
  unfolding append_log
  expired_words-IsCoherent p c =
      complete_last_words-IsCoherent e.at (timed_out e s) p (timed_out-IsCoherent e s c)

-- Every step keeps the agreement.
pub Move-IsCoherent :
    {h : Host} {e : Event} {s t : State} → Move h e s t → IsCoherent s → IsCoherent t
unfolding touch
Move-IsCoherent stay c = c
Move-IsCoherent refresh c = ground arith
Move-IsCoherent (edit_player id f k) c = ground arith
Move-IsCoherent {e = e} {s = s} (reown_player id f k) c = touch-IsCoherent e.at _ (
    ensure_connected_owner-IsCoherent (record s { players = modify id f s.players }) (ground arith))
Move-IsCoherent (edit_spectator id f k) c = ground arith
Move-IsCoherent (seat_player _ _ _ _ _ _ _ _ _) c = ground arith
Move-IsCoherent (seat_spectator _ _ _ _ _ _ _ _) c = ground arith
Move-IsCoherent {e = e} {s = s} (unseat_player _ _ _) c = unfold remove_player in ground arith
Move-IsCoherent (unseat_spectator _) c = ground arith
Move-IsCoherent {h = h} {e = e} {s = s} (begin d roles _ _ v _ _) c = touch-IsCoherent e.at _ (
    begin_game-IsCoherent d roles e s (
      startable_durations_valid h s.game_settings s.max_players s.base_durations (game_rules s) d
        v))
Move-IsCoherent {e = e} {s = s} (submit p _ _ _ at_night _ _) c =
    touch-IsCoherent e.at _ (submit_night_action-IsCoherent e.at _ s at_night c)
Move-IsCoherent {e = e} {s = s} (open_vote by_day _) c =
    touch-IsCoherent e.at _ (start_voting-IsCoherent e.at e.player_id s (ground arith))
Move-IsCoherent {e = e} {s = s} (ballot p target voting _) c =
    touch-IsCoherent e.at _ (cast_vote-IsCoherent e.at p.id target s voting c)
Move-IsCoherent {e = e} {s = s} (fired p q by_day _ _ _ _ _) c =
    let (c', by_day') = fire-IsCoherent e p q s by_day c in
    touch-IsCoherent e.at _ (after_shot-IsCoherent e.at (fire e p q s) by_day' c')
Move-IsCoherent (hand_over _ _ _ _) c = ground arith
Move-IsCoherent {e = e} {s = s} (kick id _ _ _ _ _) c =
    touch-IsCoherent e.at _ (kick_player-IsCoherent id s c)
Move-IsCoherent (lock _) c = ground arith
Move-IsCoherent (limit _ _ _ _ _ _) c = ground arith
Move-IsCoherent {e = e} {s = s} (configure g d _ _ v) c =
    touch-IsCoherent e.at _ (use_settings-IsCoherent g d s v c)
Move-IsCoherent {e = e} {s = s} (return _ _) c =
    touch-IsCoherent e.at _ (return_to_waiting_room-IsCoherent e s c)
Move-IsCoherent {e = e} {s = s} (night_ends at_night _) c =
    touch-IsCoherent e.at _ (expired_night-IsCoherent e s at_night c)
Move-IsCoherent {e = e} {s = s} (talk_ends by_day _) c =
    touch-IsCoherent e.at _ (expired_talk-IsCoherent e s by_day c)
Move-IsCoherent {e = e} {s = s} (vote_ends voting _) c =
    touch-IsCoherent e.at _ (expired_vote-IsCoherent e s voting c)
Move-IsCoherent {e = e} {s = s} (words_end speaking _) c =
    touch-IsCoherent e.at _ (expired_words-IsCoherent e s speaking c)

pub apply-IsCoherent :
    (h : Host) (s : State) (e : Event) → IsCoherent s → IsCoherent (apply h s e).0
apply-IsCoherent h s e c =
    apply_rule IsCoherent h s e c.idle (λ t m. Move-IsCoherent m c)
      (λ id n t c'. record_client_sequence-IsCoherent id n t c')
