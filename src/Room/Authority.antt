-- ===== src/Room/Authority.antt =====
-- What only the owner of a room may do: the `ErrOwnerOnly` guards of internal/room/state.go.
use midnight_council.Base.{◌≡◌, ◌≢◌, true, arith, [], ◌↔◌}
use midnight_council.Base.Dict.{insert, modify}
use midnight_council.Text.{GoString, str_Eq}
use midnight_council.Room.Types.{Time, waiting, night, phase_eq, NightAction}
use midnight_council.Room.Host.{Host}
use midnight_council.Room.Event.{Event}
use midnight_council.Room.State.{
  State, touch, enter_phase, append_log, start_voting, is_day_phase, game_rules,
}
use midnight_council.Room.State.Win.{finish, check_win, advance_after_day}
use midnight_council.Room.State.Night.{resolve_night, pass_for_idle}
use midnight_council.Room.State.Vote.{
  execution, after_execution, resolve_vote, prune_votes, complete_last_words, abstain_for_idle,
}
use midnight_council.Room.State.Seats.{remove_player}
use midnight_council.Room.State.Game.{submit_night_action, cast_vote, fire, after_shot}
use midnight_council.Room.State.Apply.{apply}
use midnight_council.Room.Frame.{
  ensure_connected_owner_frame, record_client_sequence_frame, execution_frame, dawn_frame,
}
use midnight_council.Room.Invariant.{IsCoherent}
use midnight_council.Room.Moves.Dispatch.{apply_rule}
use midnight_council.Room.Moves.{
  Move, timed_out, stay, refresh, edit_player, reown_player, edit_spectator, seat_player,
  seat_spectator, unseat_player, unseat_spectator, begin, submit, open_vote, ballot, fired,
  hand_over, kick, lock, limit, configure, return, night_ends, talk_ends, vote_ends, words_end,
}

-- What the owner governs: the lock, the limit, the settings, and whether a game is on.
pub record SameRules (s t : State) : Type 0 where
  pub same_locked : t.locked ≡ s.locked
  pub same_max : t.max_players ≡ s.max_players
  pub same_settings : t.game_settings ≡ s.game_settings
  pub same_room : (t.phase ≡ waiting) ↔ (s.phase ≡ waiting)

resolve_night-SameRules :
    (at : Time) (s : State) → s.phase ≡ night → SameRules s (resolve_night at s)
unfolding resolve_night enter_phase append_log finish check_win
resolve_night-SameRules at s p = ground (arith, dawn_frame at s)

advance-SameRules :
    (at : Time) (s : State) → s.phase ≢ waiting → SameRules s (advance_after_day at s)
unfolding advance_after_day enter_phase append_log finish check_win
advance-SameRules at s p = ground arith

resolve_vote-SameRules :
    (at : Time) (s : State) → s.phase ≢ waiting → SameRules s (resolve_vote at s)
unfolding resolve_vote after_execution prune_votes enter_phase append_log
resolve_vote-SameRules at s p =
    let (t, id) = execution at (prune_votes s) in
    ground
      (arith, execution_frame at (prune_votes s), advance-SameRules at (record t { votes = [] }))

after_shot-SameRules :
    (at : Time) (s : State) → is_day_phase s.phase ≡ true → SameRules s (after_shot at s)
unfolding after_shot finish enter_phase append_log check_win is_day_phase phase_eq
after_shot-SameRules at s d = ground (arith, resolve_vote-SameRules at s)

submit-SameRules :
    (at : Time) (a : NightAction) (s : State)
    → s.phase ≡ night
    → SameRules s (submit_night_action at a s)
unfolding submit_night_action
submit-SameRules at a s d = ground (
  arith,
  resolve_night-SameRules at (record s { night_actions = insert a.player_id a s.night_actions }),
)

ballot-SameRules :
    (at : Time) (voter target : GoString) (s : State)
    → s.phase ≢ waiting
    → SameRules s (cast_vote at voter target s)
unfolding cast_vote
ballot-SameRules at voter target s d =
    ground (arith, resolve_vote-SameRules at (record s { votes = insert voter target s.votes }))

Move-SameRules :
    {h : Host} {e : Event} {s t : State} → Move h e s t → e.player_id ≢ s.owner_id → SameRules s t
unfolding touch
Move-SameRules stay n = ground arith
Move-SameRules refresh n = ground arith
Move-SameRules (edit_player _ _ _) n = ground arith
Move-SameRules {s = s} (reown_player id f _) n =
    ground (arith, ensure_connected_owner_frame (record s { players = modify id f s.players }))
Move-SameRules (edit_spectator _ _ _) n = ground arith
Move-SameRules (seat_player _ _ _ _ _ _ _ _ _) n = ground arith
Move-SameRules (seat_spectator _ _ _ _ _ _ _ _) n = ground arith
Move-SameRules (unseat_player _ _ _) n = unfold remove_player in ground arith
Move-SameRules (unseat_spectator _) n = ground arith
Move-SameRules (begin _ _ _ owner _ _ _) n = absurd (n owner)
Move-SameRules {e = e} {s = s} (submit p _ target type dark _ _) n = ground (
  arith,
  submit-SameRules e.at (record { player_id = p.id; target_id = target; type = type }) s dark,
)
Move-SameRules (open_vote _ owner) n = absurd (n owner)
Move-SameRules {e = e} {s = s} (ballot p target voting _) n =
    ground (arith, ballot-SameRules e.at p.id target s)
Move-SameRules {e = e} {s = s} (fired p q by_day _ _ _ _ _) n =
    unfold fire prune_votes append_log in
    ground (arith, after_shot-SameRules e.at (fire e p q s) by_day)
Move-SameRules (hand_over _ owner _ _) n = absurd (n owner)
Move-SameRules (kick _ _ owner _ _ _) n = absurd (n owner)
Move-SameRules (lock owner) n = absurd (n owner)
Move-SameRules (limit owner _ _ _ _ _) n = absurd (n owner)
Move-SameRules (configure _ _ owner _ _) n = absurd (n owner)
Move-SameRules (return owner _) n = absurd (n owner)
Move-SameRules {e = e} {s = s} (night_ends dark _) n =
    unfold append_log in
    ground (
      arith,
      resolve_night-SameRules e.at
          (record (timed_out e s) {
            night_actions = pass_for_idle (game_rules s) s.players s.night_actions;
          })
          dark,
    )
Move-SameRules (talk_ends by_day _) n = unfold start_voting enter_phase append_log in ground arith
Move-SameRules {e = e} {s = s} (vote_ends voting _) n =
    unfold append_log in
    ground (
      arith,
      resolve_vote-SameRules e.at
          (record (timed_out e s) { votes = abstain_for_idle s.players s.votes }),
    )
Move-SameRules {e = e} {s = s} (words_end speaking _) n =
    unfold append_log complete_last_words in
    ground (arith, advance-SameRules e.at (record (timed_out e s) { last_words_id = [] }))

-- An event of anybody but the owner changes neither the lock, the limit nor the settings of a room,
-- and neither starts a game nor takes the room back to waiting.
pub apply-SameRules :
    (h : Host) (s : State) (e : Event)
    → IsCoherent s
    → e.player_id ≢ s.owner_id
    → SameRules s (apply h s e).0
apply-SameRules h s e c n =
    apply_rule (SameRules s) h s e c.idle (λ t m. Move-SameRules m n)
      (λ id k t r. ground (arith, record_client_sequence_frame id k t))
