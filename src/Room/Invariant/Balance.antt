-- ===== src/Room/Invariant/Balance.antt =====
-- Killers and others by day: `checkWin` of internal/room/state.go and the steps that call it.
use midnight_council.Base.{ℕ, ◌≡◌, ◌<◌, ◌≤◌, refl, ◌⊎◌, true, false, [], ◌∷◌, arith}
use midnight_council.Base.Dict.{modify, insert}
use midnight_council.Text.{GoString, text, str_Eq}
use midnight_council.Room.Types.{
  Time, night, day_voting, phase_eq, Player, NightAction, villagers_win, killers_win,
}
use midnight_council.Room.Host.{Host}
use midnight_council.Room.Rules.{RuleSet}
use midnight_council.Room.Event.{Event}
use midnight_council.Room.State.{
  State, Players, game_rules, is_day_phase, enter_phase, append_log, touch, start_voting,
}
use midnight_council.Room.State.Win.{
  living_killers, living_others, finish, check_win, advance_after_day,
}
use midnight_council.Room.State.Night.{dawn, resolve_night}
use midnight_council.Room.State.Vote.{
  prune_votes, execution, after_execution, resolve_vote, complete_last_words, abstain_for_idle,
}
use midnight_council.Room.State.Seats.{ensure_connected_owner, remove_player}
use midnight_council.Room.State.Game.{begin_game, submit_night_action, cast_vote, fire, after_shot}
use midnight_council.Room.State.Admin.{use_settings, kick_player, return_to_waiting_room}
use midnight_council.Room.State.Apply.{apply, record_client_sequence, set_sequence}
use midnight_council.Room.Frame.{ensure_connected_owner_frame, dawn_frame, execution_frame}
use midnight_council.Room.Invariant.{IsCoherent, IsRunning}
use midnight_council.Room.Moves.Dispatch.{apply_rule}
use midnight_council.Room.Moves.{
  Keeps, Move, timed_out, stay, refresh, edit_player, reown_player, edit_spectator, seat_player,
  seat_spectator, unseat_player, unseat_spectator, begin, submit, open_vote, ballot, fired,
  hand_over, kick, lock, limit, configure, return, night_ends, talk_ends, vote_ends, words_end,
}

module _ (rules : RuleSet) (id : GoString) (f : Player → Player) (k : Keeps f) where
  pub living_killers-modify :
      (ps : Players) → living_killers rules (modify id f ps) ≡ living_killers rules ps
  unfolding living_killers modify
  living_killers-modify [] = refl
  living_killers-modify ((j, p) ∷ ps) =
      ground (arith, k.same_alive p, k.same_role p, living_killers-modify ps)

  pub living_others-modify :
      (ps : Players) → living_others rules (modify id f ps) ≡ living_others rules ps
  unfolding living_others modify
  living_others-modify [] = refl
  living_others-modify ((j, p) ∷ ps) =
      ground (arith, k.same_alive p, k.same_role p, living_others-modify ps)

abbrev pub killers_of : State → ℕ
killers_of s = living_killers (game_rules s) s.players

abbrev pub others_of : State → ℕ
others_of s = living_others (game_rules s) s.players

-- Neither side has won.
abbrev pub IsOpen : State → Type 0
IsOpen s = (0 < killers_of s) × (killers_of s < others_of s)

-- The check ends a running game exactly when one side has won, for the side that has, and changes
-- nothing otherwise.
pub check_win_lem :
    (at : Time) (s : State)
    → IsRunning s.phase
    → ((killers_of s ≡ 0)
        × (check_win at s ≡ (finish villagers_win (text "all_killers_eliminated") at s, true)))
      ⊎ ((0 < killers_of s)
          × (others_of s ≤ killers_of s)
          × (check_win at s ≡ (finish killers_win (text "killers_control_the_room") at s, true)))
      ⊎ (IsOpen s × (check_win at s ≡ (s, false)))
unfolding check_win phase_eq
check_win_lem at s r = ground arith

abbrev pub IsBalanced : State → Type 0
IsBalanced s = is_day_phase s.phase ≡ true → IsOpen s

-- After a night it is day only in a game that is open.
resolve_night-IsBalanced :
    (at : Time) (s : State) → s.phase ≡ night → IsBalanced (resolve_night at s)
unfolding resolve_night enter_phase append_log game_rules finish is_day_phase phase_eq
resolve_night-IsBalanced at s p = ground (arith, dawn_frame at s, check_win_lem at (dawn at s))

-- A vote, and last words, end in a phase other than the day's.
advance_phase :
    (at : Time) (s : State)
    → IsRunning s.phase
    → is_day_phase (advance_after_day at s).phase ≡ false
unfolding advance_after_day enter_phase append_log finish is_day_phase phase_eq
advance_phase at s r = ground (arith, check_win_lem at s)

resolve_vote_phase :
    (at : Time) (s : State) → IsRunning s.phase → is_day_phase (resolve_vote at s).phase ≡ false
unfolding resolve_vote after_execution prune_votes enter_phase append_log is_day_phase phase_eq
resolve_vote_phase at s r =
    let (t, id) = execution at (prune_votes s) in
    ground (arith, execution_frame at (prune_votes s), advance_phase at (record t { votes = [] }))

after_shot-IsBalanced :
    (at : Time) (s : State) → is_day_phase s.phase ≡ true → IsBalanced (after_shot at s)
unfolding after_shot finish enter_phase append_log is_day_phase phase_eq game_rules
after_shot-IsBalanced at s d = ground (arith, check_win_lem at s, resolve_vote_phase at s)

submit-IsBalanced :
    (at : Time) (a : NightAction) (s : State)
    → s.phase ≡ night
    → IsBalanced (submit_night_action at a s)
unfolding submit_night_action is_day_phase phase_eq
submit-IsBalanced at a s p =
    let noted = record s { night_actions = insert a.player_id a s.night_actions } in
    ground (arith, resolve_night-IsBalanced at noted p)

ballot-IsBalanced :
    (at : Time) (voter target : GoString) (s : State)
    → s.phase ≡ day_voting
    → IsBalanced s
    → IsBalanced (cast_vote at voter target s)
unfolding cast_vote game_rules is_day_phase phase_eq
ballot-IsBalanced at voter target s p b =
    let noted = record s { votes = insert voter target s.votes } in
    ground (arith, resolve_vote_phase at noted)

fire_day :
    (e : Event) (a b : Player) (s : State)
    → is_day_phase s.phase ≡ true
    → is_day_phase (fire e a b s).phase ≡ true
unfolding fire prune_votes append_log
fire_day e a b s d = d

reown-IsBalanced : (s : State) → IsBalanced s → IsBalanced (ensure_connected_owner s)
unfolding game_rules
reown-IsBalanced s b = ground (arith, ensure_connected_owner_frame s)

edit-IsBalanced :
    (s : State) (id : GoString) (f : Player → Player)
    → Keeps f
    → IsBalanced s
    → IsBalanced (record s { players = modify id f s.players })
unfolding game_rules
edit-IsBalanced s id f k b = ground (
  arith,
  living_killers-modify (game_rules s) id f k s.players,
  living_others-modify (game_rules s) id f k s.players,
)

-- Every step keeps the balance.
pub Move-IsBalanced :
    {h : Host} {e : Event} {s t : State} → Move h e s t → IsBalanced s → IsBalanced t
unfolding touch game_rules
Move-IsBalanced stay b = b
Move-IsBalanced refresh b = b
Move-IsBalanced {s = s} (edit_player id f k) b = edit-IsBalanced s id f k b
Move-IsBalanced {s = s} (reown_player id f k) b =
    reown-IsBalanced (record s { players = modify id f s.players }) (edit-IsBalanced s id f k b)
Move-IsBalanced (edit_spectator id f k) b = b
Move-IsBalanced (seat_player _ _ _ _ _ _ _ p _) b = unfold is_day_phase phase_eq in ground arith
Move-IsBalanced (seat_spectator _ _ _ _ _ _ _ _) b = b
Move-IsBalanced (unseat_player _ _ p) b = unfold remove_player is_day_phase phase_eq in ground arith
Move-IsBalanced (unseat_spectator _) b = b
Move-IsBalanced (begin d roles _ _ v _ _) b =
    unfold begin_game enter_phase append_log is_day_phase phase_eq in ground arith
Move-IsBalanced {e = e} {s = s} (submit p _ _ _ at_night _ _) b =
    submit-IsBalanced e.at _ s at_night
Move-IsBalanced {e = e} {s = s} (open_vote by_day _) b =
    unfold start_voting enter_phase append_log is_day_phase phase_eq in ground arith
Move-IsBalanced {e = e} {s = s} (ballot p target voting _) b =
    ballot-IsBalanced e.at p.id target s voting b
Move-IsBalanced {e = e} {s = s} (fired p q by_day _ _ _ _ _) b =
    after_shot-IsBalanced e.at (fire e p q s) (fire_day e p q s by_day)
Move-IsBalanced (hand_over _ _ _ _) b = b
Move-IsBalanced (kick id _ _ idle _ _) b = unfold kick_player is_day_phase phase_eq in ground arith
Move-IsBalanced (lock _) b = b
Move-IsBalanced (limit _ _ _ _ _ _) b = b
Move-IsBalanced (configure g d _ idle v) b =
    unfold use_settings is_day_phase phase_eq in ground arith
Move-IsBalanced (return _ _) b =
    unfold return_to_waiting_room enter_phase is_day_phase phase_eq in ground arith
Move-IsBalanced {e = e} {s = s} (night_ends at_night _) b =
    resolve_night-IsBalanced e.at _ (unfold append_log in at_night)
Move-IsBalanced (talk_ends by_day _) b =
    unfold start_voting enter_phase append_log is_day_phase phase_eq in ground arith
Move-IsBalanced {e = e} {s = s} (vote_ends voting _) b =
    unfold append_log in
    let ended = record (timed_out e s) { votes = abstain_for_idle s.players s.votes } in
    ground (arith, resolve_vote_phase e.at ended)
Move-IsBalanced {e = e} {s = s} (words_end speaking _) b =
    unfold append_log complete_last_words in
    let ended = record (timed_out e s) { last_words_id = [] } in
    ground (arith, advance_phase e.at ended)

abbrev pub set_sequence_Keeps : (n : ℕ) → Keeps (set_sequence n)
set_sequence_Keeps n = record {
  same_id = λ p. refl;
  same_role = λ p. refl;
  same_alive = λ p. refl;
  same_shot = λ p. refl;
}

sequence-IsBalanced :
    (id : GoString) (n : ℕ) (s : State) → IsBalanced s → IsBalanced (record_client_sequence id n s)
unfolding record_client_sequence game_rules
sequence-IsBalanced id n s b =
    ground (arith, edit-IsBalanced s id (set_sequence n) (set_sequence_Keeps n) b)

pub apply-IsBalanced :
    (h : Host) (s : State) (e : Event) → IsCoherent s → IsBalanced s → IsBalanced (apply h s e).0
apply-IsBalanced h s e c b =
    apply_rule IsBalanced h s e c.idle (λ t m. Move-IsBalanced m b) sequence-IsBalanced
