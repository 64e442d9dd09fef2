-- ===== src/Room/Phases.antt =====
-- The phases of a room: which phase may follow which (internal/room/state.go, `enterPhase` and its
-- callers), and what a deadline does.
use midnight_council.Base.{◌≤◌, ◌≡◌, ◌≢◌, refl, sym, ap, subst, ◌⊎◌, inl, inr, true, arith, []}
use midnight_council.Base.Dict.{insert, modify}
use midnight_council.Text.{GoString, str_Eq}
use midnight_council.Room.Types.{
  Time, Phase, waiting, night, day_discussion, day_voting, last_words, finished, phase_eq, phase_Eq,
  phase_eq_iff, Player, Spectator, NightAction,
}
use midnight_council.Room.Types
use midnight_council.Room.Errors.{ok, is_ok}
use midnight_council.Room.Host.{Host}
use midnight_council.Room.Event.{Event, Envelope}
use midnight_council.Room.State.{
  State, touch, enter_phase, append_log, start_voting, game_rules, is_day_phase,
}
use midnight_council.Room.State.Win.{finish, advance_after_day}
use midnight_council.Room.State.Night.{dawn, resolve_night, pass_for_idle}
use midnight_council.Room.State.Vote.{
  execution, after_execution, resolve_vote, prune_votes, complete_last_words, abstain_for_idle,
}
use midnight_council.Room.State.Seats.{remove_player, applied}
use midnight_council.Room.State.Game.{
  begin_game, submit_night_action, cast_vote, fire, after_shot, expire, apply_phase_timeout,
}
use midnight_council.Room.State.Admin.{kick_player, use_settings, return_to_waiting_room}
use midnight_council.Room.State.Apply.{apply, dispatch, recorded, is_duplicate}
use midnight_council.Room.Frame.{
  ensure_connected_owner_frame, record_client_sequence_frame, execution_frame, dawn_frame,
}
use midnight_council.Room.Invariant.{IsCoherent, IsRunning}
use midnight_council.Room.Invariant.Balance.{check_win_lem}
use midnight_council.Room.Moves.Dispatch.{apply_rule}
use midnight_council.Room.Moves.{
  Move, timed_out, stay, refresh, edit_player, reown_player, edit_spectator, seat_player,
  seat_spectator, unseat_player, unseat_spectator, begin, submit, open_vote, ballot, fired,
  hand_over, kick, lock, limit, configure, return, night_ends, talk_ends, vote_ends, words_end,
}

-- The phases that one event may lead to.
pub data Follows : Phase → Phase → Type 0 where
  same : {p : Phase} → Follows p p
  starts : Follows waiting night
  dawns : Follows night day_discussion
  calls : Follows day_discussion day_voting
  condemns : Follows day_voting last_words
  acquits : Follows day_voting night
  dusks : Follows last_words night
  ends : {p : Phase} → IsRunning p → Follows p finished
  returns : {p : Phase} → Follows p waiting

pub resolve_night_phase :
    (at : Time) (s : State)
    → s.phase ≡ night
    → ((resolve_night at s).phase ≡ day_discussion) ⊎ ((resolve_night at s).phase ≡ finished)
unfolding resolve_night enter_phase append_log finish
resolve_night_phase at s p = ground (arith, dawn_frame at s, check_win_lem at (dawn at s))

pub advance_phase :
    (at : Time) (s : State)
    → IsRunning s.phase
    → ((advance_after_day at s).phase ≡ night) ⊎ ((advance_after_day at s).phase ≡ finished)
unfolding advance_after_day enter_phase append_log finish
advance_phase at s r = ground (arith, check_win_lem at s)

pub resolve_vote_phase :
    (at : Time) (s : State)
    → s.phase ≡ day_voting
    → ((resolve_vote at s).phase ≡ last_words)
      ⊎ ((resolve_vote at s).phase ≡ night)
      ⊎ ((resolve_vote at s).phase ≡ finished)
unfolding resolve_vote after_execution prune_votes enter_phase append_log
resolve_vote_phase at s p =
    let (t, id) = execution at (prune_votes s) in
    ground (arith, execution_frame at (prune_votes s), advance_phase at (record t { votes = [] }))

after_shot_phase :
    (at : Time) (s : State)
    → is_day_phase s.phase ≡ true
    → ((after_shot at s).phase ≡ s.phase)
      ⊎ ((after_shot at s).phase ≡ finished)
      ⊎ ((s.phase ≡ day_voting)
          × (((after_shot at s).phase ≡ last_words) ⊎ ((after_shot at s).phase ≡ night)))
unfolding after_shot finish enter_phase append_log is_day_phase phase_eq
after_shot_phase at s d = ground (arith, check_win_lem at s, resolve_vote_phase at s)

Follows-from : (p q r : Phase) → p ≡ r → Follows r q → Follows p q
Follows-from p q r e f = subst (λ x. Follows x q) (sym e) f

follows_to : (p q r : Phase) → Follows p q → r ≡ q → Follows p r
follows_to p q r f e = subst (λ x. Follows p x) (sym e) f

-- A step from `p` to `q`, where both are known.
between : (a b p q : Phase) → a ≡ p → b ≡ q → Follows p q → Follows a b
between a b p q e f g = Follows-from a b p e (follows_to p q b g f)

night-Follows :
    (at : Time) (p : Phase) (s : State)
    → p ≡ night
    → s.phase ≡ night
    → Follows p (resolve_night at s).phase
night-Follows at p s e f = elim (resolve_night_phase at s f) [
  | inl day ↦ between _ _ night day_discussion e day dawns
  | inr over ↦ between _ _ night finished e over (ends (ground arith))
]

vote-Follows :
    (at : Time) (p : Phase) (s : State)
    → p ≡ day_voting
    → s.phase ≡ day_voting
    → Follows p (resolve_vote at s).phase
vote-Follows at p s e f = elim (resolve_vote_phase at s f) [
  | inl words ↦ between _ _ day_voting last_words e words condemns
  | inr (inl dark) ↦ between _ _ day_voting night e dark acquits
  | inr (inr over) ↦ between _ _ day_voting finished e over (ends (ground arith))
]

words-Follows :
    (at : Time) (p : Phase) (s : State)
    → p ≡ last_words
    → s.phase ≡ last_words
    → Follows p (complete_last_words at s).phase
unfolding complete_last_words
words-Follows at p s e f =
    elim (advance_phase at (record s { last_words_id = [] }) (ground arith)) [
      | inl dark ↦ between _ _ last_words night e dark dusks
      | inr over ↦ between _ _ last_words finished e over (ends (ground arith))
    ]

shot-Follows :
    (at : Time) (p : Phase) (s : State)
    → s.phase ≡ p
    → is_day_phase p ≡ true
    → Follows p (after_shot at s).phase
unfolding is_day_phase phase_eq
shot-Follows at p s e d =
    elim (after_shot_phase at s (unfold is_day_phase phase_eq in ground arith)) [
      | inl still ↦ between _ _ p p refl (ground arith) same
      | inr (inl over) ↦ between _ _ p finished refl over (ends (ground arith))
      | inr (inr (voting, inl words)) ↦
          between _ _ day_voting last_words (ground arith) words condemns
      | inr (inr (voting, inr dark)) ↦ between _ _ day_voting night (ground arith) dark acquits
    ]

submit-Follows :
    (at : Time) (a : NightAction) (p : Phase) (s : State)
    → s.phase ≡ p
    → p ≡ night
    → Follows p (submit_night_action at a s).phase
unfolding submit_night_action
submit-Follows at a p s e d =
    let noted = record s { night_actions = insert a.player_id a s.night_actions } in
    grind (arith, same, night-Follows at p noted d)

ballot-Follows :
    (at : Time) (voter target : GoString) (p : Phase) (s : State)
    → s.phase ≡ p
    → p ≡ day_voting
    → Follows p (cast_vote at voter target s).phase
unfolding cast_vote
ballot-Follows at voter target p s e d =
    let noted = record s { votes = insert voter target s.votes } in
    grind (arith, same, vote-Follows at p noted d)

Move-Follows : {h : Host} {e : Event} {s t : State} → Move h e s t → Follows s.phase t.phase
unfolding touch
Move-Follows stay = same
Move-Follows refresh = same
Move-Follows (edit_player _ _ _) = same
Move-Follows {s = s} (reown_player id f _) = follows_to _ _ _ same (
    ap (λ t. t.phase) (ensure_connected_owner_frame (record s { players = modify id f s.players })))
Move-Follows (edit_spectator _ _ _) = same
Move-Follows (seat_player _ _ _ _ _ _ _ _ _) = same
Move-Follows (seat_spectator _ _ _ _ _ _ _ _) = same
Move-Follows (unseat_player _ _ _) = follows_to _ _ _ same (unfold remove_player in ground arith)
Move-Follows (unseat_spectator _) = same
Move-Follows (begin d roles idle _ _ _ _) =
    unfold begin_game enter_phase append_log in between _ _ waiting night idle refl starts
Move-Follows {e = e} {s = s} (submit p _ target type dark _ _) =
    submit-Follows e.at (record { player_id = p.id; target_id = target; type = type }) s.phase s
      refl dark
Move-Follows (open_vote by_day _) =
    unfold start_voting enter_phase append_log in
    between _ _ day_discussion day_voting by_day refl calls
Move-Follows {e = e} {s = s} (ballot p target voting _) =
    ballot-Follows e.at p.id target s.phase s refl voting
Move-Follows {e = e} {s = s} (fired p q by_day _ _ _ _ _) =
    shot-Follows e.at s.phase (fire e p q s) (unfold fire prune_votes append_log in refl) by_day
Move-Follows (hand_over _ _ _ _) = same
Move-Follows (kick _ _ _ _ _ _) = follows_to _ _ _ same (unfold kick_player in ground arith)
Move-Follows (lock _) = same
Move-Follows (limit _ _ _ _ _ _) = same
Move-Follows (configure _ _ _ _ _) = unfold use_settings in same
Move-Follows {e = e} {s = s} (return _ _) =
    follows_to _ waiting _ returns (unfold return_to_waiting_room enter_phase in ground arith)
Move-Follows {e = e} {s = s} (night_ends dark _) =
    night-Follows e.at s.phase _ dark (unfold append_log in dark)
Move-Follows (talk_ends by_day _) =
    unfold start_voting enter_phase append_log in
    between _ _ day_discussion day_voting by_day refl calls
Move-Follows {e = e} {s = s} (vote_ends voting _) =
    vote-Follows e.at s.phase _ voting (unfold append_log in voting)
Move-Follows {e = e} {s = s} (words_end speaking _) =
    words-Follows e.at s.phase _ speaking (unfold append_log in speaking)

-- An event leads to the same phase or to one that may follow it.
pub apply-Follows :
    (h : Host) (s : State) (e : Event) → IsCoherent s → Follows s.phase (apply h s e).0.phase
apply-Follows h s e c =
    apply_rule (λ t. Follows s.phase t.phase) h s e c.idle (λ t m. Move-Follows m)
      (λ id n t f. follows_to _ _ _ f (ap (λ u. u.phase) (record_client_sequence_frame id n t)))

expire_lem :
    (p : Phase) (h : Host) (s : State) (e : Event)
    → s.phase ≡ p
    → IsRunning p
    → ((expire p h s e).0.phase ≢ p) × (v : Envelope) × ((expire p h s e).1 ≡ ok v)
unfolding expire applied touch complete_last_words
expire_lem night h s e at r =
    let actions = pass_for_idle (game_rules s) s.players s.night_actions in
    (
      λ still. ground (arith, resolve_night_phase e.at (record s { night_actions = actions }) at),
      _,
      refl,
    )
expire_lem day_discussion h s e at r =
    (λ still. unfold start_voting enter_phase append_log in ground arith, _, refl)
expire_lem day_voting h s e at r =
    let ended = record s { votes = abstain_for_idle s.players s.votes } in
    (λ still. ground (arith, resolve_vote_phase e.at ended at), _, refl)
expire_lem last_words h s e at r =
    let ended = record s { last_words_id = [] } in
    (λ still. ground (arith, advance_phase e.at ended), _, refl)
expire_lem waiting h s e at r = absurd (r.0 refl)
expire_lem finished h s e at r = absurd (r.1 refl)

-- A running phase does not outlast its deadline: the timeout that the actor sends at that time or
-- later is accepted, and it ends the phase.
pub apply-phase_timeout :
    (h : Host) (s : State) (e : Event)
    → IsCoherent s
    → IsRunning s.phase
    → e.type ≡ Types.EventType.phase_timeout
    → e.client_sequence ≡ 0
    → s.phase_deadline ≤ e.at
    → ((apply h s e).0.phase ≢ s.phase) × (is_ok (apply h s e).1 ≡ true)
unfolding apply dispatch recorded is_duplicate apply_phase_timeout append_log
apply-phase_timeout h s e c running timeout plain late =
    ground (arith, c.timed, running, expire_lem s.phase h (timed_out e s) e refl running)
