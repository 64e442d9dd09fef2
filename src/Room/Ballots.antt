-- ===== src/Room/Ballots.antt =====
-- While a vote is open: `allLivingPlayersVoted` and its callers in internal/room/state.go.
use midnight_council.Base.{ℕ, ◌≡◌, refl, true, false, ◌&&◌, arith, [], ◌∷◌}
use midnight_council.Base.Dict.{insert, lookup, modify}
use midnight_council.Text.{GoString, str_Eq}
use midnight_council.Room.Types.{Time, night, day_voting, phase_eq, phase_Eq, Player, NightAction}
use midnight_council.Room.Host.{Host}
use midnight_council.Room.Event.{Event}
use midnight_council.Room.State.{
  State, Players, touch, enter_phase, append_log, start_voting, game_rules, is_day_phase,
}
use midnight_council.Room.State.Night.{pass_for_idle}
use midnight_council.Room.State.Win.{finish}
use midnight_council.Room.State.Vote.{
  Votes, every_living_voted, some_living, all_living_players_voted, complete_last_words,
  abstain_for_idle, prune_votes,
}
use midnight_council.Room.State.Seats.{ensure_connected_owner, remove_player}
use midnight_council.Room.State.Game.{begin_game, submit_night_action, cast_vote, fire, after_shot}
use midnight_council.Room.State.Admin.{kick_player, use_settings, return_to_waiting_room}
use midnight_council.Room.State.Apply.{apply, record_client_sequence, set_sequence}
use midnight_council.Room.Frame.{ensure_connected_owner_frame}
use midnight_council.Room.Invariant.{IsCoherent}
use midnight_council.Room.Invariant.Balance.{check_win_lem, set_sequence_Keeps}
use midnight_council.Room.Phases.{resolve_night_phase, resolve_vote_phase, advance_phase}
use midnight_council.Room.Moves.Dispatch.{apply_rule}
use midnight_council.Room.Moves.{
  Keeps, Move, timed_out, stay, refresh, edit_player, reown_player, edit_spectator, seat_player,
  seat_spectator, unseat_player, unseat_spectator, begin, submit, open_vote, ballot, fired,
  hand_over, kick, lock, limit, configure, return, night_ends, talk_ends, vote_ends, words_end,
}

-- While a vote is open, some living player has not voted, or nobody lives.
abbrev pub IsPending : State → Type 0
IsPending s = s.phase ≡ day_voting → all_living_players_voted s ≡ false

nobody_voted : (ps : Players) → (every_living_voted [] ps && some_living ps) ≡ false
unfolding lookup
nobody_voted [] = refl
nobody_voted ((j, p) ∷ ps) = ground (arith, nobody_voted ps)

voted-modify :
    (id : GoString) (f : Player → Player) (votes : Votes) (ps : Players)
    → Keeps f
    → (every_living_voted votes (modify id f ps) ≡ every_living_voted votes ps)
      × (some_living (modify id f ps) ≡ some_living ps)
unfolding modify
voted-modify id f votes [] k = (refl, refl)
voted-modify id f votes ((j, p) ∷ ps) k =
    ground (arith, k.same_id p, k.same_alive p, voted-modify id f votes ps k)

edit-IsPending :
    (s : State) (id : GoString) (f : Player → Player)
    → Keeps f
    → IsPending s
    → IsPending (record s { players = modify id f s.players })
unfolding all_living_players_voted
edit-IsPending s id f k b = ground (arith, voted-modify id f s.votes s.players k)

reown-IsPending : (s : State) → IsPending s → IsPending (ensure_connected_owner s)
unfolding all_living_players_voted
reown-IsPending s b = ground (arith, ensure_connected_owner_frame s)

cast_vote-IsPending :
    (at : Time) (voter target : GoString) (s : State)
    → s.phase ≡ day_voting
    → IsPending (cast_vote at voter target s)
unfolding cast_vote
cast_vote-IsPending at voter target s p =
    let noted = record s { votes = insert voter target s.votes } in
    ground (arith, resolve_vote_phase at noted)

after_shot-IsPending :
    (at : Time) (s : State) → is_day_phase s.phase ≡ true → IsPending (after_shot at s)
unfolding after_shot finish enter_phase append_log is_day_phase phase_eq
after_shot-IsPending at s d = ground (arith, check_win_lem at s, resolve_vote_phase at s)

start_voting-IsPending :
    (at : Time) (id : GoString) (s : State) → IsPending (touch at (start_voting at id s))
unfolding start_voting enter_phase append_log touch all_living_players_voted
start_voting-IsPending at id s voting = nobody_voted s.players

submit-IsPending :
    (at : Time) (a : NightAction) (s : State)
    → s.phase ≡ night
    → IsPending (submit_night_action at a s)
unfolding submit_night_action
submit-IsPending at a s p =
    let noted = record s { night_actions = insert a.player_id a s.night_actions } in
    ground (arith, resolve_night_phase at noted p)

Move-IsPending : {h : Host} {e : Event} {s t : State} → Move h e s t → IsPending s → IsPending t
unfolding touch
Move-IsPending stay b = b
Move-IsPending refresh b = unfold all_living_players_voted in b
Move-IsPending {s = s} (edit_player id f k) b =
    unfold all_living_players_voted in edit-IsPending s id f k b
Move-IsPending {s = s} (reown_player id f k) b =
    unfold all_living_players_voted in
    reown-IsPending (record s { players = modify id f s.players }) (edit-IsPending s id f k b)
Move-IsPending (edit_spectator id f k) b = unfold all_living_players_voted in b
Move-IsPending (seat_player _ _ _ _ _ _ _ p _) b = ground arith
Move-IsPending (seat_spectator _ _ _ _ _ _ _ _) b = unfold all_living_players_voted in b
Move-IsPending (unseat_player _ _ p) b = unfold remove_player in ground arith
Move-IsPending (unseat_spectator _) b = unfold all_living_players_voted in b
Move-IsPending (begin d roles _ _ v _ _) b =
    unfold begin_game enter_phase append_log in ground arith
Move-IsPending {e = e} {s = s} (submit p _ target type dark _ _) b =
    unfold all_living_players_voted in
    submit-IsPending e.at (record { player_id = p.id; target_id = target; type = type }) s dark
Move-IsPending {e = e} {s = s} (open_vote _ _) b = start_voting-IsPending e.at e.player_id s
Move-IsPending {e = e} {s = s} (ballot p target voting _) b =
    unfold all_living_players_voted in cast_vote-IsPending e.at p.id target s voting
Move-IsPending {e = e} {s = s} (fired p q by_day _ _ _ _ _) b =
    unfold all_living_players_voted in
    after_shot-IsPending e.at (fire e p q s) (unfold fire prune_votes append_log in by_day)
Move-IsPending (hand_over _ _ _ _) b = unfold all_living_players_voted in b
Move-IsPending (kick id _ _ idle _ _) b = unfold kick_player phase_eq in ground arith
Move-IsPending (lock _) b = unfold all_living_players_voted in b
Move-IsPending (limit _ _ _ _ _ _) b = unfold all_living_players_voted in b
Move-IsPending (configure g d _ idle v) b = unfold use_settings phase_eq in ground arith
Move-IsPending (return _ _) b = unfold return_to_waiting_room enter_phase in ground arith
Move-IsPending {e = e} {s = s} (night_ends dark _) b =
    let actions = pass_for_idle (game_rules s) s.players s.night_actions in
    unfold append_log in
    ground
      (arith, resolve_night_phase e.at (record (timed_out e s) { night_actions = actions }) dark)
Move-IsPending {e = e} {s = s} (talk_ends _ _) b = start_voting-IsPending e.at [] (timed_out e s)
Move-IsPending {e = e} {s = s} (vote_ends voting _) b =
    let ended = record (timed_out e s) { votes = abstain_for_idle s.players s.votes } in
    unfold append_log in ground (arith, resolve_vote_phase e.at ended)
Move-IsPending {e = e} {s = s} (words_end speaking _) b =
    let ended = record (timed_out e s) { last_words_id = [] } in
    unfold append_log complete_last_words in ground (arith, advance_phase e.at ended)

sequence-IsPending :
    (id : GoString) (n : ℕ) (s : State) → IsPending s → IsPending (record_client_sequence id n s)
unfolding record_client_sequence all_living_players_voted
sequence-IsPending id n s b =
    ground (arith, edit-IsPending s id (set_sequence n) (set_sequence_Keeps n) b)

-- No event leaves a vote open in which every living player has voted.
pub apply-IsPending :
    (h : Host) (s : State) (e : Event) → IsCoherent s → IsPending s → IsPending (apply h s e).0
apply-IsPending h s e c b =
    apply_rule IsPending h s e c.idle (λ t m. Move-IsPending m b) sequence-IsPending
