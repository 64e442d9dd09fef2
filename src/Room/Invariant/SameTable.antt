-- ===== src/Room/Invariant/SameTable.antt =====
-- The parts of a game (internal/room/state.go) that change neither the seats nor the limits.
use midnight_council.Base.{◌≡◌, refl, ◌∙◌, List, [], arith}
use midnight_council.Base.Dict.{modify, insert}
use midnight_council.Text.{GoString, str_Eq, trim_space}
use midnight_council.Room.Types.{Time, Player, Role, NightAction}
use midnight_council.Room.Timing.{PhaseDurations}
use midnight_council.Room.Event.{Event}
use midnight_council.Room.State.{State, append_log, enter_phase, start_voting, sorted_player_ids}
use midnight_council.Room.State.Win.{finish, check_win, advance_after_day}
use midnight_council.Room.State.Night.{dawn, resolve_night}
use midnight_council.Room.State.Vote.{
  prune_votes, execution, after_execution, resolve_vote, complete_last_words,
}
use midnight_council.Room.State.Game.{
  begin_game, submit_night_action, cast_vote, fire, use_shot, shot, after_shot,
}
use midnight_council.Room.Frame.{dawn_frame, execution_frame}
use midnight_council.Room.Invariant.SameSeats.{
  SameSeats, SameSeats-refl, SameSeats-trans, modify-SameSeats, deal-SameSeats, dawn-SameSeats,
  execution-SameSeats,
}

pub record SameTable (s t : State) : Type 0 where
  pub seats : SameSeats s.players t.players
  pub same_spectators : t.spectators ≡ s.spectators
  pub same_max : t.max_players ≡ s.max_players
  pub same_max_spectators : t.max_spectators ≡ s.max_spectators

pub SameTable-refl : (s : State) → SameTable s s
SameTable-refl s = record {
  seats = SameSeats-refl s.players;
  same_spectators = refl;
  same_max = refl;
  same_max_spectators = refl;
}

pub SameTable-trans : {s t u : State} → SameTable s t → SameTable t u → SameTable s u
SameTable-trans {s} {t} {u} a b = record {
  seats = SameSeats-trans s.players t.players u.players a.seats b.seats;
  same_spectators = b.same_spectators ∙ a.same_spectators;
  same_max = b.same_max ∙ a.same_max;
  same_max_spectators = b.same_max_spectators ∙ a.same_max_spectators;
}

check_win-SameTable : (at : Time) (s : State) → SameTable s (check_win at s).0
unfolding check_win finish append_log enter_phase
check_win-SameTable at s = ground (arith, SameTable-refl s)

dawn-SameTable : (at : Time) (s : State) → SameTable s (dawn at s)
dawn-SameTable at s = record {
  seats = dawn-SameSeats at s;
  same_spectators = cc (dawn_frame at s);
  same_max = cc (dawn_frame at s);
  same_max_spectators = cc (dawn_frame at s);
}

pub resolve_night-SameTable : (at : Time) (s : State) → SameTable s (resolve_night at s)
unfolding resolve_night append_log enter_phase
resolve_night-SameTable at s =
    ground (arith, SameTable-trans (dawn-SameTable at s) (check_win-SameTable at (dawn at s)))

advance_after_day-SameTable : (at : Time) (s : State) → SameTable s (advance_after_day at s)
unfolding advance_after_day append_log enter_phase
advance_after_day-SameTable at s = ground (arith, check_win-SameTable at s)

execution-SameTable : (at : Time) (s : State) → SameTable s (execution at s).0
execution-SameTable at s = record {
  seats = execution-SameSeats at s;
  same_spectators = cc (execution_frame at s);
  same_max = cc (execution_frame at s);
  same_max_spectators = cc (execution_frame at s);
}

after_execution-SameTable :
    (at : Time) (s : State) (id : GoString) → SameTable s (after_execution at (s, id))
unfolding after_execution append_log enter_phase
after_execution-SameTable at s id =
    ground (arith, SameTable-refl s, advance_after_day-SameTable at (record s { votes = [] }))

pub resolve_vote-SameTable : (at : Time) (s : State) → SameTable s (resolve_vote at s)
unfolding resolve_vote prune_votes
resolve_vote-SameTable at s =
    let (t, id) = execution at (prune_votes s) in
    ground (
      arith,
      SameTable-trans (execution-SameTable at (prune_votes s)) (after_execution-SameTable at t id),
    )

pub complete_last_words-SameTable : (at : Time) (s : State) → SameTable s (complete_last_words at s)
unfolding complete_last_words
complete_last_words-SameTable at s =
    ground (arith, advance_after_day-SameTable at (record s { last_words_id = [] }))

pub start_voting-SameTable :
    (at : Time) (id : GoString) (s : State) → SameTable s (start_voting at id s)
unfolding start_voting append_log enter_phase
start_voting-SameTable at id s = ground (arith, SameTable-refl s)

pub submit-SameTable :
    (at : Time) (a : NightAction) (s : State) → SameTable s (submit_night_action at a s)
unfolding submit_night_action
submit-SameTable at a s =
    let noted = record s { night_actions = insert a.player_id a s.night_actions } in
    ground (arith, SameTable-refl s, resolve_night-SameTable at noted)

pub cast_vote-SameTable :
    (at : Time) (v t : GoString) (s : State) → SameTable s (cast_vote at v t s)
unfolding cast_vote
cast_vote-SameTable at v t s =
    let noted = record s { votes = insert v t s.votes } in
    ground (arith, SameTable-refl s, resolve_vote-SameTable at noted)

pub begin_game-SameTable :
    (d : PhaseDurations) (roles : List Role) (e : Event) (s : State)
    → SameTable s (begin_game d roles e s)
unfolding begin_game append_log enter_phase
begin_game-SameTable d roles e s =
    ground (arith, deal-SameSeats (sorted_player_ids s) roles s.players)

fire-SameTable : (e : Event) (a b : Player) (s : State) → SameTable s (fire e a b s)
unfolding fire prune_votes append_log
fire-SameTable e a b s = record {
  seats =
      SameSeats-trans s.players (modify e.player_id use_shot s.players) _
        (modify-SameSeats use_shot (λ p. refl) e.player_id s.players)
        (modify-SameSeats shot (λ p. refl) (trim_space e.target_id) _);
  same_spectators = refl;
  same_max = refl;
  same_max_spectators = refl;
}

after_shot-SameTable : (at : Time) (s : State) → SameTable s (after_shot at s)
unfolding after_shot
after_shot-SameTable at s =
    let t = (check_win at s).0 in
    let checked = check_win-SameTable at s in
    ground (arith, checked, SameTable-trans checked (resolve_vote-SameTable at t))

pub shoot-SameTable :
    (at : Time) (e : Event) (a b : Player) (s : State) → SameTable s (after_shot at (fire e a b s))
shoot-SameTable at e a b s =
    SameTable-trans (fire-SameTable e a b s) (after_shot-SameTable at (fire e a b s))
