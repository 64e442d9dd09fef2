-- ===== src/Room/Frame.antt =====
-- Which fields each helper of internal/room/state.go may change.
use midnight_council.Base.{◌≡◌, refl, List, [], ◌∷◌, arith}
use midnight_council.Text.{GoString}
use midnight_council.Room.Types.{Time, NightAction, NightActionType}
use midnight_council.Room.State.{State, append_log, sort_strings}
use midnight_council.Room.State.Night.{
  NightRun, log_eliminated, announce, record_investigation, night_kill, perform, night_step,
  run_night, night_run, dawn,
}
use midnight_council.Room.State.Vote.{prune_votes, execution, execute_target}
use midnight_council.Room.State.Seats.{ensure_connected_owner}
use midnight_council.Room.State.Apply.{record_client_sequence}

log_eliminated_frame :
    (at : Time) (ids : List GoString) (s : State)
    → log_eliminated at ids s ≡ record s { log = (log_eliminated at ids s).log }
unfolding log_eliminated append_log
log_eliminated_frame at [] s = refl
log_eliminated_frame at (id ∷ ids) s = log_eliminated_frame at ids _

-- The announcement of a night writes to the log alone.
pub announce_frame :
    (at : Time) (ids : List GoString) (s : State)
    → announce at ids s ≡ record s { log = (announce at ids s).log }
unfolding announce append_log
announce_frame at [] s = refl
announce_frame at (id ∷ ids) s = log_eliminated_frame at (sort_strings (id ∷ ids)) s

pub ensure_connected_owner_frame :
    (s : State)
    → ensure_connected_owner s ≡ record s { owner_id = (ensure_connected_owner s).owner_id }
unfolding ensure_connected_owner
ensure_connected_owner_frame s = ground arith

pub record_client_sequence_frame :
    (id : GoString) (n : Prim.Native.Nat.ℕ) (s : State)
    → let t = record_client_sequence id n s in
      t ≡ record s { players = t.players; spectators = t.spectators }
unfolding record_client_sequence
record_client_sequence_frame id n s = ground arith

perform_frame :
    (t : NightActionType) (a : NightAction) (run : NightRun)
    → let s = run.state in
      let u = (perform t a run).state in
      u ≡ record s { players = u.players; investigations = u.investigations }
unfolding perform night_kill record_investigation
perform_frame NightActionType.block a run = ground arith
perform_frame _ a run = ground arith

night_step_frame :
    (a : NightAction) (run : NightRun)
    → let s = run.state in
      let u = (night_step run a).state in
      u ≡ record s { players = u.players; investigations = u.investigations }
unfolding night_step
night_step_frame a run = ground (arith, perform_frame a.type a run)

run_night_frame :
    (actions : List NightAction) (run : NightRun)
    → let s = run.state in
      let u = (run_night actions run).state in
      u ≡ record s { players = u.players; investigations = u.investigations }
unfolding run_night
run_night_frame [] run = refl
run_night_frame (a ∷ actions) run =
    cc (night_step_frame a run, run_night_frame actions (night_step run a))

-- The actions of a night change the players and the investigations alone.
pub night_run_frame :
    (s : State)
    → let u = (night_run s).state in
      u ≡ record s { players = u.players; investigations = u.investigations }
unfolding night_run
night_run_frame s = run_night_frame _ _

-- An execution changes the players and the log alone.
pub execution_frame :
    (at : Time) (s : State)
    → let u = (execution at s).0 in u ≡ record s { players = u.players; log = u.log }
unfolding execution execute_target append_log
execution_frame at s = ground arith

-- So the end of a night changes these fields alone, and the votes.
pub dawn_frame :
    (at : Time) (s : State)
    → let u = dawn at s in
      u ≡ record s {
        players = u.players;
        night_actions = [];
        votes = u.votes;
        investigations = u.investigations;
        log = u.log;
      }
unfolding dawn prune_votes
dawn_frame at s =
    let run = night_run s in cc (announce_frame at run.eliminated run.state, night_run_frame s)
