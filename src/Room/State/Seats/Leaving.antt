-- ===== src/Room/State/Seats/Leaving.antt =====
-- `applyLeave`, `applyDisconnect`, `applyReady` and `applyPresence` of internal/room/state.go.
use midnight_council.Base.{Bool, false, not, none, some, ◌==◌, if◌then◌else◌}
use midnight_council.Base.Dict.{lookup, erase, modify}
use midnight_council.Text.{GoString, str_Eq}
use midnight_council.Room.Types.{waiting, Player, Spectator, phase_Eq}
use midnight_council.Room.Errors.{participant_not_found, room_not_waiting, player_not_found}
use midnight_council.Room.Host.{Host}
use midnight_council.Room.Event.{Event}
use midnight_council.Room.State.{State}
use midnight_council.Room.State.Seats.Owner.{
  Outcome, fail, applied, ensure_connected_owner, next_owner_id,
}

abbrev pub leave_player : Player → Player
leave_player p = record p { connected = false; afk = false }

abbrev pub leave_spectator : Spectator → Spectator
leave_spectator p = record p { connected = false; afk = false }

-- `delete(s.players, event.PlayerID)`, and the next owner if the owner left.
unfoldable pub remove_player : GoString → State → State
remove_player id s =
    let removed = record s { players = erase id s.players } in
    if s.owner_id == id then record removed { owner_id = next_owner_id removed } else removed

-- The player stays, disconnected, and hands the room over if there is someone to take it.
unfoldable pub disconnect_player : GoString → State → State
disconnect_player id s =
    let left = record s { players = modify id leave_player s.players } in
    if s.owner_id == id then ensure_connected_owner left else left

unfoldable pub apply_leave : Host → State → Event → Outcome
apply_leave h s e = elim (lookup e.player_id s.players) [
  | some player ↦
      applied h e.at (
        if s.phase == waiting then remove_player e.player_id s else disconnect_player e.player_id s)
  | none ↦ elim (lookup e.player_id s.spectators) [
    | none ↦ fail s participant_not_found
    | some spectator ↦ applied h e.at (record s {
      spectators =
          if s.phase == waiting
          then erase e.player_id s.spectators
          else modify e.player_id leave_spectator s.spectators;
    })
  ]
]

unfoldable pub apply_disconnect : Host → State → Event → Outcome
apply_disconnect h s e = elim (lookup e.player_id s.players) [
  | some player ↦ applied h e.at (disconnect_player e.player_id s)
  | none ↦ elim (lookup e.player_id s.spectators) [
    | none ↦ fail s participant_not_found
    | some spectator ↦
        applied h e.at (record s { spectators = modify e.player_id leave_spectator s.spectators })
  ]
]

abbrev pub set_ready : Bool → Player → Player
set_ready ready p = record p { ready = ready }

unfoldable pub apply_ready : Host → State → Event → Outcome
apply_ready h s e =
    if not (s.phase == waiting)
    then fail s room_not_waiting
    else elim (lookup e.player_id s.players) [
      | none ↦ fail s player_not_found
      | some player ↦
          applied h e.at (record s { players = modify e.player_id (set_ready e.ready) s.players })
    ]

abbrev pub set_afk : Bool → Player → Player
set_afk afk p = record p { afk = afk }

abbrev pub set_spectator_afk : Bool → Spectator → Spectator
set_spectator_afk afk p = record p { afk = afk }

unfoldable pub apply_presence : Host → State → Event → Outcome
apply_presence h s e = elim (lookup e.player_id s.players) [
  | some player ↦
      applied h e.at (record s { players = modify e.player_id (set_afk e.afk) s.players })
  | none ↦ elim (lookup e.player_id s.spectators) [
    | none ↦ fail s participant_not_found
    | some spectator ↦
        applied h e.at
          (record s { spectators = modify e.player_id (set_spectator_afk e.afk) s.spectators })
  ]
]
