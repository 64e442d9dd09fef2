-- ===== src/Room/State/Seats/Joining.antt =====
-- `applyJoin` of internal/room/state.go, with the token that a participant who comes back must show.
use midnight_council.Base.{
  pos, int_lt, true, false, not, [], Option, none, some, ◌==◌, if◌then◌else◌, length,
}
use midnight_council.Base.Dict.{lookup, insert, modify}
use midnight_council.Text.{GoString, str_Eq, trim_space}
use midnight_council.Room.Types.{waiting, no_role, Player, Spectator, phase_Eq}
use midnight_council.Room.Errors.{
  ok, err, Error, participant_type_mismatch, reconnect_token_required, invalid_reconnect_token,
  room_locked, spectator_limit_reached, no_entropy, room_not_joinable, room_full,
}
use midnight_council.Room.Host.{Host}
use midnight_council.Room.Identity.{normalize_participant_identity}
use midnight_council.Room.Event.{Event}
use midnight_council.Room.State.{State}
use midnight_council.Room.State.Seats.Owner.{Outcome, fail, applied, ensure_connected_owner}

-- What a participant who comes back must show: the token of the seat.
unfoldable pub check_token : GoString → GoString → Option Error
check_token given kept =
    if trim_space given == []
    then some reconnect_token_required
    else if not (given == kept)
    then some invalid_reconnect_token
    else none

abbrev pub rejoin_player : GoString → Player → Player
rejoin_player name p = record p { name = trim_space name; connected = true; afk = false }

abbrev pub rejoin_spectator : GoString → Spectator → Spectator
rejoin_spectator name p = record p { name = trim_space name; connected = true; afk = false }

-- The branches of `applyJoin`; the id and the name of the event are normalized.
unfoldable pub join_player_again : Host → State → Event → Player → Outcome
join_player_again h s e player =
    if e.spectator
    then fail s participant_type_mismatch
    else elim (check_token e.reconnect_token player.reconnect_token) [
      | some error ↦ fail s error
      | none ↦ applied h e.at (
          ensure_connected_owner
            (record s { players = modify e.player_id (rejoin_player e.player_name) s.players }))
    ]

unfoldable pub join_spectator_again : Host → State → Event → Spectator → Outcome
join_spectator_again h s e spectator =
    if not e.spectator
    then fail s participant_type_mismatch
    else elim (check_token e.reconnect_token spectator.reconnect_token) [
      | some error ↦ fail s error
      | none ↦ applied h e.at (record s {
        spectators = modify e.player_id (rejoin_spectator e.player_name) s.spectators;
      })
    ]

abbrev pub new_spectator : Event → GoString → Spectator
new_spectator e token = record {
  id = e.player_id;
  name = trim_space e.player_name;
  reconnect_token = token;
  connected = true;
  afk = false;
  last_client_sequence = 0;
  joined_at = e.at;
}

abbrev pub new_player : Event → GoString → Player
new_player e token = record {
  id = e.player_id;
  name = trim_space e.player_name;
  reconnect_token = token;
  ready = false;
  connected = true;
  role = no_role;
  alive = true;
  shooter_used = false;
  afk = false;
  last_client_sequence = 0;
  joined_at = e.at;
}

unfoldable pub join_new_spectator : Host → State → Event → Outcome
join_new_spectator h s e =
    if not (int_lt (pos (length s.spectators)) s.max_spectators)
    then fail s spectator_limit_reached
    else elim h.token [
      | none ↦ fail s no_entropy
      | some token ↦
          applied h e.at
            (record s { spectators = insert e.player_id (new_spectator e token) s.spectators })
    ]

unfoldable pub join_new_player : Host → State → Event → Outcome
join_new_player h s e =
    if not (s.phase == waiting)
    then fail s room_not_joinable
    else if not (int_lt (pos (length s.players)) s.max_players)
    then fail s room_full
    else elim h.token [
      | none ↦ fail s no_entropy
      | some token ↦ applied h e.at (record s {
        players = insert e.player_id (new_player e token) s.players;
        owner_id = if s.owner_id == [] then e.player_id else s.owner_id;
      })
    ]

unfoldable pub join_normalized : Host → State → Event → Outcome
join_normalized h s e = elim (lookup e.player_id s.players) [
  | some player ↦ join_player_again h s e player
  | none ↦ elim (lookup e.player_id s.spectators) [
    | some spectator ↦ join_spectator_again h s e spectator
    | none ↦
        if s.locked
        then fail s room_locked
        else if e.spectator
        then join_new_spectator h s e
        else join_new_player h s e
  ]
]

unfoldable pub apply_join : Host → State → Event → Outcome
apply_join h s e = elim (normalize_participant_identity e.player_id e.player_name) [
  | err error ↦ fail s error
  | ok (id, name) ↦ join_normalized h s (record e { player_id = id; player_name = name })
]
