-- ===== src/Room/State/Seats/Owner.antt =====
-- Who owns the room: `ensureConnectedOwner` and `nextOwnerID` of internal/room/state.go.
use midnight_council.Base.{Bool, false, List, [], ◌∷◌, Option, none, some, if◌then◌else◌}
use midnight_council.Base.Dict.{lookup}
use midnight_council.Text.{GoString, str_Eq}
use midnight_council.Room.Types.{Time, phase_Eq}
use midnight_council.Room.Errors.{Result, ok, err, Error}
use midnight_council.Room.Host.{Host}
use midnight_council.Room.Event.{Envelope}
use midnight_council.Room.State.{State, Players, touch, sorted_player_ids}
use midnight_council.Room.State.Views.{state_envelope, snapshot}

-- The state after a handler, with the `*Envelope` or the `error` that it returns.
abbrev pub Outcome : Type 0
Outcome = State × Result Envelope

abbrev pub fail : State → Error → Outcome
fail s e = (s, err e)

-- `s.touch(event.At); return stateEnvelope(s.Snapshot()), nil`
unfoldable pub applied : Host → Time → State → Outcome
unfolding touch
applied h at s = let touched = touch at s in (touched, ok (state_envelope (snapshot h touched)))

-- The first player in the order of ids who is connected.
unfoldable pub first_connected : Players → List GoString → Option GoString
first_connected players [] = none
first_connected players (id ∷ ids) =
    let rest = first_connected players ids in
    elim (lookup id players) [
      | none ↦ rest
      | some player ↦ if player.connected then some id else rest
    ]

unfoldable pub owner_connected : State → Bool
owner_connected s = elim (lookup s.owner_id s.players) [
  | none ↦ false
  | some owner ↦ owner.connected
]

unfoldable pub ensure_connected_owner : State → State
ensure_connected_owner s =
    if owner_connected s then s else elim (first_connected s.players (sorted_player_ids s)) [
      | none ↦ s
      | some id ↦ record s { owner_id = id }
    ]

abbrev head_or_blank : List GoString → GoString
head_or_blank [] = []
head_or_blank (id ∷ ids) = id

unfoldable pub next_owner_id : State → GoString
next_owner_id s = head_or_blank (sorted_player_ids s)
