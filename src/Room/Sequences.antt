-- ===== src/Room/Sequences.antt =====
-- The client sequences of internal/room/state.go (`recordClientSequence`, `lastClientSequence`), for
-- events that a client sends again.
use midnight_council.Base.{
  ℕ, ◌<◌, ◌≤◌, ◌≡◌, refl, true, arith, inl, inr, some, Option-cases, is_some,
}
use midnight_council.Base.Dict.{lookup}
use midnight_council.Base.Dict.Laws.{lookup-modify}
use midnight_council.Text.{GoString, str_Eq, str_eq_iff}
use midnight_council.Room.Errors.{is_ok, err, duplicate_client_event, Result-cases}
use midnight_council.Room.Host.{Host}
use midnight_council.Room.Event.{Event}
use midnight_council.Room.State.{State}
use midnight_council.Room.State.Apply.{
  apply, dispatch, recorded, is_duplicate, last_client_sequence, record_client_sequence,
  set_sequence, set_spectator_sequence, stamped,
}

record_client_sequence_lem :
    (id : GoString) (n : ℕ) (s : State)
    → is_some (last_client_sequence (record_client_sequence id n s) id) ≡ true
    → last_client_sequence (record_client_sequence id n s) id ≡ some n
unfolding last_client_sequence record_client_sequence
record_client_sequence_lem id n s seated = elim (Option-cases (lookup id s.players)) [
  | inr (p, found) ↦
      ground (arith, lookup-modify id id (set_sequence n) s.players, str_eq_iff id id)
  | inl nobody ↦
      ground (arith, lookup-modify id id (set_spectator_sequence n) s.spectators, str_eq_iff id id)
]

apply_sequence :
    (h : Host) (s : State) (e : Event)
    → 0 < e.client_sequence
    → is_ok (apply h s e).1 ≡ true
    → is_some (last_client_sequence (apply h s e).0 e.player_id) ≡ true
    → last_client_sequence (apply h s e).0 e.player_id ≡ some e.client_sequence
unfolding apply recorded
apply_sequence h s e numbered done seated =
    let (t, r) = dispatch e.type h s (stamped h e) in
    elim (Result-cases r) [
      | inl (x, bad) ↦ ground arith
      | inr (w, good) ↦ ground (arith, record_client_sequence_lem e.player_id e.client_sequence t)
    ]

duplicate_refused :
    (h : Host) (s : State) (e : Event)
    → is_duplicate s (stamped h e) ≡ true
    → apply h s e ≡ (s, err duplicate_client_event)
unfolding apply
duplicate_refused h s e old = rw old refl

-- Once a participant's event with a sequence has succeeded, and the participant still sits in the
-- room, an event of the same participant with this sequence or a lower one is refused as a duplicate
-- and changes nothing.
pub apply_duplicate :
    (h h' : Host) (s : State) (e e' : Event)
    → 0 < e'.client_sequence
    → e'.client_sequence ≤ e.client_sequence
    → e'.player_id ≡ e.player_id
    → is_ok (apply h s e).1 ≡ true
    → is_some (last_client_sequence (apply h s e).0 e.player_id) ≡ true
    → apply h' (apply h s e).0 e' ≡ ((apply h s e).0, err duplicate_client_event)
unfolding is_duplicate
apply_duplicate h h' s e e' numbered late same done seated =
    duplicate_refused h' (apply h s e).0 e'
      (ground (arith, apply_sequence h s e (omega (arith, numbered, late)) done seated))
