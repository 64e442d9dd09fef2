-- ===== src/Room/Moves/Dispatch.antt =====
-- `Apply` (internal/room/state.go) against the step relation.
use midnight_council.Base.{ℕ, inl, inr, Bool-cases, ltb}
use midnight_council.Text.{GoString}
use midnight_council.Room.Types.{EventType}
use midnight_council.Room.Errors.{Result, ok, err}
use midnight_council.Room.Host.{Host}
use midnight_council.Room.Event.{Event, Envelope}
use midnight_council.Room.State.{State}
use midnight_council.Room.State.Apply.{
  dispatch, recorded, apply, stamped, is_duplicate, record_client_sequence,
}
use midnight_council.Room.State.Atomic.{IsIdleUntimed}
use midnight_council.Room.Moves.{Move, stay}
use midnight_council.Room.Moves.Seating.{
  join-Move, leave-Move, disconnect-Move, ready-Move, presence-Move,
}
use midnight_council.Room.Moves.Playing.{
  start_game-Move, chat-Move, night_action-Move, night_pass-Move, start_vote-Move, vote-Move,
  shoot-Move, phase_timeout-Move,
}
use midnight_council.Room.Moves.Ruling.{
  transfer_owner-Move, kick_participant-Move, set_room_locked-Move, set_player_limit-Move,
  set_game_settings-Move, set_game_preset-Move, return_to_waiting-Move,
}

pub dispatch-Move :
    (t : EventType) (h : Host) (s : State) (e : Event)
    → IsIdleUntimed s
    → Move h e s (dispatch t h s e).0
unfolding dispatch
dispatch-Move EventType.join h s e i = join-Move h s e
dispatch-Move EventType.leave h s e i = leave-Move h s e
dispatch-Move EventType.disconnect h s e i = disconnect-Move h s e
dispatch-Move EventType.ready h s e i = ready-Move h s e
dispatch-Move EventType.start_game h s e i = start_game-Move h s e
dispatch-Move EventType.chat h s e i = chat-Move h s e
dispatch-Move EventType.night_action h s e i = night_action-Move h s e
dispatch-Move EventType.night_pass h s e i = night_pass-Move h s e
dispatch-Move EventType.start_vote h s e i = start_vote-Move h s e
dispatch-Move EventType.vote h s e i = vote-Move h s e
dispatch-Move EventType.shoot h s e i = shoot-Move h s e
dispatch-Move EventType.transfer_owner h s e i = transfer_owner-Move h s e
dispatch-Move EventType.kick_participant h s e i = kick_participant-Move h s e
dispatch-Move EventType.set_room_locked h s e i = set_room_locked-Move h s e
dispatch-Move EventType.set_player_limit h s e i = set_player_limit-Move h s e
dispatch-Move EventType.set_game_settings h s e i = set_game_settings-Move h s e
dispatch-Move EventType.set_game_preset h s e i = set_game_preset-Move h s e
dispatch-Move EventType.presence h s e i = presence-Move h s e
dispatch-Move EventType.return_to_waiting h s e i = return_to_waiting-Move h s e
dispatch-Move EventType.phase_timeout h s e i = phase_timeout-Move h s e i
dispatch-Move (EventType.custom name) h s e i = stay

recorded_rule {ℓ} :
    (P : State → Type ℓ) (e : Event) (s : State) (r : Result Envelope)
    → P s
    → ((id : GoString) (n : ℕ) (t : State) → P t → P (record_client_sequence id n t))
    → P (recorded e (s, r)).0
unfolding recorded
recorded_rule P e s (err x) p noted = p
recorded_rule P e s (ok v) p noted = elim (Bool-cases (ltb 0 e.client_sequence)) [
  | inl numbered ↦ rw numbered (noted e.player_id e.client_sequence s p)
  | inr plain ↦ rw plain p
]

-- To prove a predicate of the state after `Apply`: prove it for the step and for the sequence.
pub apply_rule {ℓ} :
    (P : State → Type ℓ) (h : Host) (s : State) (e : Event)
    → IsIdleUntimed s
    → ((t : State) → Move h (stamped h e) s t → P t)
    → ((id : GoString) (n : ℕ) (t : State) → P t → P (record_client_sequence id n t))
    → P (apply h s e).0
unfolding apply
apply_rule P h s e i step noted = elim (Bool-cases (is_duplicate s (stamped h e))) [
  | inl old ↦ rw old (step s stay)
  | inr new ↦
      let (t, r) = dispatch e.type h s (stamped h e) in
      rw new (
        recorded_rule P (stamped h e) t r (step t (dispatch-Move e.type h s (stamped h e) i)) noted)
]
