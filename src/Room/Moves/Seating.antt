-- ===== src/Room/Moves/Seating.antt =====
-- The handlers of joining, leaving and presence (internal/room/state.go) against the step
-- relation.
use midnight_council.Base.{◌≡◌, refl, inl, inr, Bool, false, arith, none}
use midnight_council.Base.Dict.{lookup}
use midnight_council.Text.{GoString, str_Eq}
use midnight_council.Room.Types.{phase_eq_iff, waiting, Player, Spectator}
use midnight_council.Room.Errors.{Result-cases, ok}
use midnight_council.Room.Host.{Host}
use midnight_council.Room.Event.{Event}
use midnight_council.Room.Identity.{normalize_participant_identity}
use midnight_council.Room.State.{State, touch}
use midnight_council.Room.State.Seats.{
  applied, rejoin_player, leave_player, set_ready, set_afk, join_player_again, join_spectator_again,
  join_new_spectator, join_new_player, join_normalized, apply_join, apply_leave, disconnect_player,
  apply_disconnect, apply_ready, apply_presence,
}
use midnight_council.Room.Moves.{
  Keeps, Move, stay, edit_player, reown_player, edit_spectator, seat_player, seat_spectator,
  unseat_player, unseat_spectator,
}

abbrev rejoin_Keeps : (name : GoString) → Keeps (rejoin_player name)
rejoin_Keeps name = record {
  same_id = λ p. refl;
  same_role = λ p. refl;
  same_alive = λ p. refl;
  same_shot = λ p. refl;
}

abbrev leave_Keeps : Keeps leave_player
leave_Keeps = record {
  same_id = λ p. refl;
  same_role = λ p. refl;
  same_alive = λ p. refl;
  same_shot = λ p. refl;
}

abbrev ready_Keeps : (b : Bool) → Keeps (set_ready b)
ready_Keeps b = record {
  same_id = λ p. refl;
  same_role = λ p. refl;
  same_alive = λ p. refl;
  same_shot = λ p. refl;
}

abbrev afk_Keeps : (b : Bool) → Keeps (set_afk b)
afk_Keeps b = record {
  same_id = λ p. refl;
  same_role = λ p. refl;
  same_alive = λ p. refl;
  same_shot = λ p. refl;
}

module _ (h : Host) (s : State) (e : Event) where
  pub ready-Move : Move h e s (apply_ready h s e).0
  unfolding apply_ready applied
  ready-Move = grind (arith, stay, edit_player, ready_Keeps)

  pub presence-Move : Move h e s (apply_presence h s e).0
  unfolding apply_presence applied
  presence-Move = grind (arith, stay, edit_player, edit_spectator, afk_Keeps)

  disconnect_player-Move : Move h e s (touch e.at (disconnect_player e.player_id s))
  unfolding disconnect_player
  disconnect_player-Move = grind (arith, edit_player, reown_player, leave_Keeps)

  pub disconnect-Move : Move h e s (apply_disconnect h s e).0
  unfolding apply_disconnect applied
  disconnect-Move = grind (arith, stay, disconnect_player-Move, edit_spectator)

  pub leave-Move : Move h e s (apply_leave h s e).0
  unfolding apply_leave applied
  leave-Move = grind (
    arith,
    stay,
    phase_eq_iff s.phase waiting,
    disconnect_player-Move,
    unseat_player,
    unseat_spectator,
    edit_spectator,
  )

  join_player_again-Move :
      (id name : GoString) (p : Player)
      → Move h e s (join_player_again h s (record e { player_id = id; player_name = name }) p).0
  unfolding join_player_again applied
  join_player_again-Move id name p = grind (arith, stay, reown_player, rejoin_Keeps)

  join_spectator_again-Move :
      (id name : GoString) (p : Spectator)
      → Move h e s (join_spectator_again h s (record e { player_id = id; player_name = name }) p).0
  unfolding join_spectator_again applied
  join_spectator_again-Move id name p = grind (arith, stay, edit_spectator)

  -- The guards that hold where a new participant takes a seat.
  module _ (id name : GoString)
      (named : normalize_participant_identity e.player_id e.player_name ≡ ok (id, name))
      (new : lookup id s.players ≡ none) (new' : lookup id s.spectators ≡ none)
      (free : s.locked ≡ false) where
    join_new_spectator-Move :
        Move h e s (join_new_spectator h s (record e { player_id = id; player_name = name })).0
    unfolding join_new_spectator applied
    join_new_spectator-Move = grind (arith, stay, seat_spectator)

    join_new_player-Move :
        Move h e s (join_new_player h s (record e { player_id = id; player_name = name })).0
    unfolding join_new_player applied
    join_new_player-Move = grind (arith, stay, seat_player, phase_eq_iff s.phase waiting)

  join_normalized-Move :
      (id name : GoString)
      → normalize_participant_identity e.player_id e.player_name ≡ ok (id, name)
      → Move h e s (join_normalized h s (record e { player_id = id; player_name = name })).0
  unfolding join_normalized
  join_normalized-Move id name named = grind (
    arith,
    stay,
    join_player_again-Move id name,
    join_spectator_again-Move id name,
    join_new_spectator-Move id name named,
    join_new_player-Move id name named,
  )

  pub join-Move : Move h e s (apply_join h s e).0
  unfolding apply_join
  join-Move = elim (Result-cases (normalize_participant_identity e.player_id e.player_name)) [
    | inl (x, r) ↦ rw (r, apply_join) stay
    | inr ((id, name), r) ↦ rw (r, apply_join) (join_normalized-Move id name r)
  ]
