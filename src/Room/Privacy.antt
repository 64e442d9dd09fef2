-- ===== src/Room/Privacy.antt =====
-- What a room keeps from its participants: the envelopes of internal/room/state.go (`Snapshot`,
-- `PrivateView`, `EnvelopeForPlayer`) against a state from which all secrets of the others are gone.
use midnight_council.Base.{
  ◌≡◌, refl, false, List, [], ◌∷◌, map, if◌then◌else◌, arith, Option-cases, inl, inr, ◌≢◌,
}
use midnight_council.Base.Dict.{lookup}
use midnight_council.Base.Dict.Laws.{lookup-Entries}
use midnight_council.Text.{GoString, str_eq, str_Eq}
use midnight_council.Room.Types.{Player, Spectator, no_role}
use midnight_council.Room.Host.{Host}
use midnight_council.Room.State.{State, Players, game_rules}
use midnight_council.Room.State.Views.{
  role_revealed, player_view, spectator_view, snapshot, private_player_view, private_view,
  acts_at_night, votes_now, shoots_now, envelope_for_player, state_envelope,
}
use midnight_council.Room.Invariant.SameSeats.{IsKeyed}

-- A player without the token, the sequence, the shot and a role that is not revealed.
abbrev pub hidden : State → Player → Player
hidden s p = record p {
  reconnect_token = [];
  last_client_sequence = 0;
  shooter_used = false;
  role = if role_revealed s p then p.role else no_role;
}

abbrev pub hidden_spectator : Spectator → Spectator
hidden_spectator w = record w { reconnect_token = []; last_client_sequence = 0 }

abbrev pub hide_players : State → GoString → Players → Players
hide_players s id [] = []
hide_players s id ((j, p) ∷ ps) =
    let rest = hide_players s id ps in if str_eq j id then (j, p) ∷ rest else (j, hidden s p) ∷ rest

abbrev pub hide_spectators : GoString → List (GoString × Spectator) → List (GoString × Spectator)
hide_spectators id [] = []
hide_spectators id ((j, w) ∷ ws) =
    let rest = hide_spectators id ws in
    if str_eq j id then (j, w) ∷ rest else (j, hidden_spectator w) ∷ rest

-- The entries under one key.
abbrev pub only {ℓ} : {V : Type ℓ} → GoString → List (GoString × V) → List (GoString × V)
only id [] = []
only id ((j, v) ∷ m) = let rest = only id m in if str_eq j id then (j, v) ∷ rest else rest

-- The state as far as the participant `id` may know it.
abbrev pub known_to : GoString → State → State
known_to id s = record s {
  players = hide_players s id s.players;
  spectators = hide_spectators id s.spectators;
  night_actions = only id s.night_actions;
  votes = only id s.votes;
  investigations = only id s.investigations;
}

lookup-only {ℓ} :
    {V : Type ℓ} (id : GoString) (m : List (GoString × V)) → lookup id (only id m) ≡ lookup id m
unfolding lookup
lookup-only id [] = refl
lookup-only id ((j, v) ∷ m) = ground (arith, lookup-only id m)

lookup-hide_players :
    (s : State) (id : GoString) (ps : Players) → lookup id (hide_players s id ps) ≡ lookup id ps
unfolding lookup
lookup-hide_players s id [] = refl
lookup-hide_players s id ((j, p) ∷ ps) = ground (arith, lookup-hide_players s id ps)

lookup-hide_spectators :
    (id : GoString) (ws : List (GoString × Spectator))
    → lookup id (hide_spectators id ws) ≡ lookup id ws
unfolding lookup
lookup-hide_spectators id [] = refl
lookup-hide_spectators id ((j, w) ∷ ws) = ground (arith, lookup-hide_spectators id ws)

hidden-player_view :
    (s : State) (id : GoString) (p : Player)
    → player_view (known_to id s) (hidden s p) ≡ player_view s p
unfolding player_view role_revealed
hidden-player_view s id p = ground arith

shown_players :
    (s : State) (id : GoString) (ps : Players)
    → map (λ e. player_view (known_to id s) e.1) (hide_players s id ps)
      ≡ map (λ e. player_view s e.1) ps
unfolding player_view role_revealed
shown_players s id [] = refl
shown_players s id ((j, p) ∷ ps) = ground (arith, shown_players s id ps, hidden-player_view s id p)

shown_spectators :
    (id : GoString) (ws : List (GoString × Spectator))
    → map (λ e. spectator_view e.1) (hide_spectators id ws) ≡ map (λ e. spectator_view e.1) ws
unfolding spectator_view
shown_spectators id [] = refl
shown_spectators id ((j, w) ∷ ws) = ground (arith, shown_spectators id ws)

snapshot-known_to :
    (h : Host) (id : GoString) (s : State) → snapshot h (known_to id s) ≡ snapshot h s
unfolding snapshot
snapshot-known_to h id s =
    ground (arith, shown_players s id s.players, shown_spectators id s.spectators)

private_player_view-known_to :
    (id : GoString) (s : State) (p : Player)
    → p.id ≡ id
    → private_player_view (known_to id s) p ≡ private_player_view s p
unfolding private_player_view acts_at_night votes_now shoots_now game_rules
private_player_view-known_to id s p same =
    ground (
      arith,
      lookup-only id s.night_actions,
      lookup-only id s.votes,
      lookup-only id s.investigations,
    )

private_view-known_to :
    (id : GoString) (s : State)
    → IsKeyed s.players
    → private_view (known_to id s) id ≡ private_view s id
unfolding private_view
private_view-known_to id s keyed = elim (Option-cases (lookup id s.players)) [
  | inl nobody ↦
      ground (arith, lookup-hide_players s id s.players, lookup-hide_spectators id s.spectators)
  | inr (p, found) ↦ ground (
    arith,
    lookup-hide_players s id s.players,
    private_player_view-known_to id s p
        (lookup-Entries (λ k p. (p.id ≡ k) × (k ≢ [])) id p s.players keyed found).0,
  )
]

-- What a participant is sent does not depend on the secrets of the others: their tokens, sequences,
-- roles that are not revealed, shots, night actions, votes and investigations.
pub envelope_for_player-known_to :
    (h : Host) (s : State) (id : GoString)
    → IsKeyed s.players
    → envelope_for_player h (known_to id s) id ≡ envelope_for_player h s id
unfolding envelope_for_player state_envelope
envelope_for_player-known_to h s id keyed =
    ground (arith, snapshot-known_to h id s, private_view-known_to id s keyed)
