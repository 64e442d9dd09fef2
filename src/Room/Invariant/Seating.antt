-- ===== src/Room/Invariant/Seating.antt =====
-- How the writes to the two maps of internal/room/state.go act on keys.
use midnight_council.Base.{◌≡◌, ◌≢◌, ◌≤◌, refl, [], ◌∷◌, arith, none, length}
use midnight_council.Base.Dict.{lookup, insert, erase}
use midnight_council.Base.Dict.Laws.{Distinct, Entries, lookup-insert}
use midnight_council.Text.{GoString, str_Eq, str_eq_iff}
use midnight_council.Room.Types.{Spectator}
use midnight_council.Room.Errors.{ok}
use midnight_council.Room.Identity.{normalize_participant_identity}
use midnight_council.Room.State.{Players}
use midnight_council.Room.State.Admin.{returning_players, returning_spectators}
use midnight_council.Room.Invariant.SameSeats.{IsKeyed}
use midnight_council.Room.Invariant.Seats.{Spectators}

-- A participant who joins has an id.
pub named :
    (raw name id shown : GoString)
    → normalize_participant_identity raw name ≡ ok (id, shown)
    → id ≢ []
unfolding normalize_participant_identity
named raw name id shown r = ground (arith, str_eq_iff id [])

module _ (ws vs : Spectators)
    (keep : (k : GoString) → lookup k ws ≡ none → lookup k vs ≡ none) where
  pub apart_mono :
      (ps : Players)
      → Entries (λ k p. lookup k ws ≡ none) ps
      → Entries (λ k p. lookup k vs ≡ none) ps
  apart_mono [] h = tt
  apart_mono ((k, p) ∷ ps) h = (keep k h.0, apart_mono ps h.1)

pub apart-insert :
    (id : GoString) (w : Spectator) (ws : Spectators) (ps : Players)
    → lookup id ps ≡ none
    → Entries (λ k p. lookup k ws ≡ none) ps
    → Entries (λ k p. lookup k (insert id w ws) ≡ none) ps
unfolding lookup
apart-insert id w ws [] new h = tt
apart-insert id w ws ((k, p) ∷ ps) new h =
    ground
      (arith, str_eq_iff k id, str_eq_iff id k, lookup-insert id k w ws, apart-insert id w ws ps)

pub erase-none :
    (id k : GoString) (ws : Spectators) → lookup k ws ≡ none → lookup k (erase id ws) ≡ none
unfolding lookup erase
erase-none id k [] h = refl
erase-none id k ((j, w) ∷ ws) h = ground (arith, erase-none id k ws)

lookup-returning_players :
    (k : GoString) (ps : Players) → lookup k ps ≡ none → lookup k (returning_players ps) ≡ none
unfolding lookup returning_players
lookup-returning_players k [] h = refl
lookup-returning_players k ((j, p) ∷ ps) h = ground (arith, lookup-returning_players k ps)

lookup-returning_spectators :
    (k : GoString) (ws : Spectators)
    → lookup k ws ≡ none
    → lookup k (returning_spectators ws) ≡ none
unfolding lookup returning_spectators
lookup-returning_spectators k [] h = refl
lookup-returning_spectators k ((j, p) ∷ ps) h = ground (arith, lookup-returning_spectators k ps)

-- Those who return are among those who sat there.
pub returning_players_lem :
    (ps : Players) (ws : Spectators)
    → Distinct ps
    → IsKeyed ps
    → Entries (λ k p. lookup k ws ≡ none) ps
    → Distinct (returning_players ps)
      × IsKeyed (returning_players ps)
      × Entries (λ k p. lookup k (returning_spectators ws) ≡ none) (returning_players ps)
      × (length (returning_players ps) ≤ length ps)
unfolding returning_players
returning_players_lem [] ws d k a = (tt, tt, tt, omega arith)
returning_players_lem ((j, p) ∷ ps) ws d k a = ground (
  arith,
  returning_players_lem ps ws d.1 k.1 a.1,
  lookup-returning_players j ps d.0,
  lookup-returning_spectators j ws a.0,
)

pub returning_spectators_lem :
    (ws : Spectators)
    → Distinct ws
    → Entries (λ k w. (w.id ≡ k) × (k ≢ [])) ws
    → Distinct (returning_spectators ws)
      × Entries (λ k w. (w.id ≡ k) × (k ≢ [])) (returning_spectators ws)
      × (length (returning_spectators ws) ≤ length ws)
unfolding returning_spectators
returning_spectators_lem [] d k = (tt, tt, omega arith)
returning_spectators_lem ((j, w) ∷ ws) d k =
    ground (arith, returning_spectators_lem ws d.1 k.1, lookup-returning_spectators j ws d.0)
