-- ===== src/Room/Invariant/Seats.antt =====
-- Who sits where, and how many: the keys and limits of the seats in internal/room/state.go.
use midnight_council.Base.{ℤ, pos, ◌≤ℤ◌, ◌≡◌, ◌≢◌, List, [], arith, none, length}
use midnight_council.Base.Dict.{lookup}
use midnight_council.Base.Dict.Laws.{Distinct, Entries}
use midnight_council.Text.{GoString, str_Eq}
use midnight_council.Room.Types.{Spectator}
use midnight_council.Room.State.{State, Players}
use midnight_council.Room.Settings.{min_players_to_start, max_players_allowed}
use midnight_council.Room.Invariant.SameSeats.{
  SameSeats-Distinct, SameSeats-IsKeyed, SameSeats-Entries-lookup, SameSeats-length, IsKeyed,
}
use midnight_council.Room.Invariant.SameTable.{SameTable}

abbrev pub Spectators : Type 0
Spectators = List (GoString × Spectator)

pub record Seats (ps : Players) (ws : Spectators) (max_players max_spectators : ℤ) : Type 0 where
  pub distinct : Distinct ps
  pub keyed : IsKeyed ps
  pub spectators_distinct : Distinct ws
  pub spectators_keyed : Entries (λ k w. (w.id ≡ k) × (k ≢ [])) ws
  pub apart : Entries (λ k p. lookup k ws ≡ none) ps
  pub fits : pos (length ps) ≤ℤ max_players
  pub spectators_fit : pos (length ws) ≤ℤ max_spectators
  pub lower : pos min_players_to_start ≤ℤ max_players
  pub upper : max_players ≤ℤ pos max_players_allowed

-- Players and watchers sit under their own ids, nobody twice, and within the limits of the room.
abbrev pub IsSeated : State → Type 0
IsSeated s = Seats s.players s.spectators s.max_players s.max_spectators

pub SameTable-IsSeated : {s t : State} → SameTable s t → IsSeated s → IsSeated t
SameTable-IsSeated {s} {t} e i =
    rw (e.same_spectators, e.same_max, e.same_max_spectators)
      (record {
        distinct = SameSeats-Distinct s.players t.players e.seats i.distinct;
        keyed = SameSeats-IsKeyed s.players t.players e.seats i.keyed;
        spectators_distinct = i.spectators_distinct;
        spectators_keyed = i.spectators_keyed;
        apart = SameSeats-Entries-lookup s.players t.players s.spectators e.seats i.apart;
        fits = omega (arith, i.fits, SameSeats-length s.players t.players e.seats);
        spectators_fit = i.spectators_fit;
        lower = i.lower;
        upper = i.upper;
      })
