-- ===== src/Room/Invariant/Occupancy.antt =====
-- The seats of a room through each step of internal/room/state.go.
use midnight_council.Base.{ℕ, ℤ, pos, int_lt, ◌≡◌, ◌≢◌, refl, ◌∙◌, true, [], arith, none, length}
use midnight_council.Base.Dict.{lookup, insert, erase, modify}
use midnight_council.Base.Dict.Laws.{
  insert-Distinct, modify-Distinct, erase-Distinct, length-insert, length-modify, length-erase,
  lookup-modify, insert-Entries, modify-Entries, erase-Entries,
}
use midnight_council.Text.{GoString, str_Eq}
use midnight_council.Room.Types.{Player, Spectator}
use midnight_council.Room.Host.{Host}
use midnight_council.Room.Event.{Event}
use midnight_council.Room.State.{State, Players, touch, append_log, enter_phase}
use midnight_council.Room.State.Seats.{ensure_connected_owner, remove_player}
use midnight_council.Room.State.Admin.{
  kick_player, use_settings, returning_players, returning_spectators, return_to_waiting_room,
}
use midnight_council.Room.State.Apply.{
  apply, record_client_sequence, set_sequence, set_spectator_sequence,
}
use midnight_council.Room.Frame.{ensure_connected_owner_frame}
use midnight_council.Room.Invariant.{IsCoherent}
use midnight_council.Room.Invariant.SameSeats.{modify-SameSeats, clear_readiness-SameSeats}
use midnight_council.Room.Invariant.SameTable.{
  resolve_night-SameTable, resolve_vote-SameTable, complete_last_words-SameTable,
  start_voting-SameTable, submit-SameTable, cast_vote-SameTable, begin_game-SameTable,
  shoot-SameTable,
}
use midnight_council.Room.Invariant.Seats.{Spectators, Seats, IsSeated, SameTable-IsSeated}
use midnight_council.Room.Settings
use midnight_council.Room.Timing
use midnight_council.Room.Moves.Dispatch.{apply_rule}
use midnight_council.Room.Moves.{
  Move, timed_out, stay, refresh, edit_player, reown_player, edit_spectator, seat_player,
  seat_spectator, unseat_player, unseat_spectator, begin, submit, open_vote, ballot, fired,
  hand_over, kick, lock, limit, configure, return, night_ends, talk_ends, vote_ends, words_end,
}
use midnight_council.Room.Invariant.Seating.{
  named, apart_mono, apart-insert, erase-none, returning_players_lem, returning_spectators_lem,
}

module _ (ps : Players) (ws : Spectators) (m n : ℤ) (i : Seats ps ws m n) where
  sit_player-Seats :
      (id : GoString) (p : Player)
      → p.id ≡ id
      → id ≢ []
      → lookup id ws ≡ none
      → int_lt (pos (length ps)) m ≡ true
      → Seats (insert id p ps) ws m n
  sit_player-Seats id p same given apart free = record {
    distinct = insert-Distinct id p ps i.distinct;
    keyed = insert-Entries (λ k p. (p.id ≡ k) × (k ≢ [])) id p ps (same, given) i.keyed;
    spectators_distinct = i.spectators_distinct;
    spectators_keyed = i.spectators_keyed;
    apart = insert-Entries (λ k p. lookup k ws ≡ none) id p ps apart i.apart;
    fits = ground (arith, length-insert id p ps);
    spectators_fit = i.spectators_fit;
    lower = i.lower;
    upper = i.upper;
  }

  sit_spectator-Seats :
      (id : GoString) (w : Spectator)
      → w.id ≡ id
      → id ≢ []
      → lookup id ps ≡ none
      → int_lt (pos (length ws)) n ≡ true
      → Seats ps (insert id w ws) m n
  sit_spectator-Seats id w same given apart free = record {
    distinct = i.distinct;
    keyed = i.keyed;
    spectators_distinct = insert-Distinct id w ws i.spectators_distinct;
    spectators_keyed =
        insert-Entries (λ k w. (w.id ≡ k) × (k ≢ [])) id w ws (same, given) i.spectators_keyed;
    apart = apart-insert id w ws ps apart i.apart;
    fits = i.fits;
    spectators_fit = ground (arith, length-insert id w ws);
    lower = i.lower;
    upper = i.upper;
  }

  edit_spectator-Seats :
      (id : GoString) (f : Spectator → Spectator)
      → ((w : Spectator) → (f w).id ≡ w.id)
      → Seats ps (modify id f ws) m n
  edit_spectator-Seats id f same = record {
    distinct = i.distinct;
    keyed = i.keyed;
    spectators_distinct = modify-Distinct id f ws i.spectators_distinct;
    spectators_keyed =
        modify-Entries (λ k w. (w.id ≡ k) × (k ≢ [])) id f ws (λ k w h. (same w ∙ h.0, h.1))
          i.spectators_keyed;
    apart = apart_mono ws _ (λ k h. ground (arith, lookup-modify id k f ws)) ps i.apart;
    fits = i.fits;
    spectators_fit = rw (length-modify id f ws) i.spectators_fit;
    lower = i.lower;
    upper = i.upper;
  }

  remove_spectator-Seats : (id : GoString) → Seats ps (erase id ws) m n
  remove_spectator-Seats id = record {
    distinct = i.distinct;
    keyed = i.keyed;
    spectators_distinct = erase-Distinct id ws i.spectators_distinct;
    spectators_keyed = erase-Entries (λ k w. (w.id ≡ k) × (k ≢ [])) id ws i.spectators_keyed;
    apart = apart_mono ws _ (λ k h. erase-none id k ws h) ps i.apart;
    fits = i.fits;
    spectators_fit = omega (arith, i.spectators_fit, length-erase id ws);
    lower = i.lower;
    upper = i.upper;
  }

  remove_player-Seats : (id : GoString) → Seats (erase id ps) ws m n
  remove_player-Seats id = record {
    distinct = erase-Distinct id ps i.distinct;
    keyed = erase-Entries (λ k p. (p.id ≡ k) × (k ≢ [])) id ps i.keyed;
    spectators_distinct = i.spectators_distinct;
    spectators_keyed = i.spectators_keyed;
    apart = erase-Entries (λ k p. lookup k ws ≡ none) id ps i.apart;
    fits = omega (arith, i.fits, length-erase id ps);
    spectators_fit = i.spectators_fit;
    lower = i.lower;
    upper = i.upper;
  }

  return-Seats : Seats (returning_players ps) (returning_spectators ws) m n
  return-Seats =
      let (d, k, a, l) = returning_players_lem ps ws i.distinct i.keyed i.apart in
      let (d', k', l') = returning_spectators_lem ws i.spectators_distinct i.spectators_keyed in
      record {
        distinct = d;
        keyed = k;
        spectators_distinct = d';
        spectators_keyed = k';
        apart = a;
        fits = omega (arith, i.fits);
        spectators_fit = omega (arith, i.spectators_fit);
        lower = i.lower;
        upper = i.upper;
      }

edit_players-IsSeated :
    (s : State) (id : GoString) (f : Player → Player)
    → ((p : Player) → (f p).id ≡ p.id)
    → IsSeated s
    → IsSeated (record s { players = modify id f s.players })
edit_players-IsSeated s id f same i =
    SameTable-IsSeated {s = s} {t = record s { players = modify id f s.players }}
      (record {
        seats = modify-SameSeats f same id s.players;
        same_spectators = refl;
        same_max = refl;
        same_max_spectators = refl;
      })
      i

reown-IsSeated : (s : State) → IsSeated s → IsSeated (ensure_connected_owner s)
reown-IsSeated s i = rw (ensure_connected_owner_frame s) i

configure-IsSeated :
    (g : Settings.GameSettings) (d : Timing.PhaseDurations) (s : State)
    → IsSeated s
    → IsSeated (use_settings g d s)
unfolding use_settings
configure-IsSeated g d s i =
    SameTable-IsSeated {s = s} {t = use_settings g d s}
      (record {
        seats = clear_readiness-SameSeats s.owner_id s.players;
        same_spectators = refl;
        same_max = refl;
        same_max_spectators = refl;
      })
      i

return-IsSeated : (e : Event) (s : State) → IsSeated s → IsSeated (return_to_waiting_room e s)
unfolding return_to_waiting_room enter_phase
return-IsSeated e s i =
    let kept = record s {
      players = returning_players s.players;
      spectators = returning_spectators s.spectators;
    } in
    reown-IsSeated kept (return-Seats s.players s.spectators s.max_players s.max_spectators i)

-- Every step keeps the seats.
pub Move-IsSeated : {h : Host} {e : Event} {s t : State} → Move h e s t → IsSeated s → IsSeated t
unfolding touch append_log
Move-IsSeated stay i = i
Move-IsSeated refresh i = i
Move-IsSeated {s = s} (edit_player id f k) i = edit_players-IsSeated s id f k.same_id i
Move-IsSeated {s = s} (reown_player id f k) i =
    reown-IsSeated (record s { players = modify id f s.players })
      (edit_players-IsSeated s id f k.same_id i)
Move-IsSeated {s = s} (edit_spectator id f k) i =
    edit_spectator-Seats s.players s.spectators s.max_players s.max_spectators i id f k
Move-IsSeated {e = e} {s = s} (seat_player id name token r _ apart _ _ free) i =
    sit_player-Seats s.players s.spectators s.max_players s.max_spectators i id _ refl
      (named e.player_id e.player_name id name r) apart free
Move-IsSeated {e = e} {s = s} (seat_spectator id name token r apart _ _ free) i =
    sit_spectator-Seats s.players s.spectators s.max_players s.max_spectators i id _ refl
      (named e.player_id e.player_name id name r) apart free
Move-IsSeated {e = e} {s = s} (unseat_player _ _ _) i =
    unfold remove_player in
    ground (
      arith,
      remove_player-Seats s.players s.spectators s.max_players s.max_spectators i e.player_id,
    )
Move-IsSeated {s = s} (unseat_spectator id) i =
    remove_spectator-Seats s.players s.spectators s.max_players s.max_spectators i id
Move-IsSeated {e = e} {s = s} (begin d roles _ _ _ _ _) i =
    SameTable-IsSeated (begin_game-SameTable d roles e s) i
Move-IsSeated {e = e} {s = s} (submit p _ _ _ _ _ _) i =
    SameTable-IsSeated (submit-SameTable e.at _ s) i
Move-IsSeated {e = e} {s = s} (open_vote _ _) i =
    SameTable-IsSeated (start_voting-SameTable e.at e.player_id s) i
Move-IsSeated {e = e} {s = s} (ballot p target _ _) i =
    SameTable-IsSeated (cast_vote-SameTable e.at p.id target s) i
Move-IsSeated {e = e} {s = s} (fired p q _ _ _ _ _ _) i =
    SameTable-IsSeated (shoot-SameTable e.at e p q s) i
Move-IsSeated (hand_over _ _ _ _) i = i
Move-IsSeated {s = s} (kick id _ _ _ _ _) i =
    unfold kick_player in
    remove_player-Seats s.players s.spectators s.max_players s.max_spectators i id
Move-IsSeated (lock _) i = i
Move-IsSeated {e = e} {s = s} (limit _ _ low high now _) i = record {
  distinct = i.distinct;
  keyed = i.keyed;
  spectators_distinct = i.spectators_distinct;
  spectators_keyed = i.spectators_keyed;
  apart = i.apart;
  fits = ground arith;
  spectators_fit = i.spectators_fit;
  lower = ground arith;
  upper = ground arith;
}
Move-IsSeated {s = s} (configure g d _ _ _) i = configure-IsSeated g d s i
Move-IsSeated {e = e} {s = s} (return _ _) i = return-IsSeated e s i
Move-IsSeated {e = e} {s = s} (night_ends _ _) i =
    SameTable-IsSeated (resolve_night-SameTable e.at _) i
Move-IsSeated {e = e} {s = s} (talk_ends _ _) i =
    SameTable-IsSeated (start_voting-SameTable e.at [] (timed_out e s)) i
Move-IsSeated {e = e} {s = s} (vote_ends _ _) i =
    SameTable-IsSeated (resolve_vote-SameTable e.at _) i
Move-IsSeated {e = e} {s = s} (words_end _ _) i =
    SameTable-IsSeated (complete_last_words-SameTable e.at (timed_out e s)) i

sequence-IsSeated :
    (id : GoString) (n : ℕ) (s : State) → IsSeated s → IsSeated (record_client_sequence id n s)
unfolding record_client_sequence
sequence-IsSeated id n s i = ground (
  arith,
  edit_players-IsSeated s id (set_sequence n) (λ p. refl) i,
  edit_spectator-Seats s.players s.spectators s.max_players s.max_spectators i id
      (set_spectator_sequence n) (λ w. refl),
)

pub apply-IsSeated :
    (h : Host) (s : State) (e : Event) → IsCoherent s → IsSeated s → IsSeated (apply h s e).0
apply-IsSeated h s e c i =
    apply_rule IsSeated h s e c.idle (λ t m. Move-IsSeated m i) sequence-IsSeated
