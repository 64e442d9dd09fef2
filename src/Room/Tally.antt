-- ===== src/Room/Tally.antt =====
-- The tallies of a vote (`resolveVote` of internal/room/state.go) against the ballots they count.
use midnight_council.Base.{ℕ, suc, ◌+◌, ◌<◌, ◌≡◌, ◌≢◌, true, List, [], ◌∷◌, arith, if◌then◌else◌}
use midnight_council.Base.Dict.{lookup, insert}
use midnight_council.Base.Dict.Laws.{lookup-insert, Distinct, insert-Distinct}
use midnight_council.Text.{GoString, str_eq, str_Eq, str_eq_iff}
use midnight_council.Room.Ids.{keys}
use midnight_council.Room.State.Night.{has}
use midnight_council.Room.State.Vote.{Votes, tally, tally_of}

-- How many ballots name a target.
abbrev pub votes_for : GoString → Votes → ℕ
votes_for id [] = 0
votes_for id ((voter, target) ∷ rest) =
    let counted = votes_for id rest in if str_eq target id then suc counted else counted

abbrev pub Tallies : Type 0
Tallies = List (GoString × ℕ)

pub tally_of-insert :
    (k j : GoString) (n : ℕ) (t : Tallies)
    → tally_of j (insert k n t) ≡ (if str_eq k j then n else tally_of j t)
unfolding tally_of
tally_of-insert k j n t = ground (arith, lookup-insert k j n t)

-- The tallies count the ballots.
pub tally_lem :
    (id : GoString) (votes : Votes) (t : Tallies)
    → id ≢ []
    → tally_of id (tally votes t) ≡ votes_for id votes + tally_of id t
unfolding tally
tally_lem id [] t given = omega arith
tally_lem id ((voter, target) ∷ rest) t given = ground (
  arith,
  str_eq_iff target id,
  str_eq_iff target [],
  tally_of-insert target id (tally_of target t + 1) t,
  tally_lem id rest t given,
  tally_lem id rest (insert target (tally_of target t + 1) t) given,
)

-- Who is counted stands in the list of keys.
pub has-keys : (id : GoString) (t : Tallies) → 0 < tally_of id t → has id (keys t) ≡ true
unfolding tally_of lookup has
has-keys id [] h = ground arith
has-keys id ((j, n) ∷ t) h = ground (arith, has-keys id t)

pub tally-Distinct : (votes : Votes) (t : Tallies) → Distinct t → Distinct (tally votes t)
unfolding tally
tally-Distinct [] t d = d
tally-Distinct ((voter, target) ∷ rest) t d =
    tally-Distinct rest _ (ground (arith, insert-Distinct target (tally_of target t + 1) t d))

pub blank_untallied :
    (votes : Votes) (t : Tallies) → tally_of [] t ≡ 0 → tally_of [] (tally votes t) ≡ 0
unfolding tally
blank_untallied [] t h = h
blank_untallied ((voter, target) ∷ rest) t h = ground (
  arith,
  str_eq_iff target [],
  tally_of-insert target [] (tally_of target t + 1) t,
  blank_untallied rest t,
  blank_untallied rest (insert target (tally_of target t + 1) t),
)

pub counted :
    (id : GoString) (votes : Votes) → id ≢ [] → tally_of id (tally votes []) ≡ votes_for id votes
unfolding tally_of lookup
counted id votes given = omega (arith, tally_lem id votes [] given)
