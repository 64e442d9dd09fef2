-- ===== src/Room/Plurality.antt =====
-- The count of a vote (`resolveVote` and `topVoteTarget` of internal/room/state.go) against its
-- specification: more ballots than anybody else.
use midnight_council.Base.Dict.Laws.{lookup-modify, lookup-Entries}
use midnight_council.Room.State.Vote.{
  execute, Votes, tally, tally_of, Top, top_step, top_loop, no_top, top_vote_target, execute_target,
  execution,
}
use midnight_council.Room.State.{append_log, State, Players, sort_strings, is_living}
use midnight_council.Base.{
  ◌<◌, ◌≤◌, ◌≡◌, ◌≢◌, refl, ap, ◌↔◌, ◌∙◌, inl, inr, true, false, List, [], ◌∷◌, arith, some,
  Bool-cases, Option-cases,
}
use midnight_council.Base.Dict.{lookup}
use midnight_council.Room.Invariant.SameSeats.{IsKeyed}
use midnight_council.Text.{GoString, str_eq, str_Eq, str_eq_iff}
use midnight_council.Room.Types.{Time, Player}
use midnight_council.Room.Ids.{keys, has-sort_strings, Once, sort_strings-Once, keys-Once}
use midnight_council.Room.State.Night.{has}
use midnight_council.Room.Tally.{
  votes_for, Tallies, has-keys, tally-Distinct, blank_untallied, counted,
}

module _ (t : Tallies) where
  -- `y` is counted no higher than the top, and lower unless it is the top or tied.
  abbrev IsBelow : GoString → Top → Type 0
  IsBelow y top =
      (tally_of y t ≤ top.count) × (top.tied ≡ false → y ≢ top.target → tally_of y t < top.count)

  step-IsBelow :
      (y id : GoString) (top : Top) → IsBelow y top → IsBelow y (top_step id (tally_of id t) top)
  unfolding top_step
  step-IsBelow y id top h = ground arith

  step_self : (id : GoString) (top : Top) → IsBelow id (top_step id (tally_of id t) top)
  unfolding top_step
  step_self id top = ground arith

  loop-IsBelow :
      (y : GoString) (ids : List GoString) (top : Top)
      → IsBelow y top
      → IsBelow y (top_loop t ids top)
  unfolding top_loop
  loop-IsBelow y [] top h = h
  loop-IsBelow y (id ∷ ids) top h = loop-IsBelow y ids _ (step-IsBelow y id top h)

  loop_covers :
      (y : GoString) (ids : List GoString) (top : Top)
      → has y ids ≡ true
      → IsBelow y (top_loop t ids top)
  unfolding top_loop has
  loop_covers y [] top h = cc
  loop_covers y (id ∷ ids) top h = elim (Bool-cases (str_eq id y)) [
    | inl same ↦ loop-IsBelow y ids _ (rw (← (str_eq_iff id y).0 same) (step_self id top))
    | inr other ↦ loop_covers y ids _ (rw other at h)
  ]

  -- The count at the top is that of the target.
  abbrev IsCounted : Top → Type 0
  IsCounted top =
      top.target ≢ [] → (top.count ≡ tally_of top.target t) × (0 < tally_of top.target t)

  loop-IsCounted :
      (ids : List GoString) (top : Top) → IsCounted top → IsCounted (top_loop t ids top)
  unfolding top_loop
  loop-IsCounted [] top h = h
  loop-IsCounted (id ∷ ids) top h = loop-IsCounted ids _ (unfold top_step in ground arith)

  -- A target that leads everybody else, and the top once it has been met.
  abbrev Leads : GoString → Type 0
  Leads x = (0 < tally_of x t) × ((y : GoString) → y ≢ x → tally_of y t < tally_of x t)

  abbrev lead_of : GoString → Top
  lead_of x = record { target = x; count = tally_of x t; tied = false }

  loop_keeps :
      (x : GoString) (ids : List GoString)
      → Leads x
      → has x ids ≡ false
      → top_loop t ids (lead_of x) ≡ lead_of x
  unfolding top_loop has top_step
  loop_keeps x [] l h = refl
  loop_keeps x (id ∷ ids) l h = ground (arith, str_eq_iff id x, l.1 id, loop_keeps x ids l)

  loop_finds :
      (x : GoString) (ids : List GoString) (top : Top)
      → Leads x
      → Once ids
      → has x ids ≡ true
      → top.count < tally_of x t
      → top_loop t ids top ≡ lead_of x
  unfolding top_loop has top_step
  loop_finds x [] top l o h b = cc
  loop_finds x (id ∷ ids) top l o h b = ground (
    arith,
    str_eq_iff id x,
    l.1 id,
    loop_keeps x ids l,
    loop_finds x ids (top_step id (tally_of id t) top) l o.1,
  )

-- More ballots name `x` than anybody else.
abbrev pub HasPlurality : GoString → Votes → Type 0
HasPlurality x votes =
    (0 < votes_for x votes)
    × ((y : GoString) → y ≢ [] → y ≢ x → votes_for y votes < votes_for x votes)

lead_over :
    (x y : GoString) (votes : Votes)
    → x ≢ []
    → y ≢ x
    → HasPlurality x votes
    → tally_of y (tally votes []) < tally_of x (tally votes [])
unfolding tally_of lookup
lead_over x y votes given other h = elim (Bool-cases (str_eq y [])) [
  | inl blank ↦
      ground (arith, str_eq_iff y [], blank_untallied votes [] refl, counted x votes given, h.0)
  | inr shown ↦ ground (arith, str_eq_iff y [], counted x votes given, counted y votes, h.1 y)
]

plurality-Leads :
    (x : GoString) (votes : Votes) → x ≢ [] → HasPlurality x votes → Leads (tally votes []) x
plurality-Leads x votes given h =
    (omega (arith, counted x votes given, h.0), λ y other. lead_over x y votes given other h)

-- The count elects whoever has the plurality,
plurality-top :
    (x : GoString) (votes : Votes)
    → x ≢ []
    → HasPlurality x votes
    → top_vote_target (tally votes []) ≡ (x, false)
unfolding top_vote_target
plurality-top x votes given h =
    let t = tally votes [] in
    let l = plurality-Leads x votes given h in
    ap (λ top. (top.target, top.tied))
      (loop_finds t x (sort_strings (keys t)) no_top l
        (sort_strings-Once (keys t) (keys-Once t (tally-Distinct votes [] tt)))
        (has-sort_strings x (keys t) ∙ has-keys x t l.0) l.0)

-- and whoever it elects has the plurality.
top-plurality :
    (x : GoString) (votes : Votes)
    → x ≢ []
    → top_vote_target (tally votes []) ≡ (x, false)
    → HasPlurality x votes
unfolding top_vote_target
top-plurality x votes given h =
    let t = tally votes [] in
    let top = top_loop t (sort_strings (keys t)) no_top in
    let c = loop-IsCounted t (sort_strings (keys t)) no_top (λ n. absurd (n refl)) in
    (
      ground (arith, counted x votes given, c, h),
      λ y shown other. ground (
        arith,
        counted x votes given,
        counted y votes shown,
        c,
        h,
        has-keys y t,
        has-sort_strings y (keys t),
        loop_covers t y (sort_strings (keys t)) no_top,
      ),
    )

keyed_by :
    (id : GoString) (p : Player) (ps : Players) → IsKeyed ps → lookup id ps ≡ some p → p.id ≡ id
keyed_by id p ps keyed found = (lookup-Entries (λ k p. (p.id ≡ k) × (k ≢ [])) id p ps keyed found).0

executed :
    (at : Time) (s : State) (x : GoString)
    → IsKeyed s.players
    → x ≢ []
    → (execution at s).1 ≡ x
    → top_vote_target (tally s.votes []) ≡ (x, false)
unfolding execution execute_target
executed at s x keyed given h =
    let (target_id, tied) = top_vote_target (tally s.votes []) in
    elim (Option-cases (lookup target_id s.players)) [
      | inl none_there ↦ ground arith
      | inr (p, found) ↦
          ground (arith, str_eq_iff target_id [], keyed_by target_id p s.players keyed found)
    ]

execution_target :
    (at : Time) (s : State) (x : GoString)
    → IsKeyed s.players
    → x ≢ []
    → is_living s.players x ≡ true
    → ((execution at s).1 ≡ x) ↔ HasPlurality x s.votes
unfolding execution execute_target is_living
execution_target at s x keyed given living = (
  λ h. top-plurality x s.votes given (executed at s x keyed given h),
  λ h. elim (Option-cases (lookup x s.players)) [
    | inl nobody ↦ ground arith
    | inr (p, found) ↦ ground (
      arith,
      plurality-top x s.votes given h,
      str_eq_iff x [],
      keyed_by x p s.players keyed found,
    )
  ],
)

-- Who was alive is dead after the count only as the one it names.
execution_dead :
    (at : Time) (s : State) (x : GoString)
    → IsKeyed s.players
    → x ≢ []
    → is_living s.players x ≡ true
    → (is_living (execution at s).0.players x ≡ false) ↔ ((execution at s).1 ≡ x)
unfolding execution execute_target is_living append_log
execution_dead at s x keyed given living =
    let (target_id, tied) = top_vote_target (tally s.votes []) in
    elim (Option-cases (lookup target_id s.players)) [
      | inl none_there ↦ ground arith
      | inr (p, found) ↦ ground (
        arith,
        str_eq_iff target_id x,
        str_eq_iff target_id [],
        keyed_by target_id p s.players keyed found,
        lookup-modify target_id x execute s.players,
      )
    ]

-- In a room whose players sit under their own ids, a player who is alive before the count of a vote is
-- dead after it exactly when more ballots name that player than anybody else, and then is the one whom
-- the count names.
pub execution_lem :
    (at : Time) (s : State) (x : GoString)
    → IsKeyed s.players
    → x ≢ []
    → is_living s.players x ≡ true
    → ((is_living (execution at s).0.players x ≡ false) ↔ HasPlurality x s.votes)
      × (((execution at s).1 ≡ x) ↔ HasPlurality x s.votes)
execution_lem at s x keyed given living =
    let dead = execution_dead at s x keyed given living in
    let named = execution_target at s x keyed given living in
    ((λ h. named.0 (dead.0 h), λ h. dead.1 (named.1 h)), named)
