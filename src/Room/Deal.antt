-- ===== src/Room/Deal.antt =====
-- The deal at the start of a game: the loop of `applyStartGame` (internal/room/state.go) over the players.
use midnight_council.Base.{
  ℕ, suc, ◌≡◌, refl, ap, is_some, All, ◌∙◌, Bool, true, false, List, [], ◌∷◌, if◌then◌else◌, length,
  count_if, arith, Option, none, some,
}
use midnight_council.Base.Dict.{lookup, modify}
use midnight_council.Base.Dict.Laws.{Distinct, lookup-modify, modify-Distinct}
use midnight_council.Base.Sort.{insert_by, sort_by}
use midnight_council.Text.{GoString, str_Eq, str_eq_iff, str_lt}
use midnight_council.Room.Types.{Role, role_eq, role_Eq, Player}
use midnight_council.Room.Rules.Deck.{count_role}
use midnight_council.Room.State.{Players, sort_strings}
use midnight_council.Room.State.Night.{has}
use midnight_council.Room.State.Game.{take_role, deal}
use midnight_council.Room.Ids.{keys, Once, sort_strings-Once, keys-Once, has-keys-lookup}

-- How many of the given ids hold a role.
has_role : Role → Option Player → Bool
has_role r none = false
has_role r (some p) = role_eq p.role r

held : Role → Players → List GoString → ℕ
held r ps [] = 0
held r ps (id ∷ ids) =
    let rest = held r ps ids in if has_role r (lookup id ps) then suc rest else rest

deal_elsewhere :
    (id : GoString) (ids : List GoString) (roles : List Role) (ps : Players)
    → has id ids ≡ false
    → lookup id (deal ids roles ps) ≡ lookup id ps
unfolding deal has
deal_elsewhere id [] roles ps h = refl
deal_elsewhere id (j ∷ ids) [] ps h = refl
deal_elsewhere id (j ∷ ids) (r ∷ roles) ps h = ground (
  arith,
  str_eq_iff j id,
  lookup-modify j id (take_role r) ps,
  deal_elsewhere id ids roles (modify j (take_role r) ps),
)

-- Every id of the list sits at the table.
Present : Players → List GoString → Type 0
Present ps ids = All (λ id. is_some (lookup id ps) ≡ true) ids

modify-Present :
    (j : GoString) (f : Player → Player) (ps : Players) (ids : List GoString)
    → Present ps ids
    → Present (modify j f ps) ids
unfolding Present
modify-Present j f ps [] h = tt
modify-Present j f ps (id ∷ ids) h =
    (ground (arith, lookup-modify j id f ps, h.0), modify-Present j f ps ids h.1)

-- Dealing to ids that stand once each gives out every card.
deal-held :
    (r : Role) (ids : List GoString) (roles : List Role) (ps : Players)
    → Once ids
    → Present ps ids
    → length ids ≡ length roles
    → held r (deal ids roles ps) ids ≡ count_role r roles
unfolding Present held has_role deal
deal-held r [] [] ps once there same = refl
deal-held r [] (x ∷ xs) ps once there same = omega (arith, same)
deal-held r (id ∷ ids) [] ps once there same = omega (arith, same)
deal-held r (id ∷ ids) (x ∷ xs) ps once there same =
    let dealt = modify id (take_role x) ps in
    ground (
      arith,
      str_eq_iff id id,
      deal_elsewhere id ids xs dealt once.0,
      lookup-modify id id (take_role x) ps,
      there.0,
      deal-held r ids xs dealt once.1 (modify-Present id (take_role x) ps ids there.1),
    )

held-insert_by :
    (r : Role) (ps : Players) (x : GoString) (ys : List GoString)
    → held r ps (insert_by str_lt x ys) ≡ held r ps (x ∷ ys)
unfolding held insert_by
held-insert_by r ps x [] = refl
held-insert_by r ps x (y ∷ ys) = ground (arith, held-insert_by r ps x ys)

held-sort_strings :
    (r : Role) (ps : Players) (xs : List GoString) → held r ps (sort_strings xs) ≡ held r ps xs
unfolding held sort_strings sort_by
held-sort_strings r ps [] = refl
held-sort_strings r ps (x ∷ xs) =
    ground (arith, held-insert_by r ps x (sort_by str_lt xs), held-sort_strings r ps xs)

Present-insert_by :
    (ps : Players) (x : GoString) (ys : List GoString)
    → is_some (lookup x ps) ≡ true
    → Present ps ys
    → Present ps (insert_by str_lt x ys)
unfolding Present insert_by
Present-insert_by ps x [] h there = (h, tt)
Present-insert_by ps x (y ∷ ys) h there = ground (arith, Present-insert_by ps x ys h there.1)

Present-sort_strings :
    (ps : Players) (xs : List GoString) → Present ps xs → Present ps (sort_strings xs)
unfolding Present sort_strings sort_by
Present-sort_strings ps [] there = tt
Present-sort_strings ps (x ∷ xs) there =
    unfold Present in
    Present-insert_by ps x (sort_by str_lt xs) there.0 (Present-sort_strings ps xs there.1)

length-insert_by :
    (x : GoString) (ys : List GoString) → length (insert_by str_lt x ys) ≡ suc (length ys)
unfolding insert_by
length-insert_by x [] = refl
length-insert_by x (y ∷ ys) = ground (arith, length-insert_by x ys)

length-sort_strings : (xs : List GoString) → length (sort_strings xs) ≡ length xs
unfolding sort_strings sort_by
length-sort_strings [] = refl
length-sort_strings (x ∷ xs) =
    ground (arith, length-insert_by x (sort_by str_lt xs), length-sort_strings xs)

length-keys : (ps : Players) → length (keys ps) ≡ length ps
length-keys [] = refl
length-keys ((j, p) ∷ ps) = omega (arith, length-keys ps)

-- One more player, met by no id, changes no count and hides nobody.
held_beyond :
    (r : Role) (j : GoString) (p : Player) (ps : Players) (ids : List GoString)
    → has j ids ≡ false
    → held r ((j, p) ∷ ps) ids ≡ held r ps ids
unfolding held has lookup
held_beyond r j p ps [] h = refl
held_beyond r j p ps (id ∷ ids) h =
    ground (arith, str_eq_iff j id, str_eq_iff id j, held_beyond r j p ps ids)

Present-beyond :
    (j : GoString) (p : Player) (ps : Players) (ids : List GoString)
    → Present ps ids
    → Present ((j, p) ∷ ps) ids
unfolding Present lookup
Present-beyond j p ps [] h = tt
Present-beyond j p ps (id ∷ ids) h = (ground (arith, h.0), Present-beyond j p ps ids h.1)

keys-Present : (ps : Players) → Present ps (keys ps)
unfolding Present lookup
keys-Present [] = tt
keys-Present ((j, p) ∷ ps) =
    (ground (arith, str_eq_iff j j), Present-beyond j p ps (keys ps) (keys-Present ps))

-- How many players hold a role.
abbrev pub count_players : Role → Players → ℕ
count_players r = count_if (λ e. role_eq e.1.role r)

held-keys : (r : Role) (ps : Players) → Distinct ps → held r ps (keys ps) ≡ count_players r ps
unfolding held has_role lookup
held-keys r [] d = refl
held-keys r ((j, p) ∷ ps) d = ground (
  arith,
  str_eq_iff j j,
  held_beyond r j p ps (keys ps) (has-keys-lookup j ps d.0),
  held-keys r ps d.1,
)

keys-modify : (j : GoString) (f : Player → Player) (ps : Players) → keys (modify j f ps) ≡ keys ps
unfolding modify
keys-modify j f [] = refl
keys-modify j f ((i, p) ∷ ps) = ground (arith, keys-modify j f ps)

deal_frame :
    (ids : List GoString) (roles : List Role) (ps : Players)
    → Distinct ps
    → (keys (deal ids roles ps) ≡ keys ps) × Distinct (deal ids roles ps)
unfolding deal
deal_frame [] roles ps d = (refl, d)
deal_frame (id ∷ ids) [] ps d = (refl, d)
deal_frame (id ∷ ids) (r ∷ roles) ps d =
    let rest =
      deal_frame ids roles (modify id (take_role r) ps) (modify-Distinct id (take_role r) ps d) in
    (rest.0 ∙ keys-modify id (take_role r) ps, rest.1)

-- Cards dealt to the sorted ids of a table are held by as many players as there are cards of a role.
pub deal_lem :
    (r : Role) (roles : List Role) (ps : Players)
    → Distinct ps
    → length roles ≡ length ps
    → count_players r (deal (sort_strings (keys ps)) roles ps) ≡ count_role r roles
deal_lem r roles ps d same =
    let ids = sort_strings (keys ps) in
    let dealt = deal ids roles ps in
    let f = deal_frame ids roles ps d in
    omega (
      arith,
      held-keys r dealt f.1,
      ap (held r dealt) f.0,
      held-sort_strings r dealt (keys ps),
      length-sort_strings (keys ps),
      length-keys ps,
      deal-held r ids roles ps (sort_strings-Once (keys ps) (keys-Once ps d))
          (Present-sort_strings ps (keys ps) (keys-Present ps)),
    )
