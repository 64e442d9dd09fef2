-- ===== src/Room/Ids.antt =====
-- Lists of ids, as the loops of internal/room/state.go run over the keys of a map in sorted order.
use midnight_council.Base.{◌≡◌, refl, ◌∙◌, false, ◌||◌, List, [], ◌∷◌, none, map, arith}
use midnight_council.Base.Dict.{lookup}
use midnight_council.Base.Dict.Laws.{Distinct}
use midnight_council.Base.Sort.{insert_by, sort_by}
use midnight_council.Text.{GoString, str_eq, str_Eq, str_eq_iff, str_lt}
use midnight_council.Room.State.{sort_strings}
use midnight_council.Room.State.Night.{has}

abbrev pub keys {ℓ} : {V : Type ℓ} → List (GoString × V) → List GoString
keys = map (λ e. e.0)

pub has-insert_by :
    (id x : GoString) (ys : List GoString)
    → has id (insert_by str_lt x ys) ≡ (str_eq x id || has id ys)
unfolding has insert_by
has-insert_by id x [] = refl
has-insert_by id x (y ∷ ys) = ground (arith, has-insert_by id x ys)

pub has-sort_strings : (id : GoString) (xs : List GoString) → has id (sort_strings xs) ≡ has id xs
unfolding has sort_strings sort_by
has-sort_strings id [] = refl
has-sort_strings id (x ∷ xs) =
    ground (arith, has-insert_by id x (sort_by str_lt xs), has-sort_strings id xs)

-- No id stands twice.
abbrev pub Once : List GoString → Type 0
Once [] = Unit
Once (x ∷ xs) = (has x xs ≡ false) × Once xs

insert_by-Once :
    (x : GoString) (ys : List GoString) → has x ys ≡ false → Once ys → Once (insert_by str_lt x ys)
unfolding has insert_by
insert_by-Once x [] h o = (refl, tt)
insert_by-Once x (y ∷ ys) h o =
    ground (arith, str_eq_iff x y, str_eq_iff y x, has-insert_by y x ys, insert_by-Once x ys)

pub sort_strings-Once : (xs : List GoString) → Once xs → Once (sort_strings xs)
unfolding sort_strings sort_by
sort_strings-Once [] o = tt
sort_strings-Once (x ∷ xs) o =
    insert_by-Once x (sort_by str_lt xs) (unfold sort_strings in has-sort_strings x xs ∙ o.0)
      (sort_strings-Once xs o.1)

pub has-keys-lookup {ℓ} :
    {V : Type ℓ} (id : GoString) (t : List (GoString × V))
    → lookup id t ≡ none
    → has id (keys t) ≡ false
unfolding lookup has
has-keys-lookup id [] h = refl
has-keys-lookup id ((j, n) ∷ t) h = ground (arith, has-keys-lookup id t)

pub keys-Once {ℓ} : {V : Type ℓ} (t : List (GoString × V)) → Distinct t → Once (keys t)
keys-Once [] d = tt
keys-Once ((j, n) ∷ t) d = (has-keys-lookup j t d.0, keys-Once t d.1)
