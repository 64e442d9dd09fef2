-- ===== src/Room/Shuffle.antt =====
-- `shuffleRoles` of internal/room/state.go: the cards of the deck under a shuffle.
use midnight_council.Base.{
  ℕ, zero, suc, ◌+◌, ◌-◌, ◌<◌, ◌≡◌, refl, true, List, [], ◌∷◌, if◌then◌else◌, length, arith,
  Option-cases, inl, inr, some, get_elem?, set,
}
use midnight_council.Text.{str_Eq}
use midnight_council.Room.Types.{Role, role_eq, role_Eq}
use midnight_council.Room.Errors.{ok}
use midnight_council.Room.Host.{Host}
use midnight_council.Room.Rules.Deck.{count_role}
use midnight_council.Room.State.Game.{swap, shuffle_from, shuffle_roles}

get-count :
    (r a : Role) (i : ℕ) (xs : List Role)
    → get_elem? xs i ≡ some a
    → role_eq a r ≡ true
    → 0 < count_role r xs
get-count r a i [] h e = cc
get-count r a zero (x ∷ xs) h e = ground arith
get-count r a (suc i) (x ∷ xs) h e = ground (arith, get-count r a i xs h e)

-- A write replaces one card by another.
set-count :
    (r a b : Role) (i : ℕ) (xs : List Role)
    → get_elem? xs i ≡ some a
    → count_role r (set xs i b) + (if role_eq a r then 1 else 0)
      ≡ count_role r xs + (if role_eq b r then 1 else 0)
set-count r a b i [] h = cc
set-count r a b zero (x ∷ xs) h = ground arith
set-count r a b (suc i) (x ∷ xs) h = ground (arith, set-count r a b i xs h)

get-set :
    (i j : ℕ) (b : Role) (xs : List Role)
    → get_elem? xs j ≡ some b
    → get_elem? (set xs i b) j ≡ some b
get-set i j b [] h = h
get-set zero zero b (x ∷ xs) h = refl
get-set zero (suc j) b (x ∷ xs) h = h
get-set (suc i) zero b (x ∷ xs) h = h
get-set (suc i) (suc j) b (x ∷ xs) h = get-set i j b xs h

swap-count : (r : Role) (i j : ℕ) (xs : List Role) → count_role r (swap i j xs) ≡ count_role r xs
unfolding swap
swap-count r i j xs = elim (Option-cases (get_elem? xs i)) [
  | inl out ↦ ground arith
  | inr (a, at_i) ↦ elim (Option-cases (get_elem? xs j)) [
    | inl out ↦ ground arith
    | inr (b, at_j) ↦
        ground
          (arith, set-count r a b i xs at_i, set-count r b a j (set xs i b) (get-set i j b xs at_j))
  ]
]

length-set {ℓ} : {A : Type ℓ} (i : ℕ) (b : A) (xs : List A) → length (set xs i b) ≡ length xs
length-set i b [] = refl
length-set zero b (x ∷ xs) = refl
length-set (suc i) b (x ∷ xs) = omega (arith, length-set i b xs)

length-swap : (i j : ℕ) (xs : List Role) → length (swap i j xs) ≡ length xs
unfolding swap
length-swap i j xs = elim (Option-cases (get_elem? xs i)) [
  | inl out ↦ ground arith
  | inr (a, at_i) ↦ elim (Option-cases (get_elem? xs j)) [
    | inl out ↦ ground arith
    | inr (b, at_j) ↦ ground (arith, length-set i b xs, length-set j a (set xs i b))
  ]
]

shuffle_from_lem :
    (h : Host) (i : ℕ) (xs ys : List Role) (r : Role)
    → shuffle_from h i xs ≡ ok ys
    → (count_role r ys ≡ count_role r xs) × (length ys ≡ length xs)
unfolding shuffle_from
shuffle_from_lem h zero xs ys r e = ground arith
shuffle_from_lem h (suc i) xs ys r e = elim (Option-cases (h.draw (suc i + 1))) [
  | inl dry ↦ ground arith
  | inr (j, drawn) ↦ ground (
    arith,
    swap-count r (suc i) j xs,
    length-swap (suc i) j xs,
    shuffle_from_lem h i (swap (suc i) j xs) ys r,
  )
]

-- A shuffle, whatever the entropy, keeps every card: the length and the number of each role.
pub shuffle_roles_lem :
    (h : Host) (xs ys : List Role) (r : Role)
    → shuffle_roles h xs ≡ ok ys
    → (count_role r ys ≡ count_role r xs) × (length ys ≡ length xs)
unfolding shuffle_roles
shuffle_roles_lem h xs ys r e = shuffle_from_lem h (length xs - 1) xs ys r e
