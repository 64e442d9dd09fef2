-- ===== src/Base/Sort/Laws.antt =====
-- Laws of sorting: order, permutation and the exchange of insertions.
use midnight_council.Base.Tests.{Bool-cases}
use midnight_council.Base.Sort.{insert_by, sort_by}
use mathlib.Core.Path.{◌≡◌}
use mathlib.Core.Logic.{inl, inr}
use mathlib.Core.Bool.{Bool, true, false}
use mathlib.Core.List.{List, [], ◌∷◌, Perm}
use mathlib.Core.List.Perm
use native.Mathlib.Omega.{arith}

-- A strict total order, as a test.
pub record IsStrictOrder {ℓ} {A : Type ℓ} (lt : A → A → Bool) : Type ℓ where
  pub irrefl : (a : A) → lt a a ≡ false
  pub trans : (a b c : A) → lt a b ≡ true → lt b c ≡ true → lt a c ≡ true
  pub total : (a b : A) → lt a b ≡ false → lt b a ≡ false → a ≡ b

module _ {ℓ} {A : Type ℓ} (lt : A → A → Bool) where
  pub insert_by-perm : (x : A) (ys : List A) → Perm (insert_by lt x ys) (x ∷ ys)
  unfolding insert_by
  insert_by-perm x [] = Perm.refl _
  insert_by-perm x (y ∷ ys) = elim (Bool-cases (lt y x)) [
    | inl below ↦ rw below (Perm.trans (Perm.cons y (insert_by-perm x ys)) (Perm.swap x y ys))
    | inr above ↦ rw above (Perm.refl _)
  ]

  pub sort_by-perm : (xs : List A) → Perm (sort_by lt xs) xs
  unfolding sort_by
  sort_by-perm [] = Perm.refl _
  sort_by-perm (x ∷ xs) =
      Perm.trans (insert_by-perm x (sort_by lt xs)) (Perm.cons x (sort_by-perm xs))

  -- No item comes before one that it is greater than.
  abbrev pub Bounds : A → List A → Type 0
  Bounds x [] = Unit
  Bounds x (y ∷ ys) = (lt y x ≡ false) × Bounds x ys

  abbrev pub IsSorted : List A → Type 0
  IsSorted [] = Unit
  IsSorted (x ∷ xs) = Bounds x xs × IsSorted xs

module _ {ℓ} {A : Type ℓ} (lt : A → A → Bool) (o : IsStrictOrder lt) where
  insert_by-Bounds :
      (z x : A) (ys : List A) → lt x z ≡ false → Bounds lt z ys → Bounds lt z (insert_by lt x ys)
  unfolding insert_by
  insert_by-Bounds z x [] h b = (h, tt)
  insert_by-Bounds z x (y ∷ ys) h b = ground (arith, insert_by-Bounds z x ys h b.1)

  Bounds-below : (x y : A) (ys : List A) → lt y x ≡ false → Bounds lt y ys → Bounds lt x ys
  Bounds-below x y [] h b = tt
  Bounds-below x y (z ∷ zs) h b =
      ground (arith, o.trans z x y, o.total x y, Bounds-below x y zs h b.1)

  pub insert_by-IsSorted : (x : A) (ys : List A) → IsSorted lt ys → IsSorted lt (insert_by lt x ys)
  unfolding insert_by
  insert_by-IsSorted x [] s = (tt, tt)
  insert_by-IsSorted x (y ∷ ys) s = ground (
    arith,
    o.trans y x y,
    o.irrefl y,
    insert_by-IsSorted x ys s.1,
    insert_by-Bounds y x ys,
    Bounds-below x y ys,
  )

  pub sort_by-IsSorted : (xs : List A) → IsSorted lt (sort_by lt xs)
  unfolding sort_by
  sort_by-IsSorted [] = tt
  sort_by-IsSorted (x ∷ xs) = insert_by-IsSorted x (sort_by lt xs) (sort_by-IsSorted xs)

  insert_by_comm :
      (x y : A) (zs : List A)
      → insert_by lt x (insert_by lt y zs) ≡ insert_by lt y (insert_by lt x zs)
  unfolding insert_by
  insert_by_comm x y [] = ground (arith, o.trans x y x, o.irrefl x, o.total x y)
  insert_by_comm x y (z ∷ zs) = ground (
    arith,
    o.trans x y x,
    o.irrefl x,
    o.total x y,
    o.trans z x y,
    o.trans z y x,
    o.trans x z y,
    o.trans y z x,
    o.trans x y z,
    o.trans y x z,
    o.total x z,
    o.total y z,
    insert_by_comm x y zs,
  )
