-- ===== src/Base/Dict/Laws.antt =====
-- The laws of the map operations.
use midnight_council.Base.Tests.{Eq, ◌==◌, if◌then◌else◌}
use midnight_council.Base.Lists.{length}
use midnight_council.Base.Dict.{lookup, insert, erase, modify}
use Prim.Native.Nat.{suc, ◌≤◌}
use mathlib.Core.Path.{◌≡◌, refl}
use mathlib.Core.List.{List, [], ◌∷◌}
use mathlib.Core.Option.{Option, none, some}
use native.Mathlib.Omega.{arith}

abbrev pub map_option {ℓ κ} : {A : Type ℓ} {B : Type κ} → (A → B) → Option A → Option B
map_option f none = none
map_option f (some a) = some (f a)

module _ {ℓ κ} {K : Type ℓ} {V : Type κ} ⦃e : Eq K⦄ where
  pub lookup-insert :
      (key sought : K) (v : V) (d : List (K × V))
      → lookup sought (insert key v d) ≡ (if key == sought then some v else lookup sought d)
  unfolding lookup insert
  lookup-insert key sought v [] = refl
  lookup-insert key sought v ((first, w) ∷ d) = ground (
    arith,
    e.beq_iff key sought,
    e.beq_iff first key,
    e.beq_iff first sought,
    lookup-insert key sought v d,
  )

  pub lookup-modify :
      (k j : K) (f : V → V) (m : List (K × V))
      → lookup j (modify k f m) ≡ (if k == j then map_option f (lookup j m) else lookup j m)
  unfolding lookup modify
  lookup-modify k j f [] = ground arith
  lookup-modify k j f ((i, w) ∷ m) =
      ground (arith, e.beq_iff k j, e.beq_iff i k, e.beq_iff i j, lookup-modify k j f m)

  -- No key stands twice.
  abbrev pub Distinct : List (K × V) → Type κ
  Distinct [] = Unit
  Distinct ((k, v) ∷ m) = (lookup k m ≡ none) × Distinct m

  pub lookup-erase :
      (k j : K) (m : List (K × V))
      → Distinct m
      → lookup j (erase k m) ≡ (if k == j then none else lookup j m)
  unfolding lookup erase
  lookup-erase k j [] d = ground arith
  lookup-erase k j ((i, w) ∷ m) d =
      ground (arith, e.beq_iff k j, e.beq_iff i k, e.beq_iff i j, lookup-erase k j m d.1)

  pub insert-Distinct : (k : K) (v : V) (m : List (K × V)) → Distinct m → Distinct (insert k v m)
  unfolding lookup insert
  insert-Distinct k v [] d = (refl, tt)
  insert-Distinct k v ((i, w) ∷ m) d =
      ground (arith, e.beq_iff i k, e.beq_iff k i, lookup-insert k i v m, insert-Distinct k v m d.1)

  pub modify-Distinct :
      (k : K) (f : V → V) (m : List (K × V)) → Distinct m → Distinct (modify k f m)
  unfolding lookup modify
  modify-Distinct k f [] d = tt
  modify-Distinct k f ((i, w) ∷ m) d =
      ground (arith, e.beq_iff i k, e.beq_iff k i, lookup-modify k i f m, modify-Distinct k f m d.1)

  pub erase-Distinct : (k : K) (m : List (K × V)) → Distinct m → Distinct (erase k m)
  unfolding lookup erase
  erase-Distinct k [] d = tt
  erase-Distinct k ((i, w) ∷ m) d =
      ground (arith, e.beq_iff i k, e.beq_iff k i, lookup-erase k i m d.1, erase-Distinct k m d.1)

  pub length-modify : (k : K) (f : V → V) (m : List (K × V)) → length (modify k f m) ≡ length m
  unfolding modify
  length-modify k f [] = refl
  length-modify k f ((i, w) ∷ m) = ground (arith, length-modify k f m)

  pub length-insert : (k : K) (v : V) (m : List (K × V)) → length (insert k v m) ≤ suc (length m)
  unfolding insert
  length-insert k v [] = omega arith
  length-insert k v ((i, w) ∷ m) = ground (arith, length-insert k v m)

  pub length-erase : (k : K) (m : List (K × V)) → length (erase k m) ≤ length m
  unfolding erase
  length-erase k [] = omega arith
  length-erase k ((i, w) ∷ m) = ground (arith, length-erase k m)

  -- A property of every entry.
  abbrev pub Entries {μ} : (K → V → Type μ) → List (K × V) → Type μ
  Entries P [] = Unit
  Entries P ((k, v) ∷ m) = P k v × Entries P m

module _ {ℓ κ μ} {K : Type ℓ} {V : Type κ} ⦃e : Eq K⦄ (P : K → V → Type μ) where
  pub lookup-Entries :
      (k : K) (v : V) (m : List (K × V)) → Entries P m → lookup k m ≡ some v → P k v
  unfolding lookup
  lookup-Entries k v [] h r = cc
  lookup-Entries k v ((i, w) ∷ m) h r = ground (arith, e.beq_iff i k, lookup-Entries k v m h.1)

  pub insert-Entries :
      (k : K) (v : V) (m : List (K × V)) → P k v → Entries P m → Entries P (insert k v m)
  unfolding insert
  insert-Entries k v [] p h = (p, tt)
  insert-Entries k v ((i, w) ∷ m) p h = ground (arith, e.beq_iff i k, insert-Entries k v m p h.1)

  pub modify-Entries :
      (k : K) (f : V → V) (m : List (K × V))
      → ((j : K) (v : V) → P j v → P j (f v))
      → Entries P m
      → Entries P (modify k f m)
  unfolding modify
  modify-Entries k f [] keep h = tt
  modify-Entries k f ((i, w) ∷ m) keep h =
      ground (arith, keep i w h.0, modify-Entries k f m keep h.1)

  pub erase-Entries : (k : K) (m : List (K × V)) → Entries P m → Entries P (erase k m)
  unfolding erase
  erase-Entries k [] h = tt
  erase-Entries k ((i, w) ∷ m) h = ground (arith, erase-Entries k m h.1)
