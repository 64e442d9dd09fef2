-- ===== src/Ws/Admission/Leases.antt =====
-- How `acquire` and `release` of internal/ws/admission.go count the connections of an address.
use midnight_council.Base.{
  ℕ, ◌+◌, ◌-◌, ◌≤◌, ◌≡◌, refl, Bool, not, ◌||◌, List, [], ◌∷◌, Option, none, some, arith, pos_part,
  if◌then◌else◌, ◌==◌, Option-cases, inl, inr, is_some,
}
use midnight_council.Base.Dict.{lookup, insert}
use midnight_council.Base.Dict.Laws.{Distinct, lookup-insert, insert-Distinct}
use midnight_council.Text.{GoString, str_Eq, str_eq_iff}
use midnight_council.Room.Types.{Time}
use midnight_council.Ws.Float.{Float64}
use midnight_council.Ws.Admission.{
  ConnectionLimits, AdmissionEntry, AdmissionLimiter, is_expired, remove_expired, released_entry,
  release, known_entry, new_entry, admit, acquire,
}

abbrev pub Entries {ℓ} : Type ℓ → Type ℓ
Entries W = List (GoString × AdmissionEntry W)

abbrev pub counted {ℓ} : {W : Type ℓ} → Option (AdmissionEntry W) → ℕ
counted none = 0
counted (some entry) = entry.connections

unfoldable pub connections_of {ℓ} : {W : Type ℓ} → GoString → Entries W → ℕ
connections_of ip entries = counted (lookup ip entries)

module _ {ℓ} {W : Type ℓ} where
  lookup-remove_expired-none :
      (ip : GoString) (now : Time) (m : Entries W)
      → lookup ip m ≡ none
      → lookup ip (remove_expired now m) ≡ none
  unfolding lookup remove_expired
  lookup-remove_expired-none ip now [] h = refl
  lookup-remove_expired-none ip now ((k, entry) ∷ m) h =
      ground (arith, lookup-remove_expired-none ip now m)

  pub remove_expired-Distinct :
      (now : Time) (m : Entries W) → Distinct m → Distinct (remove_expired now m)
  unfolding remove_expired
  remove_expired-Distinct now [] d = tt
  remove_expired-Distinct now ((k, entry) ∷ m) d =
      ground (arith, lookup-remove_expired-none k now m d.0, remove_expired-Distinct now m d.1)

  -- Only entries without connections expire.
  pub connections_of-remove_expired :
      (ip : GoString) (now : Time) (m : Entries W)
      → Distinct m
      → connections_of ip (remove_expired now m) ≡ connections_of ip m
  unfolding connections_of lookup remove_expired is_expired
  connections_of-remove_expired ip now [] d = refl
  connections_of-remove_expired ip now ((k, entry) ∷ m) d = ground (
    arith,
    str_eq_iff k ip,
    lookup-remove_expired-none ip now m,
    connections_of-remove_expired ip now m d.1,
    d.0,
  )

  pub connections_of-insert :
      (ip client : GoString) (entry : AdmissionEntry W) (m : Entries W)
      → connections_of ip (insert client entry m)
        ≡ (if client == ip then entry.connections else connections_of ip m)
  unfolding connections_of
  connections_of-insert ip client entry m = ground (arith, lookup-insert client ip entry m)

  pub connections_of-release :
      (ip client : GoString) (now : Time) (l : AdmissionLimiter W)
      → connections_of ip (release client now l).entries
        ≡ (if client == ip then connections_of ip l.entries - 1 else connections_of ip l.entries)
  unfolding release released_entry connections_of
  connections_of-release ip client now l = elim (Option-cases (lookup client l.entries)) [
    | inl missing ↦ ground (arith, str_eq_iff client ip, missing)
    | inr (entry, found) ↦ ground (
      arith,
      str_eq_iff client ip,
      found,
      lookup-insert client ip (released_entry now entry) l.entries,
    )
  ]

  pub release-Distinct :
      (client : GoString) (now : Time) (l : AdmissionLimiter W)
      → Distinct l.entries
      → Distinct (release client now l).entries
  unfolding release
  release-Distinct client now l d = elim (Option-cases (lookup client l.entries)) [
    | inl missing ↦ rw (release, missing) d
    | inr (entry, found) ↦
        rw (release, found) (insert-Distinct client (released_entry now entry) l.entries d)
  ]

module _ {ℓ} {W : Type ℓ} ⦃f : Float64 W⦄ where
  -- What an entry counts after the tests of `acquire`, and that it counts no more than the limit.
  admit_lem :
      (limits : ConnectionLimits W) (creating : Bool) (now : Time) (entry : AdmissionEntry W)
      → ((admit limits creating now entry).0.connections ≡ (
          if is_some (admit limits creating now entry).1
          then entry.connections
          else entry.connections + 1))
        × ((admit limits creating now entry).1 ≡ none
            → entry.connections + 1 ≤ pos_part limits.max_per_ip)
  unfolding admit
  admit_lem limits creating now entry = ground arith

  connections-known_entry :
      (l : AdmissionLimiter W) (entries : Entries W) (client : GoString) (now : Time)
      → (known_entry l entries client now).connections ≡ connections_of client entries
  unfolding known_entry connections_of new_entry
  connections-known_entry l entries client now = ground arith

  pub connections_of-acquire :
      (ip client : GoString) (creating : Bool) (now : Time) (l : AdmissionLimiter W)
      → Distinct l.entries
      → connections_of ip (acquire l client creating now).0.entries ≡ (
          if is_some (acquire l client creating now).1 || not (client == ip)
          then connections_of ip l.entries
          else connections_of ip l.entries + 1)
  unfolding acquire
  connections_of-acquire ip client creating now l d = do
    let entries = remove_expired now l.entries
    let known = known_entry l entries client now
    let admitted = admit l.limits creating now known
    ground (
      arith,
      str_eq_iff client ip,
      connections_of-insert ip client admitted.0 entries,
      connections_of-remove_expired ip now l.entries d,
      (admit_lem l.limits creating now known).0,
      connections-known_entry l entries client now,
    )

  pub acquire-Distinct :
      (client : GoString) (creating : Bool) (now : Time) (l : AdmissionLimiter W)
      → Distinct l.entries
      → Distinct (acquire l client creating now).0.entries
  unfolding acquire
  acquire-Distinct client creating now l d =
      insert-Distinct client _ _ (remove_expired-Distinct now l.entries d)

  -- An address is admitted only below its limit.
  pub acquire_below :
      (client : GoString) (creating : Bool) (now : Time) (l : AdmissionLimiter W)
      → Distinct l.entries
      → (acquire l client creating now).1 ≡ none
      → connections_of client l.entries + 1 ≤ pos_part l.limits.max_per_ip
  unfolding acquire
  acquire_below client creating now l d admitted = do
    let entries = remove_expired now l.entries
    let known = known_entry l entries client now
    ground (
      arith,
      connections_of-remove_expired client now l.entries d,
      (admit_lem l.limits creating now known).1 admitted,
      connections-known_entry l entries client now,
    )

  -- A connection that is admitted and released leaves no trace in what is counted.
  pub release-acquire :
      (ip client : GoString) (creating : Bool) (now later : Time) (l : AdmissionLimiter W)
      → Distinct l.entries
      → (acquire l client creating now).1 ≡ none
      → connections_of ip (release client later (acquire l client creating now).0).entries
        ≡ connections_of ip l.entries
  release-acquire ip client creating now later l d admitted = ground (
    arith,
    str_eq_iff client ip,
    connections_of-release ip client later (acquire l client creating now).0,
    connections_of-acquire ip client creating now l d,
    admitted,
  )
