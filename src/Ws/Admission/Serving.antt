-- ===== src/Ws/Admission/Serving.antt =====
-- Any sequence of connections and disconnections at the limiter of internal/ws/admission.go.
use midnight_council.Base.{
  ℕ, zero, suc, ◌+◌, ◌≤◌, ◌≡◌, refl, Bool, true, false, not, ◌&&◌, List, [], ◌∷◌, none, some, arith,
  pos_part, count_if, if◌then◌else◌, ◌==◌, get_elem?, set, Option-cases, inl, inr, is_some, ap, ◌∙◌,
  set-get_elem?, Bool-cases,
}
use midnight_council.Base.Dict.{lookup}
use midnight_council.Base.Dict.Laws.{Distinct}
use midnight_council.Text.{GoString, str_Eq, str_eq_iff}
use midnight_council.Room.Types.{Time}
use midnight_council.Ws.Float.{Float64}
use midnight_council.Ws.Admission.{
  ConnectionLimits, AdmissionLimiter, Lease, release, release_once, new_admission_limiter, acquire,
}
use midnight_council.Ws.Admission.Leases.{
  connections_of, connections_of-acquire, acquire-Distinct, acquire_below, connections_of-release,
  release-Distinct,
}

-- The connections of a server: the limiter, and what its `acquire` has returned.
pub record Front {ℓ} (W : Type ℓ) : Type ℓ where
  pub limiter : AdmissionLimiter W
  pub leases : List Lease

abbrev pub is_open_for : GoString → Lease → Bool
is_open_for ip lease = not lease.released && lease.client_ip == ip

-- The connections of an address that are admitted and not released.
abbrev pub open_leases : GoString → List Lease → ℕ
open_leases ip leases = count_if (is_open_for ip) leases

module _ {ℓ} {W : Type ℓ} ⦃f : Float64 W⦄ where
  unfoldable pub connect_client : GoString → Bool → Time → Front W → Front W
  connect_client client creating now front =
      let (limiter, refusal) = acquire front.limiter client creating now in
      record front {
        limiter = limiter;
        leases =
            if is_some refusal
            then front.leases
            else record { client_ip = client; released = false } ∷ front.leases;
      }

  -- The i-th connection ends, or its release is called again.
  unfoldable pub end_lease : ℕ → Time → Front W → Front W
  end_lease i now front = elim (get_elem? front.leases i) [
    | none ↦ front
    | some lease ↦
        let (closed, limiter) = release_once now lease front.limiter in
        record front { limiter = limiter; leases = set front.leases i closed }
  ]

  pub data Serving (limits : ConnectionLimits W) : Front W → Type ℓ where
    begin : Serving limits (record { limiter = new_admission_limiter limits; leases = [] })
    connect :
        {front : Front W} (client : GoString) (creating : Bool) (now : Time)
        → Serving limits front
        → Serving limits (connect_client client creating now front)
    end_of :
        {front : Front W} (i : ℕ) (now : Time)
        → Serving limits front
        → Serving limits (end_lease i now front)

  pub record IsCounted (limits : ConnectionLimits W) (front : Front W) : Type ℓ where
    pub counted_limits : front.limiter.limits ≡ limits
    pub counted_keys : Distinct front.limiter.entries
    pub counted_open :
        (ip : GoString) → connections_of ip front.limiter.entries ≡ open_leases ip front.leases
    pub counted_below :
        (ip : GoString) → connections_of ip front.limiter.entries ≤ pos_part limits.max_per_ip

pub open_leases-set :
    (ip : GoString) (lease : Lease) (leases : List Lease) (i : ℕ)
    → get_elem? leases i ≡ some lease
    → open_leases ip (set leases i (record lease { released = true }))
        + (if is_open_for ip lease then 1 else 0)
      ≡ open_leases ip leases
open_leases-set ip lease [] i h = ground arith
open_leases-set ip lease (first ∷ leases) zero h = ground arith
open_leases-set ip lease (first ∷ leases) (suc i) h =
    ground (arith, open_leases-set ip lease leases i h)

module _ {ℓ} {W : Type ℓ} ⦃f : Float64 W⦄ where
  begin-IsCounted :
      (limits : ConnectionLimits W)
      → IsCounted limits (record { limiter = new_admission_limiter limits; leases = [] })
  unfolding new_admission_limiter connections_of lookup
  begin-IsCounted limits = record {
    counted_limits = refl;
    counted_keys = tt;
    counted_open = λ ip. refl;
    counted_below = λ ip. omega arith;
  }

  connect_client-IsCounted :
      (limits : ConnectionLimits W) (front : Front W) (client : GoString) (creating : Bool)
      (now : Time)
      → IsCounted limits front
      → IsCounted limits (connect_client client creating now front)
  unfolding connect_client acquire
  connect_client-IsCounted limits front client creating now h = record {
    counted_limits = h.counted_limits;
    counted_keys = acquire-Distinct client creating now front.limiter h.counted_keys;
    counted_open = λ ip. ground (
      arith,
      h.counted_open ip,
      connections_of-acquire ip client creating now front.limiter h.counted_keys,
    );
    counted_below = λ ip. ground (
      arith,
      str_eq_iff client ip,
      h.counted_limits,
      h.counted_below ip,
      connections_of-acquire ip client creating now front.limiter h.counted_keys,
      acquire_below client creating now front.limiter h.counted_keys,
    );
  }

  limits_kept :
      (client : GoString) (now : Time) (l : AdmissionLimiter W)
      → (release client now l).limits ≡ l.limits
  unfolding release
  limits_kept client now l = elim (Option-cases (lookup client l.entries)) [
    | inl missing ↦ rw (release, missing) refl
    | inr (entry, found) ↦ rw (release, found) refl
  ]

  -- `sync.Once`
  release_once_again :
      (now : Time) (lease : Lease) (l : AdmissionLimiter W)
      → lease.released ≡ true
      → release_once now lease l ≡ (lease, l)
  unfolding release_once
  release_once_again now lease l done = do
    let first : Lease × AdmissionLimiter W =
        (record lease { released = true }, release lease.client_ip now l)
    ap (λ b. if b then (lease, l) else first) done

  released-IsCounted :
      (limits : ConnectionLimits W) (front : Front W) (i : ℕ) (now : Time) (lease : Lease)
      → get_elem? front.leases i ≡ some lease
      → lease.released ≡ false
      → IsCounted limits front
      → IsCounted limits (record front {
        limiter = release lease.client_ip now front.limiter;
        leases = set front.leases i (record lease { released = true });
      })
  released-IsCounted limits front i now lease found live h = record {
    counted_limits = limits_kept lease.client_ip now front.limiter ∙ h.counted_limits;
    counted_keys = release-Distinct lease.client_ip now front.limiter h.counted_keys;
    counted_open = λ ip. ground (
      arith,
      live,
      h.counted_open ip,
      connections_of-release ip lease.client_ip now front.limiter,
      open_leases-set ip lease front.leases i found,
    );
    counted_below = λ ip.
        ground
          (arith, h.counted_below ip, connections_of-release ip lease.client_ip now front.limiter);
  }

  end_lease-IsCounted :
      (limits : ConnectionLimits W) (front : Front W) (i : ℕ) (now : Time)
      → IsCounted limits front
      → IsCounted limits (end_lease i now front)
  unfolding end_lease release_once
  end_lease-IsCounted limits front i now h = elim (Option-cases (get_elem? front.leases i)) [
    | inl missing ↦ rw (end_lease, missing) h
    | inr (lease, found) ↦ elim (Bool-cases lease.released) [
      | inl closed ↦
          rw
            (
              end_lease,
              found,
              release_once_again now lease front.limiter closed,
              set-get_elem? front.leases i lease found,
            )
            h
      | inr live ↦
          rw (end_lease, found, release_once, live)
            (released-IsCounted limits front i now lease found live h)
    ]
  ]

  -- Whatever connections are asked for and end, in any order and at any times, and however often a
  -- release is called: for every address the limiter counts exactly the connections that it has
  -- admitted and that have not been released, and never more than the limit for an address.
  pub Serving-IsCounted :
      (limits : ConnectionLimits W) {front : Front W}
      → Serving limits front
      → IsCounted limits front
  Serving-IsCounted limits begin = begin-IsCounted limits
  Serving-IsCounted limits (connect client creating now before) =
      connect_client-IsCounted limits _ client creating now (Serving-IsCounted limits before)
  Serving-IsCounted limits (end_of i now before) =
      end_lease-IsCounted limits _ i now (Serving-IsCounted limits before)
