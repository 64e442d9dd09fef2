-- ===== src/Ws/RateLimit/Burst.antt =====
-- How many calls a token bucket of internal/ws/rate_limit.go lets pass at once.
use midnight_council.Base.{
  ℕ, zero, suc, ◌^◌, ◌<◌, ◌≤◌, ◌≡◌, refl, true, false, List, [], ◌∷◌, none, arith, ltb, pos,
  pos_part, All, length, count_if, if◌then◌else◌,
}
use midnight_council.Text.{GoString}
use midnight_council.Room.Types.{Time}
use midnight_council.Ws.Float.{nil_value, Float64, IsFloat}
use midnight_council.Ws.RateLimit.{
  RateLimit, TokenBucket, validate_limit, new_token_bucket, refilled, allow, settled, time_since,
}
use midnight_council.Ws.RateLimit.Calls.{allow_all, is_allowed}
use midnight_council.Ws.RateLimit.Bounds.{validate_limit_lem}

-- Whole tokens, which arithmetic on floats counts exactly.
pub record IsWhole {ℓ} {W : Type ℓ} ⦃f : Float64 W⦄ (b : TokenBucket W) (n c : ℕ) : Type ℓ where
  pub whole_rate : f.le b.events_per_second nil_value ≡ false
  pub whole_rate_number : f.is_nan b.events_per_second ≡ false
  pub whole_rate_finite : f.is_inf b.events_per_second ≡ false
  pub whole_tokens : b.tokens ≡ f.of_int (pos n)
  pub whole_capacity : b.capacity ≡ f.of_int (pos c)
  pub whole_le : n ≤ c

abbrev pub smaller : ℕ → ℕ → ℕ
smaller m n = if ltb m n then m else n

module _ {ℓ} {W : Type ℓ} ⦃f : Float64 W⦄ (laws : IsFloat W) where
  time_since_same : (t : Time) → time_since t t ≡ 0
  unfolding time_since
  time_since_same t = ground arith

  -- Nothing accrues while the clock stands still.
  refilled_same :
      (b : TokenBucket W) (n c : ℕ) → IsWhole b n c → refilled b b.last_refill ≡ f.of_int (pos n)
  unfolding refilled
  refilled_same b n c h = rw (
    refilled,
    time_since_same b.last_refill,
    laws.seconds_nil,
    laws.mul_nil _ h.whole_rate h.whole_rate_number h.whole_rate_finite,
    h.whole_tokens,
    h.whole_capacity,
    laws.add_nil n,
    laws.min_small c n h.whole_le,
  )

  settled_stale :
      (b : TokenBucket W) (now : Time) → now ≤ b.last_refill → settled b now ≡ b.last_refill
  unfolding settled
  settled_stale b now stale = ground arith

  -- The last token is gone.
  allow_empty :
      (b : TokenBucket W) (now : Time) (c : ℕ)
      → now ≤ b.last_refill
      → IsWhole b 0 c
      → ((allow b now).0 ≡ false)
        × IsWhole (allow b now).1 0 c
        × ((allow b now).1.last_refill ≡ b.last_refill)
  unfolding allow
  allow_empty b now c stale h =
      rw (settled_stale b now stale, refilled_same b 0 c h, laws.nil_lt_unit)
        (
          refl,
          record {
            whole_rate = h.whole_rate;
            whole_rate_number = h.whole_rate_number;
            whole_rate_finite = h.whole_rate_finite;
            whole_tokens = refl;
            whole_capacity = h.whole_capacity;
            whole_le = omega arith;
          },
          refl,
        )

  allow-IsWhole :
      (b : TokenBucket W) (now : Time) (n c : ℕ)
      → now ≤ b.last_refill
      → n < 2 ^ 53
      → IsWhole b (suc n) c
      → ((allow b now).0 ≡ true)
        × IsWhole (allow b now).1 n c
        × ((allow b now).1.last_refill ≡ b.last_refill)
  unfolding allow
  allow-IsWhole b now n c stale small h =
      rw (settled_stale b now stale, refilled_same b (suc n) c h, laws.unit_le_suc n)
        (
          refl,
          record {
            whole_rate = h.whole_rate;
            whole_rate_number = h.whole_rate_number;
            whole_rate_finite = h.whole_rate_finite;
            whole_tokens = laws.sub_unit n small;
            whole_capacity = h.whole_capacity;
            whole_le = omega (arith, h.whole_le);
          },
          refl,
        )

  -- With n tokens, the first n calls pass and no other.
  allow_all_whole :
      (times : List Time) (b : TokenBucket W) (n c : ℕ)
      → All (λ now. now ≤ b.last_refill) times
      → n < 2 ^ 53
      → IsWhole b n c
      → count_if is_allowed (allow_all b times).0 ≡ smaller n (length times)
  unfolding allow_all
  allow_all_whole [] b n c stale small h = ground arith
  allow_all_whole (now ∷ times) b zero c stale small h = do
    let (refused, whole, same) = allow_empty b now c stale.0 h
    let rest = allow_all_whole times (allow b now).1 zero c (rw same stale.1) small whole
    ground (arith, refused, rest)
  allow_all_whole (now ∷ times) b (suc n) c stale small h = do
    let (allowed, whole, same) = allow-IsWhole b now n c stale.0 (omega arith) h
    let rest = allow_all_whole times (allow b now).1 n c (rw same stale.1) (omega arith) whole
    ground (arith, allowed, rest)

  -- Under the laws of IEEE 754 that are named in `IsFloat`: a fresh bucket of a valid limit, whose burst
  -- is below 2^53, answers any calls at times no later than its start by letting exactly as many pass
  -- as its burst allows, or all where they are fewer.
  pub burst_lem :
      (limit : RateLimit W) (category : GoString) (start : Time) (times : List Time)
      → validate_limit limit category ≡ none
      → pos_part limit.burst < 2 ^ 53
      → All (λ now. now ≤ start) times
      → count_if is_allowed (allow_all (new_token_bucket limit start) times).0
        ≡ smaller (pos_part limit.burst) (length times)
  unfolding new_token_bucket
  burst_lem limit category start times valid small stale = do
    let (above, number, finite, burst) = validate_limit_lem laws limit category valid
    let count = pos_part limit.burst
    let burst_eq : limit.burst ≡ pos count = ground (arith, burst)
    allow_all_whole times (new_token_bucket limit start) count count stale small (record {
      whole_rate = above;
      whole_rate_number = number;
      whole_rate_finite = finite;
      whole_tokens = rw burst_eq refl;
      whole_capacity = rw burst_eq refl;
      whole_le = omega arith;
    })
