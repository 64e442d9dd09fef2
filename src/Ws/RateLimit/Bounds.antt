-- ===== src/Ws/RateLimit/Bounds.antt =====
-- What a token bucket of internal/ws/rate_limit.go holds.
use midnight_council.Base.{
  ℕ, suc, ◌-◌, ◌≡◌, true, false, List, [], ◌∷◌, none, arith, pos, pos_part, Bool-cases, inl, inr,
}
use midnight_council.Text.{GoString}
use midnight_council.Room.Types.{Time}
use midnight_council.Ws.Float.{Float64, IsFloat, NonNegative, nil_value, unit_value}
use midnight_council.Ws.RateLimit.{
  RateLimit, TokenBucket, validate_limit, new_token_bucket, refilled, allow, settled, time_since,
}
use midnight_council.Ws.RateLimit.Calls.{allow_all}

-- A bucket never holds less than nothing or more than its capacity.
pub record IsFilled {ℓ} {W : Type ℓ} ⦃f : Float64 W⦄ (b : TokenBucket W) : Type 0 where
  pub rate_nonnegative : NonNegative b.events_per_second
  pub rate_finite : f.is_inf b.events_per_second ≡ false
  pub tokens_nonnegative : NonNegative b.tokens
  pub tokens_le : f.le b.tokens b.capacity ≡ true

module _ {ℓ} {W : Type ℓ} ⦃f : Float64 W⦄ (laws : IsFloat W) where
  pub accrued_nonnegative :
      (b : TokenBucket W) (d : ℕ)
      → IsFilled b
      → NonNegative (f.mul (f.seconds d) b.events_per_second)
  accrued_nonnegative b d h =
      laws.mul_nonnegative _ _ (laws.seconds_nonnegative d) h.rate_nonnegative
        (laws.seconds_finite d) h.rate_finite

  pub capacity_nonnegative : (b : TokenBucket W) → IsFilled b → NonNegative b.capacity
  capacity_nonnegative b h = laws.le_trans _ _ _ h.tokens_nonnegative h.tokens_le

  pub refilled_bounds :
      (b : TokenBucket W) (now : Time)
      → IsFilled b
      → NonNegative (refilled b now) × (f.le (refilled b now) b.capacity ≡ true)
  unfolding refilled
  refilled_bounds b now h = do
    let accrued = accrued_nonnegative b (time_since now b.last_refill) h
    let grown = laws.add_left _ _ h.tokens_nonnegative accrued
    let sum_nonnegative = laws.le_trans _ _ _ h.tokens_nonnegative grown
    let full = capacity_nonnegative b h
    (laws.min_above _ _ _ full sum_nonnegative, laws.min_left _ _ full sum_nonnegative)

  taken_bounds :
      (tokens capacity : W)
      → NonNegative tokens
      → f.le tokens capacity ≡ true
      → f.lt tokens unit_value ≡ false
      → NonNegative (f.sub tokens unit_value) × (f.le (f.sub tokens unit_value) capacity ≡ true)
  taken_bounds tokens capacity low high enough = do
    let unit_le = laws.not_lt_le tokens low enough
    (laws.sub_nonnegative _ unit_le, laws.le_trans _ _ _ (laws.sub_le _ unit_le) high)

  holding :
      (b : TokenBucket W) (tokens : W) (now : Time)
      → IsFilled b
      → NonNegative tokens × (f.le tokens b.capacity ≡ true)
      → IsFilled (record b { tokens = tokens; last_refill = now })
  holding b tokens now h bounds = record {
    rate_nonnegative = h.rate_nonnegative;
    rate_finite = h.rate_finite;
    tokens_nonnegative = bounds.0;
    tokens_le = bounds.1;
  }

  pub allow-IsFilled : (b : TokenBucket W) (now : Time) → IsFilled b → IsFilled (allow b now).1
  unfolding allow
  allow-IsFilled b clock h = do
    let now = settled b clock
    let (low, high) = refilled_bounds b now h
    elim (Bool-cases (f.lt (refilled b now) unit_value)) [
      | inl few ↦ rw few (holding b (refilled b now) now h (low, high))
      | inr enough ↦ rw enough (holding b _ now h (taken_bounds _ _ low high enough))
    ]

  pub allow_all-IsFilled :
      (b : TokenBucket W) (times : List Time) → IsFilled b → IsFilled (allow_all b times).1
  unfolding allow_all
  allow_all-IsFilled b [] h = h
  allow_all-IsFilled b (now ∷ times) h =
      allow_all-IsFilled (allow b now).1 times (allow-IsFilled b now h)

  pub validate_limit_lem :
      (limit : RateLimit W) (category : GoString)
      → validate_limit limit category ≡ none
      → (f.le limit.events_per_second nil_value ≡ false)
        × (f.is_nan limit.events_per_second ≡ false)
        × (f.is_inf limit.events_per_second ≡ false)
        × (limit.burst ≡ pos (suc (pos_part limit.burst - 1)))
  unfolding validate_limit
  validate_limit_lem limit category valid = ground arith

  pub new_token_bucket-IsFilled :
      (limit : RateLimit W) (category : GoString) (now : Time)
      → validate_limit limit category ≡ none
      → IsFilled (new_token_bucket limit now)
  unfolding new_token_bucket
  new_token_bucket-IsFilled limit category now valid = do
    let (above, number, finite, burst) = validate_limit_lem limit category valid
    record {
      rate_nonnegative = laws.positive _ above number;
      rate_finite = finite;
      tokens_nonnegative = rw burst (laws.of_int_le _ _ (omega arith));
      tokens_le = rw burst (laws.of_int_le _ _ (omega arith));
    }

  -- A fresh bucket, after any calls.
  pub bucket-IsFilled :
      (limit : RateLimit W) (category : GoString) (start : Time) (times : List Time)
      → validate_limit limit category ≡ none
      → IsFilled (allow_all (new_token_bucket limit start) times).1
  bucket-IsFilled limit category start times valid =
      allow_all-IsFilled _ times (new_token_bucket-IsFilled limit category start valid)
