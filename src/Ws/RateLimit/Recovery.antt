-- ===== src/Ws/RateLimit/Recovery.antt =====
-- When a token bucket of internal/ws/rate_limit.go lets a call pass again.
use midnight_council.Base.{
  ◌≤◌, ◌≡◌, refl, ◌∙◌, true, false, List, [], ◌∷◌, none, arith, Bool-cases, inl, inr,
}
use midnight_council.Text.{GoString}
use midnight_council.Room.Types.{Time}
use midnight_council.Ws.Float.{Float64, IsFloat, unit_value}
use midnight_council.Ws.RateLimit.{
  RateLimit, TokenBucket, validate_limit, new_token_bucket, refilled, allow, settled, time_since,
}
use midnight_council.Ws.RateLimit.Calls.{allow_all}
use midnight_council.Ws.RateLimit.Bounds.{
  IsFilled, accrued_nonnegative, allow_all-IsFilled, validate_limit_lem, new_token_bucket-IsFilled,
}

module _ {ℓ} {W : Type ℓ} ⦃f : Float64 W⦄ (laws : IsFloat W) where
  settled_later : (b : TokenBucket W) (now : Time) → b.last_refill ≤ now → settled b now ≡ now
  unfolding settled
  settled_later b now later = ground arith

  refilled_enough :
      (b : TokenBucket W) (now : Time)
      → IsFilled b
      → f.le unit_value b.capacity ≡ true
      → f.le unit_value (f.mul (f.seconds (time_since now b.last_refill)) b.events_per_second)
        ≡ true
      → f.lt (refilled b now) unit_value ≡ false
  unfolding refilled
  refilled_enough b now h roomy accrued = do
    let gained = laws.add_right _ _ h.tokens_nonnegative (accrued_nonnegative laws b _ h)
    laws.le_not_lt _ _ (laws.min_above _ _ _ roomy (laws.le_trans _ _ _ accrued gained))

  -- Where a token has accrued since the last call, the next one passes.
  pub allow_accrued :
      (b : TokenBucket W) (now : Time)
      → IsFilled b
      → f.le unit_value b.capacity ≡ true
      → b.last_refill ≤ now
      → f.le unit_value (f.mul (f.seconds (time_since now b.last_refill)) b.events_per_second)
        ≡ true
      → (allow b now).0 ≡ true
  unfolding allow
  allow_accrued b now h roomy later accrued =
      rw (allow, settled_later b now later, refilled_enough b now h roomy accrued) refl

  allow_fixed :
      (b : TokenBucket W) (now : Time)
      → ((allow b now).1.capacity ≡ b.capacity)
        × ((allow b now).1.events_per_second ≡ b.events_per_second)
  unfolding allow
  allow_fixed b clock = elim (Bool-cases (f.lt (refilled b (settled b clock)) unit_value)) [
    | inl few ↦ rw (allow, few) (refl, refl)
    | inr enough ↦ rw (allow, enough) (refl, refl)
  ]

  allow_all_capacity :
      (b : TokenBucket W) (times : List Time) → (allow_all b times).1.capacity ≡ b.capacity
  unfolding allow_all
  allow_all_capacity b [] = refl
  allow_all_capacity b (now ∷ times) =
      allow_all_capacity (allow b now).1 times ∙ (allow_fixed b now).0

  new_capacity :
      (limit : RateLimit W) (category : GoString) (start : Time)
      → validate_limit limit category ≡ none
      → f.le unit_value (new_token_bucket limit start).capacity ≡ true
  unfolding new_token_bucket
  new_capacity limit category start valid = do
    let (above, number, finite, burst) = validate_limit_lem laws limit category valid
    rw burst (laws.of_int_le _ _ (omega arith))

  -- Under the laws of IEEE 754 that are named in `IsFloat`: whatever calls a bucket of a valid limit
  -- has answered, the next call passes if it comes no sooner than the last refill and the time since
  -- then is worth at least one event.
  pub recovers_lem :
      (limit : RateLimit W) (category : GoString) (start : Time) (times : List Time) (now : Time)
      → validate_limit limit category ≡ none
      → (allow_all (new_token_bucket limit start) times).1.last_refill ≤ now
      → f.le unit_value (
          f.mul
            (f.seconds
              (time_since now (allow_all (new_token_bucket limit start) times).1.last_refill))
            (allow_all (new_token_bucket limit start) times).1.events_per_second)
        ≡ true
      → (allow (allow_all (new_token_bucket limit start) times).1 now).0 ≡ true
  recovers_lem limit category start times now valid later accrued = do
    let bucket = new_token_bucket limit start
    let roomy = new_capacity limit category start valid
    allow_accrued (allow_all bucket times).1 now
        (allow_all-IsFilled laws bucket times
          (new_token_bucket-IsFilled laws limit category start valid))
        (rw (allow_all_capacity bucket times) roomy) later accrued
