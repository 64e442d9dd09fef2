-- ===== src/Ws/RateLimit.antt =====
-- internal/ws/rate_limit.go: token buckets for the events of a connection.
pub mod Calls
pub mod Bounds
pub mod Burst
pub mod Recovery
use midnight_council.Base.{
  ℕ, ◌-◌, ◌^◌, Bool, true, false, not, ◌&&◌, ◌||◌, List, [], ◌∷◌, ◌++◌, Option, none, some, ltb, ℤ,
  pos, int_lt, if◌then◌else◌,
}
use midnight_council.Text.{GoString, text}
use midnight_council.Room.Types.{Time, EventType}
use midnight_council.Ws.Float.{Float64, nil_value, unit_value}

pub record RateLimit {ℓ} (W : Type ℓ) : Type ℓ where
  pub events_per_second : W
  pub burst : ℤ

pub record EventRateLimits {ℓ} (W : Type ℓ) : Type ℓ where
  pub chat : RateLimit W
  pub game : RateLimit W

pub record TokenBucket {ℓ} (W : Type ℓ) : Type ℓ where
  pub events_per_second : W
  pub capacity : W
  pub tokens : W
  pub last_refill : Time

pub record ConnectionRateLimiter {ℓ} (W : Type ℓ) : Type ℓ where
  pub chat : TokenBucket W
  pub game : TokenBucket W

-- `Sub` of two times stops at the longest duration.
unfoldable pub time_since : Time → Time → ℕ
time_since now before =
    let elapsed = now - before in if ltb elapsed (2 ^ 63) then elapsed else 2 ^ 63 - 1

abbrev pub is_chat : EventType → Bool
is_chat EventType.chat = true
is_chat _ = false

unfoldable pub rate_limit_error : EventType → GoString
rate_limit_error type =
    if is_chat type
    then text "chat event rate limit exceeded; retry later"
    else text "game event rate limit exceeded; retry later"

module _ {ℓ} {W : Type ℓ} ⦃f : Float64 W⦄ where
  unfoldable pub default_event_rate_limits : EventRateLimits W
  default_event_rate_limits = record {
    chat = record { events_per_second = f.of_int (pos 1); burst = pos 5 };
    game = record { events_per_second = f.of_int (pos 5); burst = pos 10 };
  }

  -- The text of the error, `none` for nil.
  unfoldable pub validate_limit : RateLimit W → GoString → Option GoString
  validate_limit limit category =
      if f.le limit.events_per_second nil_value
        || f.is_nan limit.events_per_second
        || f.is_inf limit.events_per_second
      then some (category ++ text " events per second must be finite and positive")
      else if not (int_lt (pos 0) limit.burst)
      then some (category ++ text " burst must be positive")
      else none

  unfoldable pub validate_event_limits : EventRateLimits W → Option GoString
  validate_event_limits limits = elim (validate_limit limits.chat (text "chat")) [
    | some e ↦ some e
    | none ↦ validate_limit limits.game (text "game")
  ]

  unfoldable pub new_token_bucket : RateLimit W → Time → TokenBucket W
  new_token_bucket limit now = record {
    events_per_second = limit.events_per_second;
    capacity = f.of_int limit.burst;
    tokens = f.of_int limit.burst;
    last_refill = now;
  }

  -- The clock never runs back: `allow` takes the last refill for an earlier time.
  unfoldable pub settled : TokenBucket W → Time → Time
  settled b clock = if ltb clock b.last_refill then b.last_refill else clock

  -- The tokens after the refill of `allow`, where `now` is not before the last one.
  unfoldable pub refilled : TokenBucket W → Time → W
  refilled b now =
      f.min b.capacity
        (f.add b.tokens (f.mul (f.seconds (time_since now b.last_refill)) b.events_per_second))

  unfoldable pub allow : TokenBucket W → Time → Bool × TokenBucket W
  allow b clock =
      let now = settled b clock in
      let tokens = refilled b now in
      if f.lt tokens unit_value
      then (false, record b { tokens = tokens; last_refill = now })
      else (true, record b { tokens = f.sub tokens unit_value; last_refill = now })

  unfoldable pub new_connection_rate_limiter : EventRateLimits W → Time → ConnectionRateLimiter W
  new_connection_rate_limiter limits now = record {
    chat = new_token_bucket limits.chat now;
    game = new_token_bucket limits.game now;
  }

  unfoldable pub allow_event :
      ConnectionRateLimiter W → EventType → Time → Bool × ConnectionRateLimiter W
  allow_event l type now =
      if is_chat type
      then (let (allowed, bucket) = allow l.chat now in (allowed, record l { chat = bucket }))
      else (let (allowed, bucket) = allow l.game now in (allowed, record l { game = bucket }))
