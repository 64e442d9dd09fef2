-- ===== src/Ws/Admission.antt =====
-- internal/ws/admission.go: how many connections an address may open, how often, and how many rooms
-- it may create.
pub mod Leases
pub mod Serving
use midnight_council.Base.{
  ℕ, zero, suc, ◌+◌, ◌-◌, ◌*◌, Bool, true, false, not, ◌&&◌, List, [], ◌∷◌, Option, none, some, leb,
  nat_eq, ℤ, pos, int_lt, if◌then◌else◌,
}
use midnight_council.Base.Dict.{lookup, insert}
use midnight_council.Text.{GoString, text, str_Eq}
use midnight_council.Room.Types.{Time}
use midnight_council.Ws.Float.{Float64}
use midnight_council.Ws.RateLimit.{
  RateLimit, TokenBucket, validate_limit, new_token_bucket, allow, time_since,
}

-- 10 minutes
abbrev pub admission_entry_ttl : ℕ
admission_entry_ttl = 10 * 60 * 1000000000

pub data AdmissionError : Type 0 where
  connection_rate_limited connection_limit_reached room_creation_rate_limited : AdmissionError

-- `ErrConnectionRateLimited`, `ErrConnectionLimitReached` and `ErrRoomCreationRateLimited`
unfoldable pub admission_error_text : AdmissionError → GoString
admission_error_text AdmissionError.connection_rate_limited =
    text "connection rate limit exceeded; retry later"
admission_error_text AdmissionError.connection_limit_reached =
    text "connection limit for this address has been reached"
admission_error_text AdmissionError.room_creation_rate_limited =
    text "room creation rate limit exceeded; retry later"

pub record ConnectionLimits {ℓ} (W : Type ℓ) : Type ℓ where
  pub connections : RateLimit W
  pub max_per_ip : ℤ
  pub room_creates : RateLimit W

pub record AdmissionEntry {ℓ} (W : Type ℓ) : Type ℓ where
  pub connections : ℕ
  pub connection_bucket : TokenBucket W
  pub room_create_bucket : TokenBucket W
  pub last_seen : Time

pub record AdmissionLimiter {ℓ} (W : Type ℓ) : Type ℓ where
  pub limits : ConnectionLimits W
  pub entries : List (GoString × AdmissionEntry W)

-- The function that `acquire` returns: `sync.Once` lets it release once.
pub record Lease : Type 0 where
  pub client_ip : GoString
  pub released : Bool

module _ {ℓ} {W : Type ℓ} where
  unfoldable pub is_expired : Time → AdmissionEntry W → Bool
  is_expired now entry =
      nat_eq entry.connections 0 && leb admission_entry_ttl (time_since now entry.last_seen)

  unfoldable pub remove_expired :
      Time → List (GoString × AdmissionEntry W) → List (GoString × AdmissionEntry W)
  remove_expired now [] = []
  remove_expired now ((ip, entry) ∷ entries) =
      let rest = remove_expired now entries in
      if is_expired now entry then rest else (ip, entry) ∷ rest

  unfoldable pub released_entry : Time → AdmissionEntry W → AdmissionEntry W
  released_entry now entry = record entry { connections = entry.connections - 1; last_seen = now }

  unfoldable pub release : GoString → Time → AdmissionLimiter W → AdmissionLimiter W
  release client_ip now l = elim (lookup client_ip l.entries) [
    | none ↦ l
    | some entry ↦ record l { entries = insert client_ip (released_entry now entry) l.entries }
  ]

  unfoldable pub release_once : Time → Lease → AdmissionLimiter W → Lease × AdmissionLimiter W
  release_once now lease l =
      if lease.released
      then (lease, l)
      else (record lease { released = true }, release lease.client_ip now l)

module _ {ℓ} {W : Type ℓ} ⦃f : Float64 W⦄ where
  unfoldable pub default_connection_limits : ConnectionLimits W
  default_connection_limits = record {
    connections = record { events_per_second = f.of_int (pos 2); burst = pos 10 };
    max_per_ip = pos 20;
    room_creates = record { events_per_second = f.fifth; burst = pos 5 };
  }

  unfoldable pub validate_connection_limits : ConnectionLimits W → Option GoString
  validate_connection_limits limits = elim (validate_limit limits.connections (text "connection")) [
    | some e ↦ some e
    | none ↦
        if int_lt (pos 0) limits.max_per_ip
        then validate_limit limits.room_creates (text "room creation")
        else some (text "maximum connections per IP must be positive")
  ]

  unfoldable pub new_admission_limiter : ConnectionLimits W → AdmissionLimiter W
  new_admission_limiter limits = record { limits = limits; entries = [] }

  unfoldable pub new_entry : ConnectionLimits W → Time → AdmissionEntry W
  new_entry limits now = record {
    connections = 0;
    connection_bucket = new_token_bucket limits.connections now;
    room_create_bucket = new_token_bucket limits.room_creates now;
    last_seen = 0;
  }

  -- `entry, ok := l.entries[clientIP]`
  unfoldable pub known_entry :
      AdmissionLimiter W → List (GoString × AdmissionEntry W) → GoString → Time → AdmissionEntry W
  known_entry l entries client_ip now = elim (lookup client_ip entries) [
    | some entry ↦ entry
    | none ↦ new_entry l.limits now
  ]

  -- The tests of `acquire` on the entry of the address: the entry after them, and the error.
  unfoldable pub admit :
      ConnectionLimits W → Bool → Time → AdmissionEntry W → AdmissionEntry W × Option AdmissionError
  admit limits creating_room now entry =
      let (may_connect, connection_bucket) = allow entry.connection_bucket now in
      let (may_create, room_create_bucket) = allow entry.room_create_bucket now in
      let seen : AdmissionEntry W = record entry {
        connection_bucket = connection_bucket;
        last_seen = now;
      } in
      let charged : AdmissionEntry W =
        if creating_room then record seen { room_create_bucket = room_create_bucket } else seen in
      if not may_connect
      then (seen, some AdmissionError.connection_rate_limited)
      else if not (int_lt (pos entry.connections) limits.max_per_ip)
      then (seen, some AdmissionError.connection_limit_reached)
      else if creating_room && not may_create
      then (charged, some AdmissionError.room_creation_rate_limited)
      else (record charged { connections = entry.connections + 1 }, none)

  unfoldable pub acquire :
      AdmissionLimiter W → GoString → Bool → Time → AdmissionLimiter W × Option AdmissionError
  acquire l client_ip creating_room now =
      let entries = remove_expired now l.entries in
      let (entry, refusal) =
        admit l.limits creating_room now (known_entry l entries client_ip now) in
      (record l { entries = insert client_ip entry entries }, refusal)
