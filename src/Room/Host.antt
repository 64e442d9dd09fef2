-- ===== src/Room/Host.antt =====
-- What internal/room takes from the Go runtime during one call: the clock (`time.Now`), the entropy
-- of crypto/rand, the text form of durations (`time.ParseDuration`, `Duration.String`), and how fast the
-- connections read.
use midnight_council.Base.{ℕ, Option}
use midnight_council.Text.{GoString}
use midnight_council.Room.Types.{Time, Duration}

pub record Host : Type 0 where
  pub now : Time
  -- `newReconnectToken` without its `error`: 32 bytes from `cryptorand.Read` in hexadecimal.
  pub token : Option GoString
  -- `cryptorand.Int(cryptorand.Reader, big.NewInt(n))`, which is below `n`.
  pub draw : ℕ → Option ℕ
  pub parse_duration : GoString → Option Duration
  pub show_duration : Duration → GoString
  -- How many envelopes the connection of a subscription, the second one, takes from its channel just
  -- before `broadcast` sends to it because the first one was dropped, or for an event where that is
  -- blank.
  pub reads : GoString → GoString → ℕ
