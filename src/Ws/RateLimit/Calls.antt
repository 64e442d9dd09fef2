-- ===== src/Ws/RateLimit/Calls.antt =====
-- The answers of internal/ws/rate_limit.go to any sequence of calls, for the two kinds of events.
use midnight_council.Base.{
  ℕ, zero, suc, ◌+◌, ◌-◌, ◌^◌, ◌<◌, ◌≤◌, ◌≡◌, refl, ◌∙◌, Bool, true, false, List, [], ◌∷◌, Option,
  none, some, arith, ltb, leb, ℤ, pos, pos_part, negsuc, All, length, count_if, if◌then◌else◌,
  Bool-cases, inl, inr,
}
use midnight_council.Room.Types.{Time, EventType}
use midnight_council.Ws.Float.{Float64}
use midnight_council.Ws.RateLimit.{TokenBucket, ConnectionRateLimiter, allow, allow_event, is_chat}

module _ {ℓ} {W : Type ℓ} ⦃f : Float64 W⦄ where
  -- The answers to calls at these times, and the bucket after them.
  unfoldable pub allow_all : TokenBucket W → List Time → List Bool × TokenBucket W
  allow_all b [] = ([], b)
  allow_all b (now ∷ times) =
      let (allowed, next) = allow b now in
      let (answers, last) = allow_all next times in (allowed ∷ answers, last)

  -- The answers of a connection's limiter to events, each with its type.
  unfoldable pub answers :
      ConnectionRateLimiter W → List (EventType × Time) → List (EventType × Bool)
  answers l [] = []
  answers l ((type, now) ∷ events) =
      let (allowed, next) = allow_event l type now in (type, allowed) ∷ answers next events

-- The entries whose event is a chat message, and the others.
abbrev pub of_kind {ℓ} : {A : Type ℓ} → (EventType → Bool) → List (EventType × A) → List A
of_kind kind [] = []
of_kind kind ((type, a) ∷ rest) =
    let others = of_kind kind rest in if kind type then a ∷ others else others

abbrev pub is_game : EventType → Bool
is_game type = midnight_council.Base.not (is_chat type)

abbrev pub is_allowed : Bool → Bool
is_allowed allowed = allowed

module _ {ℓ} {W : Type ℓ} ⦃f : Float64 W⦄ where
  -- For every sequence of events, the chat messages of a connection get the answers of a bucket that
  -- sees only them, and the other events get the answers of a bucket that sees only those.
  pub answers_lem :
      (events : List (EventType × Time)) (l : ConnectionRateLimiter W)
      → (of_kind is_chat (answers l events) ≡ (allow_all l.chat (of_kind is_chat events)).0)
        × (of_kind is_game (answers l events) ≡ (allow_all l.game (of_kind is_game events)).0)
  unfolding answers allow_all allow_event
  answers_lem [] l = (refl, refl)
  answers_lem ((type, now) ∷ events) l = do
    let (allowed, next) = allow_event l type now
    let (chat, game) = answers_lem events next
    elim (Bool-cases (is_chat type)) [
      | inl of_chat ↦ ground (arith, of_chat, chat, game)
      | inr of_game ↦ ground (arith, of_game, chat, game)
    ]
