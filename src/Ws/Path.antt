-- ===== src/Ws/Path.antt =====
-- internal/ws/handler.go: the room id in the path of a request, and the form of a reconnect token.
use mathlib.Core.List.{reverse, reverse-reverse, reverse_aux}
use midnight_council.Base.{
  ℕ, ◌≡◌, ◌≢◌, refl, ap, Bool, true, false, not, ◌&&◌, ◌||◌, [], ◌∷◌, ◌++◌, Option, none, some,
  arith, leb, nat_eq, length, length-append, All, if◌then◌else◌, ◌==◌,
}
use midnight_council.Text.{
  GoString, text, str_Eq, str_eq_iff, trim_prefix, strip, trim_byte, trim_left_byte,
}
use midnight_council.Room.Identity.{id_character}

abbrev pub room_prefix : GoString
room_prefix = text "/ws/rooms/"

unfoldable pub all_bytes : (ℕ → Bool) → GoString → Bool
all_bytes allowed [] = true
all_bytes allowed (c ∷ s) = allowed c && all_bytes allowed s

-- `^[A-Za-z0-9_-]{2,48}$`
unfoldable pub room_id_pattern : GoString → Bool
room_id_pattern s = leb 2 (length s) && leb (length s) 48 && all_bytes id_character s

abbrev lower_hex : ℕ → Bool
lower_hex c = (leb b'a' c && leb c b'f') || (leb b'0' c && leb c b'9')

-- `^[a-f0-9]{64}$`
unfoldable pub reconnect_token_pattern : GoString → Bool
reconnect_token_pattern s = nat_eq (length s) 64 && all_bytes lower_hex s

-- `none` is the error.
unfoldable pub room_id_from_path : GoString → Option GoString
room_id_from_path path =
    let room_id = trim_byte (trim_prefix path room_prefix) b'/' in
    if room_id == [] || room_id == path || not (room_id_pattern room_id) then none else some room_id

abbrev No : ℕ → GoString → Type 0
No b s = All (λ c. nat_eq c b ≡ false) s

No-reverse_aux : (b : ℕ) (s t : GoString) → No b s → No b t → No b (reverse_aux s t)
No-reverse_aux b [] t h k = k
No-reverse_aux b (c ∷ s) t h k = No-reverse_aux b s (c ∷ t) h.1 (h.0, k)

trim_left_byte_without : (s : GoString) (b : ℕ) → No b s → trim_left_byte s b ≡ s
unfolding trim_left_byte
trim_left_byte_without [] b h = refl
trim_left_byte_without (c ∷ s) b h = ground (arith, h.0)

trim_byte_without : (s : GoString) (b : ℕ) → No b s → trim_byte s b ≡ s
unfolding trim_byte
trim_byte_without s b h =
    rw
      (
        trim_left_byte_without s b h,
        trim_left_byte_without (reverse s) b (No-reverse_aux b s [] h tt),
        reverse-reverse s,
      )
      refl

slash_free : (s : GoString) → all_bytes id_character s ≡ true → No b'/' s
unfolding all_bytes id_character
slash_free [] h = tt
slash_free (c ∷ s) h = ground (arith, slash_free s)

strip-append : (prefix s : GoString) → strip (prefix ++ s) prefix ≡ some s
strip-append [] s = refl
strip-append (p ∷ prefix) s = ground (arith, strip-append prefix s)

trim_prefix-append : (prefix s : GoString) → trim_prefix (prefix ++ s) prefix ≡ s
unfolding trim_prefix
trim_prefix-append prefix s = rw (trim_prefix, strip-append prefix s) refl

-- A test of equality that fails.
differs : (s t : GoString) → s ≢ t → (s == t) ≡ false
differs s t h = ground (arith, str_eq_iff s t)

longer : (s : GoString) → s ≢ room_prefix ++ s
longer s h = do
  let same : length s ≡ length (room_prefix ++ s) = ap length h
  omega (arith, same, length-append room_prefix s)

pattern_characters : (id : GoString) → room_id_pattern id ≡ true → all_bytes id_character id ≡ true
unfolding room_id_pattern
pattern_characters id h = ground (arith, h)

pattern_nonempty : (id : GoString) → room_id_pattern id ≡ true → id ≢ []
unfolding room_id_pattern
pattern_nonempty [] h = absurd (ground (arith, h))
pattern_nonempty (c ∷ id) h = λ e. cc

-- The path that is the prefix of rooms and an id of 2 to 48 letters, digits, hyphens and underscores
-- leads to that id.
pub room_id_from_path_lem :
    (id : GoString) → room_id_pattern id ≡ true → room_id_from_path (room_prefix ++ id) ≡ some id
unfolding room_id_from_path
room_id_from_path_lem id valid = do
  let characters : all_bytes id_character id ≡ true = pattern_characters id valid
  rw
      (
        room_id_from_path,
        trim_prefix-append room_prefix id,
        trim_byte_without id b'/' (slash_free id characters),
        differs id [] (pattern_nonempty id valid),
        differs id (room_prefix ++ id) (longer id),
        valid,
      )
      refl

-- Every room id that is taken from a path has the form of one.
pub room_id_from_path_valid :
    (path id : GoString) → room_id_from_path path ≡ some id → room_id_pattern id ≡ true
unfolding room_id_from_path
room_id_from_path_valid path id found = ground (arith, found)
