-- ===== src/Text/Utf8.antt =====
-- `utf8.DecodeRuneInString`, `utf8.ValidString`, `utf8.RuneCountInString` and the loop
-- `for _, character := range s`, over bytes.
use midnight_council.Base.{
  ℕ, zero, suc, ◌+◌, ◌-◌, ◌*◌, Bool, true, not, ◌&&◌, List, [], ◌∷◌, ltb, leb, nat_eq,
  if◌then◌else◌, length,
}
use midnight_council.Text.Bytes.{GoString}

-- What an invalid encoding decodes to, with width 1.
abbrev pub rune_error : ℕ
rune_error = 0xfffd

abbrev between : ℕ → ℕ → ℕ → Bool
between lo hi b = leb lo b && leb b hi

abbrev is_continuation : ℕ → Bool
is_continuation b = between 0x80 0xbf b

-- `utf8.RuneStart`
abbrev pub rune_start : ℕ → Bool
rune_start b = not (is_continuation b)

abbrev bad_rune : ℕ × ℕ
bad_rune = (rune_error, 1)

two_bytes : ℕ → GoString → ℕ × ℕ
two_bytes a (b ∷ rest) = if is_continuation b then ((a - 0xc0) * 64 + (b - 0x80), 2) else bad_rune
two_bytes a [] = bad_rune

-- The second byte has a range of its own where the first is 0xe0 or 0xed.
three_bytes : ℕ → ℕ → ℕ → GoString → ℕ × ℕ
three_bytes lo hi a (b ∷ c ∷ rest) =
    if between lo hi b && is_continuation c
    then (((a - 0xe0) * 64 + (b - 0x80)) * 64 + (c - 0x80), 3)
    else bad_rune
three_bytes lo hi a (b ∷ []) = bad_rune
three_bytes lo hi a [] = bad_rune

four_bytes : ℕ → ℕ → ℕ → GoString → ℕ × ℕ
four_bytes lo hi a (b ∷ c ∷ d ∷ rest) =
    if between lo hi b && is_continuation c && is_continuation d
    then ((((a - 0xf0) * 64 + (b - 0x80)) * 64 + (c - 0x80)) * 64 + (d - 0x80), 4)
    else bad_rune
four_bytes lo hi a (b ∷ c ∷ []) = bad_rune
four_bytes lo hi a (b ∷ []) = bad_rune
four_bytes lo hi a [] = bad_rune

-- The first rune, with the number of bytes that it takes.
unfoldable pub decode_rune : GoString → ℕ × ℕ
unfolding two_bytes three_bytes four_bytes
decode_rune [] = (rune_error, 0)
decode_rune (a ∷ s) =
    if ltb a 0x80
    then (a, 1)
    else if between 0xc2 0xdf a
    then two_bytes a s
    else if nat_eq a 0xe0
    then three_bytes 0xa0 0xbf a s
    else if nat_eq a 0xed
    then three_bytes 0x80 0x9f a s
    else if between 0xe1 0xef a
    then three_bytes 0x80 0xbf a s
    else if nat_eq a 0xf0
    then four_bytes 0x90 0xbf a s
    else if between 0xf1 0xf3 a
    then four_bytes 0x80 0xbf a s
    else if nat_eq a 0xf4
    then four_bytes 0x80 0x8f a s
    else bad_rune

-- The runes of a string with their widths; the number is how many bytes belong to the last rune.
runes_from : ℕ → GoString → List (ℕ × ℕ)
unfolding decode_rune
runes_from skip [] = []
runes_from zero (a ∷ s) = let (r, n) = decode_rune (a ∷ s) in (r, n) ∷ runes_from (n - 1) s
runes_from (suc k) (a ∷ s) = runes_from k s

unfoldable pub runes : GoString → List (ℕ × ℕ)
unfolding runes_from
runes s = runes_from 0 s

all_valid : List (ℕ × ℕ) → Bool
all_valid [] = true
all_valid ((r, n) ∷ rs) = not (nat_eq r rune_error && nat_eq n 1) && all_valid rs

-- `utf8.ValidString`
unfoldable pub valid_string : GoString → Bool
unfolding all_valid runes
valid_string s = all_valid (runes s)

-- `utf8.RuneCountInString`
unfoldable pub rune_count : GoString → ℕ
unfolding runes
rune_count s = length (runes s)
