-- ===== src/Text/Trim.antt =====
-- `strings.TrimSpace` and `unicode.IsControl`.
use mathlib.Core.List.{reverse}
use midnight_council.Base.{
  ℕ, zero, suc, ◌-◌, ◌≡◌, refl, Bool, ◌&&◌, ◌||◌, [], ◌∷◌, ltb, leb, nat_eq, if◌then◌else◌, length,
}
use midnight_council.Text.Bytes.{GoString, text}
use midnight_council.Text.Utf8.{decode_rune, rune_error, rune_start}

-- `unicode.IsSpace`
unfoldable pub is_space : ℕ → Bool
is_space r =
    (leb 9 r && leb r 13)
    || nat_eq r 32
    || nat_eq r 0x85
    || nat_eq r 0xa0
    || nat_eq r 0x1680
    || (leb 0x2000 r && leb r 0x200a)
    || nat_eq r 0x2028
    || nat_eq r 0x2029
    || nat_eq r 0x202f
    || nat_eq r 0x205f
    || nat_eq r 0x3000

-- `unicode.IsControl`
unfoldable pub is_control : ℕ → Bool
is_control r = ltb r 32 || (leb 127 r && leb r 159)

trim_left_from : ℕ → GoString → GoString
trim_left_from skip [] = []
trim_left_from zero (a ∷ s) =
    let (r, n) = decode_rune (a ∷ s) in if is_space r then trim_left_from (n - 1) s else a ∷ s
trim_left_from (suc k) (a ∷ s) = trim_left_from k s

-- The bytes of the last rune must be all that is left from where it starts.
whole_rune : GoString → ℕ × ℕ
whole_rune s = let (r, n) = decode_rune s in if nat_eq n (length s) then (r, n) else (rune_error, 1)

last_rune_from : ℕ → GoString → GoString → ℕ × ℕ
unfolding whole_rune
last_rune_from zero tail before = (rune_error, 1)
last_rune_from (suc k) tail [] = whole_rune tail
last_rune_from (suc k) tail (a ∷ before) =
    if rune_start a then whole_rune (a ∷ tail) else last_rune_from k (a ∷ tail) before

-- `utf8.DecodeLastRuneInString` of the string whose bytes are given last to first.
decode_last_rune : GoString → ℕ × ℕ
unfolding last_rune_from
decode_last_rune [] = (rune_error, 0)
decode_last_rune (a ∷ before) = if ltb a 0x80 then (a, 1) else last_rune_from 3 (a ∷ []) before

trim_right_from : ℕ → GoString → GoString
trim_right_from skip [] = []
trim_right_from zero (a ∷ s) =
    let (r, n) = decode_last_rune (a ∷ s) in if is_space r then trim_right_from (n - 1) s else a ∷ s
trim_right_from (suc k) (a ∷ s) = trim_right_from k s

-- `strings.TrimSpace`
unfoldable pub trim_space : GoString → GoString
unfolding decode_rune trim_left_from trim_right_from decode_last_rune is_space
trim_space s = reverse (trim_right_from 0 (reverse (trim_left_from 0 s)))

trim_space_both_ends : trim_space (text "  a b ") ≡ text "a b"
unfolding trim_space
trim_space_both_ends = refl

-- U+00A0 and U+3000 are spaces, a lone continuation byte is not.
trim_space_wide :
    trim_space (0xc2 ∷ 0xa0 ∷ b'x' ∷ 0x80 ∷ 0xe3 ∷ 0x80 ∷ 0x80 ∷ []) ≡ b'x' ∷ 0x80 ∷ []
unfolding trim_space
trim_space_wide = refl
