-- ===== src/Text/Split.antt =====
-- `strings.Split`, `Cut`, `Trim` and `TrimPrefix`, at separators of one ASCII byte.
use mathlib.Core.List.{reverse}
use midnight_council.Base.{
  ℕ, ◌+◌, ◌≡◌, refl, Bool, true, false, ◌&&◌, List, [], ◌∷◌, Option, none, some, leb, nat_eq,
  if◌then◌else◌,
}
use midnight_council.Text.Bytes.{GoString, text}

-- The first part goes on with one more byte.
abbrev pub prepend : ℕ → List GoString → List GoString
prepend c [] = (c ∷ []) ∷ []
prepend c (part ∷ parts) = (c ∷ part) ∷ parts

unfoldable pub split : GoString → ℕ → List GoString
split [] sep = [] ∷ []
split (c ∷ s) sep = let parts = split s sep in if nat_eq c sep then [] ∷ parts else prepend c parts

-- `before, after, found := strings.Cut(s, sep)`, `none` where the separator is missing.
unfoldable pub cut : GoString → ℕ → Option (GoString × GoString)
cut [] sep = none
cut (c ∷ s) sep =
    let rest = cut s sep in
    if nat_eq c sep
    then some ([], s)
    else elim rest [ none ↦ none | some (before, after) ↦ some (c ∷ before, after) ]

unfoldable pub trim_left_byte : GoString → ℕ → GoString
trim_left_byte [] b = []
trim_left_byte (c ∷ s) b = let rest = trim_left_byte s b in if nat_eq c b then rest else c ∷ s

-- `strings.Trim(s, cutset)`, where the cutset is one byte.
unfoldable pub trim_byte : GoString → ℕ → GoString
trim_byte s b = reverse (trim_left_byte (reverse (trim_left_byte s b)) b)

abbrev pub strip : GoString → GoString → Option GoString
strip s [] = some s
strip [] (p ∷ prefix) = none
strip (c ∷ s) (p ∷ prefix) = let rest = strip s prefix in if nat_eq c p then rest else none

unfoldable pub trim_prefix : GoString → GoString → GoString
trim_prefix s prefix = elim (strip s prefix) [ none ↦ s | some rest ↦ rest ]

-- The ASCII part of `strings.ToLower`
abbrev pub ascii_lower : ℕ → ℕ
ascii_lower c = if leb b'A' c && leb c b'Z' then c + 32 else c

-- `strings.EqualFold`, where the second text is in lower case and has neither k nor s, the letters
-- that Unicode also folds with letters outside of ASCII.
unfoldable pub folds_to : GoString → GoString → Bool
folds_to [] [] = true
folds_to [] (b ∷ t) = false
folds_to (a ∷ s) [] = false
folds_to (a ∷ s) (b ∷ t) = nat_eq (ascii_lower a) b && folds_to s t

split_three : split (text "a,,b") b',' ≡ text "a" ∷ [] ∷ text "b" ∷ []
unfolding split
split_three = refl

trim_byte_quotes : trim_byte (text "\"a\"b\"\"") b'"' ≡ text "a\"b"
unfolding trim_byte trim_left_byte
trim_byte_quotes = refl

trim_prefix_path : trim_prefix (text "/ws/rooms/den") (text "/ws/rooms/") ≡ text "den"
unfolding trim_prefix
trim_prefix_path = refl

folds_to_for : folds_to (text "For") (text "for") ≡ true
unfolding folds_to
folds_to_for = refl

cut_equals : cut (text "for=a=b") b'=' ≡ some (text "for", text "a=b")
unfolding cut
cut_equals = refl
