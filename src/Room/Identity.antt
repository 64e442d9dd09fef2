-- ===== src/Room/Identity.antt =====
-- internal/room/identity.go: the identity that a client joins with.
use midnight_council.Base.{
  ℕ, Bool, true, false, not, ◌&&◌, ◌||◌, List, [], ◌∷◌, ltb, leb, nat_eq, ◌==◌, length,
}
use midnight_council.Text.{
  GoString, str_Eq, runes, valid_string, rune_count, trim_space, is_control,
}
use midnight_council.Room.Errors.{
  Result, ok, player_id_required, invalid_player_id, player_name_required, invalid_player_name,
  player_name_too_long, ◌>>◌, reject,
}

-- The bounds of state.go
abbrev pub max_player_id_bytes : ℕ
max_player_id_bytes = 64

abbrev pub max_player_name_bytes : ℕ
max_player_name_bytes = 128

abbrev pub max_player_name_runes : ℕ
max_player_name_runes = 32

unfoldable pub id_character : ℕ → Bool
id_character c =
    (leb b'a' c && leb c b'z')
    || (leb b'A' c && leb c b'Z')
    || (leb b'0' c && leb c b'9')
    || nat_eq c b'-'
    || nat_eq c b'_'

-- `for _, character := range playerID`
unfoldable pub all_id_characters : List (ℕ × ℕ) → Bool
unfolding id_character
all_id_characters [] = true
all_id_characters ((r, n) ∷ rs) = id_character r && all_id_characters rs

any_control : List (ℕ × ℕ) → Bool
any_control [] = false
any_control ((r, n) ∷ rs) = is_control r || any_control rs

unfoldable pub normalize_participant_identity : GoString → GoString → Result (GoString × GoString)
unfolding any_control all_id_characters
normalize_participant_identity raw_id raw_name = do
  let player_id = trim_space raw_id
  reject (player_id == []) player_id_required
  reject (ltb max_player_id_bytes (length player_id)) invalid_player_id
  reject (not (all_id_characters (runes player_id))) invalid_player_id
  let player_name = trim_space raw_name
  reject (player_name == []) player_name_required
  reject (not (valid_string player_name)) invalid_player_name
  reject
      (ltb max_player_name_bytes (length player_name)
        || ltb max_player_name_runes (rune_count player_name))
      player_name_too_long
  reject (any_control (runes player_name)) invalid_player_name
  ok (player_id, player_name)
