-- ===== src/Room/Errors.antt =====
-- The errors of internal/room, and what a fallible function returns.
use midnight_council.Base.{◌≡◌, refl, ◌⊎◌, inl, inr, Bool, true, false}

pub data Error : Type 0 where
  -- state.go
  player_id_required invalid_player_id player_name_required invalid_player_name : Error
  player_name_too_long player_not_found reconnect_token_required : Error
  invalid_reconnect_token owner_only room_not_waiting room_not_joinable room_locked : Error
  room_full spectator_limit_reached wrong_phase game_finished not_enough_players : Error
  players_not_ready empty_message message_too_long player_dead invalid_target : Error
  self_target_not_allowed role_has_no_night_action shooter_only shooter_already_used : Error
  phase_deadline_not_reached participant_type_mismatch spectator_cannot_chat : Error
  last_words_speaker_only participant_not_found cannot_kick_owner kick_not_allowed : Error
  invalid_owner_target player_limit_out_of_range : Error
  player_limit_below_current already_waiting duplicate_client_event : Error
  -- rules.go and settings.go
  invalid_rule_set invalid_game_preset invalid_phase_duration minimum_players_out_of_range : Error
  minimum_players_above_limit invalid_role_configuration player_limit_below_minimum : Error
  -- what `cryptorand` reports, and the event type that `Apply` does not know
  no_entropy unknown_room_event : Error
  connection_replaced kicked : Error

pub data Result {ℓ} (V : Type ℓ) : Type ℓ where
  ok : V → Result V
  err : Error → Result V

-- A call whose error is returned as it is; the second forms the rest of a `do` block.
infixl 5 ◌>>◌ ◌>>=◌
abbrev pub ◌>>=◌ {ℓ κ} : {V : Type ℓ} {W : Type κ} → Result V → (V → Result W) → Result W
err failure >>= next = err failure
ok value >>= next = next value

abbrev pub ◌>>◌ {κ} : {W : Type κ} → Result (Unit {0}) → Result W → Result W
test >> next = test >>= λ _. next

-- `if test { return e }`
abbrev pub reject : Bool → Error → Result (Unit {0})
reject true e = err e
reject false e = ok tt

-- `if err != nil { return e }`, which replaces the error of the call.
abbrev pub or_else {ℓ} : {A : Type ℓ} → Result A → Error → Result A
or_else (ok a) e = ok a
or_else (err _) e = err e

pub Result-cases {ℓ} :
    {A : Type ℓ} (r : Result A) → ((e : Error) × (r ≡ err e)) ⊎ ((a : A) × (r ≡ ok a))
Result-cases (ok a) = inr (a, refl)
Result-cases (err e) = inl (e, refl)

-- `err == nil`
abbrev pub is_ok {ℓ} : {A : Type ℓ} → Result A → Bool
is_ok (ok a) = true
is_ok (err e) = false
