-- ===== src/Room/Types.antt =====
-- internal/room/types.go: the values of the game. A string type with named constants is a data type
-- with a constructor for each constant; `custom` holds any other text.
use midnight_council.Base.{ℕ, ℤ, ◌≡◌, ◌↔◌, Bool, true, false, Option, arith, Eq}
use midnight_council.Text.{GoString, str_eq, str_eq_iff}

-- A time is its number of nanoseconds after the zero `time.Time`. All times are UTC.
abbrev pub Time : Type 0
Time = ℕ

abbrev pub zero_time : Time
zero_time = 0

-- `time.Duration`
abbrev pub Duration : Type 0
Duration = ℤ

pub data Phase : Type 0 where
  waiting night day_discussion day_voting last_words finished : Phase

unfoldable pub phase_eq : Phase → Phase → Bool
phase_eq waiting waiting = true
phase_eq night night = true
phase_eq day_discussion day_discussion = true
phase_eq day_voting day_voting = true
phase_eq last_words last_words = true
phase_eq finished finished = true
phase_eq _ _ = false

pub phase_eq_iff : (a b : Phase) → (phase_eq a b ≡ true) ↔ (a ≡ b)
unfolding phase_eq
phase_eq_iff a b = ground arith

instance abbrev pub phase_Eq : Eq Phase
phase_Eq = record { beq = phase_eq; beq_iff = phase_eq_iff }

pub data EventType : Type 0 where
  join leave ready start_game chat night_action night_pass start_vote vote shoot : EventType
  transfer_owner kick_participant set_room_locked set_player_limit set_game_settings : EventType
  set_game_preset presence return_to_waiting disconnect phase_timeout : EventType
  custom : GoString → EventType

-- `no_role` is the empty string, the role of a player before a game.
pub data Role : Type 0 where
  no_role villager killer detective doctor escort shooter : Role
  custom : GoString → Role

unfoldable pub role_eq : Role → Role → Bool
role_eq no_role no_role = true
role_eq villager villager = true
role_eq killer killer = true
role_eq detective detective = true
role_eq doctor doctor = true
role_eq escort escort = true
role_eq shooter shooter = true
role_eq (custom s) (custom t) = str_eq s t
role_eq _ _ = false

pub role_eq_iff : (a b : Role) → (role_eq a b ≡ true) ↔ (a ≡ b)
unfolding role_eq
role_eq_iff (custom s) (custom t) = ground (arith, str_eq_iff s t)
role_eq_iff a b = ground arith

instance abbrev pub role_Eq : Eq Role
role_Eq = record { beq = role_eq; beq_iff = role_eq_iff }

pub data Winner : Type 0 where
  villagers_win killers_win : Winner

-- `no_action` is the empty string.
pub data NightActionType : Type 0 where
  no_action kill investigate protect block pass : NightActionType
  custom : GoString → NightActionType

unfoldable pub action_eq : NightActionType → NightActionType → Bool
action_eq no_action no_action = true
action_eq kill kill = true
action_eq investigate investigate = true
action_eq protect protect = true
action_eq block block = true
action_eq pass pass = true
action_eq (custom s) (custom t) = str_eq s t
action_eq _ _ = false

pub action_eq_iff : (a b : NightActionType) → (action_eq a b ≡ true) ↔ (a ≡ b)
unfolding action_eq
action_eq_iff (custom s) (custom t) = ground (arith, str_eq_iff s t)
action_eq_iff a b = ground arith

instance abbrev pub action_Eq : Eq NightActionType
action_Eq = record { beq = action_eq; beq_iff = action_eq_iff }

pub data LogType : Type 0 where
  game_started night_started day_started night_eliminated night_no_elimination : LogType
  voting_started player_executed last_words_started vote_no_execution shooter_fired : LogType
  phase_timed_out game_finished : LogType

pub record Player : Type 0 where
  pub id : GoString
  pub name : GoString
  pub reconnect_token : GoString
  pub ready : Bool
  pub connected : Bool
  pub role : Role
  pub alive : Bool
  pub shooter_used : Bool
  pub afk : Bool
  pub last_client_sequence : ℕ
  pub joined_at : Time

pub record Spectator : Type 0 where
  pub id : GoString
  pub name : GoString
  pub reconnect_token : GoString
  pub connected : Bool
  pub afk : Bool
  pub last_client_sequence : ℕ
  pub joined_at : Time

pub record InvestigationResult : Type 0 where
  pub round : ℕ
  pub target_id : GoString
  pub target_name : GoString
  pub is_killer : Bool

pub record NightAction : Type 0 where
  pub player_id : GoString
  pub target_id : GoString
  pub type : NightActionType

pub record GameResult : Type 0 where
  pub winner : Winner
  pub reason : GoString
  pub finished_at : Time

-- The zero value of a field that an entry leaves out is `none` or the empty string.
pub record LogEntry : Type 0 where
  pub type : LogType
  pub round : ℕ
  pub phase : Option Phase
  pub player_id : GoString
  pub target_id : GoString
  pub winner : Option Winner
  pub reason : GoString
  pub at : Time

pub record ChatMessage : Type 0 where
  pub room_id : GoString
  pub player_id : GoString
  pub name : GoString
  pub message : GoString
  pub sent_at : Time
