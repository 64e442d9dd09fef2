-- ===== src/Room/Rules.antt =====
-- internal/room/rules.go: what each role can do, the deck of roles and the order of night actions.
pub mod Deck
pub mod Building
use midnight_council.Base.{
  ℕ, ℤ, pos, int_lt, int_eq, zero, suc, ◌+◌, ◌-◌, ◌^◌, ◌≡◌, refl, Bool, true, false, not, ◌&&◌,
  ◌||◌, List, [], ◌∷◌, ◌++◌, map, Option, none, some, ltb, nat_eq, ◌==◌, if◌then◌else◌, is_some,
  length, arith,
}
use midnight_council.Base.Dict.{lookup, insert}
use midnight_council.Base.Sort.{sort_by}
use midnight_council.Text.{GoString, str_lt}
use midnight_council.Room.Types.{
  Role, no_role, villager, killer, detective, doctor, escort, shooter, role_Eq, NightActionType,
  no_action, kill, investigate, protect, block, pass, action_Eq, NightAction,
}
use midnight_council.Room.Errors.{
  Result, ok, err, invalid_rule_set, invalid_role_configuration, ◌>>=◌, ◌>>◌, reject,
}

-- `no_faction` is the empty string.
pub data Faction : Type 0 where
  no_faction council killers : Faction
  custom : GoString → Faction

pub record NightActionRule : Type 0 where
  pub type : NightActionType
  pub priority : ℤ
  pub allow_self_target : Bool

pub record RoleRule : Type 0 where
  pub role : Role
  pub faction : Faction
  pub night_action : Option NightActionRule
  pub can_shoot : Bool

pub record RuleSet : Type 0 where
  pub roles : List (Role × RoleRule)
  pub night_priorities : List (NightActionType × ℤ)
  pub deck_order : List Role

-- settings.go
pub record RoleConfiguration : Type 0 where
  pub killers : ℤ
  pub detectives : ℤ
  pub doctors : ℤ
  pub escorts : ℤ
  pub shooters : ℤ

abbrev is_no_faction : Faction → Bool
is_no_faction no_faction = true
is_no_faction _ = false

-- The priority of an action type that another role has already given.
unfoldable pub priority_conflict : Option ℤ → ℤ → Bool
priority_conflict none p = false
priority_conflict (some q) p = not (int_eq q p)

unfoldable pub add_night_action :
    RuleSet → Option NightActionRule → Result (List (NightActionType × ℤ))
unfolding priority_conflict
add_night_action rules none = ok rules.night_priorities
add_night_action rules (some action) = do
  reject (action.type == no_action || int_lt action.priority (pos 0)) invalid_rule_set
  reject (priority_conflict (lookup action.type rules.night_priorities) action.priority)
      invalid_rule_set
  ok (insert action.type action.priority rules.night_priorities)

-- One round of the loop over the role rules.
unfoldable pub add_role_rule : RuleSet → RoleRule → Result RuleSet
unfolding add_night_action
add_role_rule rules rule = do
  reject (rule.role == no_role || is_no_faction rule.faction) invalid_rule_set
  reject (is_some (lookup rule.role rules.roles)) invalid_rule_set
  priorities ← add_night_action rules rule.night_action
  ok (record rules { roles = insert rule.role rule rules.roles; night_priorities = priorities })

unfoldable pub add_role_rules : List RoleRule → RuleSet → Result RuleSet
add_role_rules [] rules = ok rules
add_role_rules (rule ∷ rest) rules = do next ← add_role_rule rules rule; add_role_rules rest next

pub contains : Role → List Role → Bool
contains role [] = false
contains role (r ∷ rs) = r == role || contains role rs

-- The loop over the deck order; `seen` holds the roles met so far.
unfoldable pub check_deck : RuleSet → List Role → List Role → Result (Unit {0})
check_deck rules seen [] = ok tt
check_deck rules seen (role ∷ rest) = do
  reject (role == villager) invalid_rule_set
  reject (contains role seen) invalid_rule_set
  reject (not (is_some (lookup role rules.roles))) invalid_rule_set
  check_deck rules (role ∷ seen) rest

unfoldable pub new_rule_set : List RoleRule → List Role → Result RuleSet
unfolding add_role_rules add_role_rule check_deck contains
new_rule_set role_rules deck_order = do
  rules ←
      add_role_rules role_rules
        (record { roles = []; night_priorities = []; deck_order = deck_order })
  reject (not (is_some (lookup villager rules.roles))) invalid_rule_set
  check_deck rules [] deck_order
  ok rules

abbrev night_rule : NightActionType → ℕ → Bool → Option NightActionRule
night_rule type priority self =
    some (record { type = type; priority = pos priority; allow_self_target = self })

abbrev pub default_role_rules : List RoleRule
default_role_rules =
    record { role = villager; faction = council; night_action = none; can_shoot = false }
    ∷ record {
      role = killer;
      faction = killers;
      night_action = night_rule kill 30 false;
      can_shoot = false;
    }
    ∷ record {
      role = detective;
      faction = council;
      night_action = night_rule investigate 40 false;
      can_shoot = false;
    }
    ∷ record {
      role = doctor;
      faction = council;
      night_action = night_rule protect 20 true;
      can_shoot = false;
    }
    ∷ record {
      role = escort;
      faction = council;
      night_action = night_rule block 10 false;
      can_shoot = false;
    }
    ∷ record { role = shooter; faction = council; night_action = none; can_shoot = true }
    ∷ []

abbrev pub default_deck_order : List Role
default_deck_order = killer ∷ detective ∷ doctor ∷ escort ∷ shooter ∷ []

empty_rule_set : RuleSet
empty_rule_set = record { roles = []; night_priorities = []; deck_order = [] }

-- `mustRuleSet` panics where `NewRuleSet` fails; there the model has an empty rule set.
must_rule_set : Result RuleSet → RuleSet
unfolding empty_rule_set
must_rule_set (ok rules) = rules
must_rule_set (err e) = empty_rule_set

unfoldable pub default_rule_set : RuleSet
unfolding must_rule_set new_rule_set lookup insert
default_rule_set = must_rule_set (new_rule_set default_role_rules default_deck_order)

-- `RuleSet.Role`; the copy of the night action that Go makes is the value itself.
unfoldable pub role_rule : RuleSet → Role → Option RoleRule
role_rule r role = lookup role r.roles

abbrev action_of : Option RoleRule → Option NightActionRule
action_of none = none
action_of (some rule) = rule.night_action

unfoldable pub night_action_for_role : RuleSet → Role → Option NightActionRule
unfolding role_rule
night_action_for_role r role = action_of (role_rule r role)

abbrev shoots : Option RoleRule → Bool
shoots none = false
shoots (some rule) = rule.can_shoot

unfoldable pub can_shoot : RuleSet → Role → Bool
unfolding role_rule
can_shoot r role = shoots (role_rule r role)

abbrev sides_with_killers : Faction → Bool
sides_with_killers killers = true
sides_with_killers _ = false

abbrev kills : Option RoleRule → Bool
kills none = false
kills (some rule) = sides_with_killers rule.faction

unfoldable pub is_killer_aligned : RuleSet → Role → Bool
unfolding role_rule
is_killer_aligned r role = kills (role_rule r role)

unfoldable pub configured_role_count : RoleConfiguration → Role → ℤ
configured_role_count c killer = c.killers
configured_role_count c detective = c.detectives
configured_role_count c doctor = c.doctors
configured_role_count c escort = c.escorts
configured_role_count c shooter = c.shooters
configured_role_count c _ = pos 0

abbrev outside_0_1 : ℤ → Bool
outside_0_1 n = int_lt n (pos 0) || int_lt (pos 1) n

-- The loop over the five roles that a configuration counts.
deck_lacks : RuleSet → RoleConfiguration → List Role → Bool
unfolding configured_role_count contains
deck_lacks r c [] = false
deck_lacks r c (role ∷ rest) =
    (int_lt (pos 0) (configured_role_count c role) && not (contains role r.deck_order))
    || deck_lacks r c rest

unfoldable pub validate_role_configuration : RuleSet → RoleConfiguration → Result (Unit {0})
unfolding deck_lacks
validate_role_configuration r c = do
  reject
      (not (int_eq c.killers (pos 1))
        || outside_0_1 c.detectives
        || outside_0_1 c.doctors
        || outside_0_1 c.escorts
        || outside_0_1 c.shooters)
      invalid_role_configuration
  reject (deck_lacks r c (killer ∷ detective ∷ doctor ∷ escort ∷ shooter ∷ []))
      invalid_role_configuration

-- The loop over the deck order, with the number of cards dealt so far. `len(deck) < playerCount-1`
-- is read with the 1 on the other side, since a difference of natural numbers stops at 0.
unfoldable pub special_cards : List Role → ℕ → ℕ → RoleConfiguration → List Role
unfolding configured_role_count
special_cards [] dealt players c = []
special_cards (role ∷ rest) dealt players c =
    let skipped = special_cards rest dealt players c in
    let taken = role ∷ special_cards rest (dealt + 1) players c in
    if int_lt (pos 0) (configured_role_count c role) && ltb (dealt + 1) players
    then taken
    else skipped

-- `for len(deck) < playerCount`
unfoldable pub fill_with : ℕ → Role → List Role
fill_with zero role = []
fill_with (suc n) role = role ∷ fill_with n role

unfoldable pub role_deck : RuleSet → ℕ → RoleConfiguration → List Role
unfolding special_cards fill_with
role_deck r players c =
    let cards = special_cards r.deck_order 0 players c in
    cards ++ fill_with (players - length cards) villager

-- The largest `int`
abbrev pub max_int : ℕ
max_int = 2 ^ 63 - 1

abbrev priority_or_last : Option ℤ → ℤ
priority_or_last none = pos max_int
priority_or_last (some p) = p

unfoldable pub night_action_priority : RuleSet → NightActionType → ℤ
night_action_priority r type = priority_or_last (lookup type r.night_priorities)

-- The comparison of `sort.Slice`: by priority, then by player.
unfoldable pub action_before : RuleSet → NightAction → NightAction → Bool
unfolding night_action_priority
action_before r a b =
    let left = night_action_priority r a.type in
    let right = night_action_priority r b.type in
    if int_eq left right then str_lt a.player_id b.player_id else int_lt left right

unfoldable pub order_night_actions : RuleSet → List (GoString × NightAction) → List NightAction
unfolding action_before
order_night_actions r actions = sort_by (action_before r) (map (λ e. e.1) actions)
