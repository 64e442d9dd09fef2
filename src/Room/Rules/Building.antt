-- ===== src/Room/Rules/Building.antt =====
-- What `NewRuleSet` of internal/room/rules.go makes of the role rules it accepts.
use midnight_council.Base.{
  ℤ, pos, int_eq, ◌≡◌, ◌≢◌, refl, ap, ◌∙◌, subst, negsuc, inl, inr, true, false, List, [], ◌∷◌,
  Option, none, some, is_some, arith, All,
}
use midnight_council.Base.Dict.{lookup}
use midnight_council.Base.Dict.Laws.{lookup-insert}
use midnight_council.Room.Types.{
  Role, villager, role_Eq, role_eq_iff, NightActionType, action_Eq, action_eq_iff,
}
use midnight_council.Room.Errors.{ok, Result-cases}
use midnight_council.Room.Rules.{
  RuleSet, RoleRule, NightActionRule, new_rule_set, add_role_rules, add_role_rule, add_night_action,
  check_deck, contains, priority_conflict,
}

-- The rule set knows a rule under its role, and its night action with its priority.
abbrev pub Holds : RuleSet → RoleRule → Type 0
Holds r rule =
    (lookup rule.role r.roles ≡ some rule)
    × ((a : NightActionRule)
        → rule.night_action ≡ some a
        → lookup a.type r.night_priorities ≡ some a.priority)

int_eq-same : (a b : ℤ) → int_eq a b ≡ true → a ≡ b
int_eq-same (pos a) (pos b) h = ap pos (ground arith)
int_eq-same (pos a) (negsuc b) h = absurd (ground arith)
int_eq-same (negsuc a) (pos b) h = absurd (ground arith)
int_eq-same (negsuc a) (negsuc b) h = ap negsuc (ground arith)

-- A night action keeps the priorities that are there.
night_action_keeps :
    (r : RuleSet) (a : NightActionRule) (q : List (NightActionType × ℤ)) (t : NightActionType)
    (n : ℤ)
    → add_night_action r (some a) ≡ ok q
    → lookup t r.night_priorities ≡ some n
    → lookup t q ≡ some n
unfolding add_night_action priority_conflict
night_action_keeps r a q t n e there = ground (
  arith,
  lookup-insert a.type t a.priority r.night_priorities,
  action_eq_iff a.type t,
  int_eq-same n a.priority,
)

night_action_there :
    (r : RuleSet) (a : NightActionRule) (q : List (NightActionType × ℤ))
    → add_night_action r (some a) ≡ ok q
    → lookup a.type q ≡ some a.priority
unfolding add_night_action
night_action_there r a q e =
    ground (
      arith,
      lookup-insert a.type a.type a.priority r.night_priorities,
      action_eq_iff a.type a.type,
    )

night_action_keeps_all :
    (r : RuleSet) (action : Option NightActionRule) (q : List (NightActionType × ℤ))
    (t : NightActionType) (n : ℤ)
    → add_night_action r action ≡ ok q
    → lookup t r.night_priorities ≡ some n
    → lookup t q ≡ some n
night_action_keeps_all r none q t n e there = unfold add_night_action in ground arith
night_action_keeps_all r (some a) q t n e there = night_action_keeps r a q t n e there

-- What one more rule leaves and adds.
rule_keeps :
    (r r' : RuleSet) (rule old : RoleRule)
    → add_role_rule r rule ≡ ok r'
    → Holds r old
    → Holds r' old
unfolding add_role_rule
rule_keeps r r' rule old e h = elim (Result-cases (add_night_action r rule.night_action)) [
  | inl (x, bad) ↦ absurd (ground arith)
  | inr (q, good) ↦ (
    ground (arith, lookup-insert rule.role old.role rule r.roles, role_eq_iff rule.role old.role),
    λ a acts.
        ground
          (arith, night_action_keeps_all r rule.night_action q a.type a.priority good, h.1 a acts),
  )
]

rule_there : (r r' : RuleSet) (rule : RoleRule) → add_role_rule r rule ≡ ok r' → Holds r' rule
unfolding add_role_rule
rule_there r r' rule e = elim (Result-cases (add_night_action r rule.night_action)) [
  | inl (x, bad) ↦ absurd (ground arith)
  | inr (q, good) ↦ (
    ground (arith, lookup-insert rule.role rule.role rule r.roles, role_eq_iff rule.role rule.role),
    λ a acts. ground (arith, night_action_there r a q),
  )
]

rules_keep :
    (rules : List RoleRule) (r r' : RuleSet) (old : RoleRule)
    → add_role_rules rules r ≡ ok r'
    → Holds r old
    → Holds r' old
unfolding add_role_rules
rules_keep [] r r' old e h = let same : r ≡ r' = ground arith in subst (λ x. Holds x old) same h
rules_keep (rule ∷ rules) r r' old e h = elim (Result-cases (add_role_rule r rule)) [
  | inl (x, bad) ↦ absurd (ground arith)
  | inr (next, good) ↦
      rules_keep rules next r' old (ground arith) (rule_keeps r next rule old good h)
]

rules_there :
    (rules : List RoleRule) (r r' : RuleSet) → add_role_rules rules r ≡ ok r' → All (Holds r') rules
unfolding add_role_rules
rules_there [] r r' e = tt
rules_there (rule ∷ rules) r r' e = elim (Result-cases (add_role_rule r rule)) [
  | inl (x, bad) ↦ absurd (ground arith)
  | inr (next, good) ↦ (
    rules_keep rules next r' rule (ground arith) (rule_there r next rule good),
    rules_there rules next r' (ground arith),
  )
]

-- No role stands twice in the deck, none is the villager, and each has a rule.
abbrev pub IsDeck : RuleSet → List Role → Type 0
IsDeck r [] = Unit
IsDeck r (role ∷ rest) =
    (role ≢ villager)
    × (contains role rest ≡ false)
    × (is_some (lookup role r.roles) ≡ true)
    × IsDeck r rest

deck_unseen :
    (r : RuleSet) (seen deck : List Role) (role : Role)
    → check_deck r seen deck ≡ ok tt
    → contains role seen ≡ true
    → contains role deck ≡ false
unfolding check_deck contains
deck_unseen r seen [] role e h = refl
deck_unseen r seen (x ∷ deck) role e h =
    ground (arith, role_eq_iff x role, deck_unseen r (x ∷ seen) deck role)

check_deck_lem :
    (r : RuleSet) (seen deck : List Role) → check_deck r seen deck ≡ ok tt → IsDeck r deck
unfolding check_deck contains
check_deck_lem r seen [] e = tt
check_deck_lem r seen (x ∷ deck) e = ground (
  arith,
  role_eq_iff x villager,
  role_eq_iff x x,
  deck_unseen r (x ∷ seen) deck x,
  check_deck_lem r (x ∷ seen) deck,
)

add_role_rule_deck :
    (r r' : RuleSet) (rule : RoleRule) → add_role_rule r rule ≡ ok r' → r'.deck_order ≡ r.deck_order
unfolding add_role_rule
add_role_rule_deck r r' rule e = elim (Result-cases (add_night_action r rule.night_action)) [
  | inl (x, bad) ↦ absurd (ground arith)
  | inr (q, good) ↦ ground arith
]

add_role_rules_deck :
    (rules : List RoleRule) (r r' : RuleSet)
    → add_role_rules rules r ≡ ok r'
    → r'.deck_order ≡ r.deck_order
unfolding add_role_rules
add_role_rules_deck [] r r' e = ground arith
add_role_rules_deck (rule ∷ rules) r r' e = elim (Result-cases (add_role_rule r rule)) [
  | inl (x, bad) ↦ absurd (ground arith)
  | inr (next, good) ↦
      add_role_rules_deck rules next r' (ground arith) ∙ add_role_rule_deck r next rule good
]

-- A rule set that is accepted finds each of the rules it was made of under its role, gives the
-- action type of each the priority that the rule states, has a rule for the villager, and deals from
-- the order that was given, which names no role twice, no villager, and no role without a rule.
pub new_rule_set_lem :
    (rules : List RoleRule) (deck : List Role) (r : RuleSet)
    → new_rule_set rules deck ≡ ok r
    → All (Holds r) rules
      × (is_some (lookup villager r.roles) ≡ true)
      × (r.deck_order ≡ deck)
      × IsDeck r r.deck_order
unfolding new_rule_set
new_rule_set_lem rules deck r e =
    let empty : RuleSet = record { roles = []; night_priorities = []; deck_order = deck } in
    elim (Result-cases (add_role_rules rules empty)) [
      | inl (x, bad) ↦ absurd (ground arith)
      | inr (made, good) ↦ elim (Result-cases (check_deck made [] deck)) [
        | inl (x, bad) ↦ absurd (ground arith)
        | inr (u, checked) ↦
            let same : made ≡ r = ground arith in
            let given : made.deck_order ≡ deck = add_role_rules_deck rules empty made good in
            subst
              (λ x.
                All (Holds x) rules
                × (is_some (lookup villager x.roles) ≡ true)
                × (x.deck_order ≡ deck)
                × IsDeck x x.deck_order)
              same
              (
                rules_there rules empty made good,
                ground arith,
                given,
                rw given (check_deck_lem made [] deck (ground arith)),
              )
      ]
    ]
