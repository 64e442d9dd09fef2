-- ===== src/Room/Rules/Deck.antt =====
-- The deck that `RuleSet.RoleDeck` of internal/room/rules.go builds: its size, and how often each
-- role is in it.
use midnight_council.Base.{
  ℕ, pos, zero, suc, ◌+◌, ◌-◌, ◌<◌, ◌≤◌, int_lt, ◌≡◌, refl, true, List, [], ◌∷◌, ◌++◌,
  if◌then◌else◌, length, length-append, count_if, arith,
}
use midnight_council.Room.Types.{Role, villager, killer, role_eq, role_Eq, role_eq_iff}
use midnight_council.Room.Errors.{ok}
use midnight_council.Room.Rules.{
  RuleSet, RoleConfiguration, configured_role_count, special_cards, fill_with, role_deck,
  default_rule_set, validate_role_configuration,
}

abbrev pub count_role : Role → List Role → ℕ
count_role r = count_if (λ x. role_eq x r)

pub count_role-append :
    (r : Role) (xs ys : List Role) → count_role r (xs ++ ys) ≡ count_role r xs + count_role r ys
count_role-append r [] ys = omega arith
count_role-append r (x ∷ xs) ys = ground (arith, count_role-append r xs ys)

length-fill_with : (n : ℕ) (r : Role) → length (fill_with n r) ≡ n
unfolding fill_with
length-fill_with zero r = refl
length-fill_with (suc n) r = omega (arith, length-fill_with n r)

-- The special cards leave a place for a villager.
special_cards_fit :
    (order : List Role) (dealt players : ℕ) (c : RoleConfiguration)
    → dealt < players
    → length (special_cards order dealt players c) + dealt < players
unfolding special_cards
special_cards_fit [] dealt players c h = omega arith
special_cards_fit (role ∷ rest) dealt players c h =
    ground (
      arith,
      special_cards_fit rest dealt players c h,
      special_cards_fit rest (dealt + 1) players c,
    )

special_cards_nobody :
    (order : List Role) (dealt : ℕ) (c : RoleConfiguration) → special_cards order dealt 0 c ≡ []
unfolding special_cards
special_cards_nobody [] dealt c = refl
special_cards_nobody (role ∷ rest) dealt c = ground (arith, special_cards_nobody rest dealt c)

-- The deck has a card for each player.
pub length-role_deck :
    (r : RuleSet) (players : ℕ) (c : RoleConfiguration) → length (role_deck r players c) ≡ players
unfolding role_deck
length-role_deck r zero c =
    ground (arith, special_cards_nobody r.deck_order 0 c, length-fill_with 0 villager)
length-role_deck r (suc n) c =
    let cards = special_cards r.deck_order 0 (suc n) c in
    let filler = fill_with (suc n - length cards) villager in
    omega (
      arith,
      special_cards_fit r.deck_order 0 (suc n) c,
      length-append cards filler,
      length-fill_with (suc n - length cards) villager,
    )

count_role-fill_with :
    (r x : Role) (n : ℕ) → count_role r (fill_with n x) ≡ (if role_eq x r then n else 0)
unfolding fill_with
count_role-fill_with r x zero = ground arith
count_role-fill_with r x (suc n) = ground (arith, count_role-fill_with r x n)

-- A role is in the special cards at most as often as in the order.
special_cards_bounded :
    (r : Role) (order : List Role) (dealt players : ℕ) (c : RoleConfiguration)
    → count_role r (special_cards order dealt players c) ≤ count_role r order
unfolding special_cards
special_cards_bounded r [] dealt players c = omega arith
special_cards_bounded r (role ∷ rest) dealt players c = ground (
  arith,
  special_cards_bounded r rest dealt players c,
  special_cards_bounded r rest (dealt + 1) players c,
)

-- A role that the configuration counts and that comes first is in the special cards.
special_cards_first :
    (r : Role) (rest : List Role) (players : ℕ) (c : RoleConfiguration)
    → 1 < players
    → int_lt (pos 0) (configured_role_count c r) ≡ true
    → 0 < count_role r (special_cards (r ∷ rest) 0 players c)
unfolding special_cards
special_cards_first r rest players c many wanted = ground (arith, role_eq_iff r r)

-- For two players or more, the deck of the default rules has one killer, under a configuration that
-- these rules accept.
pub role_deck_one_killer :
    (players : ℕ) (c : RoleConfiguration)
    → 1 < players
    → validate_role_configuration default_rule_set c ≡ ok tt
    → count_role killer (role_deck default_rule_set players c) ≡ 1
unfolding role_deck validate_role_configuration default_rule_set role_eq configured_role_count
role_deck_one_killer players c many accepted =
    let order = default_rule_set.deck_order in
    let cards = special_cards order 0 players c in
    let filler = fill_with (players - length cards) villager in
    ground (
      arith,
      count_role-append killer cards filler,
      count_role-fill_with killer villager (players - length cards),
      special_cards_bounded killer order 0 players c,
      special_cards_first killer _ players c many,
    )
