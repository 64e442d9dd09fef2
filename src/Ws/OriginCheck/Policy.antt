-- ===== src/Ws/OriginCheck/Policy.antt =====
-- What a list of allowed origins lets through.
use midnight_council.Base.{
  ◌≡◌, ◌≢◌, refl, ◌⊎◌, inl, inr, sym, Bool, false, ◌||◌, List, [], ◌∷◌, arith, ◌==◌, is_some,
  Bool-cases,
}
use midnight_council.Base.Dict.{lookup, insert}
use midnight_council.Base.Dict.Laws.{lookup-insert}
use midnight_council.Text.{GoString, str_Eq, str_eq_iff}
use midnight_council.Ws.OriginCheck.{
  Web, OriginError, OriginResult, fine, bad, OriginRequest, OriginPolicy, normalize_origin,
  add_allowed, new_origin_policy, listed, policy_allows,
}

abbrev pub same_outcome : OriginResult GoString → OriginResult GoString → Bool
same_outcome (fine a) (fine b) = a == b
same_outcome _ _ = false

-- Whether two origins are the same, up to space around them and to upper and lower case.
unfoldable pub same_origin : Web → GoString → GoString → Bool
same_origin web a b = same_outcome (normalize_origin web a) (normalize_origin web b)

unfoldable pub any_same : Web → GoString → List GoString → Bool
any_same web origin [] = false
any_same web origin (first ∷ rest) = same_origin web first origin || any_same web origin rest

OriginResult-cases {ℓ} :
    {A : Type ℓ} (o : OriginResult A) → ((e : OriginError) × (o ≡ bad e)) ⊎ ((a : A) × (o ≡ fine a))
OriginResult-cases (bad e) = inl (e, refl)
OriginResult-cases (fine a) = inr (a, refl)

add_allowed-lookup :
    (web : Web) (origins : List GoString) (policy after : OriginPolicy) (raw origin : GoString)
    → add_allowed web origins policy ≡ fine after
    → normalize_origin web raw ≡ fine origin
    → is_some (lookup origin after.allowed)
      ≡ (is_some (lookup origin policy.allowed) || any_same web raw origins)
unfolding add_allowed any_same same_origin
add_allowed-lookup web [] policy after raw origin made known = ground (arith, made)
add_allowed-lookup web (first ∷ origins) policy after raw origin made known =
    elim (OriginResult-cases (normalize_origin web first)) [
      | inl (e, wrong) ↦ absurd (ground (arith, wrong, made))
      | inr (allowed, right) ↦ do
        let next : OriginPolicy = record policy { allowed = insert allowed tt policy.allowed }
        let rest =
            add_allowed-lookup web origins next after raw origin (ground (arith, made, right)) known
        ground (arith, rest, right, known, lookup-insert allowed origin tt policy.allowed)
    ]

new_origin_policy-lookup :
    (web : Web) (origins : List GoString) (policy : OriginPolicy) (raw origin : GoString)
    → new_origin_policy web origins ≡ fine policy
    → normalize_origin web raw ≡ fine origin
    → is_some (lookup origin policy.allowed) ≡ any_same web raw origins
unfolding new_origin_policy lookup
new_origin_policy-lookup web origins policy raw origin made known =
    ground
      (arith, add_allowed-lookup web origins (record { allowed = [] }) policy raw origin made known)

first_normal :
    (web : Web) (first : GoString) (rest : List GoString) (policy : OriginPolicy)
    → new_origin_policy web (first ∷ rest) ≡ fine policy
    → (origin : GoString) × (normalize_origin web first ≡ fine origin)
unfolding new_origin_policy add_allowed
first_normal web first rest policy made = elim (OriginResult-cases (normalize_origin web first)) [
  | inl (e, wrong) ↦ absurd (ground (arith, wrong, made))
  | inr right ↦ right
]

-- Where origins are configured, none stays out.
new_origin_policy_nonempty :
    (web : Web) (first : GoString) (rest : List GoString) (policy : OriginPolicy)
    → new_origin_policy web (first ∷ rest) ≡ fine policy
    → policy.allowed ≢ []
unfolding any_same same_origin lookup
new_origin_policy_nonempty web first rest policy made empty = do
  let (origin, right) = first_normal web first rest policy made
  let found = new_origin_policy-lookup web (first ∷ rest) policy first origin made right
  ground (arith, found, right, empty, str_eq_iff origin origin)

listed_nonempty :
    (web : Web) (policy : OriginPolicy) (request : OriginRequest) (origin : GoString)
    → policy.allowed ≢ []
    → listed web policy request origin ≡ is_some (lookup origin policy.allowed)
unfolding listed
listed_nonempty web policy request origin some_allowed = ground (arith, some_allowed)

any_same_bad :
    (web : Web) (raw : GoString) (e : OriginError) (origins : List GoString)
    → normalize_origin web raw ≡ bad e
    → any_same web raw origins ≡ false
unfolding any_same same_origin
any_same_bad web raw e [] wrong = refl
any_same_bad web raw e (first ∷ rest) wrong = ground (
  arith,
  OriginResult-cases (normalize_origin web first),
  wrong,
  any_same_bad web raw e rest wrong,
)

-- Where origins are configured and all of them can be read, a request is let through exactly when it
-- names no origin or one that is the same as a configured one after both have been normalized.
pub policy_allows_lem :
    (web : Web) (first : GoString) (rest : List GoString) (policy : OriginPolicy)
    (request : OriginRequest)
    → new_origin_policy web (first ∷ rest) ≡ fine policy
    → policy_allows web policy request
      ≡ (request.origin == [] || any_same web request.origin (first ∷ rest))
unfolding policy_allows
policy_allows_lem web first rest policy request made = elim (Bool-cases (request.origin == [])) [
  | inl absent ↦ rw (policy_allows, absent) refl
  | inr given ↦ elim (OriginResult-cases (normalize_origin web request.origin)) [
    | inl (e, wrong) ↦
        rw (policy_allows, given, wrong)
          (sym (any_same_bad web request.origin e (first ∷ rest) wrong))
    | inr (origin, right) ↦
        rw
          (
            policy_allows,
            given,
            right,
            listed_nonempty web policy request origin
                (new_origin_policy_nonempty web first rest policy made),
            new_origin_policy-lookup web (first ∷ rest) policy request.origin origin made right,
          )
          refl
  ]
]
