-- ===== src/Ws/OriginCheck.antt =====
-- internal/ws/origin.go: which web pages may open a connection.
pub mod Policy
use midnight_council.Base.{
  ℕ, suc, ◌≡◌, Bool, true, false, not, ◌&&◌, ◌||◌, List, [], ◌∷◌, ◌++◌, Option, none, some,
  if◌then◌else◌, ◌==◌, length, is_some,
}
use midnight_council.Base.Dict.{lookup, insert}
use midnight_council.Text.{GoString, text, str_Eq, trim_space, split}

-- The fields of `url.URL` that the code reads; `user` tells whether there is one.
pub record Url : Type 0 where
  pub scheme : GoString
  pub host : GoString
  pub user : Bool
  pub path : GoString
  pub raw_query : GoString
  pub fragment : GoString

-- `url.Parse`, which is `none` for an error, with `strings.ToLower` and `strings.EqualFold`.
pub record Web : Type 0 where
  pub parse_url : GoString → Option Url
  pub to_lower : GoString → GoString
  pub equal_fold : GoString → GoString → Bool

pub data OriginError : Type 0 where
  invalid_origin wrong_scheme : GoString → OriginError

pub data OriginResult {ℓ} (V : Type ℓ) : Type ℓ where
  fine : V → OriginResult V
  bad : OriginError → OriginResult V

-- The headers of a request that are read here.
pub record OriginRequest : Type 0 where
  pub origin : GoString
  pub host : GoString

pub record OriginPolicy : Type 0 where
  pub allowed : List (GoString × Unit {0})

abbrev is_empty : GoString → Bool
is_empty s = s == []

module _ (web : Web) where
  -- An origin is a scheme and a host.
  unfoldable pub is_bare : Url → Bool
  is_bare u =
      not (is_empty u.scheme)
      && not (is_empty u.host)
      && not u.user
      && is_empty u.path
      && is_empty u.raw_query
      && is_empty u.fragment

  unfoldable pub normalized : GoString → Url → OriginResult GoString
  normalized raw u =
      if not (is_bare u)
      then bad (OriginError.invalid_origin raw)
      else if not (web.equal_fold u.scheme (text "http"))
          && not (web.equal_fold u.scheme (text "https"))
      then bad (OriginError.wrong_scheme raw)
      else fine (web.to_lower u.scheme ++ text "://" ++ web.to_lower u.host)

  unfoldable pub normalize_origin : GoString → OriginResult GoString
  normalize_origin raw = elim (web.parse_url (trim_space raw)) [
    | none ↦ bad (OriginError.invalid_origin raw)
    | some u ↦ normalized raw u
  ]

  abbrev add_origin :
      OriginResult GoString → OriginResult (List GoString) → OriginResult (List GoString)
  add_origin (bad e) rest = bad e
  add_origin (fine origin) (bad e) = bad e
  add_origin (fine origin) (fine origins) = fine (origin ∷ origins)

  -- The loop of `ParseAllowedOrigins`, which stops at the first error.
  unfoldable pub parse_origins : List GoString → OriginResult (List GoString)
  parse_origins [] = fine []
  parse_origins (part ∷ parts) = add_origin (normalize_origin part) (parse_origins parts)

  unfoldable pub parse_allowed_origins : GoString → OriginResult (List GoString)
  parse_allowed_origins raw =
      if is_empty (trim_space raw) then fine [] else parse_origins (split raw b',')

  -- The loop of `newOriginPolicy`
  unfoldable pub add_allowed : List GoString → OriginPolicy → OriginResult OriginPolicy
  add_allowed [] policy = fine policy
  add_allowed (raw ∷ origins) policy = elim (normalize_origin raw) [
    | bad e ↦ bad e
    | fine origin ↦
        add_allowed origins (record policy { allowed = insert origin tt policy.allowed })
  ]

  unfoldable pub new_origin_policy : List GoString → OriginResult OriginPolicy
  new_origin_policy origins = add_allowed origins (record { allowed = [] })

  -- Where no origin is configured, a page of the same host.
  unfoldable pub same_host : OriginRequest → GoString → Bool
  same_host request origin = elim (web.parse_url origin) [
    | none ↦ false
    | some u ↦ web.equal_fold u.host request.host
  ]

  unfoldable pub listed : OriginPolicy → OriginRequest → GoString → Bool
  listed policy request origin = elim policy.allowed [
    | [] ↦ same_host request origin
    | _ ∷ _ ↦ is_some (lookup origin policy.allowed)
  ]

  unfoldable pub policy_allows : OriginPolicy → OriginRequest → Bool
  policy_allows policy request =
      if is_empty request.origin then true else elim (normalize_origin request.origin) [
        | bad e ↦ false
        | fine origin ↦ listed policy request origin
      ]
