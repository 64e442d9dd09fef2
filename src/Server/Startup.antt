-- ===== src/Server/Startup.antt =====
-- The options that cmd/server/main.go makes of its configuration, given to `NewHub` and `NewHandler`.
use midnight_council.Base.{
  ◌≡◌, refl, subst, Bool, true, false, List, [], ◌∷◌, Option, none, some, arith, pos, int_lt, All,
  is_some,
}
use midnight_council.Base.Dict.{insert}
use midnight_council.Text.{GoString, str_Eq}
use midnight_council.Room.Timing.{durations_valid}
use midnight_council.Room.Hub.{new_hub, hub_options, hub_option, hub_valid, default_hub}
use midnight_council.Ws.Float.{Float64}
use midnight_council.Ws.RateLimit.{validate_event_limits}
use midnight_council.Ws.Admission.{validate_connection_limits}
use midnight_council.Ws.Proxy.{Netip}
use midnight_council.Ws.OriginCheck.{
  Web, OriginResult, fine, bad, normalize_origin, new_origin_policy, add_allowed, OriginPolicy,
}
use midnight_council.Ws.Handler.{
  new_handler, handler_options, handler_option, handler_valid, default_handler,
}
use midnight_council.Server.{
  Environment, Fatal, Start, runs, stops, ◌>>=◌, ◌>>◌, check, check_text, Config, read_config,
  read_phase_durations, read_rate_limits, read_connection_limits, hub_settings, handler_settings,
}

-- What holds of the result of a call that returns one.
pub data Ensures {ℓ κ} {V : Type ℓ} (P : V → Type κ) : Start V → Type (ℓ ⊔ κ) where
  returned : (v : V) → P v → Ensures P (runs v)
  stopped : (e : Fatal) → Ensures P (stops e)

ensure_bind {ℓ κ μ} :
    {V : Type ℓ} {W : Type κ} {P : W → Type μ} (m : Start V) (k : V → Start W)
    → ((v : V) → Ensures P (k v))
    → Ensures P (m >>= k)
unfolding ◌>>=◌
ensure_bind (runs v) k h = h v
ensure_bind (stops e) k h = Ensures.stopped e

ensure_call {ℓ κ μ ν} :
    {V : Type ℓ} {W : Type κ} {Q : V → Type ν} {P : W → Type μ} (m : Start V) (k : V → Start W)
    → Ensures Q m
    → ((v : V) → Q v → Ensures P (k v))
    → Ensures P (m >>= k)
unfolding ◌>>=◌
ensure_call (runs _) k (Ensures.returned v q) h = h v q
ensure_call (stops e) k q h = Ensures.stopped e

ensure_check {κ μ} :
    {W : Type κ} {P : W → Type μ} (b : Bool) (e : Fatal) (rest : Start W)
    → (b ≡ true → Ensures P rest)
    → Ensures P (check b e >> rest)
unfolding ◌>>=◌ ◌>>◌ check
ensure_check true e rest h = h refl
ensure_check false e rest h = Ensures.stopped e

ensure_text {κ μ} :
    {W : Type κ} {P : W → Type μ} (o : Option GoString) (e : GoString → Fatal) (rest : Start W)
    → (o ≡ none → Ensures P rest)
    → Ensures P (check_text o e >> rest)
unfolding ◌>>=◌ ◌>>◌ check_text
ensure_text none e rest h = h refl
ensure_text (some reason) e rest h = Ensures.stopped (e reason)

runs_eq {ℓ} : {V : Type ℓ} (v w : V) → runs v ≡ runs w → v ≡ w
runs_eq v w h = cc

ensured {ℓ κ} : {V : Type ℓ} {P : V → Type κ} (m : Start V) (v : V) → Ensures P m → m ≡ runs v → P v
ensured {P} (runs _) v (Ensures.returned w p) h = subst P (runs_eq w v h) p
ensured (stops e) v p h = cc

module _ {ℓ} {W : Type ℓ} ⦃f : Float64 W⦄ (env : Environment W) where
  durations_ensured : Ensures (λ d. durations_valid d ≡ true) (read_phase_durations env)
  unfolding read_phase_durations
  durations_ensured = ensure_bind _ _ λ night. ensure_bind _ _ λ discussion.
      ensure_bind _ _
        λ voting. ensure_bind _ _ λ words. ensure_check _ _ _ λ valid. Ensures.returned _ valid

  rate_limits_ensured :
      Ensures (λ limits. validate_event_limits limits ≡ none) (read_rate_limits env)
  unfolding read_rate_limits
  rate_limits_ensured =
      ensure_bind _ _
        λ chat. ensure_bind _ _ λ game. ensure_text _ _ _ λ valid. Ensures.returned _ valid

  connection_limits_ensured :
      Ensures (λ limits. validate_connection_limits limits ≡ none) (read_connection_limits env)
  unfolding read_connection_limits
  connection_limits_ensured = ensure_bind _ _ λ connections.
      ensure_bind _ _
        λ most. ensure_bind _ _ λ creates. ensure_text _ _ _ λ valid. Ensures.returned _ valid

-- The tests that a configuration has passed.
pub record IsChecked {ℓ κ} {W : Type ℓ} {Prefix : Type κ} ⦃f : Float64 W⦄ (c : Config W Prefix)
    : Type (ℓ ⊔ κ) where
  pub durations : durations_valid c.phase_durations ≡ true
  pub rates : validate_event_limits c.rate_limits ≡ none
  pub connections : validate_connection_limits c.connection_limits ≡ none
  pub rooms : int_lt (pos 0) c.max_rooms ≡ true
  pub spectators : int_lt (pos 0) c.max_spectators ≡ true

module _ {ℓ κ} {W : Type ℓ} {Addr Prefix : Type κ} ⦃f : Float64 W⦄ (net : Netip Addr Prefix)
    (web : Web) (env : Environment W) where
  config_ensured : Ensures IsChecked (read_config net web env)
  unfolding read_config
  config_ensured = ensure_bind _ _ λ address. ensure_bind _ _ λ idle.
      ensure_call _ _ (durations_ensured env) λ durations d.
        ensure_call _ _ (rate_limits_ensured env) λ rates r.
          ensure_call _ _ (connection_limits_ensured env) λ connections c.
            ensure_bind _ _ λ origins. ensure_bind _ _ λ proxies. ensure_bind _ _ λ max_rooms.
              ensure_check _ _ _ λ rooms. ensure_bind _ _ λ max_spectators.
                ensure_check _ _ _ λ spectators. Ensures.returned _ (record {
                  durations = d;
                  rates = r;
                  connections = c;
                  rooms = rooms;
                  spectators = spectators;
                })

abbrev pub is_fine {ℓ} : {V : Type ℓ} → OriginResult V → Bool
is_fine (fine v) = true
is_fine (bad e) = false

-- Origins that can be read.
abbrev pub AreReadable : Web → List GoString → Type 0
AreReadable web = All (λ origin. is_fine (normalize_origin web origin) ≡ true)

OriginResult-cases :
    (o : OriginResult GoString) → is_fine o ≡ true → (origin : GoString) × (o ≡ fine origin)
OriginResult-cases (fine origin) h = (origin, refl)
OriginResult-cases (bad e) h = cc

add_allowed_total :
    (web : Web) (origins : List GoString) (policy : OriginPolicy)
    → AreReadable web origins
    → (after : OriginPolicy) × (add_allowed web origins policy ≡ fine after)
unfolding add_allowed
add_allowed_total web [] policy h = (policy, refl)
add_allowed_total web (raw ∷ origins) policy h = do
  let (origin, read) = OriginResult-cases (normalize_origin web raw) h.0
  let (after, rest) =
      add_allowed_total web origins (record policy { allowed = insert origin tt policy.allowed })
        h.1
  (after, rw (add_allowed, read) rest)

module _ {ℓ κ} {W : Type ℓ} {Prefix : Type κ} ⦃f : Float64 W⦄ (web : Web)
    (c : Config W Prefix) where
  hub_starts : IsChecked c → is_some (new_hub (hub_settings c)) ≡ true
  unfolding new_hub hub_settings hub_options hub_option hub_valid default_hub
  hub_starts h = rw (h.durations, h.rooms, h.spectators) refl

  handler_starts :
      IsChecked c
      → AreReadable web c.allowed_origins
      → is_some (new_handler web (handler_settings c)) ≡ true
  unfolding new_handler handler_settings handler_options handler_option handler_valid
      default_handler new_origin_policy
  handler_starts h readable = do
    let (policy, made) = add_allowed_total web c.allowed_origins (record { allowed = [] }) readable
    let allowed : new_origin_policy web c.allowed_origins ≡ fine policy = made
    ground (arith, made, h.rates, h.connections)

module _ {ℓ κ} {W : Type ℓ} {Addr Prefix : Type κ} ⦃f : Float64 W⦄ (net : Netip Addr Prefix)
    (web : Web) (env : Environment W) where
  -- Where the configuration is accepted and its origins, once normalized, can be read again, neither
  -- `NewHub` nor `NewHandler` panics with it.
  pub read_config-starts :
      (c : Config W Prefix)
      → read_config net web env ≡ runs c
      → AreReadable web c.allowed_origins
      → (is_some (new_hub (hub_settings c)) ≡ true)
        × (is_some (new_handler web (handler_settings c)) ≡ true)
  read_config-starts c read readable = do
    let checked = ensured (read_config net web env) c (config_ensured net web env) read
    (hub_starts web c checked, handler_starts web c checked readable)
