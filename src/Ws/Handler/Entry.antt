-- ===== src/Ws/Handler/Entry.antt =====
-- Which requests get a connection: `ServeHTTP` of internal/ws/handler.go.
use midnight_council.Base.{
  ◌≡◌, refl, subst, sym, ◌∙◌, inl, inr, Bool, true, false, not, ◌&&◌, ◌||◌, [], arith, Bool-cases,
  Option-cases, ◌==◌,
}
use midnight_council.Text.{GoString, str_Eq, trim_space}
use midnight_council.Room.Errors.{Result-cases, ok}
use midnight_council.Room.Event.{Event}
use midnight_council.Room.Types.{EventType, zero_time}
use midnight_council.Room.Actor.{own_event}
use midnight_council.Room.Identity.{normalize_participant_identity}
use midnight_council.Room.Texts.{Texts}
use midnight_council.Room.Hub.{Hub, room_exists, can_create_room}
use midnight_council.Ws.Float.{Float64}
use midnight_council.Ws.Admission.{AdmissionLimiter, Lease, acquire}
use midnight_council.Ws.Proxy.{Netip, remote_ip}
use midnight_council.Ws.OriginCheck.{Web, policy_allows}
use midnight_council.Ws.Path.{
  room_id_from_path, room_id_pattern, room_id_from_path_valid, reconnect_token_pattern,
}
use midnight_council.Ws.Handler.{
  Handler, Query, Arrival, arrives, read_request, read_identity, parse_spectator,
}
use midnight_council.Ws.Handler.Serve.{
  HttpRequest, Circumstances, Server, Served, settle, upgrade, admit_arrival, serve_http,
  is_connected,
}
use midnight_council.Ws.Handler.Counting.{Request-cases}

-- An arrival whose parts have the form that a room expects.
pub record IsValid (a : Arrival) : Type 0 where
  pub valid_room : room_id_pattern a.room_id ≡ true
  pub valid_identity :
      (id : GoString) × (name : GoString) × (normalize_participant_identity id name
        ≡ ok (a.player_id, a.player_name))
  pub valid_token : (a.reconnect_token == [] || reconnect_token_pattern a.reconnect_token) ≡ true

arrives_eq : (a b : Arrival) → arrives a ≡ arrives b → a ≡ b
arrives_eq a b h = cc

read_identity-IsValid :
    (texts : Texts) (e : Event) (q : Query) (room_id : GoString) (spectator : Bool) (a : Arrival)
    → room_id_pattern room_id ≡ true
    → read_identity texts e q room_id spectator ≡ arrives a
    → IsValid a
unfolding read_identity
read_identity-IsValid texts e q room_id spectator a valid read = do
  let token = trim_space q.reconnect_token
  let identity = normalize_participant_identity (trim_space q.player_id) (trim_space q.name)
  elim (Result-cases identity) [
    | inl (x, wrong) ↦ absurd (ground (arith, wrong, read))
    | inr ((id, name), right) ↦
        elim (Bool-cases (not (token == []) && not (reconnect_token_pattern token))) [
          | inl strange ↦ absurd (ground (arith, right, strange, read))
          | inr known ↦ do
            let arrival : Arrival = record {
              room_id = room_id;
              player_id = id;
              player_name = name;
              reconnect_token = token;
              spectator = spectator;
            }
            let same : read_identity texts e q room_id spectator ≡ arrives arrival =
                rw (read_identity, right, known) refl
            let whole : IsValid arrival = record {
              valid_room = valid;
              valid_identity = (trim_space q.player_id, trim_space q.name, right);
              valid_token = ground (arith, known);
            }
            subst IsValid (arrives_eq arrival a (sym same ∙ read)) whole
        ]
  ]

pub read_request-IsValid :
    (texts : Texts) (q : Query) (a : Arrival) → read_request texts q ≡ arrives a → IsValid a
unfolding read_request
read_request-IsValid texts q a read = elim (Option-cases (room_id_from_path q.path)) [
  | inl missing ↦ absurd (ground (arith, missing, read))
  | inr (room_id, found) ↦ elim (Option-cases (parse_spectator q.spectator)) [
    | inl unclear ↦ absurd (ground (arith, found, unclear, read))
    | inr (spectator, clear) ↦
        read_identity-IsValid texts (own_event EventType.join [] zero_time) q room_id spectator a
          (room_id_from_path_valid q.path room_id found) (ground (arith, found, clear, read))
  ]
]

module _ {ℓ κ} {W : Type ℓ} {Addr Prefix : Type κ} ⦃f : Float64 W⦄ (net : Netip Addr Prefix)
    (web : Web) (texts : Texts) (h : Handler W Prefix) where
  settle_outcome :
      (c : Circumstances) (lease : Lease) (result : Hub × Served) (admission : AdmissionLimiter W)
      → (settle net web texts h c lease result admission).1 ≡ result.1
  unfolding settle
  settle_outcome c lease result admission = ground arith

  upgrade-policy_allows :
      (c : Circumstances) (request : HttpRequest) (arrival : Arrival) (lease : Lease) (hub : Hub)
      → is_connected (upgrade net web texts h c request arrival lease hub).1 ≡ true
      → policy_allows web h.origins request.page ≡ true
  unfolding upgrade
  upgrade-policy_allows c request arrival lease hub stands = ground (arith, stands)

  admit_arrival-policy_allows :
      (c : Circumstances) (request : HttpRequest) (arrival : Arrival) (server : Server W)
      → is_connected (admit_arrival net web texts h c request arrival server).1 ≡ true
      → policy_allows web h.origins request.page ≡ true
  unfolding admit_arrival
  admit_arrival-policy_allows c request arrival server stands = do
    let client = remote_ip net h.trusted_proxies request.origin
    let creating = not (room_exists arrival.room_id server.hub)
    let lease : Lease = record { client_ip = client; released = false }
    let admission = acquire server.admission client creating c.now
    let result = upgrade net web texts h c request arrival lease server.hub
    elim (Bool-cases (creating && not (can_create_room server.hub))) [
      | inl full ↦ absurd (ground (arith, full, stands))
      | inr space ↦ elim (Option-cases admission.1) [
        | inr (e, refused) ↦ absurd (ground (arith, space, refused, stands))
        | inl admitted ↦
            upgrade-policy_allows c request arrival lease server.hub
              (ground (arith, space, admitted, stands, settle_outcome c lease result admission.0))
      ]
    ]

  -- A request that gets a connection comes from an origin that the policy policy_allows, and its room id,
  -- identity and reconnect token have the form that the rooms expect.
  pub serve_http-IsValid :
      (c : Circumstances) (request : HttpRequest) (server : Server W)
      → is_connected (serve_http net web texts h c request server).1 ≡ true
      → (policy_allows web h.origins request.page ≡ true)
        × ((a : Arrival) × (read_request texts request.query ≡ arrives a) × IsValid a)
  unfolding serve_http
  serve_http-IsValid c request server stands =
      elim (Request-cases (read_request texts request.query)) [
        | inl (reason, wrong) ↦ absurd (ground (arith, wrong, stands))
        | inr (a, right) ↦ (
          admit_arrival-policy_allows c request a server (ground (arith, right, stands)),
          (a, right, read_request-IsValid texts request.query a right),
        )
      ]
