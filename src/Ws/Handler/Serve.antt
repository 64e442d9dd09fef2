-- ===== src/Ws/Handler/Serve.antt =====
-- internal/ws/handler.go: `ServeHTTP`, from the request to the connection that its pumps serve.
use midnight_council.Base.{
  ℕ, Bool, true, false, not, ◌&&◌, [], none, some, if◌then◌else◌, get_elem?, set,
}
use midnight_council.Text.{GoString}
use midnight_council.Room.Types.{Time}
use midnight_council.Room.Host.{Host}
use midnight_council.Room.Event.{Envelope}
use midnight_council.Room.Texts.{Texts}
use midnight_council.Room.Actor.{Actor}
use midnight_council.Room.Actor.Client.{
  Wait, Call, CallError, answered, failed, possible, dispatch_call, subscribe_connection,
  call_error_text, unsubscribe_connection,
}
use midnight_council.Room.Hub.{
  Hub, Access, get_or_create, room_exists, can_create_room, room_limit_text,
}
use midnight_council.Ws.Float.{Float64}
use midnight_council.Ws.Admission.{
  AdmissionLimiter, Lease, acquire, release_once, admission_error_text,
}
use midnight_council.Ws.Proxy.{Netip, PeerRequest, remote_ip}
use midnight_council.Ws.OriginCheck.{Web, OriginRequest, policy_allows}
use midnight_council.Ws.Handler.{
  Handler, Query, Arrival, arrives, malformed, read_request, join_event,
}

pub record HttpRequest : Type 0 where
  pub query : Query
  pub origin : PeerRequest
  pub page : OriginRequest

-- What the runtime gives to a request: clocks, whether the rest of the upgrade succeeds, the host of
-- the room, how its two calls of the room end, the id of a subscription, and what others make of the hub
-- at the same time.
pub record Circumstances : Type 0 where
  pub now : Time
  pub later : Time
  pub upgrades : Bool
  pub host : Host
  pub join_host : Host
  pub join_wait : Wait
  pub subscribe_host : Host
  pub subscribe_wait : Wait
  pub reason : GoString
  pub new_id : GoString
  -- while the connection is upgraded
  pub meantime : Hub → Hub
  -- after `GetOrCreate`, before the actor receives the join
  pub before_join : Hub → Hub
  -- after the join, before the actor receives the subscription
  pub before_subscribe : Hub → Hub

pub record Server {ℓ} (W : Type ℓ) : Type ℓ where
  pub hub : Hub
  pub admission : AdmissionLimiter W

-- How a request ends: an error answer, a failed upgrade, a close after the upgrade, or a connection,
-- with the number of its actor, its subscription and its lease.
pub data Served : Type 0 where
  http_error : ℕ → GoString → Served
  not_upgraded : Served
  terminated : GoString → Served
  connected : ℕ → GoString → Lease → Served

abbrev pub is_connected : Served → Bool
is_connected (Served.connected i sub_id lease) = true
is_connected _ = false

-- The registry after an actor has changed.
abbrev pub with_actor : ℕ → GoString → Actor → Hub → Hub
with_actor i room_id a hub = record hub { actors = set hub.actors i (room_id, a) }

-- A call of the actor with a number; a hub forgets none.
unfoldable pub at_actor {ℓ} : {V : Type ℓ} → (Actor → Actor × Call V) → ℕ → Hub → Hub × Call V
at_actor call i hub = elim (get_elem? hub.actors i) [
  | none ↦ (hub, failed CallError.room_closed)
  | some (room_id, a) ↦ (with_actor i room_id (call a).0 hub, (call a).1)
]

unfoldable pub join_room : Circumstances → Arrival → ℕ → Hub → Hub × Call Envelope
join_room c arrival i hub =
    at_actor
      (λ a. dispatch_call c.join_host (possible c.join_wait a) c.reason [] (join_event arrival) a) i
      hub

unfoldable pub subscribe_room : Circumstances → Arrival → ℕ → Hub → Hub × Call GoString
subscribe_room c arrival i hub =
    at_actor
      (λ a.
        subscribe_connection c.subscribe_host (possible c.subscribe_wait a) c.reason c.new_id
          arrival.player_id a)
      i hub

-- The join and the subscription at the actor of the room, two commands between which it may take others.
unfoldable pub enter_actor : Circumstances → Texts → Arrival → Lease → ℕ → Hub → Hub × Served
enter_actor c texts arrival lease i hub =
    let (joined, joining) = join_room c arrival i (c.before_join hub) in
    let (subscribed, subscribing) = subscribe_room c arrival i (c.before_subscribe joined) in
    elim joining [
      | failed x ↦ (joined, Served.terminated (call_error_text texts (join_event arrival) x))
      | answered envelope ↦ elim subscribing [
        | failed x ↦ (subscribed, Served.terminated (call_error_text texts (join_event arrival) x))
        | answered sub_id ↦ (subscribed, Served.connected i sub_id lease)
      ]
    ]

-- After the upgrade.
unfoldable pub enter_room : Circumstances → Texts → Arrival → Lease → Hub → Hub × Served
enter_room c texts arrival lease hub =
    let (found, access) = get_or_create c.host arrival.room_id hub in
    elim access [
      | Access.opened i ↦ enter_actor c texts arrival lease i found
      | Access.limit_reached ↦ (found, Served.terminated room_limit_text)
      | Access.panicked ↦ (found, Served.terminated [])
    ]

module _ {ℓ κ} {W : Type ℓ} {Addr Prefix : Type κ} ⦃f : Float64 W⦄ (net : Netip Addr Prefix)
    (web : Web) (texts : Texts) (h : Handler W Prefix) where
  -- `defer release()`, which runs at once where no connection stands.
  unfoldable pub settle :
      Circumstances → Lease → Hub × Served → AdmissionLimiter W → Server W × Served
  settle c lease (hub, served) admission =
      if is_connected served
      then (record { hub = hub; admission = admission }, served)
      else (record { hub = hub; admission = (release_once c.later lease admission).1 }, served)

  -- After `acquire`
  unfoldable pub upgrade : Circumstances → HttpRequest → Arrival → Lease → Hub → Hub × Served
  upgrade c request arrival lease hub =
      if not (policy_allows web h.origins request.page && c.upgrades)
      then (hub, Served.not_upgraded)
      else enter_room c texts arrival lease (c.meantime hub)

  unfoldable pub admit_arrival :
      Circumstances → HttpRequest → Arrival → Server W → Server W × Served
  admit_arrival c request arrival server =
      let client = remote_ip net h.trusted_proxies request.origin in
      let creating = not (room_exists arrival.room_id server.hub) in
      let (admission, refusal) = acquire server.admission client creating c.now in
      let lease : Lease = record { client_ip = client; released = false } in
      if creating && not (can_create_room server.hub)
      then (server, Served.http_error 429 room_limit_text)
      else elim refusal [
        | some e ↦ (
          record server { admission = admission },
          Served.http_error 429 (admission_error_text e),
        )
        | none ↦ settle c lease (upgrade c request arrival lease server.hub) admission
      ]

  unfoldable pub serve_http : Circumstances → HttpRequest → Server W → Server W × Served
  serve_http c request server = elim (read_request texts request.query) [
    | malformed reason ↦ (server, Served.http_error 400 reason)
    | arrives arrival ↦ admit_arrival c request arrival server
  ]

  -- The end of `ServeHTTP`, after `readPump` has returned: `unsubscribe(permanent)` and the release.
  -- `stopped` tells whether the actor has stopped before it receives the command.
  unfoldable pub finish_connection :
      Circumstances → Bool → Bool → ℕ → GoString → Lease → Server W → Server W
  finish_connection c stopped permanent i sub_id lease server =
      let released = (release_once c.later lease server.admission).1 in
      elim (get_elem? server.hub.actors i) [
        | none ↦ record server { admission = released }
        | some (room_id, a) ↦ record {
          hub =
              with_actor i room_id (unsubscribe_connection c.host stopped sub_id permanent a)
                server.hub;
          admission = released;
        }
      ]
