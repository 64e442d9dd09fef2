-- ===== src/Ws/Handler/Registering.antt =====
-- What a request does to the hub: `ServeHTTP` of internal/ws/handler.go and internal/room/hub.go.
use midnight_council.Base.{
  ℕ, ◌≡◌, refl, ◌⊎◌, inl, inr, false, not, ◌&&◌, List, [], some, arith, get_elem?, Bool-cases,
  Option-cases, get_elem?-set,
}
use midnight_council.Text.{GoString}
use midnight_council.Room.Texts.{Texts}
use midnight_council.Room.Actor.{Actor}
use midnight_council.Room.Actor.Rounds.{Rounds}
use midnight_council.Room.Actor.Client.{
  Call, answered, dispatch_call, subscribe_connection, receives-possible, answers_running,
  Call-cases,
}
use midnight_council.Room.Hub.Forward.{Continues-Serves, IsMadeAt, Continues-IsMadeAt}
use midnight_council.Room.Hub.{Hub, HubOption, Access, get_or_create, room_exists, can_create_room}
use midnight_council.Room.Hub.Registry.{Serves, Continues}
use midnight_council.Room.Hub.Answers.{IsRunning, IsAnswer, get_or_create-IsAnswer}
use midnight_council.Ws.Float.{Float64}
use midnight_council.Ws.Admission.{AdmissionLimiter, Lease, acquire}
use midnight_council.Ws.Proxy.{Netip, remote_ip}
use midnight_council.Ws.OriginCheck.{Web, policy_allows}
use midnight_council.Ws.Handler.{Handler, Arrival, Request, arrives, malformed, read_request}
use midnight_council.Ws.Handler.Serve.{
  HttpRequest, Circumstances, Server, Served, is_connected, at_actor, join_room, subscribe_room,
  enter_actor, enter_room, settle, upgrade, admit_arrival, serve_http,
}
use midnight_council.Ws.Handler.Counting.{Request-cases}

-- The hub goes on as it may, and a connection stands at an actor that runs for the room.
pub data Reaches (options : List HubOption) (room_id : GoString) : Hub × Served → Type 0 where
  ends :
      {hub : Hub} {served : Served}
      → Serves options hub
      → is_connected served ≡ false
      → Reaches options room_id (hub, served)
  stands :
      {hub : Hub} (i : ℕ) (sub_id : GoString) (lease : Lease) (a : Actor)
      → Serves options hub
      → get_elem? hub.actors i ≡ some (room_id, a)
      → a.done ≡ false
      → Reaches options room_id (hub, Served.connected i sub_id lease)

-- The room that a request asks for, where it can be read.
abbrev pub requested : Request → GoString
requested (arrives arrival) = arrival.room_id
requested (malformed reason) = []

-- What others do to the hub at the same time is what a hub goes through.
pub record GoesOn (c : Circumstances) : Type 0 where
  pub upgrading : (hub : Hub) → Continues hub (c.meantime hub)
  pub joining : (hub : Hub) → Continues hub (c.before_join hub)
  pub subscribing : (hub : Hub) → Continues hub (c.before_subscribe hub)

module _ {ℓ} {V : Type ℓ} (call : Actor → Actor × Call V) (i : ℕ) (hub : Hub) where
  at_actor-Continues : ((a : Actor) → Rounds a (call a).0) → Continues hub (at_actor call i hub).0
  unfolding at_actor
  at_actor-Continues rounds = elim (Option-cases (get_elem? hub.actors i)) [
    | inl none_there ↦ rw (at_actor, none_there) Continues.stays
    | inr ((room_id, a), there) ↦
        rw (at_actor, there)
          (Continues.plays i room_id a (call a).0 Continues.stays there (rounds a))
  ]

  -- An actor that is called stays at its number, and runs if only one that runs answers.
  at_actor_answers :
      (room_id : GoString) (value : V)
      → ((a : Actor) → (call a).1 ≡ answered value → (call a).0.done ≡ false)
      → IsMadeAt room_id i hub
      → (at_actor call i hub).1 ≡ answered value
      → (b : Actor) × (get_elem? (at_actor call i hub).0.actors i ≡ some (room_id, b))
        × (b.done ≡ false)
  unfolding at_actor
  at_actor_answers room_id value running (a, there) answers = do
    let after : Actor = (call a).0
    let written = get_elem?-set hub.actors i i (room_id, after) (room_id, a) there
    let answer : (call a).1 ≡ answered value = rw (at_actor, there) at answers
    rw (at_actor, there) (after, ground (arith, written), running a answer)

enter_actor-Reaches :
    (options : List HubOption) (c : Circumstances) (texts : Texts) (arrival : Arrival)
    (lease : Lease) (i : ℕ) {hub : Hub}
    → GoesOn c
    → Serves options hub
    → IsMadeAt arrival.room_id i hub
    → Reaches options arrival.room_id (enter_actor c texts arrival lease i hub)
unfolding enter_actor join_room subscribe_room dispatch_call subscribe_connection
enter_actor-Reaches options c texts arrival lease i {hub} goes serves made = do
  let joining = join_room c arrival i (c.before_join hub)
  let subscribing = subscribe_room c arrival i (c.before_subscribe joining.0)
  let join : Continues (c.before_join hub) joining.0 =
      at_actor-Continues _ i (c.before_join hub)
        (λ a. receives-possible c.join_host c.join_wait _ a)
  let subscribe : Continues (c.before_subscribe joining.0) subscribing.0 =
      at_actor-Continues _ i (c.before_subscribe joining.0)
        (λ a. receives-possible c.subscribe_host c.subscribe_wait _ a)
  let serves_joined : Serves options joining.0 =
      Continues-Serves options (Continues-Serves options serves (goes.joining hub)) join
  let serves_on : Serves options subscribing.0 =
      Continues-Serves options (Continues-Serves options serves_joined (goes.subscribing joining.0))
        subscribe
  let made_on : IsMadeAt arrival.room_id i (c.before_subscribe joining.0) =
      Continues-IsMadeAt arrival.room_id i
        (Continues-IsMadeAt arrival.room_id i
          (Continues-IsMadeAt arrival.room_id i made (goes.joining hub)) join)
        (goes.subscribing joining.0)
  elim (Call-cases joining.1) [
    | inl (x, fails) ↦ rw (enter_actor, fails) (Reaches.ends serves_joined refl)
    | inr (envelope, joins) ↦ elim (Call-cases subscribing.1) [
      | inl (x, fails) ↦ rw (enter_actor, joins, fails) (Reaches.ends serves_on refl)
      | inr (sub_id, answers) ↦ do
        let (b, there, runs) =
            at_actor_answers _ i (c.before_subscribe joining.0) arrival.room_id sub_id
              (λ a. answers_running c.subscribe_host c.subscribe_wait _ a c.reason _ sub_id) made_on
              answers
        rw (enter_actor, joins, answers) (Reaches.stands i sub_id lease b serves_on there runs)
    ]
  ]

IsAnswer-cases :
    {room_id : GoString} {hub : Hub} (result : Hub × Access)
    → IsAnswer room_id hub result
    → ((i : ℕ) × (result.1 ≡ Access.opened i) × IsRunning room_id result.0 i)
      ⊎ (result.1 ≡ Access.limit_reached)
IsAnswer-cases _ (IsAnswer.opens i running) = inl (i, refl, running)
IsAnswer-cases _ (IsAnswer.refuses absent full) = inr refl

enter_room-Reaches :
    (options : List HubOption) (c : Circumstances) (texts : Texts) (arrival : Arrival)
    (lease : Lease) (hub : Hub)
    → GoesOn c
    → Serves options hub
    → Reaches options arrival.room_id (enter_room c texts arrival lease hub)
unfolding enter_room
enter_room-Reaches options c texts arrival lease hub goes serves = do
  let result = get_or_create c.host arrival.room_id hub
  let serves_on = Serves.access c.host arrival.room_id serves
  elim (IsAnswer-cases result (get_or_create-IsAnswer options c.host arrival.room_id serves)) [
    | inl (i, opens, running) ↦
        rw (enter_room, opens)
          (enter_actor-Reaches options c texts arrival lease i goes serves_on
            (running.actor, running.there))
    | inr refused ↦ rw (enter_room, refused) (Reaches.ends serves_on refl)
  ]

module _ {ℓ κ} {W : Type ℓ} {Addr Prefix : Type κ} ⦃f : Float64 W⦄ (net : Netip Addr Prefix)
    (web : Web) (texts : Texts) (h : Handler W Prefix) where
  upgrade-Reaches :
      (options : List HubOption) (c : Circumstances) (request : HttpRequest) (arrival : Arrival)
      (lease : Lease) (hub : Hub)
      → GoesOn c
      → Serves options hub
      → Reaches options arrival.room_id (upgrade net web texts h c request arrival lease hub)
  unfolding upgrade
  upgrade-Reaches options c request arrival lease hub goes serves =
      elim (Bool-cases (not (policy_allows web h.origins request.page && c.upgrades))) [
        | inl fails ↦ rw (upgrade, fails) (Reaches.ends serves refl)
        | inr opens ↦
            rw (upgrade, opens)
              (enter_room-Reaches options c texts arrival lease (c.meantime hub) goes
                (Continues-Serves options serves (goes.upgrading hub)))
      ]

  settle-Reaches :
      (options : List HubOption) (room_id : GoString) (c : Circumstances) (lease : Lease)
      (result : Hub × Served) (admission : AdmissionLimiter W)
      → Reaches options room_id result
      → Reaches options room_id (
        (settle net web texts h c lease result admission).0.hub,
        (settle net web texts h c lease result admission).1,
      )
  unfolding settle
  settle-Reaches options room_id c lease (hub, served) admission reaches =
      elim (Bool-cases (is_connected served)) [
        | inl kept ↦ rw (settle, kept) reaches
        | inr gone ↦ rw (settle, gone) reaches
      ]

  admit_arrival-Reaches :
      (options : List HubOption) (c : Circumstances) (request : HttpRequest) (arrival : Arrival)
      (server : Server W)
      → GoesOn c
      → Serves options server.hub
      → Reaches options arrival.room_id (
        (admit_arrival net web texts h c request arrival server).0.hub,
        (admit_arrival net web texts h c request arrival server).1,
      )
  unfolding admit_arrival
  admit_arrival-Reaches options c request arrival server goes serves = do
    let client = remote_ip net h.trusted_proxies request.origin
    let creating = not (room_exists arrival.room_id server.hub)
    let lease : Lease = record { client_ip = client; released = false }
    elim (Bool-cases (creating && not (can_create_room server.hub))) [
      | inl full ↦ rw (admit_arrival, full) (Reaches.ends serves refl)
      | inr space ↦ elim (Option-cases (acquire server.admission client creating c.now).1) [
        | inr (e, refused) ↦ rw (admit_arrival, space, refused) (Reaches.ends serves refl)
        | inl admitted ↦
            rw (admit_arrival, space, admitted)
              (settle-Reaches options arrival.room_id c lease _ _
                (upgrade-Reaches options c request arrival lease server.hub goes serves))
      ]
    ]

  -- In a hub that `NewHub` has made and that has served since, whatever others do to it while the
  -- connection is upgraded, before the actor receives the join and before it receives the subscription:
  -- after any request, whatever its waits, the hub is one that has served, and a request that ends with a
  -- connection has it at an actor that runs for the room asked for.
  pub serve_http-Reaches :
      (options : List HubOption) (c : Circumstances) (request : HttpRequest) (server : Server W)
      → GoesOn c
      → Serves options server.hub
      → Reaches options (requested (read_request texts request.query)) (
        (serve_http net web texts h c request server).0.hub,
        (serve_http net web texts h c request server).1,
      )
  unfolding serve_http
  serve_http-Reaches options c request server goes serves =
      elim (Request-cases (read_request texts request.query)) [
        | inl (reason, wrong) ↦ rw (serve_http, wrong) (Reaches.ends serves refl)
        | inr (arrival, right) ↦
            rw (serve_http, right)
              (admit_arrival-Reaches options c request arrival server goes serves)
      ]
