-- ===== src/Ws/Handler/Counting.antt =====
-- The connections that `ServeHTTP` of internal/ws/handler.go has counted for an address.
use midnight_council.Base.{
  ℕ, ◌+◌, ◌≡◌, refl, ◌⊎◌, inl, inr, Bool, true, false, not, ◌&&◌, arith, Bool-cases, Option-cases,
  if◌then◌else◌, ◌==◌,
}
use midnight_council.Base.Dict.Laws.{Distinct}
use midnight_council.Text.{GoString, str_Eq}
use midnight_council.Room.Texts.{Texts}
use midnight_council.Room.Hub.{Hub, room_exists, can_create_room}
use midnight_council.Ws.Float.{Float64}
use midnight_council.Ws.Admission.{AdmissionLimiter, Lease, acquire, release, release_once}
use midnight_council.Ws.Admission.Leases.{connections_of, connections_of-acquire, release-acquire}
use midnight_council.Ws.Proxy.{Netip, remote_ip}
use midnight_council.Ws.OriginCheck.{Web}
use midnight_council.Ws.Handler.{Handler, Arrival, Request, arrives, malformed, read_request}
use midnight_council.Ws.Handler.Serve.{
  HttpRequest, Circumstances, Server, Served, is_connected, settle, upgrade, admit_arrival,
  serve_http,
}

pub Request-cases :
    (r : Request)
    → ((reason : GoString) × (r ≡ malformed reason)) ⊎ ((a : Arrival) × (r ≡ arrives a))
Request-cases (malformed reason) = inl (reason, refl)
Request-cases (arrives a) = inr (a, refl)

module _ {ℓ κ} {W : Type ℓ} {Addr Prefix : Type κ} ⦃f : Float64 W⦄ (net : Netip Addr Prefix)
    (web : Web) (texts : Texts) (h : Handler W Prefix) where
  abbrev pub count_after : GoString → Bool → GoString → Server W → ℕ
  count_after ip stands client server =
      if stands && client == ip
      then connections_of ip server.admission.entries + 1
      else connections_of ip server.admission.entries

  settle-connections_of :
      (c : Circumstances) (lease : Lease) (ip : GoString) (result : Hub × Served)
      (admission : AdmissionLimiter W) (server : Server W)
      → connections_of ip admission.entries ≡ count_after ip true lease.client_ip server
      → connections_of ip (release lease.client_ip c.later admission).entries
        ≡ connections_of ip server.admission.entries
      → lease.released ≡ false
      → connections_of ip (settle net web texts h c lease result admission).0.admission.entries
        ≡ count_after ip
            (is_connected (settle net web texts h c lease result admission).1)
            lease.client_ip
            server
  unfolding settle release_once
  settle-connections_of c lease ip (hub, served) admission server counted returned live =
      elim (Bool-cases (is_connected served)) [
        | inl stands ↦ rw (settle, stands) (ground (arith, counted, stands))
        | inr gone ↦ rw (settle, gone, live) (ground (arith, returned, gone))
      ]

  admit_arrival-connections_of :
      (c : Circumstances) (request : HttpRequest) (arrival : Arrival) (server : Server W)
      (ip : GoString)
      → Distinct server.admission.entries
      → connections_of ip
          (admit_arrival net web texts h c request arrival server).0.admission.entries
        ≡ count_after ip
            (is_connected (admit_arrival net web texts h c request arrival server).1)
            (remote_ip net h.trusted_proxies request.origin)
            server
  unfolding admit_arrival settle release_once
  admit_arrival-connections_of c request arrival server ip d = do
    let client = remote_ip net h.trusted_proxies request.origin
    let creating = not (room_exists arrival.room_id server.hub)
    let counted = connections_of-acquire ip client creating c.now server.admission d
    let returned = release-acquire ip client creating c.now c.later server.admission d
    elim (Bool-cases (creating && not (can_create_room server.hub))) [
      | inl full ↦ rw (admit_arrival, full) refl
      | inr space ↦ elim (Option-cases (acquire server.admission client creating c.now).1) [
        | inr (e, refused) ↦ rw (admit_arrival, space, refused) (ground (arith, counted, refused))
        | inl admitted ↦
            rw (admit_arrival, space, admitted)
              (settle-connections_of c (record { client_ip = client; released = false }) ip
                (upgrade net web texts h c request arrival
                  (record { client_ip = client; released = false }) server.hub)
                (acquire server.admission client creating c.now).0 server
                (ground (arith, counted, admitted)) (returned admitted) refl)
      ]
    ]

  -- Where no address has two entries, a request changes the number of connections counted for an
  -- address only if it ends with a connection, and then only for the address of its client, by one.
  pub serve_http-connections_of :
      (c : Circumstances) (request : HttpRequest) (server : Server W) (ip : GoString)
      → Distinct server.admission.entries
      → connections_of ip (serve_http net web texts h c request server).0.admission.entries
        ≡ count_after ip
            (is_connected (serve_http net web texts h c request server).1)
            (remote_ip net h.trusted_proxies request.origin)
            server
  unfolding serve_http
  serve_http-connections_of c request server ip d =
      elim (Request-cases (read_request texts request.query)) [
        | inl (reason, wrong) ↦ rw (serve_http, wrong) refl
        | inr (arrival, right) ↦
            rw (serve_http, right) (admit_arrival-connections_of c request arrival server ip d)
      ]
