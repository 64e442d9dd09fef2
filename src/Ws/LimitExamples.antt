-- ===== src/Ws/LimitExamples.antt =====
-- Inputs at which the theorems on the limits and the policies of internal/ws apply.
use midnight_council.Base.{
  ◌≡◌, refl, ◌⊎◌, true, false, [], ◌∷◌, ◌++◌, List, Option, none, some, arith, pos, count_if,
  if◌then◌else◌, ◌==◌, ◌||◌,
}
use midnight_council.Base.Dict.{insert}
use midnight_council.Text.{
  GoString, text, str_Eq, str_eq, split, trim_byte, trim_left_byte, trim_space, decode_rune,
  is_space, cut,
}
use midnight_council.Room.Types.{EventType, Time}
use midnight_council.Ws.Float.{Tenths, tenths_float, Tenths-IsFloat}
use midnight_council.Ws.RateLimit.{
  RateLimit, ConnectionRateLimiter, validate_limit, new_token_bucket, time_since, allow, settled,
  refilled, default_event_rate_limits, new_connection_rate_limiter, is_chat,
}
use midnight_council.Ws.RateLimit.Calls.{
  allow_all, answers, of_kind, is_game, is_allowed, answers_lem,
}
use midnight_council.Ws.RateLimit.Burst.{burst_lem}
use midnight_council.Ws.RateLimit.Recovery.{recovers_lem}
use midnight_council.Ws.Admission.{
  ConnectionLimits, default_connection_limits, new_admission_limiter,
}
use midnight_council.Ws.Admission.Serving.{
  Front, connect_client, end_lease, IsCounted, Serving-IsCounted, begin, connect, end_of,
}
use midnight_council.Ws.Proxy.{
  Netip, PeerRequest, remote_ip, request_peer_ip, rightmost, contains_trusted_proxy,
  parse_forwarded_ip_list, parse_values, parse_items, parse_forwarded_address, forwarded_ips,
}
use midnight_council.Ws.Proxy.Chain.{IsClient, remote_ip-IsClient, remote_ip_spoofed}
use midnight_council.Ws.OriginCheck.{
  Web, normalize_origin, normalized, is_bare, add_allowed, new_origin_policy, policy_allows,
}
use midnight_council.Ws.OriginCheck.Policy.{any_same, policy_allows_lem}

abbrev twice : RateLimit Tenths
twice = record { events_per_second = some 20; burst = pos 2 }

burst_lem_example :
    count_if is_allowed (allow_all (new_token_bucket twice 100) (100 ∷ 90 ∷ 100 ∷ [])).0 ≡ 2
unfolding validate_limit
burst_lem_example =
    burst_lem Tenths-IsFloat twice (text "chat") 100 (100 ∷ 90 ∷ 100 ∷ []) refl (omega arith)
      (omega arith, (omega arith, (omega arith, tt)))

-- Half a second after the burst, at two events each second.
recovers_lem_example :
    (allow (allow_all (new_token_bucket twice 100) (100 ∷ 100 ∷ 100 ∷ [])).1 500000100).0 ≡ true
unfolding validate_limit allow_all new_token_bucket allow settled refilled time_since
recovers_lem_example =
    recovers_lem Tenths-IsFloat twice (text "chat") 100 (100 ∷ 100 ∷ 100 ∷ []) 500000100 refl
      (omega arith) refl

abbrev mixed : List (EventType × Time)
mixed = (EventType.chat, 1) ∷ (EventType.ready, 2) ∷ (EventType.chat, 3) ∷ []

abbrev limiter : ConnectionRateLimiter Tenths
limiter = new_connection_rate_limiter default_event_rate_limits 0

answers_lem_example :
    (of_kind is_chat (answers limiter mixed) ≡ (allow_all limiter.chat (of_kind is_chat mixed)).0)
    × (of_kind is_game (answers limiter mixed) ≡ (allow_all limiter.game (of_kind is_game mixed)).0)
answers_lem_example = answers_lem mixed limiter

abbrev limits : ConnectionLimits Tenths
limits = default_connection_limits

abbrev quiet : Front Tenths
quiet = record { limiter = new_admission_limiter limits; leases = [] }

abbrev pub client_ip : GoString
client_ip = text "192.0.2.7"

Serving-IsCounted_example : IsCounted limits (end_lease 0 9 (connect_client client_ip true 5 quiet))
Serving-IsCounted_example = Serving-IsCounted limits (end_of 0 9 (connect client_ip true 5 begin))

abbrev pub nonempty : GoString → Option GoString
nonempty [] = none
nonempty (c ∷ s) = some (c ∷ s)

abbrev pub host_of : Option (GoString × GoString) → Option GoString
host_of none = none
host_of (some (host, port)) = some host

-- Addresses as texts, and networks of one address.
abbrev pub plain_net : Netip GoString GoString
plain_net = record {
  parse_addr = nonempty;
  parse_prefix = λ s. none;
  parse_addr_port = λ s. none;
  split_host_port = λ s. host_of (cut s b':');
  unmap = λ a. a;
  masked = λ p. p;
  whole_prefix = λ a. a;
  contains = str_eq;
  addr_text = λ a. a;
}

abbrev proxy : GoString
proxy = text "10.0.0.9"

abbrev forwarded : PeerRequest
forwarded = record {
  remote_addr = text "10.0.0.9:443";
  forwarded_for = text "192.0.2.7" ∷ [];
  forwarded = [];
}

remote_ip-IsClient_example :
    (hop : GoString) × (remote_ip plain_net (proxy ∷ []) forwarded ≡ hop)
    × IsClient plain_net (proxy ∷ []) (forwarded_ips plain_net forwarded ++ proxy ∷ []) hop
unfolding request_peer_ip cut
remote_ip-IsClient_example = remote_ip-IsClient plain_net (proxy ∷ []) forwarded proxy refl

remote_ip_spoofed_example :
    (remote_ip plain_net
        (proxy ∷ [])
        (record forwarded { forwarded_for = text "203.0.113.5" ∷ client_ip ∷ [] })
      ≡ client_ip)
    ⊎ (remote_ip plain_net
          (proxy ∷ [])
          (record forwarded { forwarded_for = text "203.0.113.5" ∷ client_ip ∷ [] })
        ≡ proxy)
unfolding request_peer_ip cut rightmost contains_trusted_proxy parse_forwarded_ip_list parse_values
    parse_items parse_forwarded_address split trim_byte trim_left_byte trim_space decode_rune
    is_space str_eq
remote_ip_spoofed_example =
    remote_ip_spoofed plain_net (proxy ∷ []) forwarded proxy client_ip (text "203.0.113.5")
      client_ip [] refl refl

-- Only this page can be read, and nothing is in upper case.
abbrev pub plain_web : Web
plain_web = record {
  parse_url = λ s.
      if s == text "https://council.example"
      then some (record {
        scheme = text "https";
        host = text "council.example";
        user = false;
        path = [];
        raw_query = [];
        fragment = [];
      })
      else none;
  to_lower = λ s. s;
  equal_fold = str_eq;
}

abbrev pub page : GoString
page = text "https://council.example"

policy_allows_lem_example :
    policy_allows plain_web
      (record { allowed = (page, tt) ∷ [] })
      (record { origin = page; host = text "council.example" })
    ≡ (page == [] || any_same plain_web page (page ∷ []))
unfolding new_origin_policy add_allowed normalize_origin normalized is_bare insert str_eq trim_space
    decode_rune is_space
policy_allows_lem_example =
    policy_allows_lem plain_web page [] (record { allowed = (page, tt) ∷ [] })
      (record { origin = page; host = text "council.example" }) refl
