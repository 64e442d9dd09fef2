-- ===== src/Ws/Proxy.antt =====
-- internal/ws/admission.go: the address of a client, behind the proxies that the operator trusts.
pub mod Chain
use mathlib.Core.List.{reverse}
use midnight_council.Base.{
  ℕ, Bool, true, false, not, ◌&&◌, ◌||◌, List, [], ◌∷◌, ◌++◌, Option, none, some, if◌then◌else◌,
  ◌==◌,
}
use midnight_council.Text.{GoString, text, str_Eq, trim_space, split, cut, trim_byte, folds_to}

-- The functions of packages net and net/netip, each `none` for an error.
pub record Netip {ℓ} (Addr Prefix : Type ℓ) : Type ℓ where
  pub parse_addr : GoString → Option Addr
  pub parse_prefix : GoString → Option Prefix
  -- `ParseAddrPort(value).Addr()`
  pub parse_addr_port : GoString → Option Addr
  -- the host of `net.SplitHostPort`
  pub split_host_port : GoString → Option GoString
  pub unmap : Addr → Addr
  pub masked : Prefix → Prefix
  -- `PrefixFrom(address, address.BitLen())`
  pub whole_prefix : Addr → Prefix
  pub contains : Prefix → Addr → Bool
  pub addr_text : Addr → GoString

pub data ProxyError : Type 0 where
  empty_entry : ProxyError
  invalid_proxy : GoString → ProxyError

pub data ProxyList {ℓ} (Prefix : Type ℓ) : Type ℓ where
  proxies : List Prefix → ProxyList Prefix
  refused : ProxyError → ProxyList Prefix

-- What `remoteIP` reads of a request: the values of the headers X-Forwarded-For and Forwarded.
pub record PeerRequest : Type 0 where
  pub remote_addr : GoString
  pub forwarded_for : List GoString
  pub forwarded : List GoString

module _ {ℓ} {Addr Prefix : Type ℓ} (net : Netip Addr Prefix) where
  unfoldable pub trusted_proxy : GoString → Option Prefix
  trusted_proxy part = elim (net.parse_prefix part) [
    | some prefix ↦ some (net.masked prefix)
    | none ↦ elim (net.parse_addr part) [
      | none ↦ none
      | some address ↦ some (net.whole_prefix (net.unmap address))
    ]
  ]

  abbrev add_proxy : Prefix → ProxyList Prefix → ProxyList Prefix
  add_proxy prefix (proxies rest) = proxies (prefix ∷ rest)
  add_proxy prefix (refused e) = refused e

  unfoldable pub parse_proxies : List GoString → ProxyList Prefix
  parse_proxies [] = proxies []
  parse_proxies (raw ∷ parts) =
      let rest = parse_proxies parts in
      let part = trim_space raw in
      if part == [] then refused ProxyError.empty_entry else elim (trusted_proxy part) [
        | none ↦ refused (ProxyError.invalid_proxy part)
        | some prefix ↦ add_proxy prefix rest
      ]

  unfoldable pub parse_trusted_proxies : GoString → ProxyList Prefix
  parse_trusted_proxies value =
      if trim_space value == [] then proxies [] else parse_proxies (split value b',')

  unfoldable pub request_peer_ip : GoString → Option Addr
  request_peer_ip remote_addr =
      let host : GoString = elim (net.split_host_port remote_addr) [
        | none ↦ remote_addr
        | some host ↦ host
      ] in
      elim (net.parse_addr host) [ none ↦ none | some address ↦ some (net.unmap address) ]

  unfoldable pub contains_trusted_proxy : List Prefix → Addr → Bool
  contains_trusted_proxy [] address = false
  contains_trusted_proxy (prefix ∷ prefixes) address =
      net.contains prefix address || contains_trusted_proxy prefixes address

  unfoldable pub parse_forwarded_address : GoString → Option Addr
  parse_forwarded_address raw =
      let value = trim_byte (trim_space raw) b'"' in
      elim (net.parse_addr value) [
        | some address ↦ some (net.unmap address)
        | none ↦ elim (net.parse_addr_port value) [
          | some address ↦ some (net.unmap address)
          | none ↦ none
        ]
      ]

  abbrev pub add_address : Option Addr → Option (List Addr) → Option (List Addr)
  add_address (some address) (some addresses) = some (address ∷ addresses)
  add_address _ _ = none

  -- The inner loop of `parseForwardedIPList`
  unfoldable pub parse_items : List GoString → Option (List Addr)
  parse_items [] = some []
  parse_items (item ∷ items) = add_address (parse_forwarded_address item) (parse_items items)

  abbrev pub join_addresses : Option (List Addr) → Option (List Addr) → Option (List Addr)
  join_addresses (some first) (some rest) = some (first ++ rest)
  join_addresses _ _ = none

  -- `none` where the code returns nil early.
  unfoldable pub parse_values :
      (List GoString → Option (List Addr)) → List GoString → Option (List Addr)
  parse_values parse [] = some []
  parse_values parse (value ∷ values) =
      join_addresses (parse (split value b',')) (parse_values parse values)

  abbrev pub or_nil : Option (List Addr) → List Addr
  or_nil none = []
  or_nil (some addresses) = addresses

  unfoldable pub parse_forwarded_ip_list : List GoString → List Addr
  parse_forwarded_ip_list values = or_nil (parse_values parse_items values)

  -- A `name=value` parameter with the name `for`
  unfoldable pub for_value : GoString → Option GoString
  for_value parameter = elim (cut (trim_space parameter) b'=') [
    | none ↦ none
    | some (name, value) ↦ if folds_to name (text "for") then some value else none
  ]

  -- The loop over the parameters of an element; the first argument is `address`, where `found`.
  unfoldable pub element_address : Option Addr → List GoString → Option Addr
  element_address found [] = found
  element_address found (parameter ∷ parameters) = elim (for_value parameter) [
    | none ↦ element_address found parameters
    | some value ↦ elim found [
      | some _ ↦ none
      | none ↦ elim (parse_forwarded_address value) [
        | none ↦ none
        | some address ↦ element_address (some address) parameters
      ]
    ]
  ]

  unfoldable pub parse_elements : List GoString → Option (List Addr)
  parse_elements [] = some []
  parse_elements (element ∷ elements) =
      add_address (element_address none (split element b';')) (parse_elements elements)

  unfoldable pub parse_forwarded_header : List GoString → List Addr
  parse_forwarded_header values = or_nil (parse_values parse_elements values)

  unfoldable pub forwarded_ips : PeerRequest → List Addr
  forwarded_ips request = elim request.forwarded_for [
    | value ∷ values ↦ parse_forwarded_ip_list (value ∷ values)
    | [] ↦ elim request.forwarded [
      | value ∷ values ↦ parse_forwarded_header (value ∷ values)
      | [] ↦ []
    ]
  ]

  -- The loop of `remoteIP` over the chain, from its end.
  unfoldable pub rightmost : List Prefix → List Addr → Option Addr
  rightmost trusted [] = none
  rightmost trusted (address ∷ before) =
      let found = rightmost trusted before in
      if not (contains_trusted_proxy trusted address) then some address else found

  unfoldable pub client_hop : List Prefix → List Addr → Addr → Addr
  client_hop trusted [] peer = peer
  client_hop trusted (first ∷ forwarded) peer =
      elim (rightmost trusted (reverse (first ∷ forwarded ++ peer ∷ []))) [
        | some address ↦ address
        | none ↦ first
      ]

  unfoldable pub remote_ip : List Prefix → PeerRequest → GoString
  remote_ip trusted request = elim (request_peer_ip request.remote_addr) [
    | none ↦ request.remote_addr
    | some peer ↦
        if not (contains_trusted_proxy trusted peer)
        then net.addr_text peer
        else net.addr_text (client_hop trusted (forwarded_ips request) peer)
  ]
