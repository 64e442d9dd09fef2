-- ===== src/Ws/Proxy/Chain.antt =====
-- The hop that `remoteIP` of internal/ws/admission.go takes for the client.
use mathlib.Core.List.{
  reverse, reverse_aux, reverse-append, reverse-cons, reverse-reverse, append_assoc,
}
use midnight_council.Base.{
  ◌≡◌, refl, ap, subst, sym, ◌∙◌, ◌⊎◌, inl, inr, true, false, List, [], ◌∷◌, ◌++◌, none, some,
  arith, All, Option-cases, Bool-cases,
}
use midnight_council.Text.{GoString, split}
use midnight_council.Ws.Proxy.{
  Netip, PeerRequest, contains_trusted_proxy, rightmost, client_hop, remote_ip, forwarded_ips,
  request_peer_ip, parse_forwarded_ip_list, parse_values, parse_items,
}

module _ {ℓ} {Addr Prefix : Type ℓ} (net : Netip Addr Prefix) (trusted : List Prefix) where
  abbrev pub IsTrusted : Addr → Type 0
  IsTrusted address = contains_trusted_proxy net trusted address ≡ true

  -- The last address that no trusted network holds, or the first one where all are trusted.
  pub data IsClient : List Addr → Addr → Type ℓ where
    untrusted :
        {chain : List Addr} (before after : List Addr) (hop : Addr)
        → chain ≡ before ++ hop ∷ after
        → contains_trusted_proxy net trusted hop ≡ false
        → All IsTrusted after
        → IsClient chain hop
    all_trusted :
        (hop : Addr) (chain : List Addr) → All IsTrusted (hop ∷ chain) → IsClient (hop ∷ chain) hop

  rightmost-some :
      (xs : List Addr) (hop : Addr)
      → rightmost net trusted xs ≡ some hop
      → (after : List Addr) × (before : List Addr) × (xs ≡ after ++ hop ∷ before)
        × (contains_trusted_proxy net trusted hop ≡ false)
        × All IsTrusted after
  unfolding rightmost
  rightmost-some [] hop h = cc
  rightmost-some (x ∷ xs) hop h = elim (Bool-cases (contains_trusted_proxy net trusted x)) [
    | inl inside ↦ do
      let (after, before, split, outside, behind) =
          rightmost-some xs hop (ground (arith, inside, h))
      (x ∷ after, before, ap (λ ys. x ∷ ys) split, outside, (inside, behind))
    | inr outside ↦ do
      let same : x ≡ hop = ground (arith, outside, h)
      (
        [],
        xs,
        ap (λ y. y ∷ xs) same,
        subst (λ y. contains_trusted_proxy net trusted y ≡ false) same outside,
        tt,
      )
  ]

  rightmost-none : (xs : List Addr) → rightmost net trusted xs ≡ none → All IsTrusted xs
  unfolding rightmost
  rightmost-none [] h = tt
  rightmost-none (x ∷ xs) h = ground (arith, rightmost-none xs)

  rightmost-append :
      (xs ys : List Addr) (hop : Addr)
      → rightmost net trusted xs ≡ some hop
      → rightmost net trusted (xs ++ ys) ≡ some hop
  unfolding rightmost
  rightmost-append [] ys hop h = cc
  rightmost-append (x ∷ xs) ys hop h = ground (arith, rightmost-append xs ys hop)

  reverse_aux-All :
      (xs ys : List Addr) → All IsTrusted xs → All IsTrusted ys → All IsTrusted (reverse_aux xs ys)
  reverse_aux-All [] ys h k = k
  reverse_aux-All (x ∷ xs) ys h k = reverse_aux-All xs (x ∷ ys) h.1 (h.0, k)

  reverse_split :
      (chain after before : List Addr) (hop : Addr)
      → reverse chain ≡ after ++ hop ∷ before
      → chain ≡ reverse before ++ hop ∷ reverse after
  reverse_split chain after before hop h =
      sym (reverse-reverse chain)
      ∙ ap reverse h
      ∙ reverse-append after (hop ∷ before)
      ∙ ap (λ xs. xs ++ reverse after) (reverse-cons hop before)
      ∙ append_assoc (reverse before) (hop ∷ []) (reverse after)

  -- Where the chain is not empty.
  rightmost-IsClient :
      (first : Addr) (rest : List Addr)
      → IsClient
          (first ∷ rest)
          (elim (rightmost net trusted (reverse (first ∷ rest))) [ some hop ↦ hop | none ↦ first ])
  rightmost-IsClient first rest =
      elim (Option-cases (rightmost net trusted (reverse (first ∷ rest)))) [
        | inl none_found ↦ rw none_found (
            all_trusted first rest (
              subst (All IsTrusted) (reverse-reverse (first ∷ rest))
                (reverse_aux-All (reverse (first ∷ rest)) [] (rightmost-none _ none_found) tt)))
        | inr (hop, found) ↦ do
          let (after, before, split, outside, behind) = rightmost-some _ hop found
          rw found (
              untrusted (reverse before) (reverse after) hop
                (reverse_split _ after before hop split) outside
                (reverse_aux-All after [] behind tt))
      ]

  client_hop-IsClient :
      (forwarded : List Addr) (peer : Addr)
      → contains_trusted_proxy net trusted peer ≡ true
      → IsClient (forwarded ++ peer ∷ []) (client_hop net trusted forwarded peer)
  unfolding client_hop
  client_hop-IsClient [] peer inside = all_trusted peer [] (inside, tt)
  client_hop-IsClient (first ∷ forwarded) peer inside =
      rightmost-IsClient first (forwarded ++ peer ∷ [])

  -- Where the address of the peer can be read, a connection is counted for the last address, in the
  -- chain of the forwarded addresses and the peer, that no trusted network holds; where all of them are
  -- trusted, for the first one of the chain.
  pub remote_ip-IsClient :
      (request : PeerRequest) (peer : Addr)
      → request_peer_ip net request.remote_addr ≡ some peer
      → (hop : Addr) × (remote_ip net trusted request ≡ net.addr_text hop)
        × IsClient (forwarded_ips net request ++ peer ∷ []) hop
  unfolding remote_ip
  remote_ip-IsClient request peer known =
      elim (Bool-cases (contains_trusted_proxy net trusted peer)) [
        | inl inside ↦ (
          client_hop net trusted (forwarded_ips net request) peer,
          rw (remote_ip, known, inside) refl,
          client_hop-IsClient (forwarded_ips net request) peer inside,
        )
        | inr outside ↦ (
          peer,
          rw (remote_ip, known, outside) refl,
          untrusted (forwarded_ips net request) [] peer refl outside tt,
        )
      ]

  -- A header line in front only puts addresses in front, or spoils the whole list.
  parse_forwarded_ip_list-cons :
      (junk : GoString) (values : List GoString)
      → (parse_forwarded_ip_list net (junk ∷ values) ≡ [])
        ⊎ ((claimed : List Addr) × (parse_forwarded_ip_list net (junk ∷ values)
              ≡ claimed ++ parse_forwarded_ip_list net values))
  unfolding parse_forwarded_ip_list parse_values
  parse_forwarded_ip_list-cons junk values =
      elim (Option-cases (parse_items net (split junk b','))) [
        | inl bad ↦ inl (ground (arith, bad))
        | inr (claimed, good) ↦ elim (Option-cases (parse_values net (parse_items net) values)) [
          | inl bad ↦ inl (ground (arith, bad, good))
          | inr (addresses, fine) ↦ inr (claimed, ground (arith, good, fine))
        ]
      ]

  client_hop_found :
      (forwarded : List Addr) (peer hop : Addr)
      → rightmost net trusted (reverse (forwarded ++ peer ∷ [])) ≡ some hop
      → contains_trusted_proxy net trusted peer ≡ true
      → client_hop net trusted forwarded peer ≡ hop
  unfolding client_hop rightmost
  client_hop_found [] peer hop found inside = ground (arith, found, inside)
  client_hop_found (first ∷ forwarded) peer hop found inside = rw (client_hop, found) refl

  client_hop_behind :
      (claimed forwarded : List Addr) (peer hop : Addr)
      → rightmost net trusted (reverse (forwarded ++ peer ∷ [])) ≡ some hop
      → contains_trusted_proxy net trusted peer ≡ true
      → client_hop net trusted (claimed ++ forwarded) peer ≡ hop
  client_hop_behind claimed forwarded peer hop found =
      client_hop_found (claimed ++ forwarded) peer hop (
        ap (λ xs. rightmost net trusted (reverse xs)) (append_assoc claimed forwarded (peer ∷ []))
        ∙ ap (rightmost net trusted) (reverse-append claimed (forwarded ++ peer ∷ []))
        ∙ rightmost-append _ (reverse claimed) hop found)

  -- Where the address of the peer can be read and the header X-Forwarded-For of the proxies, with the
  -- peer, has an untrusted hop: whatever line is sent in front of that header, the connection is
  -- counted for that hop or for the peer.
  pub remote_ip_spoofed :
      (request : PeerRequest) (peer hop : Addr) (junk first : GoString) (values : List GoString)
      → request_peer_ip net request.remote_addr ≡ some peer
      → rightmost net trusted (reverse (parse_forwarded_ip_list net (first ∷ values) ++ peer ∷ []))
        ≡ some hop
      → (remote_ip net trusted (record request { forwarded_for = junk ∷ first ∷ values })
          ≡ net.addr_text hop)
        ⊎ (remote_ip net trusted (record request { forwarded_for = junk ∷ first ∷ values })
            ≡ net.addr_text peer)
  unfolding remote_ip forwarded_ips client_hop
  remote_ip_spoofed request peer hop junk first values known found =
      elim (Bool-cases (contains_trusted_proxy net trusted peer)) [
        | inr outside ↦ inr (rw (remote_ip, known, outside) refl)
        | inl inside ↦ elim (parse_forwarded_ip_list-cons junk (first ∷ values)) [
          | inl spoilt ↦ inr (rw (remote_ip, known, inside, forwarded_ips, spoilt, client_hop) refl)
          | inr (claimed, longer) ↦ inl (
              rw
                (
                  remote_ip,
                  known,
                  inside,
                  forwarded_ips,
                  longer,
                  client_hop_behind claimed _ peer hop found inside,
                )
                refl)
        ]
      ]
