-- ===== src/Room/Actor/Delivery.antt =====
-- `broadcast` of internal/room/actor.go: its recursion, and rules for what it keeps.
use midnight_council.Base.{
  ℕ, zero, suc, ◌+◌, ◌<◌, ◌≤◌, ◌≡◌, refl, sym, ap, ◌∙◌, [], ◌∷◌, ◌++◌, length, arith,
}
use midnight_council.Text.{GoString, str_Eq}
use midnight_council.Room.Types
use midnight_council.Room.Errors.{ok, err, Result}
use midnight_council.Room.Host.{Host}
use midnight_council.Room.Event.{Event, Envelope}
use midnight_council.Room.State.{State}
use midnight_council.Room.State.Apply.{apply}
use midnight_council.Room.Actor.{
  Actor, Subscribers, keep_up, fall_behind, own_event, announced, disconnect_all, broadcast_within,
  broadcast,
}

-- What `broadcast` has sent, before it disconnects those who did not keep up.
abbrev pub sent : Host → GoString → Envelope → Actor → Actor
sent h cause envelope a = record a {
  subscribers = keep_up h cause a.room envelope a.subscribers;
  closed = a.closed ++ fall_behind h cause a.subscribers;
}

-- A predicate that sending and `Apply` keep, kept by an announcement and by a broadcast.
module _ {ℓ} (P : Actor → Type ℓ)
    (moved : (h : Host) (e : Event) (a : Actor)
      → P a
      → P (record a { room = (apply h a.room e).0 })) where
  announced_outcome :
      (send : Envelope → Actor → Actor)
      → ((envelope : Envelope) (a : Actor) → P a → P (send envelope a))
      → (a : Actor) (o : State × Result Envelope) → P (record a { room = o.0 })
      → P (announced send a o)
  announced_outcome send keeps a (t, ok envelope) p = keeps envelope _ p
  announced_outcome send keeps a (t, err x) p = p

  pub announced_rule :
      (send : Envelope → Actor → Actor)
      → ((envelope : Envelope) (a : Actor) → P a → P (send envelope a))
      → (h : Host) (e : Event) (a : Actor) → P a
      → P (announced send a (apply h a.room e))
  announced_rule send keeps h e a p =
      announced_outcome send keeps a (apply h a.room e) (moved h e a p)

  module _
      (passed : (h : Host) (cause : GoString) (envelope : Envelope) (a : Actor)
        → P a
        → P (sent h cause envelope a)) where
    disconnect_all_rule :
        (h : Host) (send : GoString → Envelope → Actor → Actor)
        → ((cause : GoString) (envelope : Envelope) (a : Actor) → P a → P (send cause envelope a))
        → (dropped : Subscribers) (a : Actor) → P a
        → P (disconnect_all h send dropped a)
    unfolding disconnect_all
    disconnect_all_rule h send keeps [] a p = p
    disconnect_all_rule h send keeps ((id, sub) ∷ rest) a p =
        disconnect_all_rule h send keeps rest _ (
          announced_rule (send id) (keeps id) h
            (own_event Types.EventType.disconnect sub.player_id h.now) a p)

    broadcast_within_rule :
        (n : ℕ) (h : Host) (cause : GoString) (envelope : Envelope) (a : Actor)
        → P a
        → P (broadcast_within n h cause envelope a)
    unfolding broadcast_within
    broadcast_within_rule zero h cause envelope a p = p
    broadcast_within_rule (suc n) h cause envelope a p =
        disconnect_all_rule h (broadcast_within n h) (broadcast_within_rule n h)
          (fall_behind h cause a.subscribers) _ (passed h cause envelope a p)

    pub broadcast_rule :
        (h : Host) (envelope : Envelope) (a : Actor) → P a → P (broadcast h envelope a)
    unfolding broadcast
    broadcast_rule h envelope a p =
        broadcast_within_rule (length a.subscribers + 1) h [] envelope a p

-- Nobody is sent to and dropped at once.
length-keep_up :
    (h : Host) (cause : GoString) (s : State) (envelope : Envelope) (subs : Subscribers)
    → length (keep_up h cause s envelope subs) + length (fall_behind h cause subs) ≡ length subs
unfolding keep_up fall_behind
length-keep_up h cause s envelope [] = refl
length-keep_up h cause s envelope ((id, sub) ∷ rest) =
    ground (arith, length-keep_up h cause s envelope rest)

abbrev AtMost : ℕ → Actor → Type 0
AtMost n a = length a.subscribers ≤ n

broadcast_within_shrinks :
    (n k : ℕ) (h : Host) (cause : GoString) (envelope : Envelope) (a : Actor)
    → AtMost n a
    → AtMost n (broadcast_within k h cause envelope a)
broadcast_within_shrinks n k h cause envelope a b =
    broadcast_within_rule (AtMost n) (λ h e a p. p)
      (λ h cause envelope a p.
        omega (arith, length-keep_up h cause a.room envelope a.subscribers, p))
      k h cause envelope a b

-- Two ways to send that agree on few subscribers disconnect the same.
announced_same :
    (n : ℕ) (f g : Envelope → Actor → Actor) (a : Actor) (o : State × Result Envelope)
    → ((envelope : Envelope) (a : Actor) → AtMost n a → f envelope a ≡ g envelope a)
    → AtMost n a
    → announced f a o ≡ announced g a o
announced_same n f g a (t, ok envelope) same b = same envelope _ b
announced_same n f g a (t, err x) same b = refl

announced_small :
    (n : ℕ) (f : Envelope → Actor → Actor) (a : Actor) (o : State × Result Envelope)
    → ((envelope : Envelope) (a : Actor) → AtMost n a → AtMost n (f envelope a))
    → AtMost n a
    → AtMost n (announced f a o)
announced_small n f a (t, ok envelope) small b = small envelope _ b
announced_small n f a (t, err x) small b = b

disconnect_all_same :
    (n : ℕ) (h : Host) (f g : GoString → Envelope → Actor → Actor) (dropped : Subscribers)
    (a : Actor)
    → ((cause : GoString) (envelope : Envelope) (a : Actor)
        → AtMost n a
        → f cause envelope a ≡ g cause envelope a)
    → ((cause : GoString) (envelope : Envelope) (a : Actor)
        → AtMost n a
        → AtMost n (f cause envelope a))
    → AtMost n a
    → disconnect_all h f dropped a ≡ disconnect_all h g dropped a
unfolding disconnect_all
disconnect_all_same n h f g [] a same small b = refl
disconnect_all_same n h f g ((id, sub) ∷ rest) a same small b =
    let o = apply h a.room (own_event Types.EventType.disconnect sub.player_id h.now) in
    disconnect_all_same n h f g rest (announced (f id) a o) same small
      (announced_small n (f id) a o (small id) b)
    ∙ ap (disconnect_all h g rest) (announced_same n (f id) (g id) a o (same id) b)

disconnect_all_enough :
    (n k : ℕ) (h : Host) (dropped : Subscribers) (a : Actor)
    → ((cause : GoString) (envelope : Envelope) (a : Actor)
        → length a.subscribers < n
        → broadcast_within n h cause envelope a ≡ broadcast_within k h cause envelope a)
    → length a.subscribers + length dropped < suc n
    → disconnect_all h (broadcast_within n h) dropped a
      ≡ disconnect_all h (broadcast_within k h) dropped a
disconnect_all_enough n k h [] a same few = unfold disconnect_all in refl
disconnect_all_enough n k h ((id, sub) ∷ rest) a same few =
    disconnect_all_same (length a.subscribers) h (broadcast_within n h) (broadcast_within k h)
      ((id, sub) ∷ rest) a
      (λ cause envelope b small. same cause envelope b (omega (arith, small, few)))
      (λ cause envelope b small.
        broadcast_within_shrinks (length a.subscribers) n h cause envelope b small)
      (omega arith)

-- More fuel than there are subscribers changes nothing.
broadcast_within_enough :
    (n k : ℕ) (h : Host) (cause : GoString) (envelope : Envelope) (a : Actor)
    → length a.subscribers < n
    → n ≤ k
    → broadcast_within n h cause envelope a ≡ broadcast_within k h cause envelope a
unfolding broadcast_within
broadcast_within_enough zero k h cause envelope a few more = absurd (omega (arith, few))
broadcast_within_enough (suc n) zero h cause envelope a few more = absurd (omega (arith, more))
broadcast_within_enough (suc n) (suc k) h cause envelope a few more =
    disconnect_all_enough n k h (fall_behind h cause a.subscribers) (sent h cause envelope a)
      (λ cause envelope b small.
        broadcast_within_enough n k h cause envelope b small (omega (arith, more)))
      (omega (arith, length-keep_up h cause a.room envelope a.subscribers, few))

-- `broadcast` ends: with any fuel above the number of subscribers it does the same.
pub broadcast_ends :
    (n : ℕ) (h : Host) (envelope : Envelope) (a : Actor)
    → length a.subscribers < n
    → broadcast_within n h [] envelope a ≡ broadcast h envelope a
unfolding broadcast
broadcast_ends n h envelope a few = sym (
    broadcast_within_enough (length a.subscribers + 1) n h [] envelope a (omega arith)
      (omega (arith, few)))
