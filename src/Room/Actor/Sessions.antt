-- ===== src/Room/Actor/Sessions.antt =====
-- The subscriptions of an actor (internal/room/actor.go): `disconnectParticipant` before a new one, and
-- the bound on each channel.
use midnight_council.Base.{
  ℕ, suc, ◌≤◌, ◌≡◌, ◌≢◌, refl, false, [], ◌∷◌, if◌then◌else◌, length, arith,
}
use midnight_council.Base.Dict.{lookup}
use midnight_council.Base.Dict.Laws.{lookup-insert, Entries}
use midnight_council.Text.{GoString, str_eq, str_Eq, str_eq_iff}
use midnight_council.Room.Errors.{err, connection_replaced}
use midnight_council.Room.Host.{Host}
use midnight_council.Room.Event.{Event}
use midnight_council.Room.State.{State}
use midnight_council.Room.State.Views.{envelope_for_player}
use midnight_council.Room.Actor.{
  Actor, Subscription, Subscribers, capacity, without_participant, disconnect_participant,
}
use midnight_council.Room.Actor.Rounds.{belongs_to, dispatch_event, add_subscriber, Rounds}

-- How many subscriptions a participant has.
abbrev pub sessions : GoString → Subscribers → ℕ
sessions id [] = 0
sessions id ((j, sub) ∷ rest) =
    let others = sessions id rest in if str_eq sub.player_id id then suc others else others

-- No participant has two subscriptions.
abbrev pub IsSingle : Actor → Type 0
IsSingle a = (id : GoString) → sessions id a.subscribers ≤ 1

-- Every channel is within its capacity.
abbrev pub IsBounded : Actor → Type 0
IsBounded a = Entries (λ id sub. length sub.events ≤ capacity) a.subscribers

no_session_left :
    (id gone : GoString) (subs : Subscribers)
    → belongs_to gone (lookup id (without_participant gone subs)) ≡ false
unfolding without_participant lookup
no_session_left id gone [] = refl
no_session_left id gone ((j, sub) ∷ rest) = ground (arith, no_session_left id gone rest)

-- Once a participant has subscribed anew, an event of theirs from any other subscription is refused and
-- changes nothing.
pub dispatch_event-add_subscriber :
    (h h' : Host) (new_id old_id : GoString) (e : Event) (a : Actor)
    → old_id ≢ new_id
    → old_id ≢ []
    → let b = add_subscriber h new_id e.player_id a in
      dispatch_event h' old_id e b ≡ (b, err connection_replaced)
unfolding dispatch_event add_subscriber disconnect_participant
dispatch_event-add_subscriber h h' new_id old_id e a other given =
    let alone = without_participant e.player_id a.subscribers in
    let sub : Subscription = record {
      player_id = e.player_id;
      events = envelope_for_player h a.room e.player_id ∷ [];
    } in
    ground (
      arith,
      str_eq_iff old_id [],
      str_eq_iff new_id old_id,
      lookup-insert new_id old_id sub alone,
      no_session_left old_id e.player_id a.subscribers,
    )
