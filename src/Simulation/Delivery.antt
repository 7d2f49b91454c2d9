-- ===== src/Simulation/Delivery.antt =====
-- Who gets which event on the simulated bus.
use linbuskit.Base.{
  ℕ, zero, suc, ◌<◌, ◌≡◌, refl, ap, ◌∙◌, arith, List, [], ◌∷◌, Option, none, some, true, ==_refl,
  Bool-cases, inl, inr, ◌==◌, if◌then◌else◌, length,
}
use linbuskit.Lin.{LinEvent, rx, tx}
use linbuskit.Transport.State.{send_or_drop}
use linbuskit.Simulation.{
  EventQueues, Key, Network, event_queue, set_queue, push_event, queue_capacity, same_key,
  lookup_response, delete_response, insert_response, seen_as, push_master, push_all, broadcast,
  deliver_response, request_response, schedule_response,
}

-- A queue map holds what was set, and nothing else changes.
pub event_queue-set :
    (c d : ℕ) (q : List LinEvent) (qs : EventQueues)
    → event_queue d (set_queue c q qs) ≡ (if c == d then q else event_queue d qs)
unfolding event_queue set_queue
event_queue-set c d q [] = refl
event_queue-set c d q ((k, old) ∷ rest) = ground (arith, event_queue-set c d q rest)

event_queue-push :
    (d : ℕ) (e : LinEvent) (qs : EventQueues)
    → event_queue d (push_event e qs) ≡ (
        if e.channel == d
        then send_or_drop queue_capacity (event_queue d qs) e
        else event_queue d qs)
unfolding push_event
event_queue-push d e qs = ground (
  arith,
  event_queue-set e.channel d (send_or_drop queue_capacity (event_queue e.channel qs) e) qs,
)

-- What waits for a driver on a channel; a slave that is not there has nothing.
abbrev pub master_waiting : ℕ → Network → List LinEvent
master_waiting channel n = elim n.master_driver [ none ↦ [] | some qs ↦ event_queue channel qs ]

abbrev pub waiting_at : ℕ → ℕ → List EventQueues → List LinEvent
waiting_at i channel [] = []
waiting_at zero channel (qs ∷ rest) = event_queue channel qs
waiting_at (suc i) channel (qs ∷ rest) = waiting_at i channel rest

waiting_at-push :
    (i d : ℕ) (e : LinEvent) (l : List EventQueues)
    → i < length l
    → waiting_at i d (push_all e l) ≡ (
        if e.channel == d
        then send_or_drop queue_capacity (waiting_at i d l) e
        else waiting_at i d l)
waiting_at-push zero d e [] h = absurd (omega arith)
waiting_at-push (suc i) d e [] h = absurd (omega arith)
waiting_at-push zero d e (qs ∷ rest) h = event_queue-push d e qs
waiting_at-push (suc i) d e (qs ∷ rest) h = waiting_at-push i d e rest (omega arith)

-- A frame that the master writes reaches every slave's queue of its channel as a received event,
-- behind what waits there, unless that queue is full; the queues of other channels stay.
pub broadcast_reaches :
    (i d : ℕ) (e : LinEvent) (n : Network)
    → i < length n.slave_drivers
    → waiting_at i d (broadcast e n).slave_drivers ≡ (
        if e.channel == d
        then send_or_drop queue_capacity (waiting_at i d n.slave_drivers) (seen_as rx n.clock e)
        else waiting_at i d n.slave_drivers)
unfolding broadcast
broadcast_reaches i d e n h = waiting_at-push i d (seen_as rx n.clock e) n.slave_drivers h

same_key_refl : (k : Key) → same_key k k ≡ true
same_key_refl k = rw (==_refl k.channel, ==_refl k.frame_id)

lookup-delete :
    (k : Key) (m : List (Key × LinEvent)) → lookup_response k (delete_response k m) ≡ none
unfolding lookup_response delete_response
lookup-delete k [] = refl
lookup-delete k ((j, e) ∷ rest) = elim (Bool-cases (same_key j k)) [
  | inl same ↦ rw (same, delete_response) (lookup-delete k rest)
  | inr other ↦ rw (other, delete_response) (rw (other, lookup_response) (lookup-delete k rest))
]

lookup-insert :
    (k : Key) (e : LinEvent) (m : List (Key × LinEvent))
    → lookup_response k (insert_response k e m) ≡ some e
unfolding insert_response lookup_response
lookup-insert k e m = rw (same_key_refl k)

deliver-twice :
    (o : Option LinEvent) (k : Key) (n : Network)
    → lookup_response k n.slave_responses ≡ o
    → deliver_response
        (lookup_response k (deliver_response o k n).slave_responses)
        k
        (deliver_response o k n)
      ≡ deliver_response o k n
deliver-twice none k n e = rw e
deliver-twice (some x) k n e = rw (lookup-delete k n.slave_responses)

-- A scheduled response answers one request: a second request for the same frame and channel, with
-- nothing scheduled in between, changes nothing.
request_once :
    (id channel : ℕ) (n : Network)
    → request_response id channel (request_response id channel n) ≡ request_response id channel n
unfolding request_response
request_once id channel n =
    let k : Key = record { channel = channel; frame_id = id } in
    deliver-twice (lookup_response k n.slave_responses) k n refl

-- The response that was scheduled last for its frame and channel is the one that a request sends:
-- to the master as received, to every slave as sent.
pub schedule-request :
    (e : LinEvent) (n : Network)
    → let n' = request_response e.event_id e.channel (schedule_response e n) in
      (n'.master_driver ≡ push_master (seen_as rx n.clock e) n.master_driver)
      × (n'.slave_drivers ≡ push_all (seen_as tx n.clock e) n.slave_drivers)
      × (lookup_response (record { channel = e.channel; frame_id = e.event_id }) n'.slave_responses
          ≡ none)
unfolding request_response schedule_response
schedule-request e n =
    let k : Key = record { channel = e.channel; frame_id = e.event_id } in
    let m = insert_response k e n.slave_responses in
    let n1 : Network = record n { slave_responses = m } in
    let sent =
      ap (λ (o : Option LinEvent). deliver_response o k n1) (lookup-insert k e n.slave_responses) in
    (
      ap (λ (x : Network). x.master_driver) sent,
      ap (λ (x : Network). x.slave_drivers) sent,
      ap (λ (x : Network). lookup_response k x.slave_responses) sent ∙ lookup-delete k m,
    )
