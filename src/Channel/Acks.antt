-- ===== src/Channel/Acks.antt =====
-- Acknowledgements of src/queue.rs: which tickets are accepted, and what else changes.
use floki.Prelude.{
  ℕ, ◌+◌, ◌≤◌, ◌<◌, ◌≡◌, ◌≢◌, refl, none, some, lt→ltb, ltb-false, arith, done, u32,
}
use floki.Backend.{QueueBackend, Message, message_id}
use floki.Collections.{LinkedHashMap}
use floki.Channel.{InFlightState, ok, err, ticket_not_found, Channel, get, ack}
use floki.Channel.Tracked.{IsTracked, find-ids_erased}
use floki.Channel.Delivery.{
  Got, got, again, next, nothing, taken_back, hand_out_self, remove-get, fresh_entries, fresh_after,
}

module _ (L : LinkedHashMap InFlightState) where
  given :
      (c c' : Channel L) (backend : QueueBackend) (ticket expiration clock : ℕ) (m : Message)
      → L.get ticket c.in_flight_map ≡ none
      → Got L c backend ticket expiration clock c' (ok (ticket, m))
      → (id : ℕ) × (L.get ticket c'.in_flight_map
          ≡ some (record { id = id; expiration = expiration }))
  given c c' backend ticket expiration clock m fresh g = elim g [
    | again old s _ f over _ now _ ↦ (
      s.id,
      rw now (
          hand_out_self L (taken_back L c clock old s) s.id ticket expiration
            (fresh_after L c ticket old fresh)),
    )
    | next n _ now _ ↦ (
      message_id n,
      rw now (
          hand_out_self L (record c { last_touched = clock }) (message_id n) ticket expiration
            (fresh_entries L c ticket fresh)),
    )
    | nothing _ _ q ↦ cc
  ]

  -- After a `get` that gave a message under a ticket that was not in use, an acknowledgement of
  -- that ticket before its expiration is accepted.
  pub get-ack :
      (c c' : Channel L) (backend : QueueBackend) (message_timeout ticket clock later : ℕ)
      (m : Message)
      → L.get ticket c.in_flight_map ≡ none
      → get L c backend message_timeout ticket clock ≡ done (c', ok (ticket, m))
      → later < u32 (clock + message_timeout)
      → (ack L c' ticket later).1 ≡ ok tt
  unfolding ack
  get-ack c c' backend message_timeout ticket clock later m fresh h early =
      let out =
        given c c' backend ticket (u32 (clock + message_timeout)) clock m fresh
          (got L c backend message_timeout ticket clock h) in
      rw (out.1, lt→ltb later (u32 (clock + message_timeout)) early, ack) refl

  -- After a `get` that gave a message under a ticket that was not in use, an acknowledgement of
  -- that ticket at its expiration or later is refused as not found.
  get-ack_late :
      (c c' : Channel L) (backend : QueueBackend) (message_timeout ticket clock later : ℕ)
      (m : Message)
      → L.get ticket c.in_flight_map ≡ none
      → get L c backend message_timeout ticket clock ≡ done (c', ok (ticket, m))
      → u32 (clock + message_timeout) ≤ later
      → (ack L c' ticket later).1 ≡ err ticket_not_found
  unfolding ack
  get-ack_late c c' backend message_timeout ticket clock later m fresh h late =
      let out =
        given c c' backend ticket (u32 (clock + message_timeout)) clock m fresh
          (got L c backend message_timeout ticket clock h) in
      rw (out.1, ltb-false later (u32 (clock + message_timeout)) late, ack) refl

  acked_map :
      (c : Channel L) (ticket clock : ℕ)
      → (ack L c ticket clock).1 ≡ ok tt
      → (ack L c ticket clock).0.in_flight_map ≡ L.remove ticket c.in_flight_map
  unfolding ack
  acked_map c ticket clock h = ground arith

  ack_gone :
      (c : Channel L) (ticket clock : ℕ)
      → L.get ticket c.in_flight_map ≡ none
      → (ack L c ticket clock).1 ≡ err ticket_not_found
  unfolding ack
  ack_gone c ticket clock gone = rw (gone, ack) refl

  -- On a channel whose heap covers its map, once an acknowledgement of a ticket was accepted,
  -- another of the same ticket is refused as not found.
  ack-ack :
      (c : Channel L) (ticket clock later : ℕ)
      → IsTracked L c
      → (ack L c ticket clock).1 ≡ ok tt
      → (ack L (ack L c ticket clock).0 ticket later).1 ≡ err ticket_not_found
  ack-ack c ticket clock later k h =
      let left = L.remove ticket c.in_flight_map in
      ack_gone (ack L c ticket clock).0 ticket later (
        rw
          (
            acked_map c ticket clock h,
            L.get_entries ticket left,
            L.entries_remove ticket c.in_flight_map,
          )
          (find-ids_erased ticket (L.entries c.in_flight_map) k.covers.distinct))

  -- An acknowledgement, accepted or refused, leaves what is in flight under any other ticket as it
  -- is.
  ack-other :
      (c : Channel L) (ticket clock other : ℕ)
      → other ≢ ticket
      → L.get other (ack L c ticket clock).0.in_flight_map ≡ L.get other c.in_flight_map
  unfolding ack
  ack-other c ticket clock other ne =
      let rest = remove-get L other ticket c.in_flight_map ne in ground arith
