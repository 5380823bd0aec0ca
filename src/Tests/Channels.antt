-- ===== src/Tests/Channels.antt =====
-- Channels of src/queue.rs: messages that are given, given again and acknowledged.
use floki.Prelude.{◌+◌, ◌≤◌, ◌≡◌, refl, inl, inr, [], ◌∷◌, some, arith, done}
use floki.Segment.Stored.{pushed_stored}
use floki.Backend
use floki.Backend.{QueueBackend, Message, message_id, find_segment}
use floki.Rev.{partial_cmp}
use floki.Backend.Invariant.{Has}
use floki.Heap
use floki.Heap.{Pending}
use floki.Heap.Order.{IsSorted, push-IsSorted}
use floki.Channel.{Channel, ok, err, end_of_queue, get, ack, redeliver, hand_out}
use floki.Channel.Delivery.{IsOut, get-IsOut}
use floki.Channel.Acks.{get-ack}
use floki.Channel.Reads.{get_redelivers, get_fetches, get_ends}
use floki.Tests.Data.{
  association, small_log, small_log-Inv, checksum, one_message, empty_segment,
  empty_segment-IsValid, greeting, greeting-IsPushable, one_out, one_out-IsTracked, fresh,
}

-- At 20 the time of ticket 9 is over, and message 1 is given again as ticket 5.
get_redelivers_example :
    (c' : Channel association) × (m : Message) × (get association one_out small_log 10 5 20
      ≡ done (c', ok (5, m)))
    × (message_id m ≡ 1)
    × (c'.tail ≡ 2)
get_redelivers_example =
    get_redelivers association checksum one_out small_log 10 5 20 9
      (record { id = 1; expiration = 10 }) small_log-Inv refl (omega arith)
      (inl (omega arith, omega arith))

get_fetches_example :
    (c' : Channel association) × (m : Message) × (get association fresh small_log 10 5 20
      ≡ done (c', ok (5, m)))
    × Has small_log.segments (message_id m)
    × (1 ≤ message_id m)
    × (message_id m ≤ 1)
    × (c'.tail ≡ message_id m + 1)
get_fetches_example =
    get_fetches association checksum fresh small_log 10 5 20 1 small_log-Inv (inl refl)
      (inl (omega arith, omega arith)) (omega arith)

get_ends_example :
    get association one_out small_log 10 5 3
    ≡ done (record one_out { last_touched = 3 }, err (end_of_queue 2))
get_ends_example =
    get_ends association checksum one_out small_log 10 5 3 small_log-Inv
      (inr (9, record { id = 1; expiration = 10 }, refl, omega arith)) (omega arith)

abbrev again : Channel association
again = record {
  last_touched = 20;
  expired_count = 0;
  tail = 2;
  in_flight_map = (5, record { id = 1; expiration = 30 }) ∷ [];
  in_flight_heap = (1, 9) ∷ (1, 5) ∷ [];
}

abbrev greeting_message : Message
greeting_message = record { segment = one_message; offset = 4 }

-- The log has the greeting as message 1.
log_get : Backend.get small_log 1 ≡ done (some greeting_message)
unfolding Backend.get find_segment
log_get =
    rw
      (pushed_stored checksum empty_segment empty_segment-IsValid greeting 50 greeting-IsPushable
        (omega arith)).0
      refl

given_again : get association one_out small_log 10 5 20 ≡ done (again, ok (5, greeting_message))
unfolding get redeliver hand_out Heap.push Heap.is_above partial_cmp
given_again = rw log_get refl

get-IsOut_example : IsOut association 1 again
get-IsOut_example =
    get-IsOut association one_out again small_log 10 5 20 1 (ok (5, greeting_message))
      one_out-IsTracked refl given_again (9, record { id = 1; expiration = 10 }, refl, refl)

get-ack_example : (ack association again 5 29).1 ≡ ok tt
get-ack_example =
    get-ack association one_out again small_log 10 5 20 29 greeting_message refl given_again
      (omega arith)

acked : (ack association one_out 9 5).1 ≡ ok tt
unfolding ack
acked = refl

push-IsSorted_example : IsSorted (Heap.push (2, 7) ((1, 9) ∷ (3, 4) ∷ []))
push-IsSorted_example = push-IsSorted (2, 7) ((1, 9) ∷ (3, 4) ∷ []) ((omega arith, tt), (tt, tt))
