-- ===== src/Channel.antt =====
-- src/queue.rs, `Channel`: a consumer's place in the log, and the messages that it was given and has
-- not acknowledged. A ticket is an `i64`, shown here as `ticket + 2 ^ 63`, which keeps the order.
pub mod Tracked
pub mod Delivery
pub mod Acks
pub mod Reads
pub mod Counted
use floki.Prelude.{
  ℕ, zero, suc, ◌+◌, ◌-◌, ◌≡◌, Bool, true, false, ◌&&◌, Option, none, some, List, [], ◌∷◌, ◌++◌,
  Outcome, done, panic, ◌>>=◌, u32, ltb, leb, ◌==◌, if◌then◌else◌, length,
}
use floki.Segment.{sub_u32, QueueBackendError}
use floki.Backend.{QueueBackend, Message, message_id}
use floki.Backend
use floki.Collections.{LinkedHashMap}
use floki.Heap
use floki.Heap.{Pending}

abbrev pub expired : ℕ
expired = 0

pub record InFlightState : Type 0 where
  pub id : ℕ
  pub expiration : ℕ

abbrev pub Entries : Type 0
Entries = List (ℕ × InFlightState)

pub data QueueError : Type 0 where
  queue_already_exists queue_not_found channel_already_exists channel_not_found : QueueError
  ticket_not_found : QueueError
  end_of_queue : ℕ → QueueError
  backend_failed : QueueBackendError → QueueError

pub data QueueResult (A : Type 0) : Type 0 where
  ok : A → QueueResult A
  err : QueueError → QueueResult A

-- The values that the loop of `update_state` leaves behind the ones it skips, and how many of them
-- have just expired.
unfoldable pub expire : ℕ → Entries → Entries × ℕ
expire clock [] = ([], 0)
expire clock ((t, s) ∷ es) =
    let (es', n) = expire clock es in
    if leb s.expiration clock
    then ((t, record s { expiration = expired }) ∷ es', suc n)
    else ((t, s) ∷ es, 0)

unfoldable pub expire_after : ℕ → ℕ → Entries → Entries × ℕ
unfolding expire
expire_after zero clock es = expire clock es
expire_after (suc k) clock [] = ([], 0)
expire_after (suc k) clock (e ∷ es) = let (es', n) = expire_after k clock es in (e ∷ es', n)

module _ (L : LinkedHashMap InFlightState) where
  pub record Channel : Type 0 where
    pub last_touched : ℕ
    pub expired_count : ℕ
    pub tail : ℕ
    pub in_flight_map : L.Map
    pub in_flight_heap : List Pending

  -- `create_channel` and `recover` begin with this.
  unfoldable pub new : ℕ → ℕ → Channel
  new last_touched tail = record {
    last_touched = last_touched;
    expired_count = 0;
    tail = tail;
    in_flight_map = L.empty;
    in_flight_heap = [];
  }

  unfoldable pub real_tail : Channel → ℕ
  real_tail c = elim (Heap.peek c.in_flight_heap) [ some (id, _) ↦ id | none ↦ c.tail ]

  unfoldable pub update_state : Channel → ℕ → Channel
  unfolding expire_after
  update_state c clock =
      let (es, n) = expire_after c.expired_count clock (L.entries c.in_flight_map) in
      record c {
        in_flight_map =
            L.iter_mut (λ old. (expire_after c.expired_count clock old).0) c.in_flight_map;
        expired_count = u32 (c.expired_count + n);
      }

  unfoldable pub in_flight_count : Channel → ℕ → Channel × ℕ
  unfolding update_state
  in_flight_count c clock =
      let c' = update_state c clock in (c', sub_u32 (u32 (L.len c'.in_flight_map)) c'.expired_count)

  unfoldable pub purge : Channel → ℕ → Channel
  purge c new_tail = record c {
    in_flight_heap = [];
    in_flight_map = L.empty;
    expired_count = 0;
    tail = new_tail;
  }

  unfoldable pub messages_available : Channel → ℕ
  messages_available c = c.expired_count

  -- The message `id` is out under `ticket`, until its time is over.
  unfoldable pub hand_out : Channel → ℕ → ℕ → ℕ → Channel
  hand_out c id ticket expiration = record c {
    in_flight_map = L.insert ticket (record { id = id; expiration = expiration }) c.in_flight_map;
    in_flight_heap = Heap.push (id, ticket) c.in_flight_heap;
  }

  -- `InnerQueue::get` on a channel that was found. `ticket` is what `rand::random` gives; only one of
  -- its two calls is reached.
  unfoldable pub redeliver :
      Channel
      → QueueBackend
      → ℕ
      → ℕ
      → ℕ
      → ℕ
      → InFlightState
      → Outcome (Channel × QueueResult (ℕ × Message))
  unfolding hand_out
  redeliver c backend ticket expiration clock old state = do
    let count = if state.expiration == expired then sub_u32 c.expired_count 1 else c.expired_count
    let removed = record c { expired_count = count; in_flight_map = L.remove old c.in_flight_map }
    found ← Backend.get backend state.id
    elim found [
      | none ↦ panic
      | some m ↦ done (hand_out removed state.id ticket expiration, ok (ticket, m))
    ]

  unfoldable pub fetch :
      Channel → QueueBackend → ℕ → ℕ → Outcome (Channel × QueueResult (ℕ × Message))
  unfolding hand_out
  fetch c backend ticket expiration = do
    found ← Backend.get backend c.tail
    elim found [
      | none ↦ done (c, err (end_of_queue c.tail))
      | some m ↦ done (
        record (hand_out c (message_id m) ticket expiration) { tail = message_id m + 1 },
        ok (ticket, m),
      )
    ]

  unfoldable pub get :
      Channel → QueueBackend → ℕ → ℕ → ℕ → Outcome (Channel × QueueResult (ℕ × Message))
  unfolding redeliver fetch
  get c backend message_timeout ticket clock =
      let touched = record c { last_touched = clock } in
      let expiration = u32 (clock + message_timeout) in
      elim (L.first c.in_flight_map) [
        | none ↦ fetch touched backend ticket expiration
        | some (old, state) ↦
            if leb state.expiration clock
            then redeliver touched backend ticket expiration clock old state
            else fetch touched backend ticket expiration
      ]

  -- The loop at the end of `ack`: entries of the heap whose tickets are gone.
  unfoldable pub advance : L.Map → List Pending → List Pending
  advance m [] = []
  advance m ((id, t) ∷ h) =
      let rest = advance m h in elim (L.get t m) [ some _ ↦ (id, t) ∷ h | none ↦ rest ]

  unfoldable pub ack : Channel → ℕ → ℕ → Channel × QueueResult (Unit {0})
  unfolding advance
  ack c ticket clock =
      let touched = record c { last_touched = clock } in
      let m = L.remove ticket c.in_flight_map in
      let acked = record touched {
        in_flight_map = m;
        in_flight_heap = advance m c.in_flight_heap;
      } in
      elim (L.get ticket c.in_flight_map) [
        | none ↦ (touched, err ticket_not_found)
        | some state ↦
            if ltb clock state.expiration then (acked, ok tt) else (touched, err ticket_not_found)
      ]

  unfoldable pub seek : Channel → ℕ → ℕ → Channel
  seek c id clock = record c { tail = id; last_touched = clock }
