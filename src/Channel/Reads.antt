-- ===== src/Channel/Reads.antt =====
-- `get` of src/queue.rs on a valid log: which message a consumer is given, and that nothing panics.
use floki.Prelude.{
  ℕ, ◌+◌, ◌≤◌, ◌<◌, ◌≡◌, refl, ◌∙◌, ◌⊎◌, inl, inr, none, some, List, arith, done, le→leb, leb-false,
  u32,
}
use native.Mathlib.Nat.{le_refl}
use floki.Backend.{QueueBackend, Message, message_id}
use floki.Backend.Invariant.{Has, Inv}
use floki.Backend.Get.{get_found, get_end}
use floki.Collections.{LinkedHashMap}
use floki.Channel.{InFlightState, ok, err, end_of_queue, Channel, get, fetch, redeliver, hand_out}
use floki.Channel.Delivery.{taken_back}

module _ (L : LinkedHashMap InFlightState) (xxhash : List ℕ → ℕ) where
  -- The message that was given longest ago, if any, is within its time.
  abbrev pub IsEarly : Channel L → ℕ → Type 0
  IsEarly c clock =
      (L.first c.in_flight_map ≡ none)
      ⊎ ((old : ℕ) × (s : InFlightState) × (L.first c.in_flight_map ≡ some (old, s))
          × (clock < s.expiration))

  -- Then `get` reads the log.
  get-fetch :
      (c : Channel L) (backend : QueueBackend) (message_timeout ticket clock : ℕ)
      → IsEarly c clock
      → get L c backend message_timeout ticket clock
        ≡ fetch L (record c { last_touched = clock }) backend ticket (u32 (clock + message_timeout))
  unfolding get
  get-fetch c backend message_timeout ticket clock (inl idle) = rw (idle, get) refl
  get-fetch c backend message_timeout ticket clock (inr (old, s, f, early)) =
      rw (f, leb-false s.expiration clock early, get) refl

  -- On a valid log, if the message that was given longest ago has expired and is in the log, `get`
  -- gives it again: it does not panic, the id is the same, the ticket is the new one, and the
  -- channel's tail stays.
  pub get_redelivers :
      (c : Channel L) (backend : QueueBackend) (message_timeout ticket clock old : ℕ)
      (s : InFlightState)
      → Inv xxhash backend
      → L.first c.in_flight_map ≡ some (old, s)
      → s.expiration ≤ clock
      → Has backend.segments s.id
      → (c' : Channel L) × (m : Message) × (get L c backend message_timeout ticket clock
          ≡ done (c', ok (ticket, m)))
        × (message_id m ≡ s.id)
        × (c'.tail ≡ c.tail)
  unfolding get redeliver hand_out
  get_redelivers c backend message_timeout ticket clock old s v f over has =
      let (m, e, _, low, high, _) = get_found xxhash backend s.id s.id v has (le_refl s.id) in
      (
        hand_out L (taken_back L c clock old s) s.id ticket (u32 (clock + message_timeout)),
        m,
        rw (f, le→leb s.expiration clock over, e, get) refl,
        omega (arith, low, high),
        refl,
      )

  -- On a valid log, if the message given longest ago, if any, is within its time, and the log has
  -- an id `j` from the channel's tail on, `get` gives without a panic a message of the log whose id
  -- is neither below the tail nor above `j`, under the new ticket, and the tail moves behind it.
  pub get_fetches :
      (c : Channel L) (backend : QueueBackend) (message_timeout ticket clock j : ℕ)
      → Inv xxhash backend
      → IsEarly c clock
      → Has backend.segments j
      → c.tail ≤ j
      → (c' : Channel L) × (m : Message) × (get L c backend message_timeout ticket clock
          ≡ done (c', ok (ticket, m)))
        × Has backend.segments (message_id m)
        × (c.tail ≤ message_id m)
        × (message_id m ≤ j)
        × (c'.tail ≡ message_id m + 1)
  unfolding get fetch hand_out
  get_fetches c backend message_timeout ticket clock j v early has low =
      let (m, e, there, least, most, _) = get_found xxhash backend c.tail j v has low in
      let base : Channel L = record c { last_touched = clock } in
      let given : Channel L =
        record (hand_out L base (message_id m) ticket (u32 (clock + message_timeout))) {
          tail = message_id m + 1;
        } in
      (
        given,
        m,
        get-fetch c backend message_timeout ticket clock early ∙ rw e refl,
        there,
        least,
        most,
        refl,
      )

  -- On a valid log, if the message given longest ago, if any, is within its time and the channel's
  -- tail is not below the log's head, `get` gives the error for the end of the queue with the tail,
  -- and changes the time of the last access only.
  pub get_ends :
      (c : Channel L) (backend : QueueBackend) (message_timeout ticket clock : ℕ)
      → Inv xxhash backend
      → IsEarly c clock
      → backend.head ≤ c.tail
      → get L c backend message_timeout ticket clock
        ≡ done (record c { last_touched = clock }, err (end_of_queue c.tail))
  unfolding get fetch
  get_ends c backend message_timeout ticket clock v early past =
      get-fetch c backend message_timeout ticket clock early
      ∙ rw (get_end xxhash backend c.tail v past) refl
