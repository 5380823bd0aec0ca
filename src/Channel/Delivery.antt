-- ===== src/Channel/Delivery.antt =====
-- What a consumer is given by `get` of src/queue.rs, and what an acknowledgement of it does.
use floki.Prelude.{
  ℕ, ◌+◌, ◌≤◌, ◌≡◌, ◌≢◌, refl, sym, subst, ◌⊎◌, inl, inr, none, some, Option-cases, Outcome-cases,
  leb→le, Bool-cases, ℕ_discrete, ==_refl, [], ◌∷◌, arith, Outcome, done, panic, leb, ◌==◌,
  if◌then◌else◌, u32, ◌∙◌,
}
use floki.Segment.{sub_u32}
use floki.Backend.{QueueBackend, Message, message_id}
use floki.Backend
use floki.Collections.{LinkedHashMap, find, front}
use floki.Collections.Entries.{find-snoc, find-erase_ne, find-erase-none}
use floki.Channel.{
  InFlightState, Entries, QueueResult, ok, err, end_of_queue, expired, Channel, hand_out, redeliver,
  fetch, get,
}
use floki.Channel.Tracked.{IsTracked, hand_out-IsTracked, remove-Covers}

module _ (L : LinkedHashMap InFlightState) where
  -- The channel when the expired message that was given longest ago is taken out of the map.
  abbrev pub taken_back : Channel L → ℕ → ℕ → InFlightState → Channel L
  taken_back c clock old s = record c {
    last_touched = clock;
    expired_count = if s.expiration == expired then sub_u32 c.expired_count 1 else c.expired_count;
    in_flight_map = L.remove old c.in_flight_map;
  }

  -- The three ways that `get` ends.
  pub data Got (c : Channel L) (backend : QueueBackend) (ticket expiration clock : ℕ)
      (c' : Channel L) (q : QueueResult (ℕ × Message)) : Type 0 where
    again :
        (old : ℕ) (s : InFlightState) (m : Message)
        → L.first c.in_flight_map ≡ some (old, s)
        → s.expiration ≤ clock
        → Backend.get backend s.id ≡ done (some m)
        → c' ≡ hand_out L (taken_back c clock old s) s.id ticket expiration
        → q ≡ ok (ticket, m)
        → Got c backend ticket expiration clock c' q
    next :
        (m : Message)
        → Backend.get backend c.tail ≡ done (some m)
        → c'
          ≡ record (hand_out L
              (record c { last_touched = clock })
              (message_id m)
              ticket
              expiration) { tail = message_id m + 1 }
        → q ≡ ok (ticket, m)
        → Got c backend ticket expiration clock c' q
    nothing :
        Backend.get backend c.tail ≡ done none
        → c' ≡ record c { last_touched = clock }
        → q ≡ err (end_of_queue c.tail)
        → Got c backend ticket expiration clock c' q

  abbrev Ends :
      Outcome (Channel L × QueueResult (ℕ × Message))
      → (Channel L → QueueResult (ℕ × Message) → Type 0)
      → Type 0
  Ends o P = (o ≡ panic) ⊎ ((r : Channel L × QueueResult (ℕ × Message)) × (o ≡ done r) × P r.0 r.1)

  fetch_lem :
      (c : Channel L) (backend : QueueBackend) (ticket expiration clock : ℕ)
      → Ends
          (fetch L (record c { last_touched = clock }) backend ticket expiration)
          (Got c backend ticket expiration clock)
  unfolding fetch
  fetch_lem c backend ticket expiration clock = elim (Outcome-cases (Backend.get backend c.tail)) [
    | inl stops ↦ inl (rw stops refl)
    | inr (none, e) ↦ inr (_, rw e refl, nothing e refl refl)
    | inr (some m, e) ↦ inr (_, rw e refl, next m e refl refl)
  ]

  redeliver_lem :
      (c : Channel L) (backend : QueueBackend) (ticket expiration clock old : ℕ) (s : InFlightState)
      → L.first c.in_flight_map ≡ some (old, s)
      → s.expiration ≤ clock
      → Ends
          (redeliver L (record c { last_touched = clock }) backend ticket expiration clock old s)
          (Got c backend ticket expiration clock)
  unfolding redeliver
  redeliver_lem c backend ticket expiration clock old s f over =
      elim (Outcome-cases (Backend.get backend s.id)) [
        | inl stops ↦ inl (rw stops refl)
        | inr (none, e) ↦ inl (rw e refl)
        | inr (some m, e) ↦ inr (_, rw e refl, again old s m f over e refl refl)
      ]

  get_lem :
      (c : Channel L) (backend : QueueBackend) (message_timeout ticket clock : ℕ)
      → Ends
          (get L c backend message_timeout ticket clock)
          (Got c backend ticket (u32 (clock + message_timeout)) clock)
  unfolding get
  get_lem c backend message_timeout ticket clock =
      let expiration = u32 (clock + message_timeout) in
      elim (Option-cases (L.first c.in_flight_map)) [
        | inl idle ↦ rw (idle, get) (fetch_lem c backend ticket expiration clock)
        | inr ((old, s), f) ↦ elim (Bool-cases (leb s.expiration clock)) [
          | inl over ↦
              rw (f, over, get)
                (redeliver_lem c backend ticket expiration clock old s f
                  (leb→le s.expiration clock over))
          | inr early ↦ rw (f, early, get) (fetch_lem c backend ticket expiration clock)
        ]
      ]

  pub got :
      (c : Channel L) (backend : QueueBackend) (message_timeout ticket clock : ℕ) {c' : Channel L}
      {q : QueueResult (ℕ × Message)}
      → get L c backend message_timeout ticket clock ≡ done (c', q)
      → Got c backend ticket (u32 (clock + message_timeout)) clock c' q
  got c backend message_timeout ticket clock {c'} {q} h =
      elim (get_lem c backend message_timeout ticket clock) [
        | inl stops ↦ cc
        | inr (r, e, g) ↦
            let same : r ≡ (c', q) = cc in
            subst (λ z. Got c backend ticket (u32 (clock + message_timeout)) clock z.0 z.1) same g
      ]

  pub fresh_entries :
      (c : Channel L) (ticket : ℕ)
      → L.get ticket c.in_flight_map ≡ none
      → find ticket (L.entries c.in_flight_map) ≡ none
  fresh_entries c ticket fresh = sym (L.get_entries ticket c.in_flight_map) ∙ fresh

  pub fresh_after :
      (c : Channel L) (ticket old : ℕ)
      → L.get ticket c.in_flight_map ≡ none
      → find ticket (L.entries (L.remove old c.in_flight_map)) ≡ none
  fresh_after c ticket old fresh =
      rw (L.entries_remove old c.in_flight_map)
        (find-erase-none ticket old (L.entries c.in_flight_map) (fresh_entries c ticket fresh))

  taken_back-IsTracked :
      (c : Channel L) (clock old : ℕ) (s : InFlightState)
      → IsTracked L c
      → IsTracked L (taken_back c clock old s)
  taken_back-IsTracked c clock old s k = record {
    covers = remove-Covers L old c.in_flight_map k.covers;
  }

  -- A `get` that returns and whose ticket was not in use keeps the heap covering the map: the heap
  -- is sorted by id, it has the id and ticket of each entry, and no ticket has two entries.
  pub get-IsTracked :
      (c c' : Channel L) (backend : QueueBackend) (message_timeout ticket clock : ℕ)
      (q : QueueResult (ℕ × Message))
      → IsTracked L c
      → L.get ticket c.in_flight_map ≡ none
      → get L c backend message_timeout ticket clock ≡ done (c', q)
      → IsTracked L c'
  get-IsTracked c c' backend message_timeout ticket clock q k fresh h =
      elim (got c backend message_timeout ticket clock h) [
        | again old s m f over e now _ ↦
            let less = taken_back-IsTracked c clock old s k in
            subst (IsTracked L) (sym now) (
              hand_out-IsTracked L (taken_back c clock old s) s.id ticket
                (u32 (clock + message_timeout)) (fresh_after c ticket old fresh) less)
        | next m e now _ ↦ subst (IsTracked L) (sym now) (record {
          covers =
              (hand_out-IsTracked L (record c { last_touched = clock }) (message_id m) ticket
                (u32 (clock + message_timeout)) (fresh_entries c ticket fresh)
                (record { covers = k.covers })).covers;
        })
        | nothing e now _ ↦ subst (IsTracked L) (sym now) (record { covers = k.covers })
      ]

  hand_out-get :
      (c : Channel L) (id ticket expiration t : ℕ)
      → find ticket (L.entries c.in_flight_map) ≡ none
      → L.get t (hand_out L c id ticket expiration).in_flight_map ≡ (
          if ticket == t
          then some (record { id = id; expiration = expiration })
          else L.get t c.in_flight_map)
  unfolding hand_out
  hand_out-get c id ticket expiration t fresh =
      let s : InFlightState = record { id = id; expiration = expiration } in
      rw
        (
          L.get_entries t (L.insert ticket s c.in_flight_map),
          L.entries_insert ticket s c.in_flight_map fresh,
          L.get_entries t c.in_flight_map,
        )
        (find-snoc t ticket s (L.entries c.in_flight_map) fresh)

  -- What is out under another ticket stays so.
  hand_out-other :
      (c : Channel L) (id ticket expiration t : ℕ) (s : InFlightState)
      → find ticket (L.entries c.in_flight_map) ≡ none
      → L.get t c.in_flight_map ≡ some s
      → L.get t (hand_out L c id ticket expiration).in_flight_map ≡ some s
  hand_out-other c id ticket expiration t s fresh e =
      let look = hand_out-get c id ticket expiration t fresh in
      let there = L.get_entries t c.in_flight_map in ground arith

  pub hand_out_self :
      (c : Channel L) (id ticket expiration : ℕ)
      → find ticket (L.entries c.in_flight_map) ≡ none
      → L.get ticket (hand_out L c id ticket expiration).in_flight_map
        ≡ some (record { id = id; expiration = expiration })
  hand_out_self c id ticket expiration fresh =
      let look = hand_out-get c id ticket expiration ticket fresh in rw (==_refl ticket) at look

  front-find :
      (es : Entries) {t : ℕ} {s : InFlightState} → front es ≡ some (t, s) → find t es ≡ some s
  front-find [] h = cc
  front-find ((i, r) ∷ es) h = ground arith

  first-get : (m : L.Map) {t : ℕ} {s : InFlightState} → L.first m ≡ some (t, s) → L.get t m ≡ some s
  first-get m {t} h = L.get_entries t m ∙ front-find (L.entries m) (sym (L.first_entries m) ∙ h)

  pub remove-get : (t old : ℕ) (m : L.Map) → t ≢ old → L.get t (L.remove old m) ≡ L.get t m
  remove-get t old m other =
      rw (L.get_entries t (L.remove old m), L.entries_remove old m, L.get_entries t m)
        (find-erase_ne t old (L.entries m) other)

  -- Message `id` was given out and is not acknowledged.
  abbrev pub IsOut : ℕ → Channel L → Type 0
  IsOut id c = (t : ℕ) × (s : InFlightState) × (L.get t c.in_flight_map ≡ some s) × (s.id ≡ id)

  -- A message that is in flight on a channel, whose heap covers its map, is still in flight, if
  -- under another ticket, after any `get` that returns and whose ticket was not in use.
  pub get-IsOut :
      (c c' : Channel L) (backend : QueueBackend) (message_timeout ticket clock id : ℕ)
      (q : QueueResult (ℕ × Message))
      → IsTracked L c
      → L.get ticket c.in_flight_map ≡ none
      → get L c backend message_timeout ticket clock ≡ done (c', q)
      → IsOut id c
      → IsOut id c'
  get-IsOut c c' backend message_timeout ticket clock id q k fresh h (t, r, e, same) =
      elim (got c backend message_timeout ticket clock h) [
        | again old s m f over _ now _ ↦
            let expiration = u32 (clock + message_timeout) in
            let back = taken_back c clock old s in
            let new = fresh_after c ticket old fresh in
            elim (ℕ_discrete t old) [
              | yes it ↦
                  let first = first-get c.in_flight_map f in
                  let whose : r ≡ s = cc in
                  let given : InFlightState = record { id = s.id; expiration = expiration } in
                  (
                    ticket,
                    given,
                    rw now (hand_out_self back s.id ticket expiration new),
                    ground arith,
                  )
              | no other ↦ (
                t,
                r,
                rw now (
                    hand_out-other back s.id ticket expiration t r new
                      (remove-get t old c.in_flight_map other ∙ e)),
                same,
              )
            ]
        | next m _ now _ ↦ (
          t,
          r,
          rw now (
              hand_out-other (record c { last_touched = clock }) (message_id m) ticket
                (u32 (clock + message_timeout)) t r (fresh_entries c ticket fresh) e),
          same,
        )
        | nothing _ now _ ↦ (t, r, rw now e, same)
      ]
