-- ===== src/Backend/Get.antt =====
-- `QueueBackend::get`: the message with the least id that is not below the one asked for.
use floki.Prelude.{
  ℕ, ◌≤◌, ◌<◌, ◌≡◌, refl, inl, inr, max, List, ◌∷◌, [], none, some, arith, done, false, ltb, ◌&&◌,
  Bool-cases,
}
use floki.Message.{header_at, hash_segment_message}
use floki.Segment.{Segment}
use floki.Segment.Push.{IsValid}
use floki.Segment.Stored.{get_stored}
use floki.Backend.{QueueBackend, Message, message_id, find_segment, get}
use floki.Backend.Invariant.{Has, Linked, Inv, tail-le-head, Has-bounds, le-last_head}
use floki.Backend.Upkeep.{last_head}

module _ (xxhash : List ℕ → ℕ) where
  -- The segment that `find_segment` chooses.
  record IsChoice (ss : List Segment) (id : ℕ) (s : Segment) : Type 0 where
    found : find_segment ss id ≡ some s
    valid : IsValid xxhash s
    below : id < s.head
    inside : s.tail < s.head
    has : Has ss (max id s.tail)

  tail_le :
      (lo : ℕ) (s : Segment) (ss : List Segment) (j : ℕ)
      → Linked xxhash lo (s ∷ ss)
      → Has (s ∷ ss) j
      → s.tail ≤ j
  tail_le lo s ss j l (inl h) = h.0
  tail_le lo s ss j l (inr h) =
      omega (arith, (Has-bounds xxhash s.head ss j l.2 h).0, tail-le-head xxhash s l.1)

  passed :
      (id j : ℕ) (s : Segment) (ss : List Segment)
      → (ltb id s.head && ltb s.tail s.head) ≡ false
      → Has (s ∷ ss) j
      → id ≤ j
      → Has ss j
  passed id j s ss e (inl h) k = absurd (ground arith)
  passed id j s ss e (inr h) k = h

  find_segment_first :
      (lo : ℕ) (ss : List Segment) (id j : ℕ)
      → Linked xxhash lo ss
      → Has ss j
      → id ≤ j
      → (s : Segment) × IsChoice ss id s × (max id s.tail ≤ j)
  unfolding find_segment
  find_segment_first lo [] id j l h k = absurd h
  find_segment_first lo (s ∷ ss) id j l h k =
      elim (Bool-cases (ltb id s.head && ltb s.tail s.head)) [
        | inl this ↦
            let here : (s.tail ≤ max id s.tail) × (max id s.tail < s.head) = ground arith in
            (
              s,
              record {
                found = rw (this, find_segment);
                valid = l.1;
                below = ground arith;
                inside = ground arith;
                has = inl here;
              },
              omega (arith, tail_le lo s ss j l h),
            )
        | inr other ↦
            let (t, c, least) =
              find_segment_first s.head ss id j l.2 (passed id j s ss other h k) k in
            (
              t,
              record {
                found = rw (other, find_segment) c.found;
                valid = c.valid;
                below = c.below;
                inside = c.inside;
                has = inr c.has;
              },
              least,
            )
      ]

  -- If a valid log has an id `j` at or above `id`, then `get` of `id` returns a message without a
  -- panic. Its id is in the log, neither below `id` nor above `j`, so that it is the least such id
  -- as `j` varies, and its stored hash is that of its bytes.
  pub get_found :
      (b : QueueBackend) (id j : ℕ)
      → Inv xxhash b
      → Has b.segments j
      → id ≤ j
      → (m : Message) × (get b id ≡ done (some m))
        × Has b.segments (message_id m)
        × (id ≤ message_id m)
        × (message_id m ≤ j)
        × ((header_at m.segment.file_mmap m.offset).hash
            ≡ hash_segment_message xxhash m.segment.file_mmap m.offset)
  unfolding get
  get_found b id j v h k =
      let (s, c, least) = find_segment_first 0 b.segments id j v.linked h k in
      let below = c.below in
      let inside = c.inside in
      let (o, e, g) = get_stored xxhash s c.valid (max id s.tail) (omega arith) (omega arith) in
      (
        record { segment = s; offset = o },
        rw (c.found, get) (rw e),
        rw g.id_eq c.has,
        omega (arith, g.id_eq),
        omega (arith, g.id_eq),
        g.hash_eq,
      )

  find_segment-none :
      (d lo : ℕ) (ss : List Segment) (id : ℕ)
      → Linked xxhash lo ss
      → last_head d ss ≤ id
      → find_segment ss id ≡ none
  unfolding find_segment
  find_segment-none d lo [] id l h = refl
  find_segment-none d lo (s ∷ ss) id l h =
      ground (arith, find_segment-none s.head s.head ss id l.2 h, le-last_head xxhash s.head ss l.2)

  -- On a valid log, `get` of an id from the head on finds nothing and does not panic.
  pub get_end : (b : QueueBackend) (id : ℕ) → Inv xxhash b → b.head ≤ id → get b id ≡ done none
  unfolding get
  get_end b id v h =
      rw (find_segment-none b.head 0 b.segments id v.linked (omega (arith, v.ends)), get)
