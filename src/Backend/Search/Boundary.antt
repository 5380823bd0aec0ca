-- ===== src/Backend/Search/Boundary.antt =====
-- `QueueBackend::find_id_for_timestamp`: what the search finds in a log with timestamps in order.
use floki.Prelude.{
  ℕ, zero, suc, ◌+◌, ◌-◌, ◌/◌, ◌≤◌, ◌<◌, ◌≡◌, refl, subst, max, Bool-cases, false, ◌&&◌, inl, inr,
  ◌⊎◌, Option, Option-cases, none, some, List, [], ◌∷◌, All, Outcome, done, panic, arith, leb, ltb,
  if◌then◌else◌, leb→le, ltb→lt,
}
use floki.Segment.{Segment}
use floki.Segment.Push.{IsValid}
use floki.Segment.Stored.{get_stored}
use floki.Backend.{
  QueueBackend, Message, message_timestamp, find_segment, get, narrow, search_timestamp,
  find_id_for_timestamp,
}
use floki.Backend.Invariant.{Inv, Linked}
use floki.Backend.Get.{get_end}

find_segment-none_up :
    (ss : List Segment) (i j : ℕ) → i ≤ j → find_segment ss i ≡ none → find_segment ss j ≡ none
unfolding find_segment
find_segment-none_up [] i j h e = refl
find_segment-none_up (s ∷ ss) i j h e = elim (Bool-cases (ltb i s.head && ltb s.tail s.head)) [
  | inl b ↦ absurd (ground (arith, rw (b, find_segment) at (e)))
  | inr b ↦
      let b' : (ltb j s.head && ltb s.tail s.head) ≡ false = ground (arith, b, h) in
      rw (b', find_segment) (find_segment-none_up ss i j h (rw (b, find_segment) at (e)))
]

module _ (xxhash : List ℕ → ℕ) where
  abbrev IsHere : ℕ → Option Segment → Type 0
  IsHere id none = Unit
  IsHere id (some s) = IsValid xxhash s × (id < s.head) × (s.tail < s.head)

  find_segment-IsValid :
      (lo : ℕ) (ss : List Segment) (id : ℕ) (s : Segment)
      → Linked xxhash lo ss
      → find_segment ss id ≡ some s
      → IsValid xxhash s × (id < s.head) × (s.tail < s.head)
  unfolding find_segment
  find_segment-IsValid lo [] id s l e = absurd (ground arith)
  find_segment-IsValid lo (t ∷ ss) id s l e =
      elim (Bool-cases (ltb id t.head && ltb t.tail t.head)) [
        | inl b ↦
            let this : some t ≡ some s = rw (b, find_segment) at (e) in
            subst (λ o. IsHere id o) this (l.1, ground arith, ground arith)
        | inr b ↦ find_segment-IsValid t.head ss id s l.2 (rw (b, find_segment) at (e))
      ]

  -- `get` gives a message wherever a segment is found.
  got_cases :
      (b : QueueBackend) (id : ℕ)
      → Inv xxhash b
      → ((get b id ≡ done none) × (find_segment b.segments id ≡ none))
        ⊎ ((m : Message) × (get b id ≡ done (some m)))
  unfolding get
  got_cases b id v = elim (Option-cases (find_segment b.segments id)) [
    | inl p ↦ inl (rw (p, get) refl, p)
    | inr (s, p) ↦
        let (valid, below, inside) = find_segment-IsValid 0 b.segments id s v.linked p in
        let (o, e, _) = get_stored xxhash s valid (max id s.tail) (omega arith) (omega arith) in
        inr (record { segment = s; offset = o }, rw (p, get) (rw e refl))
  ]

-- A message of an earlier time is got at `i`; and none is.
abbrev pub IsEarly : QueueBackend → ℕ → ℕ → Type 0
IsEarly b timestamp i =
    (m : Message) × (get b i ≡ done (some m)) × (message_timestamp m < timestamp)

abbrev pub IsLate : QueueBackend → ℕ → ℕ → Type 0
IsLate b timestamp i = (m : Message) → get b i ≡ done (some m) → timestamp ≤ message_timestamp m

-- What is got at a higher id has no lower timestamp.
abbrev pub IsOrdered : QueueBackend → Type 0
IsOrdered b =
    (i j : ℕ) (m n : Message)
    → i ≤ j
    → get b i ≡ done (some m)
    → get b j ≡ done (some n)
    → message_timestamp m ≤ message_timestamp n

module _ (xxhash : List ℕ → ℕ) (b : QueueBackend) (v : Inv xxhash b) (ordered : IsOrdered b) where
  IsLate-up : (timestamp i j : ℕ) → IsLate b timestamp i → i ≤ j → IsLate b timestamp j
  unfolding get
  IsLate-up timestamp i j late h n e = elim (got_cases xxhash b i v) [
    | inl (_, p) ↦
        let p' = find_segment-none_up b.segments i j h p in
        absurd (ground (arith, rw (p', get) at (e)))
    | inr (m, p) ↦ omega (arith, late m p, ordered i j m n h p e)
  ]

  IsEarly-down : (timestamp i j : ℕ) → IsEarly b timestamp j → i ≤ j → IsEarly b timestamp i
  unfolding get
  IsEarly-down timestamp i j (n, e, early) h = elim (got_cases xxhash b i v) [
    | inl (_, p) ↦
        let p' = find_segment-none_up b.segments i j h p in
        absurd (ground (arith, rw (p', get) at (e)))
    | inr (m, p) ↦ (m, p, omega (arith, early, ordered i j m n h p e))
  ]

  -- Below `r`, but not below `lo`, messages are early; from `r` on they are late.
  abbrev pub IsBoundary : ℕ → ℕ → ℕ → Type 0
  IsBoundary timestamp lo r =
      ((i : ℕ) → lo ≤ i → i < r → IsEarly b timestamp i) × ((i : ℕ) → r ≤ i → IsLate b timestamp i)

  abbrev pub IsFound : ℕ → ℕ → Outcome (Option ℕ) → Type 0
  IsFound timestamp lo panic = ⊥
  IsFound timestamp lo (done none) = ⊥
  IsFound timestamp lo (done (some r)) = IsBoundary timestamp lo r

  search_lem :
      (fuel timestamp lo tail head : ℕ)
      → head - tail < fuel
      → ((i : ℕ) → lo ≤ i → i < tail → IsEarly b timestamp i)
      → ((i : ℕ) → head ≤ i → IsLate b timestamp i)
      → IsFound timestamp lo (search_timestamp fuel b timestamp tail head)
  unfolding search_timestamp
  search_lem zero timestamp lo tail head h early late = omega arith
  search_lem (suc fuel) timestamp lo tail head h early late =
      let id = tail + (head - tail) / 2 in
      elim (Bool-cases (ltb tail head)) [
        | inr c ↦ rw (c, search_timestamp) (early, λ i k. late i (ground (arith, c, k)))
        | inl c ↦
            let below : (tail ≤ id) × (id < head) = ground (arith, c) in
            elim (got_cases xxhash b id v) [
              | inl (p, q) ↦
                  rw (c, p, search_timestamp)
                    (search_lem fuel timestamp lo tail id (omega (arith, below, h)) early (λ i k.
                      IsLate-up timestamp id i (λ n e. absurd (ground (arith, rw p at (e)))) k))
              | inr (m, p) ↦ elim (Bool-cases (leb timestamp (message_timestamp m))) [
                | inl t ↦
                    rw (c, p, t, search_timestamp)
                      (search_lem fuel timestamp lo tail id (omega (arith, below, h)) early (λ i k.
                        IsLate-up timestamp id i
                          (λ n e. omega (
                            arith,
                            leb→le timestamp (message_timestamp m) t,
                            ordered id id m n (omega arith) p e,
                          ))
                          k))
                | inr t ↦
                    rw (c, p, t, search_timestamp)
                      (search_lem fuel timestamp lo (id + 1) head (omega (arith, below, h))
                        (λ i _ k.
                          IsEarly-down timestamp i id (m, p, ground (arith, t)) (omega (arith, k)))
                        late)
              ]
            ]
      ]

  -- The segment has messages, and its timestamps are those of the first and of the last.
  abbrev pub IsTimed : Segment → Type 0
  IsTimed s =
      (s.tail < s.head)
      × ((m : Message) × (get b s.tail ≡ done (some m)) × (message_timestamp m ≡ s.first_timestamp))
      × ((m : Message) × (get b (s.head - 1) ≡ done (some m))
          × (message_timestamp m ≡ s.last_timestamp))

  narrow_tail :
      (s : Segment) (timestamp lo tail : ℕ)
      → IsTimed s
      → ((i : ℕ) → lo ≤ i → i < tail → IsEarly b timestamp i)
      → (i : ℕ) → lo ≤ i
      → i < (if ltb s.first_timestamp timestamp then s.tail else tail)
      → IsEarly b timestamp i
  narrow_tail s timestamp lo tail (some_there, (m, p, first), last) early i k h =
      elim (Bool-cases (ltb s.first_timestamp timestamp)) [
        | inl c ↦
            let below : i < s.tail = rw c at (h) in
            IsEarly-down timestamp i s.tail
              (m, p, omega (arith, first, ltb→lt s.first_timestamp timestamp c))
              (omega (arith, below))
        | inr c ↦ early i k (rw c at (h))
      ]

  narrow_head :
      (s : Segment) (timestamp head : ℕ)
      → IsTimed s
      → ((i : ℕ) → head ≤ i → IsLate b timestamp i)
      → (i : ℕ) → (if ltb timestamp s.last_timestamp then s.head else head) ≤ i
      → IsLate b timestamp i
  narrow_head s timestamp head (some_there, first, (m, p, last)) late i h =
      elim (Bool-cases (ltb timestamp s.last_timestamp)) [
        | inl c ↦
            let above : s.head ≤ i = rw c at (h) in
            λ n e. omega (
              arith,
              last,
              ltb→lt timestamp s.last_timestamp c,
              ordered (s.head - 1) i m n (omega (arith, above)) p e,
            )
        | inr c ↦ late i (rw c at (h))
      ]

  narrow_lem :
      (ss : List Segment) (timestamp lo tail head : ℕ)
      → All IsTimed ss
      → ((i : ℕ) → lo ≤ i → i < tail → IsEarly b timestamp i)
      → ((i : ℕ) → head ≤ i → IsLate b timestamp i)
      → (let r = narrow ss timestamp tail head in
          ((i : ℕ) → lo ≤ i → i < r.0 → IsEarly b timestamp i)
          × ((i : ℕ) → r.1 ≤ i → IsLate b timestamp i))
  unfolding narrow
  narrow_lem [] timestamp lo tail head timed early late = (early, late)
  narrow_lem (s ∷ ss) timestamp lo tail head timed early late =
      narrow_lem ss timestamp lo (if ltb s.first_timestamp timestamp then s.tail else tail)
        (if ltb timestamp s.last_timestamp then s.head else head) timed.1
        (narrow_tail s timestamp lo tail timed.0 early) (narrow_head s timestamp head timed.0 late)

  -- On a valid log, if what `get` gives for a higher id has no lower timestamp and each segment has
  -- messages and keeps the timestamps of its first and last, then the search for a timestamp ends
  -- without a panic and gives an id such that at each id below it, from the tail of the log on,
  -- `get` gives a message of an earlier time, and at each id from it on no message of an earlier
  -- time.
  pub find_id_for_timestamp_lem :
      (timestamp : ℕ)
      → All IsTimed b.segments
      → IsFound timestamp b.tail (find_id_for_timestamp b timestamp)
  unfolding find_id_for_timestamp
  find_id_for_timestamp_lem timestamp timed =
      let (tail, head) = narrow b.segments timestamp b.tail b.head in
      let (early, late) =
        narrow_lem b.segments timestamp b.tail b.tail b.head timed
          (λ i k h. absurd (omega (arith, k, h)))
          (λ i k m e. absurd (ground (arith, rw (get_end xxhash b i v k) at (e)))) in
      search_lem (suc (head - tail)) timestamp b.tail tail head (omega arith) early late
