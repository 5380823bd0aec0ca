-- ===== src/Backend/Retention.antt =====
-- `QueueBackend::gc`: what it drops, what it keeps and why.
use floki.Prelude.{
  ℕ, zero, suc, ◌-◌, ◌^◌, ◌≤◌, ◌<◌, ◌≡◌, ◌≢◌, refl, sym, ap, ◌∙◌, ◌⊎◌, inl, inr, List, ◌∷◌, [],
  arith, done, true, false, ◌==◌, subst, All, All-imp, drop, take, Bool-cases,
}
use native.Mathlib.Nat.{le_trans}
use floki.Config.{QueueConfig}
use floki.Segment
use floki.Segment.{Segment, sub_u32}
use floki.Backend.{QueueBackend, find_segment, get, delete_all, total_len}
use floki.Backend.Upkeep.{must_keep, gc_seg_count, gc, first_tail, last_head}
use floki.Backend.Invariant.{Linked, Inv, Linked-drop}

-- A segment that no one has marked for deletion yet.
abbrev pub IsLive : Segment → Type 0
IsLive s = s.deleted ≡ false

delete_all_total :
    (ss : List Segment) → All IsLive ss → (gone : List Segment) × (delete_all ss ≡ done gone)
unfolding delete_all Segment.purge
delete_all_total [] h = ([], refl)
delete_all_total (s ∷ ss) h =
    let (gone, e) = delete_all_total ss h.1 in
    (record s { deleted = true } ∷ gone, rw (h.0, delete_all) (rw (e, delete_all)))

All-take : (P : Segment → Type 0) (n : ℕ) (ss : List Segment) → All P ss → All P (take n ss)
All-take P zero ss h = tt
All-take P (suc n) [] h = tt
All-take P (suc n) (s ∷ ss) h = (h.0, All-take P n ss h.1)

module _ (config : QueueConfig) (smallest_tail clock : ℕ) where
  -- A dropped segment was closed, and `gc` found no reason to keep it.
  abbrev IsDropped : Segment → Type 0
  IsDropped s =
      (s.closed ≡ true)
      × ((config.hard_retention_period ≡ 0)
          → (config.hard_retention_size ≡ 0)
          → s.head ≤ smallest_tail)

  unwanted :
      (total : ℕ) (s : Segment)
      → must_keep config smallest_tail clock total s ≡ false
      → config.hard_retention_period ≡ 0
      → config.hard_retention_size ≡ 0
      → s.head ≤ smallest_tail
  unfolding must_keep
  unwanted total s h p q = ground arith

  abbrev count : ℕ → List Segment → ℕ
  count = gc_seg_count config smallest_tail clock

  count_open :
      (total : ℕ) (s : Segment) (ss : List Segment) → s.closed ≡ false → count total (s ∷ ss) ≡ 0
  unfolding gc_seg_count
  count_open total s ss h = rw h

  count_kept :
      (total : ℕ) (s : Segment) (ss : List Segment)
      → s.closed ≡ true
      → must_keep config smallest_tail clock total s ≡ true
      → count total (s ∷ ss) ≡ 0
  unfolding gc_seg_count
  count_kept total s ss h k = ground arith

  count_gone :
      (total : ℕ) (s : Segment) (ss : List Segment)
      → s.closed ≡ true
      → must_keep config smallest_tail clock total s ≡ false
      → count total (s ∷ ss) ≡ suc (count (total - s.file_len) ss)
  unfolding gc_seg_count
  count_gone total s ss h k = ground arith

  dropped : (total : ℕ) (ss : List Segment) → All IsDropped (take (count total ss) ss)
  unfolding gc_seg_count
  dropped total [] = tt
  dropped total (s ∷ ss) = elim (Bool-cases s.closed) [
    | inr open_still ↦ family (sym (count_open total s ss open_still)) tt
    | inl is_closed ↦ elim (Bool-cases (must_keep config smallest_tail clock total s)) [
      | inl kept ↦ family (sym (count_kept total s ss is_closed kept)) tt
      | inr gone ↦
          family (sym (count_gone total s ss is_closed gone))
            ((is_closed, unwanted total s gone), dropped (total - s.file_len) ss)
    ]
  ]
    where
      family : {n m : ℕ} → n ≡ m → All IsDropped (take n (s ∷ ss)) → All IsDropped (take m (s ∷ ss))
      family e h = subst (λ n. All IsDropped (take n (s ∷ ss))) e h

  -- Where the count ends: at an open segment, or at one that must be kept.
  stops :
      (total : ℕ) (ss : List Segment) (s : Segment) (rest : List Segment)
      → total ≡ total_len ss
      → drop (count total ss) ss ≡ s ∷ rest
      → s.closed ≡ true
      → must_keep config smallest_tail clock (total_len (s ∷ rest)) s ≡ true
  unfolding gc_seg_count total_len
  stops total [] s rest e h c = cc
  stops total (t ∷ ss) s rest e h c = elim (Bool-cases t.closed) [
    | inr open_still ↦
        let here : t ∷ ss ≡ s ∷ rest = at (count_open total t ss open_still) in
        let same : t ≡ s = cc in cc (ap (λ x. x.closed) same)
    | inl is_closed ↦ elim (Bool-cases (must_keep config smallest_tail clock total t)) [
      | inl kept ↦
          let here : t ∷ ss ≡ s ∷ rest = at (count_kept total t ss is_closed kept) in
          let same : t ≡ s = cc in
          subst (λ n. must_keep config smallest_tail clock n s ≡ true) (e ∙ ap total_len here)
            (subst (λ x. must_keep config smallest_tail clock total x ≡ true) same kept)
      | inr gone ↦
          stops (total - t.file_len) ss s rest (omega arith)
            (at (count_gone total t ss is_closed gone)) c
    ]
  ]
    where
      at : {n : ℕ} → count total (t ∷ ss) ≡ n → drop n (t ∷ ss) ≡ s ∷ rest
      at q = subst (λ n. drop n (t ∷ ss) ≡ s ∷ rest) q h

-- The reasons to keep the segment `s`, where `total` is the size of the log from there on.
abbrev pub Kept : QueueConfig → ℕ → ℕ → Segment → ℕ → Type 0
Kept config smallest_tail clock s total =
    ((config.hard_retention_size ≡ 0) ⊎ (total ≤ config.hard_retention_size))
    × ((config.hard_retention_period ≡ 0)
        ⊎ (clock - s.last_timestamp ≤ config.hard_retention_period))
    × ((smallest_tail < s.head)
        ⊎ ((config.retention_period ≢ 0) × (clock - s.last_timestamp ≤ config.retention_period))
        ⊎ ((config.retention_size ≢ 0) × (total ≤ config.retention_size)))

must_keep-Kept :
    (config : QueueConfig) (smallest_tail clock : ℕ) (s : Segment) (total : ℕ)
    → s.last_timestamp ≤ clock
    → clock < 2 ^ 32
    → must_keep config smallest_tail clock total s ≡ true
    → Kept config smallest_tail clock s total
unfolding must_keep
must_keep-Kept config smallest_tail clock s total past small k =
    (ground arith, ground arith, ground arith)

last_head-drop : (d h n : ℕ) (ss : List Segment) → last_head d ss ≡ h → last_head h (drop n ss) ≡ h
last_head-drop d h zero [] e = refl
last_head-drop d h zero (s ∷ ss) e = e
last_head-drop d h (suc n) [] e = refl
last_head-drop d h (suc n) (s ∷ ss) e = last_head-drop s.head h n ss e

find_segment-drop :
    (n id : ℕ) (ss : List Segment)
    → All (λ s. s.head ≤ id) (take n ss)
    → find_segment (drop n ss) id ≡ find_segment ss id
unfolding find_segment
find_segment-drop zero id ss h = refl
find_segment-drop (suc n) id [] h = refl
find_segment-drop (suc n) id (s ∷ ss) h = ground (arith, find_segment-drop n id ss h.1)

module _ (b : QueueBackend) (smallest_tail clock : ℕ) (live : All IsLive b.segments) where
  -- How many segments go.
  abbrev going : ℕ
  going = gc_seg_count b.config smallest_tail clock (total_len b.segments) b.segments

  gc_runs :
      (b' : QueueBackend) × (gone : List Segment) × (gc b smallest_tail clock ≡ done (b', gone))
      × (b'.head ≡ b.head)
      × (b'.segments ≡ drop going b.segments)
  unfolding gc
  gc_runs = elim (Bool-cases (going == 0)) [
    | inl none_go ↦
        let zero_go : going ≡ 0 = ground arith in
        (b, [], rw (none_go, gc), refl, ap (λ n. drop n b.segments) (sym zero_go))
    | inr some_go ↦
        let (gone, e) =
          delete_all_total (take going b.segments) (All-take IsLive going b.segments live) in
        (
          record b {
            segments = drop going b.segments;
            tail = first_tail b.head (drop going b.segments);
          },
          gone,
          rw (some_go, gc) (rw e),
          refl,
          refl,
        )
  ]

  gc_result :
      (b' : QueueBackend) (gone : List Segment)
      → gc b smallest_tail clock ≡ done (b', gone)
      → b'.segments ≡ drop going b.segments
  gc_result b' gone h =
      let (c, g, e, _, same) = gc_runs in
      let equal : c ≡ b' = cc in ap (λ x. x.segments) (sym equal) ∙ same

module _ (xxhash : List ℕ → ℕ) (b : QueueBackend) (smallest_tail clock : ℕ) (v : Inv xxhash b)
    (live : All IsLive b.segments) where
  -- On a valid log of live segments a collection does not panic, and the log stays valid and keeps
  -- its head. What goes is a number of the oldest segments, each of them closed.
  pub gc-Inv :
      (b' : QueueBackend) × (gone : List Segment) × (n : ℕ) × (gc b smallest_tail clock
        ≡ done (b', gone))
      × Inv xxhash b'
      × (b'.head ≡ b.head)
      × (b'.segments ≡ drop n b.segments)
      × All (λ s. s.closed ≡ true) (take n b.segments)
  gc-Inv =
      let (b', gone, e, head, same) = gc_runs b smallest_tail clock live in
      let n = going b smallest_tail clock live in
      (
        b',
        gone,
        n,
        e,
        record {
          linked = subst (Linked xxhash 0) (sym same) (Linked-drop xxhash n 0 b.segments v.linked);
          ends =
              subst (λ h. last_head h b'.segments ≡ h) (sym head)
                (subst (λ l. last_head b.head l ≡ b.head) (sym same)
                  (last_head-drop b.head b.head n b.segments v.ends));
        },
        head,
        same,
        All-imp (λ s h. h.0) (take n b.segments)
            (dropped b.config smallest_tail clock (total_len b.segments) b.segments),
      )

  -- On a valid log of live segments with no hard limit configured, after a collection every `get`
  -- of an id from the smallest tail on gives what it gave before.
  pub gc-get :
      (b' : QueueBackend) (gone : List Segment) (id : ℕ)
      → b.config.hard_retention_period ≡ 0
      → b.config.hard_retention_size ≡ 0
      → smallest_tail ≤ id
      → gc b smallest_tail clock ≡ done (b', gone)
      → get b' id ≡ get b id
  unfolding get
  gc-get b' gone id p q low h =
      let same = gc_result b smallest_tail clock live b' gone h in
      let n = going b smallest_tail clock live in
      let heads =
        All-imp {Q = λ s. s.head ≤ id} (λ s d. le_trans (d.1 p q) low) (take n b.segments)
          (dropped b.config smallest_tail clock (total_len b.segments) b.segments) in
      let found : find_segment b'.segments id ≡ find_segment b.segments id =
        ap (λ l. find_segment l id) same ∙ find_segment-drop n id b.segments heads in
      rw (found, get)

  -- If the first segment that stays after a collection of a valid log of live segments is closed,
  -- and its last message is not newer than the clock, then the files that stay are within the hard
  -- size, its last message is within the hard age, and a channel has still to read it or one of the
  -- soft limits keeps it; a limit of zero is no hard limit and keeps nothing as a soft one.
  pub gc_keeps :
      (b' : QueueBackend) (gone : List Segment) (s : Segment) (rest : List Segment)
      → gc b smallest_tail clock ≡ done (b', gone)
      → b'.segments ≡ s ∷ rest
      → s.closed ≡ true
      → s.last_timestamp ≤ clock
      → clock < 2 ^ 32
      → Kept b.config smallest_tail clock s (total_len b'.segments)
  gc_keeps b' gone s rest h first closed past small =
      let same = gc_result b smallest_tail clock live b' gone h in
      let keep =
        stops b.config smallest_tail clock (total_len b.segments) b.segments s rest refl
          (sym same ∙ first) closed in
      subst (λ l. Kept b.config smallest_tail clock s (total_len l)) (sym first)
        (must_keep-Kept b.config smallest_tail clock s (total_len (s ∷ rest)) past small keep)
