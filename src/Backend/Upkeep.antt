-- ===== src/Backend/Upkeep.antt =====
-- src/queue_backend.rs, `QueueBackend::checkpoint`, `recover`, `new` and `gc`. The JSON file between
-- a checkpoint and a recovery is taken to give back what was written, or nothing.
use floki.Prelude.{
  ℕ, suc, ◌-◌, Bool, false, ◌&&◌, ◌||◌, Option, none, some, List, [], ◌∷◌, ◌++◌, Outcome, done,
  panic, ◌>>=◌, ltb, leb, ◌==◌, if◌then◌else◌, drop, take,
}
use floki.Config.{QueueConfig}
use floki.Segment
use floki.Segment.{
  Segment, SegmentCheckpoint, FileImage, BackendResult, ok, err, open_file, sub_u32,
}
use floki.Backend.{QueueBackend, close_last, delete_all, total_len}

-- The segments that lie before the tail are neither synced nor listed.
unfoldable pub checkpoint_segments : ℕ → Bool → List Segment → List Segment × List SegmentCheckpoint
unfolding Segment.checkpoint
checkpoint_segments tail full [] = ([], [])
checkpoint_segments tail full (s ∷ ss) =
    let (ss', cs) = checkpoint_segments tail full ss in
    let (s', c) = Segment.checkpoint s full in
    if leb tail s.tail then (s' ∷ ss', c ∷ cs) else (s ∷ ss', cs)

-- The second part is what the checkpoint file holds.
unfoldable pub checkpoint : QueueBackend → Bool → QueueBackend × List SegmentCheckpoint
unfolding checkpoint_segments
checkpoint b full =
    let (segments', cs) = checkpoint_segments b.tail full b.segments in
    (record b { segments = segments' }, cs)

-- `first().tail`, or what it was.
unfoldable pub first_tail : ℕ → List Segment → ℕ
first_tail tail [] = tail
first_tail tail (s ∷ ss) = s.tail

-- `last().head`, or what it was.
abbrev pub last_head : ℕ → List Segment → ℕ
last_head head [] = head
last_head head (s ∷ ss) = last_head s.head ss

-- Only one segment is open, the last.
unfoldable pub add_segment : List Segment → Segment → List Segment
unfolding close_last
add_segment ss s = (if s.closed then ss else close_last ss) ++ s ∷ []

module _ (xxhash : List ℕ → ℕ) (files : SegmentCheckpoint → BackendResult FileImage) where
  -- The loop over the checkpoint's segments; one that cannot be opened is skipped. The inner `none`
  -- is a recovery out of fuel.
  unfoldable pub recover_segments :
      List Segment → List SegmentCheckpoint → Outcome (Option (List Segment))
  unfolding add_segment
  recover_segments ss [] = done (some ss)
  recover_segments ss (c ∷ cs) = elim (open_file xxhash c (files c)) [
    | panic ↦ panic
    | done none ↦ done none
    | done (some (err e)) ↦ recover_segments ss cs
    | done (some (ok s)) ↦ recover_segments (add_segment ss s) cs
  ]

  -- `none` for the list of checkpoints: the file is missing or cannot be read.
  unfoldable pub recover :
      QueueBackend → Option (List SegmentCheckpoint) → Outcome (Option QueueBackend)
  unfolding recover_segments first_tail
  recover b none = done (some b)
  recover b (some cs) = do
    recovered ← recover_segments b.segments cs
    elim recovered [
      | none ↦ done none
      | some ss ↦ done (
          some
            (record b { segments = ss; tail = first_tail b.tail ss; head = last_head b.head ss }))
    ]

  abbrev pub empty : QueueConfig → QueueBackend
  empty config = record { config = config; segments = []; head = 1; tail = 1 }

  -- `QueueBackend::new`; the checkpoint is read only on recovery.
  unfoldable pub new :
      QueueConfig → Bool → Option (List SegmentCheckpoint) → Outcome (Option QueueBackend)
  unfolding recover
  new config wanted cs = if wanted then recover (empty config) cs else done (some (empty config))

-- Whether `gc` stops at a closed segment, for the size of it and all that come behind.
unfoldable pub must_keep : QueueConfig → ℕ → ℕ → ℕ → Segment → Bool
must_keep config smallest_tail clock total_rem_size s =
    let contains_channel_msg = ltb smallest_tail s.head in
    let last_msg_age = sub_u32 clock s.last_timestamp in
    let pass_hard_retention_period =
      config.hard_retention_period == 0 || leb last_msg_age config.hard_retention_period in
    let pass_hard_retention_size =
      config.hard_retention_size == 0 || leb total_rem_size config.hard_retention_size in
    let pass_retention_period =
      (if config.retention_period == 0 then false else leb last_msg_age config.retention_period) in
    let pass_retention_size =
      (if config.retention_size == 0 then false else leb total_rem_size config.retention_size) in
    (pass_hard_retention_period && pass_hard_retention_size)
    && (contains_channel_msg || pass_retention_period || pass_retention_size)

-- How many segments are available for collection.
unfoldable pub gc_seg_count : QueueConfig → ℕ → ℕ → ℕ → List Segment → ℕ
unfolding must_keep
gc_seg_count config smallest_tail clock total_rem_size [] = 0
gc_seg_count config smallest_tail clock total_rem_size (s ∷ ss) =
    let rest = gc_seg_count config smallest_tail clock (total_rem_size - s.file_len) ss in
    if s.closed
    then (if must_keep config smallest_tail clock total_rem_size s then 0 else suc rest)
    else 0

-- The second part: the segments whose files go.
unfoldable pub gc : QueueBackend → ℕ → ℕ → Outcome (QueueBackend × List Segment)
unfolding delete_all first_tail total_len
gc b smallest_tail clock =
    let count = gc_seg_count b.config smallest_tail clock (total_len b.segments) b.segments in
    let rest = drop count b.segments in
    let collect = (do
      gone ← delete_all (take count b.segments)
      done (record b { segments = rest; tail = first_tail b.head rest }, gone)) in
    if count == 0 then done (b, []) else collect
