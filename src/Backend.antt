-- ===== src/Backend.antt =====
-- src/queue_backend.rs, `QueueBackend`: the log of a queue as a list of segments, oldest first.
-- The spin locks around the list and the waiting for readers in `wait_delete_segment` leave no trace
-- in a sequence of calls. What the file system answers is an argument of the calls that ask it.
pub mod Upkeep
pub mod Invariant
pub mod Get
pub mod Search
pub mod Push
pub mod Append
pub mod Writes
pub mod Retention
use floki.Prelude.{
  ℕ, zero, suc, ◌+◌, ◌-◌, ◌/◌, ◌≡◌, max, Bool, true, false, ◌&&◌, ◌||◌, Option, none, some, List,
  [], ◌∷◌, ◌++◌, Outcome, done, panic, ◌>>=◌, ◌>>◌, assert, u32, u64, ltb, leb, ◌==◌, if◌then◌else◌,
  length, drop, take,
}
use floki.Bytes.{Memory}
use floki.Config.{QueueConfig}
use floki.Message.{header_at}
use floki.Segment
use floki.Segment.{
  Segment, SegmentCheckpoint, FileImage, QueueBackendError, BackendResult, ok, err, message_too_big,
  segment_full, segment_file_invalid, io, create, open_file, sub_u32,
}

pub record QueueBackend : Type 0 where
  pub config : QueueConfig
  pub segments : List Segment
  pub head : ℕ
  pub tail : ℕ

unfoldable pub set_config : QueueBackend → QueueConfig → QueueBackend
set_config b config = record b { config = config }

unfoldable pub segments_count : QueueBackend → ℕ
segments_count b = length b.segments

-- The `sum` of the files' lengths, in `u64`.
unfoldable pub total_len : List Segment → ℕ
total_len [] = 0
total_len (s ∷ ss) = s.file_len + total_len ss

unfoldable pub disk_usage : QueueBackend → ℕ
unfolding total_len
disk_usage b = total_len b.segments

unfoldable pub find_segment : List Segment → ℕ → Option Segment
find_segment [] id = none
find_segment (s ∷ ss) id = if ltb id s.head && ltb s.tail s.head then some s else find_segment ss id

-- A `Message`: its segment, and the offset of its header there.
pub record Message : Type 0 where
  pub segment : Segment
  pub offset : ℕ

abbrev pub message_id : Message → ℕ
message_id m = (header_at m.segment.file_mmap m.offset).id

abbrev pub message_timestamp : Message → ℕ
message_timestamp m = (header_at m.segment.file_mmap m.offset).timestamp

unfoldable pub get : QueueBackend → ℕ → Outcome (Option Message)
get b id = elim (find_segment b.segments id) [
  | none ↦ done none
  | some s ↦ do
    found ← Segment.get s (max id s.tail)
    elim found [ none ↦ done none | some o ↦ done (some (record { segment = s; offset = o })) ]
]

-- The search window, narrowed by the timestamps of each segment.
unfoldable pub narrow : List Segment → ℕ → ℕ → ℕ → ℕ × ℕ
narrow [] timestamp tail head = (tail, head)
narrow (s ∷ ss) timestamp tail head =
    narrow ss timestamp (if ltb s.first_timestamp timestamp then s.tail else tail)
      (if ltb timestamp s.last_timestamp then s.head else head)

-- The binary search; `none` inside: the fuel ran out.
unfoldable pub search_timestamp : ℕ → QueueBackend → ℕ → ℕ → ℕ → Outcome (Option ℕ)
search_timestamp zero b timestamp tail head = done none
search_timestamp (suc fuel) b timestamp tail head =
    let id = tail + (head - tail) / 2 in
    elim (ltb tail head) [
      | false ↦ done (some tail)
      | true ↦ elim (get b id) [
        | panic ↦ panic
        | done none ↦ search_timestamp fuel b timestamp tail id
        | done (some m) ↦ elim (leb timestamp (message_timestamp m)) [
          | true ↦ search_timestamp fuel b timestamp tail id
          | false ↦ search_timestamp fuel b timestamp (id + 1) head
        ]
      ]
    ]

-- The window shrinks in each round.
unfoldable pub find_id_for_timestamp : QueueBackend → ℕ → Outcome (Option ℕ)
unfolding narrow
find_id_for_timestamp b timestamp =
    let (tail, head) = narrow b.segments timestamp b.tail b.head in
    search_timestamp (suc (head - tail)) b timestamp tail head

module _ (xxhash : List ℕ → ℕ) where
  -- The push to the last segment; with no segment, as if that were full.
  unfoldable pub push_last : List Segment → List ℕ → ℕ → Outcome (List Segment × BackendResult ℕ)
  push_last [] body timestamp = done ([], err segment_full)
  push_last (s ∷ []) body timestamp = do
    (s', result) ← Segment.push xxhash s body timestamp
    done (s' ∷ [], result)
  push_last (s ∷ t ∷ ss) body timestamp = do
    (rest, result) ← push_last (t ∷ ss) body timestamp
    done (s ∷ rest, result)

  -- `assert_eq!(id, self.head); self.head += 1`.
  unfoldable pub accept : QueueBackend → ℕ → Outcome (QueueBackend × BackendResult ℕ)
  accept b id = if id == b.head then done (record b { head = u64 (b.head + 1) }, ok id) else panic

  -- The rest of `push`: a new segment, on the file that was opened for it.
  unfoldable pub push_new :
      QueueBackend → List ℕ → ℕ → BackendResult FileImage → Outcome (QueueBackend × BackendResult ℕ)
  unfolding accept
  push_new b body timestamp opened = elim (create b.head opened) [
    | err e ↦ done (b, err e)
    | ok segment ↦ do
      (segment', result) ← Segment.push xxhash segment body timestamp
      let b' = record b { segments = b.segments ++ segment' ∷ [] }
      elim result [ err e ↦ done (b', err e) | ok id ↦ accept b' id ]
  ]

  unfoldable pub push :
      QueueBackend → List ℕ → ℕ → BackendResult FileImage → Outcome (QueueBackend × BackendResult ℕ)
  unfolding accept
  push b body timestamp opened = do
    (segments', result) ← push_last b.segments body timestamp
    let b' = record b { segments = segments' }
    elim result [
      | ok id ↦ accept b' id
      | err segment_full ↦ push_new b' body timestamp opened
      | err message_too_big ↦ done (b', err message_too_big)
      | err segment_file_invalid ↦ done (b', err segment_file_invalid)
      | err (io e) ↦ done (b', err (io e))
    ]

-- `last_mut().map(|last| last.closed = true)`.
unfoldable pub close_last : List Segment → List Segment
close_last [] = []
close_last (s ∷ []) = record s { closed = true } ∷ []
close_last (s ∷ t ∷ ss) = s ∷ close_last (t ∷ ss)

unfoldable pub purge : QueueBackend → QueueBackend
unfolding close_last
purge b = record b { tail = b.head; segments = close_last b.segments }

-- `wait_delete_segment` of each: the files that go.
unfoldable pub delete_all : List Segment → Outcome (List Segment)
unfolding Segment.purge
delete_all [] = done []
delete_all (s ∷ ss) = do s' ← Segment.purge s; rest ← delete_all ss; done (s' ∷ rest)

unfoldable pub delete : QueueBackend → Outcome (QueueBackend × List Segment)
unfolding delete_all
delete b = do gone ← delete_all b.segments; done (record b { segments = [] }, gone)
