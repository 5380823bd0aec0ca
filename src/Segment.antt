-- ===== src/Segment.antt =====
-- src/queue_backend.rs, `Segment`: one mapped file of the log. A method that mutates the segment
-- returns the new one. What the operating system answers is an argument: the image of an opened
-- file, or its error.
pub mod Chain
pub mod Push
pub mod Stored
pub mod Recovery
pub mod Reopen
pub mod Durability
use floki.Prelude.{
  ℕ, zero, suc, ◌+◌, ◌-◌, ◌*◌, ◌/◌, ◌^◌, Bool, true, false, ◌||◌, ◌&&◌, Option, none, some, List,
  [], Outcome, done, panic, ◌>>=◌, ◌>>◌, assert, u32, u64, ltb, leb, ◌==◌, if◌then◌else◌, length,
}
use floki.Bytes.{Memory, read_word, write_word}
use floki.Config.{QueueConfig}
use floki.Message.{header_size, MessageHeader, header_at, hash_segment_message, write_message}
use floki.OffsetIndex
use floki.OffsetIndex.{OffsetIndex, push_offset, get_offset}

abbrev pub magic_num : ℕ
magic_num = 0xF1031311

abbrev pub invalid_timestamp : ℕ
invalid_timestamp = 0

-- `Io` carries the error code of the operating system.
pub data QueueBackendError : Type 0 where
  message_too_big segment_full segment_file_invalid : QueueBackendError
  io : ℕ → QueueBackendError

pub data BackendResult (A : Type 0) : Type 0 where
  ok : A → BackendResult A
  err : QueueBackendError → BackendResult A

-- `try!`, where nothing can panic.
abbrev pub and_then : {A B : Type 0} → BackendResult A → (A → BackendResult B) → BackendResult B
and_then (ok a) f = f a
and_then (err e) f = err e

pub record SegmentCheckpoint : Type 0 where
  pub tail : ℕ
  pub head : ℕ
  pub sync_offset : ℕ
  pub closed : Bool

-- A file that was opened and mapped.
pub record FileImage : Type 0 where
  pub bytes : Memory
  pub len : ℕ

-- `file_path` is the id in the file's name; the rest of the path is the queue's directory.
pub record Segment : Type 0 where
  pub file_path : ℕ
  pub file_mmap : Memory
  pub file_len : ℕ
  pub file_offset : ℕ
  pub sync_offset : ℕ
  pub first_timestamp : ℕ
  pub last_timestamp : ℕ
  pub tail : ℕ
  pub head : ℕ
  pub closed : Bool
  pub deleted : Bool
  pub index : OffsetIndex

-- `a - b` on `u32`.
abbrev pub sub_u32 : ℕ → ℕ → ℕ
sub_u32 a b = u32 (a + 2 ^ 32 - b)

unfoldable pub new : ℕ → FileImage → BackendResult Segment
unfolding OffsetIndex.new
new start_id file =
    if leb file.len 4 || leb (2 ^ 31) file.len
    then err segment_file_invalid
    else ok (record {
      file_path = start_id;
      file_mmap = file.bytes;
      file_len = file.len;
      file_offset = 0;
      sync_offset = 0;
      first_timestamp = invalid_timestamp;
      last_timestamp = invalid_timestamp;
      tail = start_id;
      head = start_id;
      closed = false;
      deleted = false;
      index = OffsetIndex.new start_id;
    })

unfoldable pub create : ℕ → BackendResult FileImage → BackendResult Segment
unfolding new
create start_id opened = and_then opened λ file. and_then (new start_id file) λ segment.
    ok (record segment { file_mmap = write_word segment.file_mmap 0 4 magic_num; file_offset = 4 })

-- The offset of the message's header; `none` is the `Err(())` of an id that the index lacks.
unfoldable pub get : Segment → ℕ → Outcome (Option ℕ)
unfolding get_offset
get s id = elim (get_offset s.index id) [
  | none ↦ done none
  | some message_offset ↦ do
    let header = header_at s.file_mmap message_offset
    assert (leb message_offset s.file_offset)
    assert (leb (u32 (u32 (message_offset + header_size) + header.len)) s.file_offset)
    assert (header.id == id)
    done (some message_offset)
]

abbrev pub first_of_timestamps : ℕ → ℕ → ℕ
first_of_timestamps first clock = if first == invalid_timestamp then clock else first

abbrev pub page_size : ℕ
page_size = 4 * 1024

abbrev pub slack_size : ℕ
slack_size = 1024 * 1024

-- `& !(page_size - 1)`.
abbrev pub page_floor : ℕ → ℕ
page_floor n = n / page_size * page_size

-- `msync` is taken to succeed: the program panics if it does not.
unfoldable pub sync : Segment → Bool → Segment
sync s full =
    let offset =
      if full || s.closed
      then page_floor (u32 (s.file_offset + page_size - 1))
      else page_floor (s.file_offset - slack_size) in
    if ltb 0 offset && ltb s.sync_offset offset then record s { sync_offset = offset } else s

unfoldable pub checkpoint : Segment → Bool → Segment × SegmentCheckpoint
unfolding sync
checkpoint s full =
    let s' = sync s full in
    (s', record { tail = s.tail; head = s.head; sync_offset = s'.sync_offset; closed = s.closed })

unfoldable pub purge : Segment → Outcome Segment
purge s = if s.deleted then panic else done (record s { deleted = true })

module _ (xxhash : List ℕ → ℕ) where
  unfoldable pub push : Segment → List ℕ → ℕ → Outcome (Segment × BackendResult ℕ)
  unfolding push_offset
  push s body clock =
      let message_total_len = u32 (header_size + u32 (length body)) in
      let file_offset' = u32 (s.file_offset + message_total_len) in
      let written = write_message xxhash s.file_mmap s.file_offset s.head clock body in
      if ltb (sub_u32 s.file_len s.file_offset) message_total_len
      then (if leb s.file_len (u32 (message_total_len + 4))
          then done (s, err message_too_big)
          else done (record s { closed = true }, err segment_full))
      else (do
        index' ← push_offset s.index s.head (sub_u32 file_offset' message_total_len)
        done (
          record s {
            file_mmap = written;
            first_timestamp = first_of_timestamps s.first_timestamp clock;
            last_timestamp = clock;
            file_offset = file_offset';
            head = u64 (s.head + 1);
            index = index';
          },
          ok s.head,
        ))

  -- The end of a round of the loop of `recover`: the message at `file_offset` is taken in.
  unfoldable pub take_message : Segment → MessageHeader → Outcome (Option Segment)
  unfolding push_offset
  take_message s header = do
    let message_total_len = u32 (header_size + header.len)
    let file_offset' = u32 (s.file_offset + message_total_len)
    index' ← push_offset s.index header.id (sub_u32 file_offset' message_total_len)
    done (
        some (record s {
          first_timestamp = first_of_timestamps s.first_timestamp header.timestamp;
          last_timestamp = header.timestamp;
          file_offset = file_offset';
          head = u64 (s.head + 1);
          index = index';
        }))

  -- One round of the loop of `recover`: the segment with one more message, or `none` for a `break`.
  -- The hash covers `header.len` bytes, uncut: past the end of the file that read is a fault.
  unfoldable pub recover_round : Segment → Outcome (Option Segment)
  unfolding take_message
  recover_round s =
      let header = header_at s.file_mmap s.file_offset in
      let message_end = u32 (s.file_offset + u32 (header_size + header.len)) in
      let hash = hash_segment_message xxhash s.file_mmap s.file_offset in
      let checked = if header.hash == hash then take_message s header else done none in
      let read =
        if leb (s.file_offset + header_size + header.len) s.file_len then checked else panic in
      if header.id == s.head
      then (if ltb message_end s.file_len then read else done none)
      else done none

  -- `none` of the inner option: the fuel ran out.
  unfoldable pub recover_loop : ℕ → Segment → Outcome (Option Segment)
  recover_loop zero s = done none
  recover_loop (suc fuel) s = elim (ltb (u32 (s.file_offset + header_size)) s.file_len) [
    | false ↦ done (some s)
    | true ↦ elim (recover_round s) [
      | panic ↦ panic
      | done none ↦ done (some s)
      | done (some t) ↦ recover_loop fuel t
    ]
  ]

  -- The state in which the loop starts.
  unfoldable pub recover_start : Segment → SegmentCheckpoint → Segment
  recover_start s c = record s {
    tail = c.tail;
    head = c.tail;
    closed = c.closed;
    file_offset = 4;
    sync_offset = c.sync_offset;
    file_mmap =
        if read_word s.file_mmap 0 4 == magic_num
        then s.file_mmap
        else write_word s.file_mmap 0 4 magic_num;
  }

  -- Each round reads 20 bytes at least, so the length of the file is fuel enough.
  unfoldable pub recover : Segment → SegmentCheckpoint → Outcome (Option Segment)
  unfolding recover_start
  recover s c = do
    assert (s.tail == c.tail)
    recovered ← recover_loop s.file_len (recover_start s c)
    elim recovered [
      | none ↦ done none
      | some t ↦ done (some (record t { sync_offset = t.file_offset }))
    ]

  -- The inner `none` is a loop out of fuel.
  unfoldable pub open_file :
      SegmentCheckpoint → BackendResult FileImage → Outcome (Option (BackendResult Segment))
  open_file c opened = elim (and_then opened (new c.tail)) [
    | err e ↦ done (some (err e))
    | ok s ↦ do
      recovered ← recover s c
      elim recovered [ none ↦ done none | some t ↦ done (some (ok t)) ]
  ]
