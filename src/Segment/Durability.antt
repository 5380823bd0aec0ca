-- ===== src/Segment/Durability.antt =====
-- What a segment is after its file has been closed and opened again.
use floki.Prelude.{
  ℕ, suc, ◌+◌, ◌-◌, ◌^◌, ◌≤◌, ◌<◌, ◌≡◌, ◌≢◌, refl, sym, ap, ◌∙◌, ◌⊎◌, inr, List, [], none, some,
  arith, done, panic, length, Bool, false,
}
use floki.Bytes.{Memory, read_word}
use floki.Message.{header_size, header_at}
use floki.Message.Written.{header_at-write_message, write_message_before}
use floki.Segment.{
  Segment, SegmentCheckpoint, FileImage, ok, magic_num, push, checkpoint, recover_round,
  recover_loop, open_file,
}
use floki.Segment.Chain.{Scan, Chain, here, start, scan_of, Chain-IsAbove, Chain-agree}
use floki.Segment.Push.{IsValid, IsPushable, appended, push_fits, appended-IsValid}
use floki.Segment.Recovery.{NoWrap, recover_loop_total}
use floki.Segment.Reopen.{
  reader, stamped, stamped_magic, opened, open_steps, loop_stops, loop_follows,
}

-- The file of a segment.
abbrev pub image : Segment → FileImage
image s = record { bytes = s.file_mmap; len = s.file_len }

module _ (xxhash : List ℕ → ℕ) where
  -- On any file of an allowed length, with ids below 2 ^ 64, such that wherever, with the magic
  -- number in its place, a chain of messages from the tail on ends and the next id is shown, the
  -- offset, 20 and the length field together are below 2 ^ 32, opening a segment ends without a
  -- panic, on the fuel that it gives itself, with a valid segment that starts at the checkpoint's
  -- tail and counts as synced up to its end.
  pub open_file-IsValid :
      (c : SegmentCheckpoint) (file : FileImage)
      → 4 < file.len
      → file.len < 2 ^ 31
      → NoWrap xxhash (stamped file.bytes) file.len c.tail
      → c.tail + 2 ^ 31 < 2 ^ 64
      → (t : Segment) × (open_file xxhash c (ok file) ≡ done (some (ok t)))
        × IsValid xxhash t
        × (t.tail ≡ c.tail)
        × (t.sync_offset ≡ t.file_offset)
  open_file-IsValid c file long short nowrap small =
      let v : IsValid xxhash (opened c file) = record {
        chain = here;
        based = refl;
        long = long;
        short = short;
        magic = stamped_magic file.bytes;
      } in
      let (t, e, r) =
        recover_loop_total xxhash file.len (opened c file) v nowrap small (omega arith) in
      let w = r.valid in
      (
        record t { sync_offset = t.file_offset },
        open_steps xxhash c file long short t e,
        record {
          chain = w.chain;
          based = w.based;
          long = w.long;
          short = w.short;
          magic = w.magic;
        },
        r.same_tail,
        refl,
      )

  round_stops_id :
      (r : Segment)
      → (header_at r.file_mmap r.file_offset).id ≢ r.head
      → recover_round xxhash r ≡ done none
  unfolding recover_round
  round_stops_id r h = ground arith

  round_stops_end :
      (r : Segment)
      → r.file_len < 2 ^ 31
      → r.file_offset + header_size + (header_at r.file_mmap r.file_offset).len ≡ r.file_len
      → recover_round xxhash r ≡ done none
  unfolding recover_round
  round_stops_end r short h = ground arith

  -- The loop on the file `m` ends where a chain of messages ends and no more can be read.
  module _ (m : Memory) (len : ℕ) (c : SegmentCheckpoint) (short : len < 2 ^ 31)
      (magic : read_word m 0 4 ≡ magic_num) (small : c.tail + 2 ^ 31 < 2 ^ 64) where
    -- The segment that the loop begins with.
    abbrev base : Segment
    base = record {
      file_path = c.tail;
      file_mmap = m;
      file_len = len;
      file_offset = 4;
      sync_offset = c.sync_offset;
      first_timestamp = 0;
      last_timestamp = 0;
      tail = c.tail;
      head = c.tail;
      closed = c.closed;
      deleted = false;
      index = record { id_offset = c.tail; index = [] };
    }

    opened-base : opened c (record { bytes = m; len = len }) ≡ base
    opened-base = rw magic refl

    open_reads :
        (b : Scan)
        → Chain xxhash m len (start c.tail) b
        → b.offset < len
        → (len ≤ b.offset + header_size) ⊎ (recover_round xxhash (reader base b) ≡ done none)
        → open_file xxhash c (ok (record { bytes = m; len = len }))
          ≡ done (some (ok (record (reader base b) { sync_offset = b.offset })))
    open_reads b ch within stop =
        let (n, small_n, steps) = loop_follows xxhash base short refl small ch within in
        let up = Chain-IsAbove xxhash ch in
        let stops = loop_stops xxhash (reader base b) (len - n - 1) stop short (omega arith) in
        let all : len ≡ n + suc (len - n - 1) = omega arith in
        open_steps xxhash c (record { bytes = m; len = len }) (omega (arith, up.offset_le)) short
          (reader base b)
          (ap (recover_loop xxhash len) opened-base ∙ steps len (suc (len - n - 1)) all ∙ stops)

  -- A valid segment whose file is not full, whose ids stay below 2 ^ 64 and whose next bytes do not
  -- show the next id, is the same after a checkpoint and a reopening of its file: its messages,
  -- index, timestamps and head. All of it counts as synced, its path and its index start at its
  -- tail, and a deletion under way is forgotten.
  pub open_file-checkpoint :
      (s : Segment) (full : Bool)
      → IsValid xxhash s
      → s.tail + 2 ^ 31 < 2 ^ 64
      → s.file_offset < s.file_len
      → (header_at s.file_mmap s.file_offset).id ≢ s.head
      → open_file xxhash (checkpoint s full).1 (ok (image s))
        ≡ done (
            some (
              ok (record s {
                file_path = s.tail;
                sync_offset = s.file_offset;
                deleted = false;
                index = record { id_offset = s.tail; index = s.index.index };
              })))
  unfolding checkpoint
  open_file-checkpoint s full v small room silent =
      open_reads s.file_mmap s.file_len (checkpoint s full).1 v.short v.magic small (scan_of s)
        v.chain room (inr (round_stops_id _ silent))

  -- If a message ends exactly with the file of a valid segment, under the conditions of a push,
  -- then it is accepted with the head as its id; after a checkpoint and a reopening of the file the
  -- message is not in the index, and its id is the head again.
  pub open_file_loses_exact_fill :
      (s : Segment) (body : List ℕ) (clock : ℕ) (full : Bool)
      → IsValid xxhash s
      → IsPushable xxhash s body clock
      → s.tail + 2 ^ 31 < 2 ^ 64
      → s.file_offset + header_size + length body ≡ s.file_len
      → (t u : Segment) × (push xxhash s body clock ≡ done (t, ok s.head))
        × (open_file xxhash (checkpoint t full).1 (ok (image t)) ≡ done (some (ok u)))
        × (t.head ≡ s.head + 1)
        × (u.head ≡ s.head)
        × (u.index.index ≡ s.index.index)
  unfolding checkpoint
  open_file_loses_exact_fill s body clock full v p small exact =
      let t = appended xxhash s body clock in
      let c = (checkpoint t full).1 in
      let w = appended-IsValid xxhash s v body clock p (omega arith) in
      let same : (q : ℕ) → q < s.file_offset → s.file_mmap q ≡ t.file_mmap q =
        λ q k. sym (write_message_before xxhash s.file_mmap s.file_offset s.head clock body q k) in
      let ch =
        Chain-agree xxhash s.file_mmap t.file_mmap s.file_len s.file_len same (omega arith)
          v.chain in
      let header =
        header_at-write_message xxhash s.file_mmap s.file_offset s.head clock body
          (omega (arith, p)) p.clock_fits (omega (arith, p)) in
      let stop =
        round_stops_end (reader (base t.file_mmap t.file_len c v.short w.magic small) (scan_of s))
          v.short (rw header exact) in
      (
        t,
        record (reader (base t.file_mmap t.file_len c v.short w.magic small) (scan_of s)) {
          sync_offset = s.file_offset;
        },
        push_fits xxhash s v body clock p (omega arith),
        open_reads t.file_mmap t.file_len c v.short w.magic small (scan_of s) ch (omega arith)
            (inr stop),
        refl,
        refl,
        refl,
      )

  -- If the bytes at the end of a segment, with room for a header in a file below 2 ^ 31, show the
  -- next id and a length below 2 ^ 32 to which 20 adds up to 2 ^ 32 or more, then a round of the
  -- recovery reads past the file.
  pub recover_round_wraps :
      (s : Segment)
      → s.file_offset + header_size < s.file_len
      → s.file_len < 2 ^ 31
      → (header_at s.file_mmap s.file_offset).id ≡ s.head
      → (header_at s.file_mmap s.file_offset).len < 2 ^ 32
      → 2 ^ 32 ≤ (header_at s.file_mmap s.file_offset).len + header_size
      → recover_round xxhash s ≡ panic
  unfolding recover_round
  recover_round_wraps s room short same h k = ground arith
