-- ===== src/Segment/Reopen.antt =====
-- `Segment::open` on the file of a segment that was written before.
use floki.Prelude.{
  ℕ, suc, ◌+◌, ◌^◌, ◌≤◌, ◌<◌, ◌≡◌, sym, ap, ◌∙◌, ◌⊎◌, inl, inr, List, [], none, some, arith, done,
  true, false, ltb, leb, ◌==◌, ==_iff, ==_refl, if◌then◌else◌, Bool-cases, u32,
}
use floki.Bytes.{Memory, read_word, write_word, read_word-write_word}
use floki.Message.{header_size, header_at}
use floki.OffsetIndex
use floki.OffsetIndex.{OffsetIndex, push_offset}
use floki.Segment.{
  Segment, SegmentCheckpoint, FileImage, ok, magic_num, new, recover_start, recover_round,
  recover_loop, recover, open_file,
}
use floki.Segment.Chain.{Scan, Chain, here, more, IsMessage, start, next, Chain-IsAbove}
use floki.Segment.Recovery.{recover_round_takes}

-- The segment that has read as far as `b`.
abbrev pub reader : Segment → Scan → Segment
reader r b = record r {
  file_offset = b.offset;
  first_timestamp = b.first;
  last_timestamp = b.last;
  head = b.head;
  index = record { id_offset = r.index.id_offset; index = b.offsets };
}

module _ (xxhash : List ℕ → ℕ) (r : Segment) where
  pub loop_stops :
      (fuel : ℕ)
      → (r.file_len ≤ r.file_offset + header_size) ⊎ (recover_round xxhash r ≡ done none)
      → r.file_len < 2 ^ 31
      → r.file_offset ≤ r.file_len
      → recover_loop xxhash (suc fuel) r ≡ done (some r)
  unfolding recover_loop
  loop_stops fuel (inl h) short fits =
      let end : ltb (u32 (r.file_offset + header_size)) r.file_len ≡ false = ground arith in
      rw (end, recover_loop)
  loop_stops fuel (inr h) short fits =
      elim (Bool-cases (ltb (u32 (r.file_offset + header_size)) r.file_len)) [
        | inl going ↦ rw (going, h, recover_loop)
        | inr end ↦ rw (end, recover_loop)
      ]

module _ (xxhash : List ℕ → ℕ) (r : Segment) (short : r.file_len < 2 ^ 31)
    (based : r.index.id_offset ≡ r.tail) (small : r.tail + 2 ^ 31 < 2 ^ 64) where
  one_round :
      (b c : Scan)
      → Chain xxhash r.file_mmap r.file_len (start r.tail) b
      → IsMessage xxhash r.file_mmap r.file_len b.head b.offset
      → c ≡ next r.file_mmap b
      → c.offset < r.file_len
      → (fuel : ℕ)
      → recover_loop xxhash (suc fuel) (reader r b) ≡ recover_loop xxhash fuel (reader r c)
  unfolding recover_loop
  one_round b c ch g e within fuel =
      let end : c.offset ≡ b.offset + header_size + (header_at r.file_mmap b.offset).len =
        ap (λ x. x.offset) e in
      let up = Chain-IsAbove xxhash ch in
      let going : ltb (u32 (b.offset + header_size)) r.file_len ≡ true = ground arith in
      let takes =
        recover_round_takes xxhash (reader r b) short (omega (arith, up.sparse))
          (omega (arith, up.counted)) g (omega arith) in
      rw (going, takes, recover_loop) (ap (λ x. recover_loop xxhash fuel (reader r x)) (sym e))

  -- From the start, the loop follows a chain to its end, if that is not the end of the file.
  pub loop_follows :
      {b : Scan}
      → Chain xxhash r.file_mmap r.file_len (start r.tail) b
      → b.offset < r.file_len
      → (n : ℕ) × (n + 4 ≤ b.offset)
        × ((all fuel : ℕ)
            → all ≡ n + fuel
            → recover_loop xxhash all (reader r (start r.tail))
              ≡ recover_loop xxhash fuel (reader r b))
  loop_follows here within = (
    0,
    omega arith,
    λ all fuel e. ap (λ x. recover_loop xxhash x (reader r (start r.tail))) (e ∙ omega arith),
  )
  loop_follows (more {b} {c} ch g e) within =
      let end : c.offset ≡ b.offset + header_size + (header_at r.file_mmap b.offset).len =
        ap (λ x. x.offset) e in
      let (n, small_n, steps) = loop_follows ch (omega arith) in
      (
        n + 1,
        omega arith,
        λ all fuel e'. steps all (suc fuel) (omega arith) ∙ one_round b c ch g e within fuel,
      )

-- The magic number in its place.
abbrev pub stamped : Memory → Memory
stamped m = if read_word m 0 4 == magic_num then m else write_word m 0 4 magic_num

pub stamped_magic : (m : Memory) → read_word (stamped m) 0 4 ≡ magic_num
stamped_magic m = elim (Bool-cases (read_word m 0 4 == magic_num)) [
  | inl there ↦ rw there ((==_iff _ _).0 there)
  | inr gone ↦ rw gone (read_word-write_word m 0 4 magic_num (omega arith))
]

-- The segment as the loop of `recover` finds it.
abbrev pub opened : SegmentCheckpoint → FileImage → Segment
opened c file = record {
  file_path = c.tail;
  file_mmap = stamped file.bytes;
  file_len = file.len;
  file_offset = 4;
  sync_offset = c.sync_offset;
  first_timestamp = 0;
  last_timestamp = 0;
  tail = c.tail;
  head = c.tail;
  closed = c.closed;
  deleted = false;
  index = record { id_offset = c.tail; index = [] };
}

module _ (xxhash : List ℕ → ℕ) (c : SegmentCheckpoint) (file : FileImage) (long : 4 < file.len)
    (short : file.len < 2 ^ 31) where
  fresh_segment : Segment
  fresh_segment = record {
    file_path = c.tail;
    file_mmap = file.bytes;
    file_len = file.len;
    file_offset = 0;
    sync_offset = 0;
    first_timestamp = 0;
    last_timestamp = 0;
    tail = c.tail;
    head = c.tail;
    closed = false;
    deleted = false;
    index = record { id_offset = c.tail; index = [] };
  }

  new_accepts : new c.tail file ≡ ok fresh_segment
  unfolding new OffsetIndex.new fresh_segment
  new_accepts =
      let a : leb file.len 4 ≡ false = ground arith in
      let b : leb (2 ^ 31) file.len ≡ false = ground arith in rw (a, b)

  recover_steps :
      (t : Segment)
      → recover_loop xxhash file.len (opened c file) ≡ done (some t)
      → recover xxhash fresh_segment c ≡ done (some (record t { sync_offset = t.file_offset }))
  unfolding recover recover_start fresh_segment
  recover_steps t e = rw (==_refl c.tail, recover) (rw e)

  pub open_steps :
      (t : Segment)
      → recover_loop xxhash file.len (opened c file) ≡ done (some t)
      → open_file xxhash c (ok file) ≡ done (some (ok (record t { sync_offset = t.file_offset })))
  unfolding open_file
  open_steps t e = rw (new_accepts, open_file) (rw (recover_steps t e))
