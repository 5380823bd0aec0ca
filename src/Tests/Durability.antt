-- ===== src/Tests/Durability.antt =====
-- Segments of src/queue_backend.rs that are opened again.
use floki.Prelude.{
  ap, ◌∙◌, ◌+◌, ◌^◌, ◌≤◌, ◌<◌, ◌≡◌, refl, [], some, arith, done, panic, false, true, leb, ltb, ◌&&◌,
  if◌then◌else◌,
}
use floki.Bytes.{Memory, read_word, write_word}
use floki.Message.{header_at, write_message}
use floki.Segment
use floki.Segment.{Segment, SegmentCheckpoint, FileImage, ok, checkpoint, open_file, recover_round}
use floki.Segment.Push.{IsValid, IsPushable}
use floki.Segment.Recovery.{NoWrap}
use floki.Segment.Chain.{Scan, Chain, here, more, start}
use floki.Segment.Reopen.{stamped}
use floki.Segment.Durability.{
  image, open_file-IsValid, open_file-checkpoint, open_file_loses_exact_fill, recover_round_wraps,
}
use floki.Backend.Push.{created, created-IsValid}
use floki.Tests.Data.{checksum, blank, greeting, one_message, one_message-IsValid}

-- The checkpoint of a segment from id 1 on.
abbrev first_checkpoint : SegmentCheckpoint
first_checkpoint = record { tail = 1; head = 1; sync_offset = 0; closed = false }

-- Behind the message there are zeros.
silent : (header_at one_message.file_mmap 26).id ≡ 0
unfolding header_at read_word write_message write_word
silent = refl

first_len : (header_at one_message.file_mmap 4).len ≡ 2
unfolding header_at read_word write_message write_word
first_len = refl

already_stamped : stamped one_message.file_mmap ≡ one_message.file_mmap
already_stamped = rw one_message-IsValid.magic refl

-- The chain ends before the message or behind it.
one_message-ends :
    (b : Scan)
    → Chain checksum one_message.file_mmap one_message.file_len (start 1) b
    → (header_at one_message.file_mmap b.offset).id ≡ b.head
    → (b.offset ≡ 4) × (b.head ≡ 1)
one_message-ends c here e = (refl, refl)
one_message-ends c (more {b} ch g p) e =
    let (at_first, first_id) = one_message-ends b ch g.id_eq in
    let len : (header_at one_message.file_mmap b.offset).len ≡ 2 = rw at_first first_len in
    let end : c.offset ≡ 26 = ap (λ x. x.offset) p ∙ omega arith in
    let id : c.head ≡ 2 = ap (λ x. x.head) p ∙ omega arith in
    absurd (omega (arith, silent, rw end at (e)))

one_message-NoWrap : NoWrap checksum (stamped one_message.file_mmap) one_message.file_len 1
one_message-NoWrap b ch e =
    let (at_first, first_id) =
      one_message-ends b (rw already_stamped at (ch)) (rw already_stamped at (e)) in
    rw already_stamped (rw at_first (omega (arith, first_len)))

open_file-IsValid_example :
    (t : Segment) × (open_file checksum first_checkpoint (ok (image one_message))
      ≡ done (some (ok t)))
    × IsValid checksum t
    × (t.tail ≡ 1)
    × (t.sync_offset ≡ t.file_offset)
open_file-IsValid_example =
    open_file-IsValid checksum first_checkpoint (image one_message) (omega arith) (omega arith)
      one_message-NoWrap (omega arith)

open_file-checkpoint_example :
    open_file checksum (checkpoint one_message true).1 (ok (image one_message))
    ≡ done (some (ok (record one_message { sync_offset = 26 })))
open_file-checkpoint_example =
    open_file-checkpoint checksum one_message true one_message-IsValid (omega arith) (omega arith)
      (λ e. omega (arith, e, silent))

-- A file that the greeting fills.
abbrev tight : FileImage
tight = record { bytes = λ _. 0; len = 26 }

abbrev tight_segment : Segment
tight_segment = created checksum 1 tight

tight_segment-IsPushable : IsPushable checksum tight_segment greeting 50
tight_segment-IsPushable = record {
  body_fits = omega arith;
  clock_fits = omega arith;
  head_fits = omega arith;
}

open_file_loses_exact_fill_example :
    (t u : Segment) × (Segment.push checksum tight_segment greeting 50 ≡ done (t, ok 1))
    × (open_file checksum (checkpoint t true).1 (ok (image t)) ≡ done (some (ok u)))
    × (t.head ≡ 2)
    × (u.head ≡ 1)
    × (u.index.index ≡ [])
open_file_loses_exact_fill_example =
    open_file_loses_exact_fill checksum tight_segment greeting 50 true
      (created-IsValid checksum 1 tight (record { long = omega arith; short = omega arith }))
      tight_segment-IsPushable (omega arith) refl

-- A header with the id 0 and a length of 2 ^ 32 - 1 behind the magic number.
abbrev torn : Memory
torn q = if leb 20 q && ltb q 24 then 255 else 0

abbrev torn_segment : Segment
torn_segment = record (created checksum 0 blank) { file_mmap = torn }

torn_header :
    ((header_at torn 4).id ≡ 0)
    × ((header_at torn 4).len < 2 ^ 32)
    × (2 ^ 32 ≤ (header_at torn 4).len + 20)
unfolding header_at read_word
torn_header = (refl, omega arith, omega arith)

recover_round_wraps_example : recover_round checksum torn_segment ≡ panic
recover_round_wraps_example =
    recover_round_wraps checksum torn_segment (omega arith) (omega arith) torn_header.0
      torn_header.1 torn_header.2
