-- ===== src/Segment/Push.antt =====
-- `Segment::push` on a valid segment: every branch, and that the invariant is kept.
use floki.Prelude.{
  ℕ, ◌+◌, ◌^◌, ◌≤◌, ◌<◌, ◌≡◌, refl, sym, ap, ◌∙◌, List, ◌∷◌, [], ◌++◌, arith, done, Bool, true,
  length,
}
use floki.Bytes.{read_word, read_word_agree}
use floki.Message.{header_size, header_at, write_message, hash_segment_message}
use floki.Message.Written.{header_at-write_message, write_message_before}
use floki.OffsetIndex.{push_offset}
use floki.Segment.{
  Segment, magic_num, ok, err, message_too_big, segment_full, push, first_of_timestamps,
}
use floki.Segment.Chain.{Chain, more, IsAbove, start, scan_of, Chain-IsAbove, Chain-agree}

module _ (xxhash : List ℕ → ℕ) where
  -- The fields of the segment are what its bytes say, and the file is one that `Segment::new` takes.
  pub record IsValid (s : Segment) : Type 0 where
    pub chain : Chain xxhash s.file_mmap s.file_len (start s.tail) (scan_of s)
    pub based : s.index.id_offset ≡ s.tail
    pub long : 4 < s.file_len
    pub short : s.file_len < 2 ^ 31
    pub magic : read_word s.file_mmap 0 4 ≡ magic_num

  -- What the program relies on to not wrap: the body fits a `u32`, with the header and a word to
  -- spare, and the id fits a `u64`.
  pub record IsPushable (s : Segment) (body : List ℕ) (clock : ℕ) : Type 0 where
    pub body_fits : length body + header_size + 4 < 2 ^ 32
    pub clock_fits : clock < 2 ^ 32
    pub head_fits : s.head + 1 < 2 ^ 64

  -- Closing a segment, or renewing what it counts as synced, changes none of this.
  pub closed-IsValid :
      (s : Segment) (closed : Bool) → IsValid s → IsValid (record s { closed = closed })
  closed-IsValid s closed v = record {
    chain = v.chain;
    based = v.based;
    long = v.long;
    short = v.short;
    magic = v.magic;
  }

  -- The segment with one more message.
  abbrev pub appended : Segment → List ℕ → ℕ → Segment
  appended s body clock = record s {
    file_mmap = write_message xxhash s.file_mmap s.file_offset s.head clock body;
    first_timestamp = first_of_timestamps s.first_timestamp clock;
    last_timestamp = clock;
    file_offset = s.file_offset + header_size + length body;
    head = s.head + 1;
    index = record { id_offset = s.index.id_offset; index = s.index.index ++ s.file_offset ∷ [] };
  }

  module _ (s : Segment) (v : IsValid s) where
    pub above : IsAbove s.file_len (start s.tail) (scan_of s)
    above = Chain-IsAbove xxhash v.chain

    pub counted : s.head ≡ s.tail + length s.index.index
    counted = omega (arith, above.counted)

    pub offset-le : s.file_offset ≤ s.file_len
    offset-le = above.limit_le (omega (arith, v.long))

    module _ (body : List ℕ) (clock : ℕ) (p : IsPushable s body clock) where
      pub push_fits :
          s.file_offset + header_size + length body ≤ s.file_len
          → push xxhash s body clock ≡ done (appended s body clock, ok s.head)
      unfolding push push_offset
      push_fits h = ground (arith, v, p, offset-le, counted)

      pub push_full :
          s.file_len < s.file_offset + header_size + length body
          → header_size + length body + 4 < s.file_len
          → push xxhash s body clock ≡ done (record s { closed = true }, err segment_full)
      unfolding push
      push_full h k = ground (arith, v, p, offset-le)

      pub push_too_big :
          s.file_len < s.file_offset + header_size + length body
          → s.file_len ≤ header_size + length body + 4
          → push xxhash s body clock ≡ done (s, err message_too_big)
      unfolding push
      push_too_big h k = ground (arith, v, p, offset-le)

      header :
          header_at (write_message xxhash s.file_mmap s.file_offset s.head clock body) s.file_offset
          ≡ record {
            hash =
                hash_segment_message xxhash
                  (write_message xxhash s.file_mmap s.file_offset s.head clock body)
                  s.file_offset;
            id = s.head;
            timestamp = clock;
            len = length body;
          }
      header =
          header_at-write_message xxhash s.file_mmap s.file_offset s.head clock body
            (omega (arith, p)) p.clock_fits (omega (arith, p))

      pub appended-IsValid :
          s.file_offset + header_size + length body ≤ s.file_len → IsValid (appended s body clock)
      appended-IsValid h = record {
        chain =
            more
              (Chain-agree xxhash s.file_mmap _ s.file_len s.file_len
                (λ q k.
                  sym (write_message_before xxhash s.file_mmap s.file_offset s.head clock body q k))
                offset-le v.chain)
              (record {
                id_eq = ap (λ x. x.id) header;
                fits = rw header h;
                hash_eq = ap (λ x. x.hash) header;
              })
              (rw header refl);
        based = v.based;
        long = v.long;
        short = v.short;
        magic =
            read_word_agree _ s.file_mmap 0 4 (λ q _ k.
              write_message_before xxhash s.file_mmap s.file_offset s.head clock body q
                (omega (arith, above.offset_le)))
            ∙ v.magic;
      }
