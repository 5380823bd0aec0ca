-- ===== src/Segment/Recovery.antt =====
-- The loop of `Segment::recover`, on any bytes: it ends within its fuel, it does not panic unless a
-- length field that it reads is so large that the `u32` sum wraps, and what it accepts is a chain of messages.
use floki.Prelude.{
  ℕ, zero, suc, ◌+◌, ◌^◌, ◌≤◌, ◌<◌, ◌≡◌, refl, ◌⊎◌, inl, inr, List, ◌∷◌, [], ◌++◌, none, some,
  arith, done, length, ltb, ◌==◌, ==_iff, Bool-cases, ltb→lt, u32,
}
use floki.Bytes.{Memory}
use floki.Message.{header_size, header_at, hash_segment_message}
use floki.OffsetIndex.{push_offset}
use floki.Segment.{Segment, first_of_timestamps, take_message, recover_round, recover_loop}
use floki.Segment.Chain.{Scan, Chain, start, scan_of, more, IsMessage}
use floki.Segment.Push.{IsValid, counted, offset-le, above}

-- The segment after one more round.
abbrev pub taken : Segment → Segment
taken s = record s {
  first_timestamp =
      first_of_timestamps s.first_timestamp (header_at s.file_mmap s.file_offset).timestamp;
  last_timestamp = (header_at s.file_mmap s.file_offset).timestamp;
  file_offset = s.file_offset + header_size + (header_at s.file_mmap s.file_offset).len;
  head = s.head + 1;
  index = record { id_offset = s.index.id_offset; index = s.index.index ++ s.file_offset ∷ [] };
}

module _ (xxhash : List ℕ → ℕ) where
  -- Where a chain of messages from `tail` on ends and the next id is shown, the `u32` sum
  -- `file_offset + header_size + header.len` does not wrap.
  abbrev pub NoWrap : Memory → ℕ → ℕ → Type 0
  NoWrap m limit tail =
      (b : Scan)
      → Chain xxhash m limit (start tail) b
      → (header_at m b.offset).id ≡ b.head
      → b.offset + header_size + (header_at m b.offset).len < 2 ^ 32

  -- A message that ends before the end of the file is taken.
  pub recover_round_takes :
      (s : Segment)
      → s.file_len < 2 ^ 31
      → s.head + 1 < 2 ^ 64
      → s.head ≡ s.index.id_offset + length s.index.index
      → IsMessage xxhash s.file_mmap s.file_len s.head s.file_offset
      → s.file_offset + header_size + (header_at s.file_mmap s.file_offset).len < s.file_len
      → recover_round xxhash s ≡ done (some (taken s))
  unfolding recover_round take_message push_offset
  recover_round_takes s short small counted g h = ground (arith, g)

  -- What a round that neither panics nor stops has seen.
  pub recover_round_cases :
      (s : Segment)
      → s.file_offset ≤ s.file_len
      → s.file_len < 2 ^ 31
      → ((header_at s.file_mmap s.file_offset).id ≡ s.head
          → s.file_offset + header_size + (header_at s.file_mmap s.file_offset).len < 2 ^ 32)
      → (recover_round xxhash s ≡ done none)
        ⊎ (IsMessage xxhash s.file_mmap s.file_len s.head s.file_offset
            × (s.file_offset + header_size + (header_at s.file_mmap s.file_offset).len
                < s.file_len))
  unfolding recover_round
  recover_round_cases s fits short no_wrap =
      elim (Bool-cases ((header_at s.file_mmap s.file_offset).id == s.head)) [
        | inr differs ↦ inl (ground arith)
        | inl same ↦
            let small = no_wrap ((==_iff _ _).0 same) in
            elim (Bool-cases (
              (header_at s.file_mmap s.file_offset).hash
              == hash_segment_message xxhash s.file_mmap s.file_offset)) [
                | inr corrupt ↦ inl (ground arith)
                | inl intact ↦
                    elim (Bool-cases (
                      ltb (s.file_offset + header_size + (header_at s.file_mmap s.file_offset).len)
                        s.file_len)) [
                          | inr over ↦ inl (ground arith)
                          | inl fit ↦ inr (
                            record {
                              id_eq = ground arith;
                              fits = omega (arith, ltb→lt);
                              hash_eq = (==_iff _ _).0 intact;
                            },
                            ltb→lt _ _ fit,
                          )
                        ]
              ]
      ]

  -- The loop's result: what the rounds have taken in, where they stop.
  pub record IsRecovered (s t : Segment) : Type 0 where
    pub valid : IsValid xxhash t
    pub same_bytes : t.file_mmap ≡ s.file_mmap
    pub same_len : t.file_len ≡ s.file_len
    pub same_tail : t.tail ≡ s.tail
    pub same_path : t.file_path ≡ s.file_path
    pub grown : s.head ≤ t.head

  taken-IsValid :
      (s : Segment)
      → IsValid xxhash s
      → IsMessage xxhash s.file_mmap s.file_len s.head s.file_offset
      → IsValid xxhash (taken s)
  taken-IsValid s v g = record {
    chain = more v.chain g refl;
    based = v.based;
    long = v.long;
    short = v.short;
    magic = v.magic;
  }

  -- With fuel above what is left of the file, the loop ends in a valid segment and without a panic.
  pub recover_loop_total :
      (fuel : ℕ) (s : Segment)
      → IsValid xxhash s
      → NoWrap s.file_mmap s.file_len s.tail
      → s.tail + 2 ^ 31 < 2 ^ 64
      → s.file_len < s.file_offset + fuel
      → (t : Segment) × (recover_loop xxhash fuel s ≡ done (some t)) × IsRecovered s t
  unfolding recover_loop
  recover_loop_total zero s v nowrap small enough = absurd (omega (arith, offset-le xxhash s v))
  recover_loop_total (suc fuel) s v nowrap small enough =
      elim (Bool-cases (ltb (u32 (s.file_offset + header_size)) s.file_len)) [
        | inr end ↦ (s, rw (end, recover_loop), itself)
        | inl going ↦
            elim (recover_round_cases s (offset-le xxhash s v) v.short
              (nowrap (scan_of s) v.chain)) [
                | inl stop ↦ (s, rw (going, stop, recover_loop), itself)
                | inr (g, fit) ↦
                    let takes =
                      recover_round_takes s v.short
                        (omega (arith, (above xxhash s v).sparse, offset-le xxhash s v, v.short))
                        (omega (arith, counted xxhash s v, v.based)) g fit in
                    let (t, e, r) =
                      recover_loop_total fuel (taken s) (taken-IsValid s v g) nowrap small
                        (omega arith) in
                    (
                      t,
                      rw (going, takes, recover_loop) e,
                      record {
                        valid = r.valid;
                        same_bytes = r.same_bytes;
                        same_len = r.same_len;
                        same_tail = r.same_tail;
                        same_path = r.same_path;
                        grown = omega (arith, r.grown);
                      },
                    )
              ]
      ]
    where
      itself : IsRecovered s s
      itself = record {
        valid = v;
        same_bytes = refl;
        same_len = refl;
        same_tail = refl;
        same_path = refl;
        grown = omega arith;
      }
