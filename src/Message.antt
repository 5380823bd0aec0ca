-- ===== src/Message.antt =====
-- src/queue_backend.rs, `MessageHeader` and `hash_segment_message`: a message as it lies in the
-- mapped file of its segment.
pub mod Written
use floki.Prelude.{
  ℕ, ◌+◌, ◌-◌, ◌^◌, ◌≤◌, ◌<◌, ◌≡◌, refl, sym, ap, ◌∙◌, inl, inr, List, arith, u32, length,
}
use floki.Bytes.{
  Memory, read_bytes, write_bytes, read_word, write_word, read_word-write_bytes_other,
  read_word-write_word_other, read_word-write_word, read_word_agree, read_bytes_agree,
  read_bytes-write_bytes, read_bytes-write_word_other,
}

-- `size_of::<MessageHeader>()`: the struct is packed, with a `u32`, a `u64`, a `u32` and a `u32`.
abbrev pub header_size : ℕ
header_size = 20

pub record MessageHeader : Type 0 where
  pub hash : ℕ
  pub id : ℕ
  pub timestamp : ℕ
  pub len : ℕ

-- The header that a pointer to offset `o` of the file shows.
unfoldable pub header_at : Memory → ℕ → MessageHeader
header_at m o = record {
  hash = read_word m o 4;
  id = read_word m (o + 4) 8;
  timestamp = read_word m (o + 12) 4;
  len = read_word m (o + 16) 4;
}

-- `Message::body`.
unfoldable pub body_at : Memory → ℕ → List ℕ
body_at m o = read_bytes m (o + header_size) (read_word m (o + 16) 4)

-- `xxhash` stands for `XxHash::with_seed(0)`, `write` and `finish`, which are not in this repository.
module _ (xxhash : List ℕ → ℕ) where
  -- All of the message but the field that holds the hash.
  unfoldable pub hash_segment_message : Memory → ℕ → ℕ
  hash_segment_message m o =
      u32 (xxhash (read_bytes m (o + 4) (header_size + read_word m (o + 16) 4 - 4)))

  -- The four assignments to the header's fields and the copy of the body, in their order.
  unfoldable pub write_message : Memory → ℕ → ℕ → ℕ → List ℕ → Memory
  write_message m o id timestamp body =
      let m = write_word m (o + 4) 8 id in
      let m = write_word m (o + 12) 4 timestamp in
      let m = write_word m (o + 16) 4 (u32 (length body)) in
      let m = write_bytes m (o + header_size) body in write_word m o 4 (hash_segment_message m o)
