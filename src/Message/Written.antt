-- ===== src/Message/Written.antt =====
-- What a message reads as once it is written, and what its writing leaves alone.
use floki.Prelude.{
  ℕ, ◌+◌, ◌-◌, ◌^◌, ◌≤◌, ◌<◌, ◌≡◌, sym, ap, ◌∙◌, inl, inr, List, arith, u32, length,
}
use floki.Bytes.{
  Memory, read_bytes, write_bytes, read_word, write_word, read_word-write_bytes_other,
  read_word-write_word_other, read_word-write_word, read_word_agree, read_bytes_agree,
  read_bytes-write_bytes, read_bytes-write_word_other, write_bytes_before, write_bytes_after,
  le_bytes, length-le_bytes,
}
use floki.Message.{header_size, header_at, body_at, hash_segment_message, write_message}

hash-lt : (xxhash : List ℕ → ℕ) (m : Memory) (o : ℕ) → hash_segment_message xxhash m o < 256 ^ 4
unfolding hash_segment_message
hash-lt xxhash m o = omega arith

module _ (xxhash : List ℕ → ℕ) (m : Memory) (o id timestamp : ℕ) (body : List ℕ) where
  -- The memory after each of the five writes.
  abbrev with_id : Memory
  with_id = write_word m (o + 4) 8 id

  abbrev with_timestamp : Memory
  with_timestamp = write_word with_id (o + 12) 4 timestamp

  abbrev with_len : Memory
  with_len = write_word with_timestamp (o + 16) 4 (u32 (length body))

  abbrev with_body : Memory
  with_body = write_bytes with_len (o + header_size) body

  abbrev written : Memory
  written = write_message xxhash m o id timestamp body

  read_len : length body < 2 ^ 32 → read_word with_body (o + 16) 4 ≡ length body
  read_len h =
      read_word-write_bytes_other with_len (o + header_size) body (o + 16) 4 (inl (omega arith))
      ∙ read_word-write_word with_timestamp (o + 16) 4 (u32 (length body)) (omega arith)
      ∙ omega arith

  -- The hash is written last, below everything that it covers.
  below_hash : (q w : ℕ) → o + 4 ≤ q → read_word written q w ≡ read_word with_body q w
  unfolding write_message
  below_hash q w h = read_word-write_word_other with_body o 4 _ q w (inr h)

  read_len_written : length body < 2 ^ 32 → read_word written (o + 16) 4 ≡ length body
  read_len_written h = below_hash (o + 16) 4 (omega arith) ∙ read_len h

  read_id_written : id < 2 ^ 64 → read_word written (o + 4) 8 ≡ id
  read_id_written h =
      below_hash (o + 4) 8 (omega arith)
      ∙ read_word-write_bytes_other with_len (o + header_size) body (o + 4) 8 (inl (omega arith))
      ∙ read_word-write_word_other with_timestamp (o + 16) 4 _ (o + 4) 8 (inl (omega arith))
      ∙ read_word-write_word_other with_id (o + 12) 4 _ (o + 4) 8 (inl (omega arith))
      ∙ read_word-write_word m (o + 4) 8 id h

  read_timestamp_written : timestamp < 2 ^ 32 → read_word written (o + 12) 4 ≡ timestamp
  read_timestamp_written h =
      below_hash (o + 12) 4 (omega arith)
      ∙ read_word-write_bytes_other with_len (o + header_size) body (o + 12) 4 (inl (omega arith))
      ∙ read_word-write_word_other with_timestamp (o + 16) 4 _ (o + 12) 4 (inl (omega arith))
      ∙ read_word-write_word with_id (o + 12) 4 timestamp h

  bytes_below_hash : (q n : ℕ) → o + 4 ≤ q → read_bytes written q n ≡ read_bytes with_body q n
  unfolding write_message
  bytes_below_hash q n h = read_bytes-write_word_other with_body o 4 _ q n (inr h)

  hash_agrees :
      length body < 2 ^ 32
      → hash_segment_message xxhash written o ≡ hash_segment_message xxhash with_body o
  unfolding hash_segment_message
  hash_agrees h =
      ap (λ bs. u32 (xxhash bs))
        (ap (λ n. read_bytes written (o + 4) (header_size + n - 4))
            (below_hash (o + 16) 4 (omega arith))
          ∙ bytes_below_hash (o + 4) _ (omega arith))

  read_hash_written :
      length body < 2 ^ 32 → read_word written o 4 ≡ hash_segment_message xxhash written o
  unfolding write_message
  read_hash_written h =
      read_word-write_word with_body o 4 (hash_segment_message xxhash with_body o)
        (hash-lt xxhash with_body o)
      ∙ sym (hash_agrees h)

  pub header_at-write_message :
      id < 2 ^ 64
      → timestamp < 2 ^ 32
      → length body < 2 ^ 32
      → header_at written o ≡ record {
        hash = hash_segment_message xxhash written o;
        id = id;
        timestamp = timestamp;
        len = length body;
      }
  unfolding header_at
  header_at-write_message hi ht hb = λ i. record {
    hash = read_hash_written hb i;
    id = read_id_written hi i;
    timestamp = read_timestamp_written ht i;
    len = read_len_written hb i;
  }

  pub body_at-write_message : length body < 2 ^ 32 → body_at written o ≡ body
  unfolding body_at
  body_at-write_message hb =
      ap (read_bytes written (o + header_size)) (read_len_written hb)
      ∙ bytes_below_hash (o + header_size) (length body) (omega arith)
      ∙ read_bytes-write_bytes with_len (o + header_size) body

  -- Nothing below the message changes.
  pub write_message_before : (p : ℕ) → p < o → written p ≡ m p
  unfolding write_message write_word
  write_message_before p h =
      write_bytes_before with_body o (le_bytes 4 (hash_segment_message xxhash with_body o)) p h
      ∙ write_bytes_before with_len (o + header_size) body p (omega arith)
      ∙ write_bytes_before with_timestamp (o + 16) (le_bytes 4 (u32 (length body))) p (omega arith)
      ∙ write_bytes_before with_id (o + 12) (le_bytes 4 timestamp) p (omega arith)
      ∙ write_bytes_before m (o + 4) (le_bytes 8 id) p (omega arith)

  -- Nor does anything above it.
  write_message_after : (p : ℕ) → o + header_size + length body ≤ p → written p ≡ m p
  unfolding write_message write_word
  write_message_after p h =
      write_bytes_after with_body o (le_bytes 4 (hash_segment_message xxhash with_body o)) p
        (omega (arith, length-le_bytes 4 (hash_segment_message xxhash with_body o)))
      ∙ write_bytes_after with_len (o + header_size) body p (omega arith)
      ∙ write_bytes_after with_timestamp (o + 16) (le_bytes 4 (u32 (length body))) p
          (omega (arith, length-le_bytes 4 (u32 (length body))))
      ∙ write_bytes_after with_id (o + 12) (le_bytes 4 timestamp) p
          (omega (arith, length-le_bytes 4 timestamp))
      ∙ write_bytes_after m (o + 4) (le_bytes 8 id) p (omega (arith, length-le_bytes 8 id))

-- Memories that agree on a message show the same header, body and hash.
module _ (m k : Memory) (o : ℕ) (n : ℕ) (len_m : (header_at m o).len ≡ n)
    (agree : (p : ℕ) → p < o + header_size + n → m p ≡ k p) where
  pub header_at_agree : header_at k o ≡ header_at m o
  unfolding header_at
  header_at_agree = λ i. record {
    hash = read_word_agree k m o 4 (λ p a b. sym (agree p (omega arith))) i;
    id = read_word_agree k m (o + 4) 8 (λ p a b. sym (agree p (omega arith))) i;
    timestamp = read_word_agree k m (o + 12) 4 (λ p a b. sym (agree p (omega arith))) i;
    len = read_word_agree k m (o + 16) 4 (λ p a b. sym (agree p (omega arith))) i;
  }

  len_agree : read_word k (o + 16) 4 ≡ n
  unfolding header_at
  len_agree = read_word_agree k m (o + 16) 4 (λ p a b. sym (agree p (omega arith))) ∙ len_m

  pub body_at_agree : body_at k o ≡ body_at m o
  unfolding body_at header_at
  body_at_agree =
      rw (len_agree, len_m)
        (read_bytes_agree k m (o + header_size) n (λ p a b. sym (agree p (omega arith))))

  pub hash_segment_message_agree :
      (xxhash : List ℕ → ℕ) → hash_segment_message xxhash k o ≡ hash_segment_message xxhash m o
  unfolding hash_segment_message header_at
  hash_segment_message_agree xxhash =
      rw (len_agree, len_m)
        (ap (λ bs. u32 (xxhash bs))
          (read_bytes_agree k m (o + 4) (header_size + n - 4)
            (λ p a b. sym (agree p (omega arith)))))
