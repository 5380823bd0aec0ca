-- ===== src/Segment/Chain.antt =====
-- The messages of a file, as a chain of steps from the first to the last: what a reader that starts
-- behind the magic number has seen. The chain relates the bytes to the fields of a `Segment`.
use floki.Prelude.{
  ℕ, ◌+◌, ◌≤◌, ◌<◌, ◌≡◌, refl, sym, ap, ◌∙◌, inl, inr, List, [], ◌∷◌, ◌++◌, some, arith, length,
  get_elem?, length-append, get_elem?-snoc, subst,
}
use floki.Bytes.{Memory}
use floki.Message.{header_size, header_at, hash_segment_message}
use floki.Message.Written.{header_at_agree, hash_segment_message_agree}
use floki.Segment.{Segment, first_of_timestamps, invalid_timestamp}

pub record Scan : Type 0 where
  pub offset : ℕ
  pub first : ℕ
  pub last : ℕ
  pub head : ℕ
  pub offsets : List ℕ

-- Behind the magic number, with nothing read.
abbrev pub start : ℕ → Scan
start tail = record {
  offset = 4;
  first = invalid_timestamp;
  last = invalid_timestamp;
  head = tail;
  offsets = [];
}

-- The part of a segment that its bytes determine.
abbrev pub scan_of : Segment → Scan
scan_of s = record {
  offset = s.file_offset;
  first = s.first_timestamp;
  last = s.last_timestamp;
  head = s.head;
  offsets = s.index.index;
}

abbrev pub next : Memory → Scan → Scan
next m a = record {
  offset = a.offset + header_size + (header_at m a.offset).len;
  first = first_of_timestamps a.first (header_at m a.offset).timestamp;
  last = (header_at m a.offset).timestamp;
  head = a.head + 1;
  offsets = a.offsets ++ a.offset ∷ [];
}

-- A chain goes up, one id and twenty bytes at least for each message, and stays within its limit.
pub record IsAbove (limit : ℕ) (a b : Scan) : Type 0 where
  pub offset_le : a.offset ≤ b.offset
  pub limit_le : a.offset ≤ limit → b.offset ≤ limit
  pub counted : b.head + length a.offsets ≡ a.head + length b.offsets
  pub sparse : b.head + a.offset ≤ a.head + b.offset
  pub head_le : a.head ≤ b.head

module _ (xxhash : List ℕ → ℕ) where
  -- The message at `o` has this id and an intact hash, and ends at `limit` or before.
  pub record IsMessage (m : Memory) (limit id o : ℕ) : Type 0 where
    pub id_eq : (header_at m o).id ≡ id
    pub fits : o + header_size + (header_at m o).len ≤ limit
    pub hash_eq : (header_at m o).hash ≡ hash_segment_message xxhash m o

  pub data Chain (m : Memory) (limit : ℕ) (a : Scan) : Scan → Type 0 where
    here : Chain m limit a a
    more :
        {b c : Scan}
        → Chain m limit a b
        → IsMessage m limit b.head b.offset
        → c ≡ next m b
        → Chain m limit a c

  pub Chain-IsAbove : {m : Memory} {limit : ℕ} {a b : Scan} → Chain m limit a b → IsAbove limit a b
  Chain-IsAbove here = record {
    offset_le = omega arith;
    limit_le = λ h. h;
    counted = refl;
    sparse = omega arith;
    head_le = omega arith;
  }
  Chain-IsAbove {a} (more {b} c g e) =
      ground (arith, Chain-IsAbove c, g, length-append b.offsets (b.offset ∷ []))

  IsMessage-agree :
      (m k : Memory) (limit limit' end id o : ℕ)
      → ((p : ℕ) → p < end → m p ≡ k p)
      → o + header_size + (header_at m o).len ≤ end
      → end ≤ limit'
      → IsMessage m limit id o
      → IsMessage k limit' id o
  IsMessage-agree m k limit limit' end id o agree h h' g =
      let same = header_at_agree m k o _ refl (λ p b. agree p (omega arith)) in
      record {
        id_eq = ap (λ x. x.id) same ∙ g.id_eq;
        fits = rw same (omega arith);
        hash_eq =
            ap (λ x. x.hash) same
            ∙ g.hash_eq
            ∙ sym (hash_segment_message_agree m k o _ refl (λ p b. agree p (omega arith)) xxhash);
      }

  -- A chain depends on the bytes below its end only.
  pub Chain-agree :
      (m k : Memory) (limit limit' : ℕ) {a b : Scan}
      → ((p : ℕ) → p < b.offset → m p ≡ k p)
      → b.offset ≤ limit'
      → Chain m limit a b
      → Chain k limit' a b
  Chain-agree m k limit limit' agree h here = here
  Chain-agree m k limit limit' {a} agree h (more {b} {c} r g e) =
      let end : c.offset ≡ b.offset + header_size + (header_at m b.offset).len =
        ap (λ x. x.offset) e in
      let same = header_at_agree m k b.offset _ refl (λ p q. agree p (omega arith)) in
      more (Chain-agree m k limit limit' (λ p q. agree p (omega arith)) (omega arith) r)
        (IsMessage-agree m k limit limit' c.offset b.head b.offset agree (omega arith) h g)
        (rw same e)

  -- Every entry of the index leads to the message with its id.
  pub Chain-lookup :
      {m : Memory} {limit tail : ℕ} {b : Scan}
      → Chain m limit (start tail) b
      → (i : ℕ) {o : ℕ} → get_elem? b.offsets i ≡ some o
      → IsMessage m b.offset (tail + i) o
  Chain-lookup here i h = cc
  Chain-lookup {m} {limit} {tail} (more {b} {c} r g e) i {o} h =
      let end : c.offset ≡ b.offset + header_size + (header_at m b.offset).len =
        ap (λ x. x.offset) e in
      let counted = (Chain-IsAbove r).counted in
      elim (get_elem?-snoc b.offsets b.offset i (rw (ap (λ x. x.offsets) e) at h)) [
        | inl old ↦
            let before = Chain-lookup r i old in
            record { id_eq = before.id_eq; fits = omega arith; hash_eq = before.hash_eq }
        | inr (at_end, same) ↦ record {
          id_eq = ap (λ x. (header_at m x).id) (sym same) ∙ g.id_eq ∙ omega arith;
          fits = subst (λ x. x + header_size + (header_at m x).len ≤ c.offset) same (omega arith);
          hash_eq =
              subst (λ x. (header_at m x).hash ≡ hash_segment_message xxhash m x) same g.hash_eq;
        }
      ]
