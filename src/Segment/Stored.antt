-- ===== src/Segment/Stored.antt =====
-- `Segment::get` on a valid segment, and `get` after `push`.
use floki.Prelude.{
  ℕ, ◌+◌, ◌-◌, ◌≤◌, ◌<◌, ◌≡◌, refl, sym, ap, ◌∙◌, ◌⊎◌, inl, inr, List, none, some, arith, done,
  length, get_elem?, subst, get_elem?-some, get_elem?-none, get_elem?-append_left,
  get_elem?-append_length, dec_le,
}
use floki.Message.{header_size, header_at, body_at}
use floki.Message.Written.{
  header_at-write_message, body_at-write_message, write_message_before, header_at_agree,
  body_at_agree,
}
use floki.OffsetIndex.{get_offset}
use floki.Segment.{Segment, ok, push, get}
use floki.Segment.Chain.{IsMessage, Chain-lookup}
use floki.Segment.Push.{
  IsValid, IsPushable, appended, counted, offset-le, push_fits, appended-IsValid,
}

module _ (xxhash : List ℕ → ℕ) (s : Segment) (v : IsValid xxhash s) where
  -- The three `assert!`s of `get` hold at every entry of the index.
  get_entry : (i o : ℕ) → get_elem? s.index.index i ≡ some o → get s (s.tail + i) ≡ done (some o)
  unfolding get get_offset
  get_entry i o h =
      let found = Chain-lookup xxhash v.chain i h in
      let based = v.based in
      let short = v.short in
      let offset_le = offset-le xxhash s v in
      let at : s.tail + i - s.index.id_offset ≡ i = omega arith in
      let entry : get_elem? s.index.index (s.tail + i - s.index.id_offset) ≡ some o = rw at h in
      ground (arith, found, entry)

  -- In a valid segment, `get` of an id from the tail to below the head passes its three asserts and
  -- gives the offset of a message with that id, an intact hash and its end within the segment.
  pub get_stored :
      (id : ℕ)
      → s.tail ≤ id
      → id < s.head
      → (o : ℕ) × (get s id ≡ done (some o)) × IsMessage xxhash s.file_mmap s.file_offset id o
  get_stored id h k =
      let at : s.tail + (id - s.tail) ≡ id = omega arith in
      let (o, e) = get_elem?-some s.index.index (id - s.tail) (omega (arith, counted xxhash s v)) in
      (
        o,
        subst (λ x. get s x ≡ done (some o)) at (get_entry (id - s.tail) o e),
        subst (λ x. IsMessage xxhash s.file_mmap s.file_offset x o) at
            (Chain-lookup xxhash v.chain (id - s.tail) e),
      )

  get_absent : (id : ℕ) → (id < s.tail) ⊎ (s.head ≤ id) → get s id ≡ done none
  unfolding get get_offset
  get_absent id (inl h) = let based = v.based in ground arith
  get_absent id (inr h) =
      let based = v.based in
      let past : get_elem? s.index.index (id - s.index.id_offset) ≡ none =
        get_elem?-none s.index.index _ (omega (arith, counted xxhash s v)) in
      ground arith

module _ (xxhash : List ℕ → ℕ) (s : Segment) (v : IsValid xxhash s) (body : List ℕ) (clock : ℕ)
    (p : IsPushable xxhash s body clock)
    (fits : s.file_offset + header_size + length body ≤ s.file_len) where
  -- The segment after the push.
  abbrev pushed : Segment
  pushed = appended xxhash s body clock

  pushed-IsValid : IsValid xxhash pushed
  pushed-IsValid = appended-IsValid xxhash s v body clock p fits

  entry_of : (id : ℕ) → s.tail ≤ id → s.tail + (id - s.tail) ≡ id
  entry_of id h = omega arith

  get_pushed_old : (id : ℕ) → id < s.head → get pushed id ≡ get s id
  get_pushed_old id h = elim (dec_le s.tail id) [
    | no below ↦
        get_absent xxhash pushed pushed-IsValid id (inl (omega arith))
        ∙ sym (get_absent xxhash s v id (inl (omega arith)))
    | yes k ↦
        let (o, e) =
          get_elem?-some s.index.index (id - s.tail) (omega (arith, counted xxhash s v)) in
        let at = entry_of id k in
        subst (λ x. get pushed x ≡ get s x) at
          (get_entry xxhash pushed pushed-IsValid (id - s.tail) o (
              get_elem?-append_left s.index.index _ (id - s.tail)
                (omega (arith, counted xxhash s v))
              ∙ e)
            ∙ sym (get_entry xxhash s v (id - s.tail) o e))
  ]

  get_pushed_new : get pushed s.head ≡ done (some s.file_offset)
  get_pushed_new =
      let at : s.tail + length s.index.index ≡ s.head = omega (arith, counted xxhash s v) in
      subst (λ x. get pushed x ≡ done (some s.file_offset)) at
        (get_entry xxhash pushed pushed-IsValid (length s.index.index) s.file_offset
          (get_elem?-append_length s.index.index s.file_offset))

  kept :
      (o id : ℕ)
      → IsMessage xxhash s.file_mmap s.file_offset id o
      → (header_at pushed.file_mmap o ≡ header_at s.file_mmap o)
        × (body_at pushed.file_mmap o ≡ body_at s.file_mmap o)
  kept o id g =
      let agree : (q : ℕ)
          → q < o + header_size + (header_at s.file_mmap o).len
          → s.file_mmap q ≡ pushed.file_mmap q =
        λ q k. sym (
          write_message_before xxhash s.file_mmap s.file_offset s.head clock body q
            (omega (arith, g.fits))) in
      (
        header_at_agree s.file_mmap pushed.file_mmap o _ refl agree,
        body_at_agree s.file_mmap pushed.file_mmap o _ refl agree,
      )

  pub pushed_stored :
      (get pushed s.head ≡ done (some s.file_offset))
      × ((header_at pushed.file_mmap s.file_offset).id ≡ s.head)
      × ((header_at pushed.file_mmap s.file_offset).timestamp ≡ clock)
      × (body_at pushed.file_mmap s.file_offset ≡ body)
  pushed_stored =
      let header =
        header_at-write_message xxhash s.file_mmap s.file_offset s.head clock body
          (omega (arith, p)) p.clock_fits (omega (arith, p)) in
      (
        get_pushed_new,
        ap (λ x. x.id) header,
        ap (λ x. x.timestamp) header,
        body_at-write_message xxhash s.file_mmap s.file_offset s.head clock body (omega (arith, p)),
      )

  -- A push of a message that fits the file of a valid segment, with a body and a clock that fit 32
  -- bits and an id that fits 64, returns the head, and the offset that `get` then gives for that id
  -- shows the id, the timestamp and the body.
  push-get_entry :
      (t : Segment) × (push xxhash s body clock ≡ done (t, ok s.head))
      × (get t s.head ≡ done (some s.file_offset))
      × ((header_at t.file_mmap s.file_offset).id ≡ s.head)
      × ((header_at t.file_mmap s.file_offset).timestamp ≡ clock)
      × (body_at t.file_mmap s.file_offset ≡ body)
  push-get_entry =
      let (found, id, timestamp, content) = pushed_stored in
      (pushed, push_fits xxhash s v body clock p fits, found, id, timestamp, content)

  -- Under the conditions of `push-get_entry`, an id that the segment had before the push is still
  -- found at its offset, with the same header and the same body there.
  push-get_old :
      (id o : ℕ)
      → s.tail ≤ id
      → id < s.head
      → get s id ≡ done (some o)
      → (t : Segment) × (push xxhash s body clock ≡ done (t, ok s.head))
        × (get t id ≡ done (some o))
        × (header_at t.file_mmap o ≡ header_at s.file_mmap o)
        × (body_at t.file_mmap o ≡ body_at s.file_mmap o)
  push-get_old id o h k e =
      let (o', e', g) = get_stored xxhash s v id h k in
      let same : o' ≡ o = cc in
      let (hd, bd) =
        kept o id (subst (λ x. IsMessage xxhash s.file_mmap s.file_offset id x) same g) in
      (pushed, push_fits xxhash s v body clock p fits, get_pushed_old id k ∙ e, hd, bd)
