-- ===== src/Backend/Push.antt =====
-- `QueueBackend::push`: every branch keeps the invariant, and a message that is accepted is stored.
use floki.Prelude.{
  ℕ, ◌+◌, ◌^◌, ◌≤◌, ◌<◌, ◌≡◌, refl, ◌∙◌, ◌⊎◌, inl, inr, List, ◌∷◌, [], ◌++◌, some, arith, done,
  true, false, leb, length, dec_le, dec_lt, max, ◌↔◌,
}
use floki.Bytes.{write_word, read_word-write_word}
use floki.Message.{header_size, header_at, body_at}
use floki.OffsetIndex
use floki.Segment
use floki.Segment.{
  Segment, FileImage, BackendResult, ok, err, message_too_big, segment_full, segment_file_invalid,
  create, magic_num, new,
}
use floki.Segment.Chain.{here}
use floki.Segment.Push.{
  IsValid, IsPushable, appended, push_fits, push_full, push_too_big, appended-IsValid,
  closed-IsValid,
}
use floki.Segment.Stored.{pushed_stored}
use floki.Backend.{find_segment, push_last}
use floki.Backend.Upkeep.{last_head}
use floki.Backend.Invariant.{Has, Linked, tail-le-head, le-last_head}

-- The length of the last segment's file.
abbrev pub last_len : ℕ → List Segment → ℕ
last_len n [] = n
last_len n (s ∷ ss) = last_len s.file_len ss

last_len_default :
    (n k : ℕ) (s : Segment) (ss : List Segment) → last_len n (s ∷ ss) ≡ last_len k (s ∷ ss)
last_len_default n k s ss = refl

module _ (xxhash : List ℕ → ℕ) where
  -- A file that is opened for a new segment, of a length that `Segment::new` takes.
  pub record IsFile (file : FileImage) : Type 0 where
    pub long : 4 < file.len
    pub short : file.len < 2 ^ 31

  -- The empty segment that `Segment::create` makes.
  abbrev pub created : ℕ → FileImage → Segment
  created start_id file = record {
    file_path = start_id;
    file_mmap = write_word file.bytes 0 4 magic_num;
    file_len = file.len;
    file_offset = 4;
    sync_offset = 0;
    first_timestamp = 0;
    last_timestamp = 0;
    tail = start_id;
    head = start_id;
    closed = false;
    deleted = false;
    index = record { id_offset = start_id; index = [] };
  }

  new_lem :
      (start_id : ℕ) (file : FileImage)
      → IsFile file
      → new start_id file
        ≡ ok (record (created start_id file) { file_mmap = file.bytes; file_offset = 0 })
  unfolding new OffsetIndex.new
  new_lem start_id file h =
      let a : leb file.len 4 ≡ false = ground (arith, h) in
      let b : leb (2 ^ 31) file.len ≡ false = ground (arith, h) in rw (a, b)

  pub create_lem :
      (start_id : ℕ) (file : FileImage)
      → IsFile file
      → create start_id (ok file) ≡ ok (created start_id file)
  unfolding create
  create_lem start_id file h = rw (new_lem start_id file h, create)

  pub created-IsValid :
      (start_id : ℕ) (file : FileImage) → IsFile file → IsValid xxhash (created start_id file)
  created-IsValid start_id file h = record {
    chain = here;
    based = refl;
    long = h.long;
    short = h.short;
    magic = read_word-write_word file.bytes 0 4 magic_num (omega arith);
  }

  -- An id that is not below the heads of `ss` is looked up behind them.
  pub find_segment_past :
      (lo : ℕ) (ss ts : List Segment) (id : ℕ)
      → Linked xxhash lo ss
      → last_head lo ss ≤ id
      → find_segment (ss ++ ts) id ≡ find_segment ts id
  unfolding find_segment
  find_segment_past lo [] ts id l h = refl
  find_segment_past lo (s ∷ ss) ts id l h =
      ground (arith, find_segment_past s.head ss ts id l.2 h, le-last_head xxhash s.head ss l.2)

  module _ (body : List ℕ) (timestamp : ℕ) (body_fits : length body + header_size + 4 < 2 ^ 32)
      (clock_fits : timestamp < 2 ^ 32) where
    -- The message with this id, timestamp and body lies in the last segment, where `get` finds it.
    pub record IsStored (ss : List Segment) (id : ℕ) : Type 0 where
      pub at : Segment
      pub offset : ℕ
      pub found : find_segment ss id ≡ some at
      pub entry : Segment.get at (max id at.tail) ≡ done (some offset)
      pub id_eq : (header_at at.file_mmap offset).id ≡ id
      pub timestamp_eq : (header_at at.file_mmap offset).timestamp ≡ timestamp
      pub body_eq : body_at at.file_mmap offset ≡ body

    -- What `push_last` makes of a list of segments, by its result.
    pub data Grown (lo : ℕ) (ss ss' : List Segment) : BackendResult ℕ → Type 0 where
      accepted :
          {r : BackendResult ℕ}
          → r ≡ ok (last_head lo ss)
          → Linked xxhash lo ss'
          → last_head lo ss' ≡ last_head lo ss + 1
          → IsStored ss' (last_head lo ss)
          → ((j : ℕ) → Has ss' j ↔ (Has ss j ⊎ (j ≡ last_head lo ss)))
          → Grown lo ss ss' r
      refused :
          {r : BackendResult ℕ}
          → (r ≡ err segment_full)
            ⊎ ((r ≡ err message_too_big) × (last_len 0 ss ≤ header_size + length body + 4))
          → Linked xxhash lo ss'
          → last_head lo ss' ≡ last_head lo ss
          → ((j : ℕ) → Has ss' j ↔ Has ss j)
          → Grown lo ss ss' r

    extended :
        (s : Segment)
        → IsValid xxhash s
        → (j : ℕ) → Has (appended xxhash s body timestamp ∷ []) j ↔ (Has (s ∷ []) j ⊎ (j ≡ s.head))
    extended s v j = (forth, back)
      where
        forth : Has (appended xxhash s body timestamp ∷ []) j → Has (s ∷ []) j ⊎ (j ≡ s.head)
        forth (inl (h, k)) = elim (dec_lt j s.head) [
          | yes q ↦ inl (inl (h, q))
          | no q ↦ inr (omega arith)
        ]
        forth (inr h) = absurd h

        back : Has (s ∷ []) j ⊎ (j ≡ s.head) → Has (appended xxhash s body timestamp ∷ []) j
        back (inl (inl (h, k))) = inl (h, omega arith)
        back (inl (inr h)) = absurd h
        back (inr e) = inl (omega (arith, tail-le-head xxhash s v), omega arith)

    pub stored :
        (s : Segment) (v : IsValid xxhash s) (p : IsPushable xxhash s body timestamp)
        → s.file_offset + header_size + length body ≤ s.file_len
        → IsStored (appended xxhash s body timestamp ∷ []) s.head
    unfolding find_segment
    stored s v p fits =
        let (found, id, clock, content) = pushed_stored xxhash s v body timestamp p fits in
        let low = tail-le-head xxhash s v in
        let greatest : max s.head s.tail ≡ s.head = omega arith in
        record {
          at = appended xxhash s body timestamp;
          offset = s.file_offset;
          found = ground arith;
          entry = rw greatest found;
          id_eq = id;
          timestamp_eq = clock;
          body_eq = content;
        }

    push_one :
        (lo : ℕ) (s : Segment)
        → Linked xxhash lo (s ∷ [])
        → s.head + 1 < 2 ^ 64
        → (ss' : List Segment) × (r : BackendResult ℕ) × (push_last xxhash (s ∷ []) body timestamp
            ≡ done (ss', r))
          × Grown lo (s ∷ []) ss' r
    unfolding push_last
    push_one lo s l small =
        let p : IsPushable xxhash s body timestamp = record {
          body_fits = body_fits;
          clock_fits = clock_fits;
          head_fits = small;
        } in
        elim (dec_le (s.file_offset + header_size + length body) s.file_len) [
          | yes fits ↦ (
            appended xxhash s body timestamp ∷ [],
            ok s.head,
            rw (push_fits xxhash s l.1 body timestamp p fits, push_last),
            accepted refl (l.0, appended-IsValid xxhash s l.1 body timestamp p fits, tt) refl
                (stored s l.1 p fits) (extended s l.1),
          )
          | no over ↦ elim (dec_le s.file_len (header_size + length body + 4)) [
            | yes big ↦ (
              s ∷ [],
              err message_too_big,
              rw (push_too_big xxhash s l.1 body timestamp p (omega arith) big, push_last),
              refused (inr (refl, big)) l refl (λ j. (λ h. h, λ h. h)),
            )
            | no small_enough ↦ (
              record s { closed = true } ∷ [],
              err segment_full,
              rw (push_full xxhash s l.1 body timestamp p (omega arith) (omega arith), push_last),
              refused (inl refl) (l.0, closed-IsValid xxhash s true l.1, tt) refl
                  (λ j. (λ h. h, λ h. h)),
            )
          ]
        ]

    passes :
        (s : Segment) (ss : List Segment) (id : ℕ)
        → s.head ≤ id
        → find_segment (s ∷ ss) id ≡ find_segment ss id
    unfolding find_segment
    passes s ss id h = ground arith

    regroup : {A B C E : Type 0} → (B ↔ (C ⊎ E)) → (A ⊎ B) ↔ ((A ⊎ C) ⊎ E)
    regroup {A} {B} {C} {E} e = (forth, back)
      where
        forth : A ⊎ B → (A ⊎ C) ⊎ E
        forth (inl a) = inl (inl a)
        forth (inr b) = elim (e.0 b) [ inl c ↦ inl (inr c) | inr x ↦ inr x ]

        back : (A ⊎ C) ⊎ E → A ⊎ B
        back (inl (inl a)) = inl a
        back (inl (inr c)) = inr (e.1 (inl c))
        back (inr x) = inr (e.1 (inr x))

    under : {A B C : Type 0} → (B ↔ C) → (A ⊎ B) ↔ (A ⊎ C)
    under e = (
      λ h. elim h [ inl a ↦ inl a | inr b ↦ inr (e.0 b) ],
      λ h. elim h [ inl a ↦ inl a | inr c ↦ inr (e.1 c) ],
    )

    Grown-cons :
        (lo : ℕ) (s t : Segment) (ss rest : List Segment) (r : BackendResult ℕ)
        → Linked xxhash lo (s ∷ t ∷ ss)
        → Grown s.head (t ∷ ss) rest r
        → Grown lo (s ∷ t ∷ ss) (s ∷ rest) r
    Grown-cons lo s t ss rest r l (accepted e linked ends st has) =
        accepted e (l.0, l.1, linked) ends
          (record {
            at = st.at;
            offset = st.offset;
            found = passes s rest _ (le-last_head xxhash s.head (t ∷ ss) l.2) ∙ st.found;
            entry = st.entry;
            id_eq = st.id_eq;
            timestamp_eq = st.timestamp_eq;
            body_eq = st.body_eq;
          })
          (λ j. regroup (has j))
    Grown-cons lo s t ss rest r l (refused e linked ends has) =
        refused e (l.0, l.1, linked) ends (λ j. under (has j))

    -- Each list of segments but the empty one.
    pub push_last_grows :
        (lo : ℕ) (s : Segment) (ss : List Segment)
        → Linked xxhash lo (s ∷ ss)
        → last_head lo (s ∷ ss) + 1 < 2 ^ 64
        → (ss' : List Segment) × (r : BackendResult ℕ) × (push_last xxhash (s ∷ ss) body timestamp
            ≡ done (ss', r))
          × Grown lo (s ∷ ss) ss' r
    unfolding push_last
    push_last_grows lo s [] l small = push_one lo s l small
    push_last_grows lo s (t ∷ ss) l small =
        let (rest, r, e, g) = push_last_grows s.head t ss l.2 small in
        (s ∷ rest, r, rw (e, push_last), Grown-cons lo s t ss rest r l g)
