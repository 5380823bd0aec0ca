-- ===== src/Backend/Append.antt =====
-- `QueueBackend::push` as a whole: it never panics on a valid log, keeps it valid on every branch,
-- and stores what it accepts.
use floki.Prelude.{
  ℕ, ◌+◌, ◌^◌, ◌≤◌, ◌<◌, ◌≡◌, refl, sym, ◌∙◌, ◌⊎◌, inl, inr, List, ◌∷◌, [], ◌++◌, arith, done,
  ==_refl, length, u64, dec_le, subst, ◌↔◌,
}
use floki.Message.{header_size}
use floki.Segment.{
  Segment, FileImage, QueueBackendError, BackendResult, ok, err, message_too_big, create,
}
use floki.Segment.Push.{IsValid, IsPushable, appended, push_fits, push_too_big, appended-IsValid}
use floki.Backend.{QueueBackend, push_new, accept}
use floki.Backend.Upkeep.{last_head}
use floki.Backend.Invariant.{
  Has, Inv, Linked-snoc, last_head-snoc, Has-append_left, Has-append_right, Has-append_cases,
}
use floki.Backend.Push.{
  IsFile, IsStored, created, create_lem, created-IsValid, stored, find_segment_past,
}

module _ (xxhash : List ℕ → ℕ) (body : List ℕ) (timestamp : ℕ)
    (body_fits : length body + header_size + 4 < 2 ^ 32) (clock_fits : timestamp < 2 ^ 32) where
  -- What a push does to the log, by its result.
  pub data Effect (b b' : QueueBackend) (r : BackendResult ℕ) : Type 0 where
    took :
        r ≡ ok b.head
        → Inv xxhash b'
        → b'.head ≡ b.head + 1
        → IsStored xxhash body timestamp body_fits clock_fits b'.segments b.head
        → ((j : ℕ) → Has b'.segments j ↔ (Has b.segments j ⊎ (j ≡ b.head)))
        → Effect b b' r
    gave :
        (e : QueueBackendError)
        → r ≡ err e
        → Inv xxhash b'
        → b'.head ≡ b.head
        → ((j : ℕ) → Has b'.segments j ↔ Has b.segments j)
        → Effect b b' r

  last-le : (d : ℕ) (ss : List Segment) → last_head 0 ss ≤ last_head d ss
  last-le d [] = omega arith
  last-le d (s ∷ ss) = omega arith

  module _ (b : QueueBackend) (v : Inv xxhash b) (small : b.head + 1 < 2 ^ 64) (file : FileImage)
      (f : IsFile xxhash file) where
    abbrev fresh : Segment
    fresh = created xxhash b.head file

    fresh-IsValid : IsValid xxhash fresh
    fresh-IsValid = created-IsValid xxhash b.head file f

    fresh-IsPushable : IsPushable xxhash fresh body timestamp
    fresh-IsPushable = record { body_fits = body_fits; clock_fits = clock_fits; head_fits = small }

    low : last_head 0 b.segments ≤ b.head
    low = omega (arith, last-le b.head b.segments, v.ends)

    -- In an empty file there is no third case: what does not fit is too big.
    new_fits :
        4 + header_size + length body ≤ file.len
        → push_new xxhash b body timestamp (ok file)
          ≡ done (
            record b {
              segments = b.segments ++ appended xxhash fresh body timestamp ∷ [];
              head = b.head + 1;
            },
            ok b.head,
          )
    unfolding push_new accept
    new_fits h =
        let wide : u64 (b.head + 1) ≡ b.head + 1 = omega arith in
        rw (create_lem xxhash b.head file f, push_new)
          (rw (push_fits xxhash fresh fresh-IsValid body timestamp fresh-IsPushable h)
            (rw (==_refl b.head, wide)))

    new_too_big :
        file.len < 4 + header_size + length body
        → push_new xxhash b body timestamp (ok file)
          ≡ done (record b { segments = b.segments ++ fresh ∷ [] }, err message_too_big)
    unfolding push_new
    new_too_big h =
        rw (create_lem xxhash b.head file f, push_new)
          (rw (
            push_too_big xxhash fresh fresh-IsValid body timestamp fresh-IsPushable h
              (omega arith)))

    new-Has :
        (j : ℕ)
        → Has (b.segments ++ appended xxhash fresh body timestamp ∷ []) j
          ↔ (Has b.segments j ⊎ (j ≡ b.head))
    new-Has j = (forth, back)
      where
        forth :
            Has (b.segments ++ appended xxhash fresh body timestamp ∷ []) j
            → Has b.segments j ⊎ (j ≡ b.head)
        forth h = elim (Has-append_cases b.segments _ j h) [
          | inl old ↦ inl old
          | inr (inl (x, y)) ↦ inr (omega arith)
          | inr (inr x) ↦ absurd x
        ]

        back :
            Has b.segments j ⊎ (j ≡ b.head)
            → Has (b.segments ++ appended xxhash fresh body timestamp ∷ []) j
        back (inl old) = Has-append_left b.segments _ j old
        back (inr e) = Has-append_right b.segments _ j (inl (omega arith, omega arith))

    same-Has : (j : ℕ) → Has (b.segments ++ fresh ∷ []) j ↔ Has b.segments j
    same-Has j = (forth, Has-append_left b.segments _ j)
      where
        forth : Has (b.segments ++ fresh ∷ []) j → Has b.segments j
        forth h = elim (Has-append_cases b.segments _ j h) [
          | inl old ↦ old
          | inr (inl (x, y)) ↦ absurd (omega arith)
          | inr (inr x) ↦ absurd x
        ]

    new_took :
        (h : 4 + header_size + length body ≤ file.len)
        → Effect b
            (record b {
              segments = b.segments ++ appended xxhash fresh body timestamp ∷ [];
              head = b.head + 1;
            })
            (ok b.head)
    new_took h =
        let st =
          stored xxhash body timestamp body_fits clock_fits fresh fresh-IsValid fresh-IsPushable
            h in
        took refl
          (record {
            linked =
                Linked-snoc xxhash 0 b.segments _ v.linked low
                  (appended-IsValid xxhash fresh fresh-IsValid body timestamp fresh-IsPushable h);
            ends = last_head-snoc (b.head + 1) b.segments _;
          })
          refl
          (record {
            at = st.at;
            offset = st.offset;
            found = find_segment_past xxhash 0 b.segments _ b.head v.linked low ∙ st.found;
            entry = st.entry;
            id_eq = st.id_eq;
            timestamp_eq = st.timestamp_eq;
            body_eq = st.body_eq;
          })
          new-Has

    push_new_lem :
        (b' : QueueBackend) × (r : BackendResult ℕ) × (push_new xxhash b body timestamp (ok file)
          ≡ done (b', r))
        × Effect b b' r
    push_new_lem = elim (dec_le (4 + header_size + length body) file.len) [
      | yes h ↦ (_, _, new_fits h, new_took h)
      | no h ↦ (
        _,
        _,
        new_too_big (omega arith),
        gave message_too_big refl
            (record {
              linked = Linked-snoc xxhash 0 b.segments _ v.linked low fresh-IsValid;
              ends = last_head-snoc b.head b.segments _;
            })
            refl same-Has,
      )
    ]

  -- What opening a file for a new segment may answer.
  abbrev pub Openable : BackendResult FileImage → Type 0
  Openable (ok file) = IsFile xxhash file
  Openable (err e) = Unit

  pub push_new_any :
      (b : QueueBackend)
      → Inv xxhash b
      → b.head + 1 < 2 ^ 64
      → (opened : BackendResult FileImage) → Openable opened
      → (b' : QueueBackend) × (r : BackendResult ℕ) × (push_new xxhash b body timestamp opened
          ≡ done (b', r))
        × Effect b b' r
  push_new_any b v small (ok file) f = push_new_lem b v small file f
  push_new_any b v small (err e) f =
      (b, err e, (unfold push_new create in refl), gave e refl v refl (λ j. (λ h. h, λ h. h)))

  -- The effect of a push, seen from a log with the same messages and the same head.
  pub Effect-from :
      (b c b' : QueueBackend) (r : BackendResult ℕ)
      → c.head ≡ b.head
      → ((j : ℕ) → Has c.segments j ↔ Has b.segments j)
      → Effect c b' r
      → Effect b b' r
  Effect-from b c b' r same has (took e v grown st h) =
      took (rw (← same) e) v (rw (← same) grown)
        (subst (IsStored xxhash body timestamp body_fits clock_fits b'.segments) same st)
        (λ j. (forth j, back j))
    where
      forth : (j : ℕ) → Has b'.segments j → Has b.segments j ⊎ (j ≡ b.head)
      forth j x = elim ((h j).0 x) [ inl y ↦ inl ((has j).0 y) | inr y ↦ inr (y ∙ same) ]

      back : (j : ℕ) → Has b.segments j ⊎ (j ≡ b.head) → Has b'.segments j
      back j (inl y) = (h j).1 (inl ((has j).1 y))
      back j (inr y) = (h j).1 (inr (y ∙ sym same))
  Effect-from b c b' r same has (gave e re v kept h) =
      gave e re v (kept ∙ same) (λ j. (λ x. (has j).0 ((h j).0 x), λ x. (h j).1 ((has j).1 x)))

  pub accept_lem :
      (b : QueueBackend) (id : ℕ)
      → id ≡ b.head
      → b.head + 1 < 2 ^ 64
      → accept xxhash b id ≡ done (record b { head = b.head + 1 }, ok b.head)
  unfolding accept
  accept_lem b id e small = ground arith
