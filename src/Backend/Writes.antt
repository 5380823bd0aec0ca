-- ===== src/Backend/Writes.antt =====
-- `QueueBackend::push` of src/queue_backend.rs on a valid log.
use floki.Prelude.{
  ℕ, ◌+◌, ◌^◌, ◌<◌, ◌≡◌, refl, sym, ap, ◌∙◌, ◌⊎◌, inl, inr, List, ◌∷◌, [], some, done, length,
  subst, ◌↔◌,
}
use floki.Message.{header_size, body_at}
use floki.Segment.{Segment, FileImage, QueueBackendError, BackendResult, ok, err, message_too_big}
use floki.Backend.{
  QueueBackend, Message, message_id, message_timestamp, push_last, push_new, push, get,
}
use floki.Backend.Upkeep.{last_head}
use floki.Backend.Invariant.{Has, Linked, Inv}
use floki.Backend.Push.{IsStored, Grown, accepted, refused, push_last_grows}
use floki.Backend.Append.{Effect, took, gave, Openable, push_new_any, Effect-from, accept_lem}

-- What a push relies on, so that no `u32` or `u64` wraps.
pub record IsWritable (b : QueueBackend) (body : List ℕ) (timestamp : ℕ) : Type 0 where
  pub body_fits : length body + header_size + 4 < 2 ^ 32
  pub clock_fits : timestamp < 2 ^ 32
  pub head_fits : b.head + 1 < 2 ^ 64

ends_at : (h : ℕ) (ss : List Segment) → last_head 0 ss ≡ h → last_head h ss ≡ h
ends_at h [] e = refl
ends_at h (s ∷ ss) e = e

module _ (xxhash : List ℕ → ℕ) (body : List ℕ) (timestamp : ℕ) where
  abbrev pub EffectOf :
      (b : QueueBackend) → IsWritable b body timestamp → QueueBackend → BackendResult ℕ → Type 0
  EffectOf b w b' r = Effect xxhash body timestamp w.body_fits w.clock_fits b b' r

  after_last :
      (b : QueueBackend) (v : Inv xxhash b) (w : IsWritable b body timestamp)
      (opened : BackendResult FileImage)
      → Openable xxhash body timestamp w.body_fits w.clock_fits opened
      → (s : Segment) (ss ss' : List Segment) (r : BackendResult ℕ) → b.segments ≡ s ∷ ss
      → push_last xxhash b.segments body timestamp ≡ done (ss', r)
      → Grown xxhash body timestamp w.body_fits w.clock_fits 0 (s ∷ ss) ss' r
      → (b' : QueueBackend) × (q : BackendResult ℕ) × (push xxhash b body timestamp opened
          ≡ done (b', q))
        × EffectOf b w b' q
  unfolding push
  after_last b v w opened o s ss ss' r same e (accepted re linked ends st has) =
      let last : last_head 0 (s ∷ ss) ≡ b.head = ap (last_head b.head) (sym same) ∙ v.ends in
      (
        record b { segments = ss'; head = b.head + 1 },
        ok b.head,
        rw (e, re, push)
            (accept_lem xxhash body timestamp w.body_fits w.clock_fits (record b { segments = ss' })
              _ last w.head_fits),
        took refl
            (record {
              linked = linked;
              ends = ends_at (b.head + 1) ss' (ends ∙ ap (λ x. x + 1) last);
            })
            refl (subst (IsStored xxhash body timestamp w.body_fits w.clock_fits ss') last st)
            (λ j.
              subst (λ h. Has ss' j ↔ (Has b.segments j ⊎ (j ≡ h))) last
                (subst (λ l. Has ss' j ↔ (Has l j ⊎ (j ≡ last_head 0 (s ∷ ss)))) (sym same)
                  (has j))),
      )
  after_last b v w opened o s ss ss' r same e (refused (inl re) linked ends has) =
      let last : last_head 0 (s ∷ ss) ≡ b.head = ap (last_head b.head) (sym same) ∙ v.ends in
      let c : QueueBackend = record b { segments = ss' } in
      let u : Inv xxhash c = record { linked = linked; ends = ends_at b.head ss' (ends ∙ last) } in
      let (b', q, eq, effect) =
        push_new_any xxhash body timestamp w.body_fits w.clock_fits c u w.head_fits opened o in
      (
        b',
        q,
        rw (e, re, push) eq,
        Effect-from xxhash body timestamp w.body_fits w.clock_fits b c b' q refl
            (λ j. subst (λ l. Has ss' j ↔ Has l j) (sym same) (has j)) effect,
      )
  after_last b v w opened o s ss ss' r same e (refused (inr (re, big)) linked ends has) =
      let last : last_head 0 (s ∷ ss) ≡ b.head = ap (last_head b.head) (sym same) ∙ v.ends in
      (
        record b { segments = ss' },
        err message_too_big,
        rw (e, re, push),
        gave message_too_big refl
            (record { linked = linked; ends = ends_at b.head ss' (ends ∙ last) }) refl
            (λ j. subst (λ l. Has ss' j ↔ Has l j) (sym same) (has j)),
      )

  push_effect :
      (b : QueueBackend) (w : IsWritable b body timestamp) (opened : BackendResult FileImage)
      → Inv xxhash b
      → Openable xxhash body timestamp w.body_fits w.clock_fits opened
      → (ss : List Segment) → b.segments ≡ ss
      → (b' : QueueBackend) × (q : BackendResult ℕ) × (push xxhash b body timestamp opened
          ≡ done (b', q))
        × EffectOf b w b' q
  unfolding push push_last
  push_effect b w opened v o [] same =
      let (b', q, eq, effect) =
        push_new_any xxhash body timestamp w.body_fits w.clock_fits b v w.head_fits opened o in
      (
        b',
        q,
        rw (same, push_last, push)
            (subst
              (λ l.
                push_new xxhash (record b { segments = l }) body timestamp opened ≡ done (b', q))
              same eq),
        effect,
      )
  push_effect b w opened v o (s ∷ ss) same =
      let linked = subst (Linked xxhash 0) same v.linked in
      let last : last_head 0 (s ∷ ss) ≡ b.head = ap (last_head b.head) (sym same) ∙ v.ends in
      let (ss', r, e, g) =
        push_last_grows xxhash body timestamp w.body_fits w.clock_fits 0 s ss linked
          (rw last w.head_fits) in
      after_last b v w opened o s ss ss' r same
        (ap (λ l. push_last xxhash l body timestamp) same ∙ e) g

  module _ (b : QueueBackend) (w : IsWritable b body timestamp) (opened : BackendResult FileImage)
      (v : Inv xxhash b) (o : Openable xxhash body timestamp w.body_fits w.clock_fits opened) where
    -- On a valid log, with a body of fewer than 2 ^ 32 - 24 bytes, a timestamp that fits 32 bits,
    -- an id that with one more fits 64 and, if a file is opened for a new segment, one of an
    -- allowed length, a push does not panic (its two `assert_eq!`s hold) and leaves a valid log. It
    -- gives the head as the new id and moves the head by one, or gives an error and leaves the
    -- head.
    pub push-Inv :
        (b' : QueueBackend) × (r : BackendResult ℕ) × (push xxhash b body timestamp opened
          ≡ done (b', r))
        × Inv xxhash b'
        × (((r ≡ ok b.head) × (b'.head ≡ b.head + 1))
            ⊎ ((e : QueueBackendError) × (r ≡ err e) × (b'.head ≡ b.head)))
    push-Inv =
        let (b', r, eq, effect) = push_effect b w opened v o b.segments refl in
        (b', r, eq, valid b' r effect, result b' r effect)
      where
        valid : (b' : QueueBackend) (r : BackendResult ℕ) → EffectOf b w b' r → Inv xxhash b'
        valid b' r (took e u grown st has) = u
        valid b' r (gave e re u kept has) = u

        result :
            (b' : QueueBackend) (r : BackendResult ℕ)
            → EffectOf b w b' r
            → ((r ≡ ok b.head) × (b'.head ≡ b.head + 1))
              ⊎ ((e : QueueBackendError) × (r ≡ err e) × (b'.head ≡ b.head))
        result b' r (took e u grown st has) = inl (e, grown)
        result b' r (gave e re u kept has) = inr (e, re, kept)

    effect_of :
        (b' : QueueBackend) (r : BackendResult ℕ)
        → push xxhash b body timestamp opened ≡ done (b', r)
        → EffectOf b w b' r
    effect_of b' r h =
        let (c, q, eq, effect) = push_effect b w opened v o b.segments refl in
        let same_c : c ≡ b' = cc in
        let same_q : q ≡ r = cc in
        subst (λ x. EffectOf b w x r) same_c (subst (λ x. EffectOf b w c x) same_q effect)

    -- Under the conditions of `push-Inv`, the log after a push has the ids that it had before and,
    -- if the push was accepted, the one that was returned, and no others.
    pub Has-push :
        (b' : QueueBackend) (r : BackendResult ℕ) (j : ℕ)
        → push xxhash b body timestamp opened ≡ done (b', r)
        → Has b'.segments j ↔ (Has b.segments j ⊎ (r ≡ ok j))
    Has-push b' r j h = go (effect_of b' r h)
      where
        go : EffectOf b w b' r → Has b'.segments j ↔ (Has b.segments j ⊎ (r ≡ ok j))
        go (took e u grown st has) = (
          λ x. elim ((has j).0 x) [ inl y ↦ inl y | inr y ↦ inr (e ∙ ap ok (sym y)) ],
          λ x. elim x [ inl y ↦ (has j).1 (inl y) | inr y ↦ (has j).1 (inr cc) ],
        )
        go (gave e re u kept has) =
            (λ x. inl ((has j).0 x), λ x. elim x [ inl y ↦ (has j).1 y | inr y ↦ cc ])

    -- Under the conditions of `push-Inv`, a message that a push accepted can be got from the log
    -- under the id that was returned: with that id, its timestamp and its body.
    pub push-get :
        (b' : QueueBackend) (id : ℕ)
        → push xxhash b body timestamp opened ≡ done (b', ok id)
        → (m : Message) × (get b' id ≡ done (some m))
          × (message_id m ≡ id)
          × (message_timestamp m ≡ timestamp)
          × (body_at m.segment.file_mmap m.offset ≡ body)
    unfolding get
    push-get b' id h = go (effect_of b' (ok id) h)
      where
        go :
            EffectOf b w b' (ok id)
            → (m : Message) × (get b' id ≡ done (some m))
              × (message_id m ≡ id)
              × (message_timestamp m ≡ timestamp)
              × (body_at m.segment.file_mmap m.offset ≡ body)
        go (took e u grown st has) =
            let same : b.head ≡ id = cc in
            (
              record { segment = st.at; offset = st.offset },
              subst (λ x. get b' x ≡ done (some (record { segment = st.at; offset = st.offset })))
                  same (rw (st.found, get) (rw st.entry)),
              st.id_eq ∙ same,
              st.timestamp_eq,
              st.body_eq,
            )
        go (gave e re u kept has) = cc
