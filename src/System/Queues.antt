-- ===== src/System/Queues.antt =====
-- src/queue.rs: the operations on a queue that leave the names of its channels.
use floki.Prelude.{
  ℕ, ◌⊎◌, Bool, false, ◌≡◌, refl, ap, ◌∙◌, Option-cases, Outcome-cases, inl, inr, Option, none,
  some, List, [], ◌∷◌, map, Outcome, done, panic,
}
use floki.Segment.{FileImage, BackendResult}
use floki.Backend
use floki.Backend.{find_id_for_timestamp}
use floki.Collections.{LinkedHashMap}
use floki.Channel
use floki.Channel.{Channel, InFlightState, QueueError, QueueResult, ok, err}
use floki.Queue
use floki.Queue.{Name, InnerQueue, lookup, replace, QueueState, ready, deleting}
use floki.Server.Commands.Tables.{QueueResult-cases}
use floki.System.Maps.{names, replace_same, lookup-with_values, replace-with_values}

-- What a change of values does not change.
pub names-map :
    {V W : Type 0} (f : Name × V → W) (es : List (Name × V))
    → names (map (λ e. (e.0, f e)) es) ≡ names es
names-map f [] = refl
names-map f ((n, v) ∷ es) = ap (λ r. (n, tt) ∷ r) (names-map f es)

pub names-replace :
    {V : Type 0} (n : Name) (v w : V) (es : List (Name × V))
    → lookup n es ≡ some v
    → names (replace n w es) ≡ names es
names-replace {V} n v w es e =
    rw (replace-with_values {V = V} (λ _. tt) n w es)
      (replace_same n tt (names es) (rw (lookup-with_values {V = V} (λ _. tt) n es, e) refl))

pub QueueState-cases : (s : QueueState) → (s ≡ ready) ⊎ (s ≡ deleting)
QueueState-cases ready = inl refl
QueueState-cases deleting = inr refl

module _ (L : LinkedHashMap InFlightState) where
  -- Whatever comes with the queue.
  abbrev pub Keeps : {A : Type 0} → InnerQueue L → Outcome (InnerQueue L × A) → Type 0
  Keeps q panic = Unit
  Keeps q (done (q', a)) = names q'.channels ≡ names q.channels

  pub Keeps-trans :
      {A : Type 0} (q q' : InnerQueue L) (o : Outcome (InnerQueue L × A))
      → names q'.channels ≡ names q.channels
      → Keeps q' o
      → Keeps q o
  Keeps-trans q q' panic kept kept' = tt
  Keeps-trans q q' (done (q'', a)) kept kept' = kept' ∙ kept

  pub get-Keeps :
      (q : InnerQueue L) (name : Name) (ticket clock : ℕ)
      → Keeps q (Queue.get L q name ticket clock)
  unfolding Queue.get
  get-Keeps q name ticket clock = elim (Option-cases (lookup name q.channels)) [
    | inl p ↦ rw (p, Queue.get) refl
    | inr (c, p) ↦
        elim (Outcome-cases (Channel.get L c q.backend q.config.message_timeout ticket clock)) [
          | inl p' ↦ rw (p, p', Queue.get) tt
          | inr ((c', r), p') ↦ rw (p, p', Queue.get) (names-replace name c c' q.channels p)
        ]
  ]

  pub ack-names :
      (q : InnerQueue L) (name : Name) (ticket clock : ℕ)
      → names (Queue.ack L q name ticket clock).0.channels ≡ names q.channels
  unfolding Queue.ack
  ack-names q name ticket clock = elim (Option-cases (lookup name q.channels)) [
    | inl p ↦ rw (p, Queue.ack) refl
    | inr (c, p) ↦
        rw (p, Queue.ack) (names-replace name c (Channel.ack L c ticket clock).0 q.channels p)
  ]

  pub purge_channel-names :
      (q : InnerQueue L) (name : Name) (clock : ℕ)
      → names (Queue.purge_channel L q name clock).0.channels ≡ names q.channels
  unfolding Queue.purge_channel
  purge_channel-names q name clock = elim (Option-cases (lookup name q.channels)) [
    | inl p ↦ rw (p, Queue.purge_channel) refl
    | inr (c, p) ↦
        rw (p, Queue.purge_channel)
          (names-replace name c (record (Channel.purge L c q.backend.head) { last_touched = clock })
            q.channels p)
  ]

  pub seek_channel_to_id-names :
      (q : InnerQueue L) (name : Name) (id clock : ℕ)
      → names (Queue.seek_channel_to_id L q name id clock).0.channels ≡ names q.channels
  unfolding Queue.seek_channel_to_id
  seek_channel_to_id-names q name id clock = elim (Option-cases (lookup name q.channels)) [
    | inl p ↦ rw (p, Queue.seek_channel_to_id) refl
    | inr (c, p) ↦
        rw (p, Queue.seek_channel_to_id)
          (names-replace name c (Channel.seek L c id clock) q.channels p)
  ]

  abbrev pub KeepsFound : {A : Type 0} → InnerQueue L → Outcome (Option (InnerQueue L × A)) → Type 0
  KeepsFound q panic = Unit
  KeepsFound q (done none) = Unit
  KeepsFound q (done (some (q', a))) = names q'.channels ≡ names q.channels

  pub seek_channel_to_timestamp-KeepsFound :
      (q : InnerQueue L) (name : Name) (timestamp clock : ℕ)
      → KeepsFound q (Queue.seek_channel_to_timestamp L q name timestamp clock)
  unfolding Queue.seek_channel_to_timestamp
  seek_channel_to_timestamp-KeepsFound q name timestamp clock =
      elim (Option-cases (lookup name q.channels)) [
        | inl p ↦ rw (p, Queue.seek_channel_to_timestamp) refl
        | inr (c, p) ↦ elim (Outcome-cases (find_id_for_timestamp q.backend timestamp)) [
          | inl p' ↦ rw (p, p', Queue.seek_channel_to_timestamp) tt
          | inr (found, p') ↦ elim (Option-cases found) [
            | inl p'' ↦ rw (p, p', p'', Queue.seek_channel_to_timestamp) tt
            | inr (id, p'') ↦
                rw (p, p', p'', Queue.seek_channel_to_timestamp)
                  (names-replace name c (Channel.seek L c id clock) q.channels p)
          ]
        ]
      ]

  pub checkpoint-names :
      (q : InnerQueue L) (full : Bool)
      → names (Queue.checkpoint L q full).0.channels ≡ names q.channels
  unfolding Queue.checkpoint
  checkpoint-names q full = elim (QueueState-cases q.state) [
    | inl p ↦ rw (p, Queue.checkpoint) refl
    | inr p ↦ rw (p, Queue.checkpoint) refl
  ]

  pub purge-names : (q : InnerQueue L) → names (Queue.purge L q).0.channels ≡ names q.channels
  unfolding Queue.purge
  purge-names q =
      let b = Backend.purge q.backend in
      let emptied =
        map (λ e. (e.0, record e.1 { tail = b.tail; in_flight_map = L.empty; expired_count = 0 }))
          q.channels in
      checkpoint-names (record q { backend = b; channels = emptied }) false
      ∙ names-map {V = Channel L} {W = Channel L}
          (λ e. record e.1 { tail = b.tail; in_flight_map = L.empty; expired_count = 0 }) q.channels

  pub info-names :
      (q : InnerQueue L) (clock : ℕ) → names (Queue.info L q clock).0.channels ≡ names q.channels
  unfolding Queue.info
  info-names q clock = names-map (λ e. (Channel.in_flight_count L e.1 clock).0) q.channels

  module _ (xxhash : List ℕ → ℕ) where
    push-Keeps :
        (q : InnerQueue L) (message : List ℕ) (clock : ℕ) (opened : BackendResult FileImage)
        → Keeps q (Queue.push L xxhash q message clock opened)
    unfolding Queue.push
    push-Keeps q message clock opened =
        elim (Outcome-cases (Backend.push xxhash q.backend message clock opened)) [
          | inl p ↦ rw (p, Queue.push) tt
          | inr ((b, r), p) ↦ rw (p, Queue.push) refl
        ]

    pub push_many-Keeps :
        (q : InnerQueue L) (ms : List (List ℕ × BackendResult FileImage)) (clock : ℕ)
        → Keeps q (Queue.push_many L xxhash q ms clock)
    unfolding Queue.push_many
    push_many-Keeps q [] clock = tt
    push_many-Keeps q ((m, opened) ∷ []) clock = push-Keeps q m clock opened
    push_many-Keeps q ((m, opened) ∷ m' ∷ ms) clock =
        elim (Outcome-cases (Queue.push L xxhash q m clock opened)) [
          | inl p ↦ rw (p, Queue.push_many) tt
          | inr ((q', r), p) ↦
              let kept : names q'.channels ≡ names q.channels =
                rw p at (push-Keeps q m clock opened) in
              elim (QueueResult-cases r) [
                | inl (e, p') ↦ rw (p, p', Queue.push_many) kept
                | inr (id, p') ↦
                    rw (p, p', Queue.push_many)
                      (Keeps-trans q q' _ kept (push_many-Keeps q' (m' ∷ ms) clock))
              ]
        ]
