-- ===== src/Queue.antt =====
-- src/queue.rs, `InnerQueue`: a log and the channels that read it. A name is the list of its
-- characters' codes. The locks of src/queue.rs make each operation one step.
pub mod Outstanding
pub mod Access
use floki.Prelude.{
  same, ℕ, zero, suc, ◌+◌, Bool, true, false, ◌&&◌, Option, none, some, List, [], ◌∷◌, ◌++◌, map,
  min, Outcome, done, panic, ◌>>=◌, u32, u64, ltb, leb, ◌==◌, if◌then◌else◌, length,
}
use floki.Config.{QueueConfig}
use floki.Segment
use floki.Segment.{Segment, SegmentCheckpoint, FileImage, BackendResult}
use floki.Backend
use floki.Backend.{QueueBackend, Message, segments_count, disk_usage, find_id_for_timestamp}
use floki.Backend.Upkeep
use floki.Backend.Upkeep.{gc}
use floki.Collections.{LinkedHashMap}
use floki.Channel
use floki.Channel.{
  InFlightState, QueueError, QueueResult, ok, err, channel_already_exists, channel_not_found,
  Channel, real_tail, update_state, in_flight_count,
}

pub data QueueState : Type 0 where
  ready deleting : QueueState

pub record ChannelInfo : Type 0 where
  pub tail : ℕ
  pub last_touched : ℕ
  pub in_flight_count : ℕ

abbrev pub Name : Type 0
Name = List ℕ

pub record QueueInfo : Type 0 where
  pub head : ℕ
  pub tail : ℕ
  pub channels : List (Name × ChannelInfo)
  pub segments_count : ℕ
  pub disk_usage : ℕ

pub record ChannelCheckpoint : Type 0 where
  pub tail : ℕ
  pub last_touched : ℕ

pub record QueueCheckpoint : Type 0 where
  pub state : QueueState
  pub channels : List (Name × ChannelCheckpoint)

-- The `HashMap` of channels, as its entries.
module _ {V : Type 0} where
  abbrev pub lookup : Name → List (Name × V) → Option V
  lookup n [] = none
  lookup n ((k, v) ∷ es) = if same k n then some v else lookup n es

  abbrev pub replace : Name → V → List (Name × V) → List (Name × V)
  replace n w [] = []
  replace n w ((k, v) ∷ es) =
      let rest = replace n w es in if same k n then (k, w) ∷ es else (k, v) ∷ rest

  abbrev pub discard : Name → List (Name × V) → List (Name × V)
  discard n [] = []
  discard n ((k, v) ∷ es) = let rest = discard n es in if same k n then es else (k, v) ∷ rest

module _ (L : LinkedHashMap InFlightState) where
  pub record InnerQueue : Type 0 where
    pub config : QueueConfig
    pub backend : QueueBackend
    pub channels : List (Name × Channel L)
    pub state : QueueState

  -- `Deleting` cannot be reverted.
  unfoldable pub set_state : InnerQueue → QueueState → Outcome InnerQueue
  set_state q new_state = elim q.state [
    | ready ↦ done (record q { state = new_state })
    | deleting ↦ elim new_state [ ready ↦ panic | deleting ↦ done q ]
  ]

  unfoldable pub create_channel : InnerQueue → Name → ℕ → InnerQueue × QueueResult (Unit {0})
  create_channel q name clock = elim (lookup name q.channels) [
    | none ↦ (
      record q { channels = q.channels ++ (name, Channel.new L clock q.backend.head) ∷ [] },
      ok tt,
    )
    | some _ ↦ (q, err channel_already_exists)
  ]

  unfoldable pub delete_channel : InnerQueue → Name → InnerQueue × QueueResult (Unit {0})
  delete_channel q name = elim (lookup name q.channels) [
    | none ↦ (q, err channel_not_found)
    | some _ ↦ (record q { channels = discard name q.channels }, ok tt)
  ]

  abbrev pub put : InnerQueue → Name → Channel L → InnerQueue
  put q name c = record q { channels = replace name c q.channels }

  unfoldable pub purge_channel : InnerQueue → Name → ℕ → InnerQueue × QueueResult (Unit {0})
  purge_channel q name clock = elim (lookup name q.channels) [
    | none ↦ (q, err channel_not_found)
    | some c ↦
        (put q name (record (Channel.purge L c q.backend.head) { last_touched = clock }), ok tt)
  ]

  -- The callback is called on each entry of the result.
  unfoldable pub iter_channels : InnerQueue → ℕ → InnerQueue
  iter_channels q clock = record q {
    channels = map (λ e. (e.0, update_state L e.1 clock)) q.channels;
  }

  -- `ticket` is what `rand::random` gives.
  unfoldable pub get : InnerQueue → Name → ℕ → ℕ → Outcome (InnerQueue × QueueResult (ℕ × Message))
  get q name ticket clock = elim (lookup name q.channels) [
    | none ↦ done (q, err channel_not_found)
    | some c ↦ do
      (c', result) ← Channel.get L c q.backend q.config.message_timeout ticket clock
      done (put q name c', result)
  ]

  unfoldable pub ack : InnerQueue → Name → ℕ → ℕ → InnerQueue × QueueResult (Unit {0})
  ack q name ticket clock = elim (lookup name q.channels) [
    | none ↦ (q, err channel_not_found)
    | some c ↦ let (c', result) = Channel.ack L c ticket clock in (put q name c', result)
  ]

  unfoldable pub seek_channel_to_id :
      InnerQueue → Name → ℕ → ℕ → InnerQueue × QueueResult (Unit {0})
  seek_channel_to_id q name id clock = elim (lookup name q.channels) [
    | none ↦ (q, err channel_not_found)
    | some c ↦ (put q name (Channel.seek L c id clock), ok tt)
  ]

  -- The log stays valid while the search reads it; `none` is the search out of fuel.
  unfoldable pub seek_channel_to_timestamp :
      InnerQueue → Name → ℕ → ℕ → Outcome (Option (InnerQueue × QueueResult (Unit {0})))
  seek_channel_to_timestamp q name timestamp clock = elim (lookup name q.channels) [
    | none ↦ done (some (q, err channel_not_found))
    | some c ↦ do
      found ← find_id_for_timestamp q.backend timestamp
      elim found [
        | none ↦ done none
        | some id ↦ done (some (put q name (Channel.seek L c id clock), ok tt))
      ]
  ]

  -- `From<QueueBackendError>`.
  abbrev pub from_backend : {A : Type 0} → BackendResult A → QueueResult A
  from_backend (Segment.ok a) = ok a
  from_backend (Segment.err e) = err (Channel.backend_failed e)

  module _ (xxhash : List ℕ → ℕ) where
    -- `opened` is the file that `create` opens, if the push comes to that.
    unfoldable pub push :
        InnerQueue → List ℕ → ℕ → BackendResult FileImage → Outcome (InnerQueue × QueueResult ℕ)
    push q message clock opened = do
      (b, result) ← Backend.push xxhash q.backend message clock opened
      done (record q { backend = b }, from_backend result)

    -- Each message comes with the file for it. The first error ends the loop; the last message's id
    -- is the result.
    unfoldable pub push_many :
        InnerQueue
        → List (List ℕ × BackendResult FileImage)
        → ℕ
        → Outcome (InnerQueue × QueueResult ℕ)
    unfolding push
    push_many q [] clock = panic
    push_many q ((message, opened) ∷ []) clock = push q message clock opened
    push_many q ((message, opened) ∷ m ∷ ms) clock = do
      (q', result) ← push q message clock opened
      elim result [ err e ↦ done (q', err e) | ok _ ↦ push_many q' (m ∷ ms) clock ]

  unfoldable pub checkpoint_channels : List (Name × Channel L) → List (Name × ChannelCheckpoint)
  checkpoint_channels cs =
      map (λ e. (e.0, record { tail = real_tail L e.1; last_touched = e.1.last_touched })) cs

  -- What is written: the log's checkpoint, if it is, and the queue's.
  unfoldable pub checkpoint :
      InnerQueue → Bool → InnerQueue × Option (List SegmentCheckpoint) × QueueCheckpoint
  unfolding checkpoint_channels
  checkpoint q full = elim q.state [
    | ready ↦
        let (b, cs) = Upkeep.checkpoint q.backend full in
        (
          record q { backend = b },
          some cs,
          record { state = ready; channels = checkpoint_channels q.channels },
        )
    | deleting ↦ (q, none, record { state = deleting; channels = [] })
  ]

  -- The heap of a channel is not cleared here.
  unfoldable pub purge : InnerQueue → InnerQueue × Option (List SegmentCheckpoint) × QueueCheckpoint
  unfolding checkpoint
  purge q =
      let b = Backend.purge q.backend in
      let emptied =
        map (λ e. (e.0, record e.1 { tail = b.tail; in_flight_map = L.empty; expired_count = 0 }))
          q.channels in
      checkpoint (record q { backend = b; channels = emptied }) false

  unfoldable pub info : InnerQueue → ℕ → InnerQueue × QueueInfo
  info q clock = (
    record q { channels = map (λ e. (e.0, (in_flight_count L e.1 clock).0)) q.channels },
    record {
      head = q.backend.head;
      tail = q.backend.tail;
      channels =
          map
            (λ e. (
              e.0,
              record {
                tail = e.1.tail;
                last_touched = e.1.last_touched;
                in_flight_count = (in_flight_count L e.1 clock).1;
              },
            ))
            q.channels;
      segments_count = u32 (segments_count q.backend);
      disk_usage = disk_usage q.backend;
    },
  )

  -- The segments are those whose files go.
  unfoldable pub delete : InnerQueue → Outcome (InnerQueue × QueueCheckpoint × List Segment)
  unfolding set_state checkpoint
  delete q = do
    q' ← set_state q deleting
    let (q'', _, written) = checkpoint q' false
    (b, gone) ← Backend.delete q''.backend
    done (record q'' { backend = b }, written, gone)

  -- `none`: the checkpoint is missing or cannot be read.
  unfoldable pub recover : InnerQueue → Option QueueCheckpoint → InnerQueue
  recover q none = q
  recover q (some checkpoint) = elim checkpoint.state [
    | ready ↦ record q {
      state = ready;
      channels =
          q.channels
          ++ map (λ e. (e.0, Channel.new L e.1.last_touched e.1.tail)) checkpoint.channels;
    }
    | deleting ↦ record q { state = deleting }
  ]

  unfoldable pub smallest_tail : List (Name × Channel L) → ℕ
  smallest_tail [] = 0
  smallest_tail ((n, c) ∷ []) = real_tail L c
  smallest_tail ((n, c) ∷ d ∷ cs) = min (real_tail L c) (smallest_tail (d ∷ cs))

  -- Also the segments whose files go.
  unfoldable pub maintenance :
      InnerQueue
      → ℕ
      → Outcome (InnerQueue × Option (List SegmentCheckpoint) × QueueCheckpoint × List Segment)
  unfolding smallest_tail checkpoint
  maintenance q clock = do
    (b, gone) ← gc q.backend (smallest_tail q.channels) clock
    let (q', log, written) = checkpoint (record q { backend = b }) false
    done (q', log, written, gone)

  -- `InnerQueue::new` on a backend that was made with the same `recover`: with it, the checkpoint's
  -- content is read; without, a checkpoint is written.
  unfoldable pub new : QueueConfig → QueueBackend → Bool → Option QueueCheckpoint → InnerQueue
  unfolding recover checkpoint
  new config backend wanted found =
      let queue : InnerQueue = record {
        config = config;
        backend = backend;
        channels = [];
        state = ready;
      } in
      if wanted then recover queue found else (checkpoint queue false).0

  -- `Drop`: a queue that is not being deleted is checkpointed.
  unfoldable pub drop :
      InnerQueue → Option (InnerQueue × Option (List SegmentCheckpoint) × QueueCheckpoint)
  unfolding checkpoint
  drop q = elim q.state [ ready ↦ some (checkpoint q true) | deleting ↦ none ]

  -- `Queue::set_config`, under the exclusive lock.
  unfoldable pub set_config : InnerQueue → QueueConfig → InnerQueue
  set_config q config = record q { config = config; backend = Backend.set_config q.backend config }
