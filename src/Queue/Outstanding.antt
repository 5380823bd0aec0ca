-- ===== src/Queue/Outstanding.antt =====
-- src/queue.rs: what the upkeep of a queue does to messages that a channel was given and has not
-- acknowledged, and to the channels.
use floki.Prelude.{
  same, ℕ, ◌≤◌, ◌≡◌, refl, sym, ap, subst, ◌∙◌, Bool, false, inl, inr, Option, some, List, [], ◌∷◌,
  map, arith, All, done, Bool-cases,
}
use native.Mathlib.Nat.{le_refl, le_trans}
use floki.Backend
use floki.Backend.Invariant.{Inv}
use floki.Backend.Upkeep.{gc}
use floki.Backend.Retention.{IsLive, gc-get}
use floki.Segment.{Segment}
use floki.Backend.{QueueBackend}
use floki.Collections.{LinkedHashMap}
use floki.Channel.{InFlightState, Channel, real_tail}
use floki.Channel
use floki.Heap
use floki.Heap.{Pending}
use floki.Channel.Tracked.{IsTracked, real_tail-le}
use floki.Queue.{
  InnerQueue, Name, ready, ChannelCheckpoint, lookup, smallest_tail, checkpoint,
  checkpoint_channels, recover, purge,
}

module _ (L : LinkedHashMap InFlightState) where
  smallest_tail-le :
      (name : Name) (c : Channel L) (cs : List (Name × Channel L))
      → lookup name cs ≡ some c
      → smallest_tail L cs ≤ real_tail L c
  unfolding smallest_tail
  smallest_tail-le name c [] e = cc
  smallest_tail-le name c ((k, d) ∷ []) e = elim (Bool-cases (same k name)) [
    | inl here ↦ let it : d ≡ c = ground arith in rw it (le_refl _)
    | inr there ↦ absurd (ground arith)
  ]
  smallest_tail-le name c ((k, d) ∷ n ∷ cs) e = elim (Bool-cases (same k name)) [
    | inl here ↦
        let it : real_tail L d ≡ real_tail L c = ap (real_tail L) (ground arith) in omega arith
    | inr there ↦ let rest = smallest_tail-le name c (n ∷ cs) (rw there at e) in omega arith
  ]

  -- On a valid log of live segments with no hard limit configured, a collection at the least real
  -- tail of the queue's channels leaves every message readable that a channel whose heap covers its
  -- map has in flight: `get` of its id is what it was.
  pub gc-outstanding :
      (xxhash : List ℕ → ℕ) (q : InnerQueue L) (name : Name) (c : Channel L) (t clock : ℕ)
      (s : InFlightState) (b' : QueueBackend) (gone : List Segment)
      → Inv xxhash q.backend
      → All IsLive q.backend.segments
      → q.backend.config.hard_retention_period ≡ 0
      → q.backend.config.hard_retention_size ≡ 0
      → lookup name q.channels ≡ some c
      → IsTracked L c
      → L.get t c.in_flight_map ≡ some s
      → gc q.backend (smallest_tail L q.channels) clock ≡ done (b', gone)
      → Backend.get b' s.id ≡ Backend.get q.backend s.id
  gc-outstanding xxhash q name c t clock s b' gone v live p z e k out h =
      gc-get xxhash q.backend (smallest_tail L q.channels) clock v live b' gone s.id p z
        (le_trans (smallest_tail-le name c q.channels e) (real_tail-le L c t s k out)) h

  lookup-checkpoint :
      (name : Name) (c : Channel L) (cs : List (Name × Channel L))
      → lookup name cs ≡ some c
      → lookup name
          (map (λ e. (e.0, Channel.new L e.1.last_touched e.1.tail)) (checkpoint_channels L cs))
        ≡ some (Channel.new L c.last_touched (real_tail L c))
  unfolding checkpoint_channels
  lookup-checkpoint name c [] e = cc
  lookup-checkpoint name c ((k, d) ∷ cs) e = elim (Bool-cases (same k name)) [
    | inl here ↦
        let it : d ≡ c = ground arith in
        rw here (ap (λ x. some (Channel.new L x.last_touched (real_tail L x))) it)
    | inr there ↦ rw there (lookup-checkpoint name c cs (rw there at e))
  ]

  written :
      (q : InnerQueue L) (full : Bool)
      → q.state ≡ ready
      → (checkpoint L q full).2
        ≡ record { state = ready; channels = checkpoint_channels L q.channels }
  unfolding checkpoint
  written q full on = rw (on, checkpoint) refl

  recovered :
      (q0 : InnerQueue L) (name : Name)
      → q0.channels ≡ []
      → (cs : List (Name × ChannelCheckpoint)) (found : Option (Channel L))
      → lookup name (map (λ e. (e.0, Channel.new L e.1.last_touched e.1.tail)) cs) ≡ found
      → lookup name (recover L q0 (some (record { state = ready; channels = cs }))).channels ≡ found
  unfolding recover
  recovered q0 name fresh cs found e = rw fresh e

  -- A channel of a queue that is ready, found under its name, is after the queue's checkpoint and a
  -- recovery into a queue without channels found under that name, new, with its real tail as the
  -- tail and its time of last access.
  pub recover-checkpoint :
      (q q0 : InnerQueue L) (full : Bool) (name : Name) (c : Channel L)
      → q.state ≡ ready
      → q0.channels ≡ []
      → lookup name q.channels ≡ some c
      → lookup name (recover L q0 (some (checkpoint L q full).2)).channels
        ≡ some (Channel.new L c.last_touched (real_tail L c))
  recover-checkpoint q q0 full name c on fresh e =
      subst
        (λ w.
          lookup name (recover L q0 (some w)).channels
          ≡ some (Channel.new L c.last_touched (real_tail L c)))
        (sym (written q full on))
        (recovered q0 name fresh (checkpoint_channels L q.channels) _
          (lookup-checkpoint name c q.channels e))

  purged :
      (name : Name) (c : Channel L) (p : Pending) (b_tail : ℕ) (cs : List (Name × Channel L))
      → Heap.peek c.in_flight_heap ≡ some p
      → lookup name cs ≡ some c
      → lookup name (
          checkpoint_channels L (
            map
              (λ e. (e.0, record e.1 { tail = b_tail; in_flight_map = L.empty; expired_count = 0 }))
              cs))
        ≡ some (record { tail = p.0; last_touched = c.last_touched })
  unfolding checkpoint_channels real_tail
  purged name c p b_tail [] top e = cc
  purged name c p b_tail ((k, d) ∷ cs) top e = elim (Bool-cases (same k name)) [
    | inl here ↦ let it : d ≡ c = ground arith in rw here (rw it (rw (top, real_tail) refl))
    | inr there ↦ rw there (purged name c p b_tail cs top (rw there at e))
  ]

  -- The checkpoint that `purge` of a ready queue writes has, for a channel with an entry on top of
  -- its heap, the id of that entry as the tail, and not the log's head that the channel was set to.
  pub purge-stale_tail :
      (q : InnerQueue L) (name : Name) (c : Channel L) (p : Pending)
      → q.state ≡ ready
      → lookup name q.channels ≡ some c
      → Heap.peek c.in_flight_heap ≡ some p
      → lookup name (purge L q).2.channels
        ≡ some (record { tail = p.0; last_touched = c.last_touched })
  unfolding purge
  purge-stale_tail q name c p on e top =
      let b = Backend.purge q.backend in
      let emptied =
        map
          (λ (e : Name × Channel L).
            (e.0, record e.1 { tail = b.tail; in_flight_map = L.empty; expired_count = 0 }))
          q.channels in
      let w = written (record q { backend = b; channels = emptied }) false on in
      ap (λ x. lookup name x.channels) w ∙ purged name c p b.tail q.channels top e
