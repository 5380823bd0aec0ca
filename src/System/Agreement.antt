-- ===== src/System/Agreement.antt =====
-- src/server.rs: what the workers tell the event loop, whatever steps they and the event loop take.
use floki.Prelude.{
  ℕ, ◌≡◌, refl, ap, sym, ◌∙◌, Bool-cases, false, Option-cases, Outcome-cases, inl, inr, List, [],
  ◌∷◌, ◌++◌, Outcome, done, panic, ◌>>=◌, ltb,
}
use floki.Config.{QueueConfig}
use floki.Backend.Upkeep.{gc}
use floki.Collections.{LinkedHashMap}
use floki.Channel
use floki.Channel.{Channel, InFlightState, QueueError}
use floki.Queue
use floki.Queue.{Name, InnerQueue, lookup, replace}
use floki.Server.{Server}
use floki.Server.Clients.{NotifyMessage, queue_create, queue_delete}
use floki.Server.Commands.{Queues}
use floki.Server.Commands.Meta.{new_queue, create_queue, create_channel, delete_channel}
use floki.Server.Commands.Settings.{Json}
use floki.Server.Start.{Disk, maintain, available_notices, monitor}
use floki.System.Locking.{Held, free, storing, telling}
use floki.System.Steps.{
  System, WorkerStep, dispatched, announced, stored, channel_made, channel_deleted, queue_taken,
  sent, maintained, monitored, LoopStep, taken, answered, timed_out, ticked, became_ready, accepted,
  Reachable, started, worked, looped,
}
use floki.System.Queues.{names-map, checkpoint-names}
use floki.System.Maps.{append-with_values}
use floki.System.Shape.{Shape, shape, told, told_all, notify_server-told}
use floki.System.Commands.{queue_names, queues_shape, queue_kept}
use floki.System.Commands.Meta.{
  told_all-append, create_queue-Tells, create_channel-Tells, delete_channel-Tells, take_queue-told,
}
use floki.System.Commands.Settings.{dispatch-Leaves}
use floki.System.Events.Turns.{tick-shape, handle_notify-shape, handle_timeout-shape}
use floki.System.Events.Ready.{handle_ready-shape}
use floki.System.Starting.{AreDifferent, start-shape}

told_all-more :
    (ms ns : List NotifyMessage) (sh sh' sh'' : Shape)
    → told_all ms sh ≡ done sh'
    → told_all ns sh' ≡ done sh''
    → told_all (ms ++ ns) sh ≡ done sh''
told_all-more ms ns sh sh' sh'' e e' = rw (told_all-append ms ns sh, e) e'

available_notices-told :
    (L : LinkedHashMap InFlightState) (debug : QueueError → List ℕ) (queue : Name)
    (cs : List (Name × Channel L)) (sh : Shape)
    → told_all (available_notices L debug queue cs) sh ≡ done sh
unfolding available_notices told_all told
available_notices-told L debug queue [] sh = refl
available_notices-told L debug queue ((name, c) ∷ cs) sh =
    elim (Bool-cases (ltb 0 (Channel.messages_available L c))) [
      | inl b ↦ rw (b, available_notices) (available_notices-told L debug queue cs sh)
      | inr b ↦ rw (b, available_notices) (available_notices-told L debug queue cs sh)
    ]

module _ (L : LinkedHashMap InFlightState) (debug : QueueError → List ℕ)
    (to_lowercase : List ℕ → List ℕ) (json : Json) where
  -- What the notices on their way make of the tables becomes what the queues are: with the queue that
  -- is to be stored, or by what is to be told.
  abbrev pub Agreed : Held L → Queues L debug → Outcome Shape → Type 0
  Agreed free qs o = o ≡ done (queues_shape L debug qs)
  Agreed (storing name q) qs o = o ≡ done (queues_shape L debug (qs ++ (name, q) ∷ []))
  Agreed (telling ms) qs o = (o >>= told_all ms) ≡ done (queues_shape L debug qs)

  abbrev pub Agrees : System L debug to_lowercase json → Type 0
  Agrees y = Agreed y.held y.queues (told_all y.pending (shape y.server))

  abbrev AreKept : Queues L debug → Outcome (Queues L debug) → Type 0
  AreKept qs panic = Unit
  AreKept qs (done qs') = queues_shape L debug qs' ≡ queues_shape L debug qs

  maintain-shape :
      (clock : ℕ) (name : Name) (qs : Queues L debug) → AreKept qs (maintain L debug clock name qs)
  unfolding maintain Queue.maintenance
  maintain-shape clock name qs = elim (Option-cases (lookup name qs)) [
    | inl p ↦ rw (p, maintain) refl
    | inr (q, p) ↦ elim (Outcome-cases (gc q.backend (Queue.smallest_tail L q.channels) clock)) [
      | inl o ↦ rw (p, maintain, Queue.maintenance, o) tt
      | inr ((b, gone), o) ↦
          let q' = record q { backend = b } in
          rw (p, maintain, Queue.maintenance, o)
            (queue_kept L debug name q (Queue.checkpoint L q' false).0 qs p
              (checkpoint-names L q' false))
    ]
  ]

  monitor-told :
      (clock : ℕ) (qs : Queues L debug) (sh : Shape)
      → (let r = monitor L debug clock qs in
          (told_all r.1 sh ≡ done sh) × (queues_shape L debug r.0 ≡ queues_shape L debug qs))
  unfolding monitor queues_shape told_all Queue.iter_channels
  monitor-told clock [] sh = (refl, refl)
  monitor-told clock ((name, q) ∷ qs) sh =
      let (rest, kept) = monitor-told clock qs sh in
      let cs = (Queue.iter_channels L q clock).channels in
      (
        told_all-more (available_notices L debug name cs) (monitor L debug clock qs).1 sh sh sh
            (available_notices-told L debug name cs sh) rest,
        rw
            (
              names-map {V = Channel L} {W = Channel L} (λ e. Channel.update_state L e.1 clock)
                  q.channels,
              kept,
            )
            refl,
      )

  -- Other queues of the same names.
  Agreed-kept :
      (h : Held L) (qs qs' : Queues L debug) (o : Outcome Shape)
      → queues_shape L debug qs' ≡ queues_shape L debug qs
      → Agreed h qs o
      → Agreed h qs' o
  unfolding queues_shape
  Agreed-kept free qs qs' o kept agreed = agreed ∙ ap done (sym kept)
  Agreed-kept (storing name q) qs qs' o kept agreed =
      agreed
      ∙ ap done (
          append-with_values (queue_names L debug) qs ((name, q) ∷ [])
          ∙ ap (λ sh. sh ++ (name, queue_names L debug q) ∷ []) (sym kept)
          ∙ sym (append-with_values (queue_names L debug) qs' ((name, q) ∷ [])))
  Agreed-kept (telling ms) qs qs' o kept agreed = agreed ∙ ap done (sym kept)

  -- Notices that tell of no change.
  neutral_more :
      (ms ns : List NotifyMessage) (sh : Shape)
      → ((sh : Shape) → told_all ns sh ≡ done sh)
      → told_all (ms ++ ns) sh ≡ told_all ms sh
  neutral_more ms ns sh neutral = elim (Outcome-cases (told_all ms sh)) [
    | inl p ↦ rw (told_all-append ms ns sh, p) refl
    | inr (sh', p) ↦ rw (told_all-append ms ns sh, p) (neutral sh')
  ]

  quiet_step :
      (y : System L debug to_lowercase json) (qs : Queues L debug) (ns : List NotifyMessage)
      → ((sh : Shape) → told_all ns sh ≡ done sh)
        × (queues_shape L debug qs ≡ queues_shape L debug y.queues)
      → Agrees y
      → Agreed y.held qs (told_all (y.pending ++ ns) (shape y.server))
  quiet_step y qs ns (neutral, kept) h =
      rw (neutral_more y.pending ns (shape y.server) neutral)
        (Agreed-kept y.held y.queues qs (told_all y.pending (shape y.server)) kept h)

  -- The holder of the lock has changed the queues as its notices, which it is to send, tell.
  changed :
      (qs qs' : Queues L debug) (ms : List NotifyMessage) (o : Outcome Shape)
      → told_all ms (queues_shape L debug qs) ≡ done (queues_shape L debug qs')
      → o ≡ done (queues_shape L debug qs)
      → Agreed (telling ms) qs' o
  changed qs qs' ms o told_it agreed = rw agreed told_it

  WorkerStep-Agrees :
      {y z : System L debug to_lowercase json}
      → WorkerStep L debug to_lowercase json y z
      → Agrees y
      → Agrees z
  unfolding create_queue
  WorkerStep-Agrees {y} (dispatched e request qs notices answer other d) h =
      quiet_step y qs notices
        (rw d at (dispatch-Leaves L debug to_lowercase json e request y.queues other)) h
  WorkerStep-Agrees {y} (announced e name unheld absent) h =
      let q = new_queue L debug e.xxhash e.load e.new_config name in
      told_all-more y.pending (queue_create name ∷ []) (shape y.server)
        (queues_shape L debug y.queues) (queues_shape L debug (y.queues ++ (name, q) ∷ []))
        (rw unheld at (h))
        (rw (absent, create_queue) at
          (create_queue-Tells L debug e.xxhash e.load e.new_config name false y.queues))
  WorkerStep-Agrees {y} (stored name q holds) h = rw holds at (h)
  WorkerStep-Agrees {y} (channel_made clock name q channel_name use_existing unheld found) h =
      let r = create_channel L debug clock name q channel_name use_existing in
      changed y.queues (replace name r.0 y.queues) r.1 (told_all y.pending (shape y.server))
        (create_channel-Tells L debug clock name q channel_name use_existing y.queues found)
        (rw unheld at (h))
  WorkerStep-Agrees {y} (channel_deleted name q channel_name unheld found) h =
      let r = delete_channel L debug name q channel_name in
      changed y.queues (replace name r.0 y.queues) r.1 (told_all y.pending (shape y.server))
        (delete_channel-Tells L debug name q channel_name y.queues found) (rw unheld at (h))
  WorkerStep-Agrees {y} (queue_taken name qs unheld there) h =
      changed y.queues qs (queue_delete name ∷ []) (told_all y.pending (shape y.server))
        (take_queue-told L debug name y.queues qs there) (rw unheld at (h))
  WorkerStep-Agrees {y} (sent ms holds) h =
      told_all-append y.pending ms (shape y.server) ∙ (rw holds at (h))
  WorkerStep-Agrees {y} (maintained clock name qs d) h =
      Agreed-kept y.held y.queues qs (told_all y.pending (shape y.server))
        (rw d at (maintain-shape clock name y.queues)) h
  WorkerStep-Agrees {y} (monitored clock) h =
      let r = monitor L debug clock y.queues in
      quiet_step y r.0 r.1
        (
          λ sh. (monitor-told clock y.queues sh).0,
          (monitor-told clock y.queues (queues_shape L debug y.queues)).1,
        )
        h

  -- The tables of the same queues and channels.
  kept_Agrees :
      (y : System L debug to_lowercase json) (s : Server)
      → shape s ≡ shape y.server
      → Agrees y
      → Agreed y.held y.queues (told_all y.pending (shape s))
  kept_Agrees y s kept h = rw kept h

  LoopStep-Agrees :
      {y z : System L debug to_lowercase json}
      → LoopStep L debug to_lowercase json y z
      → Agrees y
      → Agrees z
  unfolding told_all
  LoopStep-Agrees {y} (taken msg msgs s e d) h =
      let one : done (shape s) ≡ told msg (shape y.server) =
        rw d at (notify_server-told msg y.server) in
      let both : Agreed y.held y.queues (told_all (msg ∷ msgs) (shape y.server)) = rw e at (h) in
      rw (sym one, told_all) at (both)
  LoopStep-Agrees {y} (answered now cleared timer cookie msg cs s e d) h =
      kept_Agrees y (s)
        (rw d at (handle_notify-shape now cleared timer cookie msg y.clients y.server e)) h
  LoopStep-Agrees {y} (timed_out cleared token queue channel cs s d) h =
      kept_Agrees y (s)
        (rw d at (handle_timeout-shape cleared token queue channel y.clients y.server)) h
  LoopStep-Agrees {y} (ticked now cleared r d) h =
      kept_Agrees y (r.2) (rw d at (tick-shape now cleared y.clients y.server)) h
  LoopStep-Agrees {y} (became_ready is_utf8 max_values now cleared token events r d) h =
      kept_Agrees y r.2
        (rw d at
          (handle_ready-shape is_utf8 max_values now cleared token events y.clients y.server))
        h
  LoopStep-Agrees {y} (accepted token) h = h

  pub Reachable-Agrees :
      {disk : Disk L debug} {y : System L debug to_lowercase json}
      → ((c : QueueConfig) → AreDifferent L debug (disk.queue_checkpoint c))
      → Reachable L debug to_lowercase json disk y
      → Agrees y
  unfolding told_all
  Reachable-Agrees {disk} distinct (started xxhash join now config entries qs s d) =
      let opened : queues_shape L debug qs ≡ shape s =
        rw d at (start-shape L debug xxhash join disk now config entries distinct) in
      ap done (sym opened)
  Reachable-Agrees distinct (worked reached step) =
      WorkerStep-Agrees step (Reachable-Agrees distinct reached)
  Reachable-Agrees distinct (looped reached step) =
      LoopStep-Agrees step (Reachable-Agrees distinct reached)
