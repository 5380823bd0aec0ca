-- ===== src/System/Starting.antt =====
-- src/server.rs, `Server::new`: the queues that are opened and the tables made for them.
use floki.Prelude.{
  ℕ, ◌≡◌, refl, ap, sym, subst, ◌∙◌, Bool-cases, true, false, Option-cases, Outcome-cases, inl, inr,
  u32, ◌/◌, Option, none, some, List, [], ◌∷◌, ◌++◌, append_assoc, append-nil, arith, Outcome, done,
  panic, same,
}
use floki.Config.{QueueConfig}
use floki.Config.Reading.{ServerConfig, read_queue_configs}
use floki.Backend.{QueueBackend}
use floki.Backend.Upkeep
use floki.Collections.{LinkedHashMap}
use floki.Channel
use floki.Channel.{InFlightState, QueueError}
use floki.Queue
use floki.Queue.{
  Name, QueueState, ready, deleting, QueueCheckpoint, ChannelInfo, InnerQueue, lookup,
}
use floki.Server.{Waiter, WaitingClients, Server, insert}
use floki.Server.Clients.{clock_ms}
use floki.Server.Commands.{Queues}
use floki.Server.Commands.Tables.{lookup-snoc}
use floki.Server.Start.{
  clock_s, empty_tables, nothing_open, Disk, open_queue, load_queue, load_queues, start,
}
use floki.System.Maps.{names, insert-with_values}
use floki.System.Queues.{QueueState-cases, names-map, info-names}
use floki.System.Shape.{shape, table_names}
use floki.System.Commands.{queue_names, queues_shape}
use floki.System.Events.{clock_ms-shape}

-- No name comes twice.
abbrev pub AreDistinct : List (Name × Unit {0}) → Type 0
AreDistinct [] = Unit
AreDistinct ((n, _) ∷ ns) = (lookup n ns ≡ none) × AreDistinct ns

abbrev AreNew : List (Name × Unit {0}) → List (Name × Unit {0}) → Type 0
AreNew [] ms = Unit
AreNew ((n, _) ∷ ns) ms = (lookup n ms ≡ none) × AreNew ns ms

same_sym : (a b : Name) → same a b ≡ same b a
same_sym [] [] = refl
same_sym [] (d ∷ ds) = refl
same_sym (c ∷ cs) [] = refl
same_sym (c ∷ cs) (d ∷ ds) = ground (arith, same_sym cs ds)

all_new : (ns : List (Name × Unit {0})) → AreNew ns []
all_new [] = tt
all_new ((n, _) ∷ ns) = (refl, all_new ns)

still_new :
    (n : Name) (ns ms : List (Name × Unit {0}))
    → lookup n ns ≡ none
    → AreNew ns ms
    → AreNew ns (ms ++ (n, tt) ∷ [])
still_new n [] ms e new = tt
still_new n ((k, _) ∷ ns) ms e new = elim (Bool-cases (same k n)) [
  | inl b ↦ ground (arith, b, e)
  | inr b ↦
      let other : same n k ≡ false = same_sym n k ∙ b in
      let e' : lookup n ns ≡ none = rw b at (e) in
      (rw (lookup-snoc k n tt ms, new.0, other) refl, still_new n ns ms e' new.1)
]

empty_tables-names :
    (channels : List (Name × ChannelInfo)) (tables : List (Name × List Waiter))
    → AreDistinct (names channels)
    → AreNew (names channels) (names tables)
    → names (empty_tables channels tables) ≡ names tables ++ names channels
unfolding empty_tables
empty_tables-names [] tables distinct new = sym (append-nil (names tables))
empty_tables-names ((n, c) ∷ channels) tables distinct new =
    let added : names (insert n [] tables) ≡ names tables ++ (n, tt) ∷ [] =
      insert-with_values {V = List Waiter} (λ _. tt) n [] tables ∙ rw (new.0, insert) refl in
    let new' : AreNew (names channels) (names (insert n [] tables)) =
      rw added (still_new n (names channels) (names tables) distinct.0 new.1) in
    empty_tables-names channels (insert n [] tables) distinct.1 new'
    ∙ ap (λ r. r ++ names channels) added
    ∙ append_assoc (names tables) ((n, tt) ∷ []) (names channels)

module _ (L : LinkedHashMap InFlightState) (debug : QueueError → List ℕ) where
  abbrev pub AreDifferent : Option QueueCheckpoint → Type 0
  AreDifferent none = Unit
  AreDifferent (some c) = AreDistinct (names c.channels)

  recovered-AreDistinct :
      (config : QueueConfig) (backend : QueueBackend) (found : Option QueueCheckpoint)
      → AreDifferent found
      → AreDistinct (queue_names L debug (Queue.new L config backend true found))
  unfolding Queue.new Queue.recover
  recovered-AreDistinct config backend none distinct = tt
  recovered-AreDistinct config backend (some c) distinct = elim (QueueState-cases c.state) [
    | inl p ↦
        rw
          (
            p,
            Queue.new,
            Queue.recover,
            names-map (λ e. Channel.new L e.1.last_touched e.1.tail) c.channels,
          )
          distinct
    | inr p ↦ rw (p, Queue.new, Queue.recover) tt
  ]

  shown-names :
      (q : InnerQueue L) (clock : ℕ) → names (Queue.info L q clock).1.channels ≡ names q.channels
  unfolding Queue.info
  shown-names q clock = names-map _ q.channels

  -- The tables of a queue that was opened.
  opened-names :
      (q : InnerQueue L) (clock : ℕ)
      → AreDistinct (queue_names L debug q)
      → names (empty_tables (Queue.info L q clock).1.channels [])
        ≡ queue_names L debug (Queue.info L q clock).0
  opened-names q clock distinct =
      let shown = (Queue.info L q clock).1.channels in
      let same_names = shown-names q clock in
      empty_tables-names shown [] (subst AreDistinct (sym same_names) distinct)
        (all_new (names shown))
      ∙ same_names
      ∙ sym (info-names L q clock)

  -- The queues and the tables stay the same when a queue and its table are added.
  load_queue-shape :
      (now : ℕ) (name : Name) (q : InnerQueue L) (qs : Queues L debug) (s : Server)
      → AreDistinct (queue_names L debug q)
      → queues_shape L debug qs ≡ shape s
      → (let r = load_queue L debug now name q qs s in queues_shape L debug r.0 ≡ shape r.1)
  unfolding load_queue clock_s queues_shape shape
  load_queue-shape now name q qs s distinct e =
      let clock = u32 ((clock_ms now s).0 / 1000) in
      let shown = Queue.info L q clock in
      let tables : WaitingClients = record {
        head = shown.1.head;
        channels = empty_tables shown.1.channels [];
      } in
      let s' = (clock_ms now s).1 in
      rw
        (
          insert-with_values (queue_names L debug) name shown.0 qs,
          insert-with_values table_names name tables s'.waiting_clients,
        )
        (rw (clock_ms-shape now s, opened-names q clock distinct, e) refl)

  abbrev pub AreOpened : Outcome (Queues L debug × Server) → Type 0
  AreOpened panic = Unit
  AreOpened (done (qs, s)) = queues_shape L debug qs ≡ shape s

  load_queues-shape :
      (xxhash : List ℕ → ℕ) (disk : Disk L debug) (now : ℕ) (configs : List QueueConfig)
      (qs : Queues L debug) (s : Server)
      → ((config : QueueConfig) → AreDifferent (disk.queue_checkpoint config))
      → queues_shape L debug qs ≡ shape s
      → AreOpened (load_queues L debug xxhash disk now configs qs s)
  unfolding load_queues open_queue
  load_queues-shape xxhash disk now [] qs s distinct e = e
  load_queues-shape xxhash disk now (config ∷ configs) qs s distinct e =
      elim (Outcome-cases
        (Upkeep.new xxhash (disk.files config) config true (disk.backend_checkpoint config))) [
          | inl p ↦ rw (p, load_queues, open_queue) tt
          | inr (opened, p) ↦ elim (Option-cases opened) [
            | inl p' ↦ rw (p, p', load_queues, open_queue) tt
            | inr (backend, p') ↦
                let q = Queue.new L config backend true (disk.queue_checkpoint config) in
                let r = load_queue L debug now config.name q qs s in
                rw (p, p', load_queues, open_queue)
                  (load_queues-shape xxhash disk now configs r.0 r.1 distinct (
                    load_queue-shape now config.name q qs s
                      (recovered-AreDistinct config backend (disk.queue_checkpoint config)
                        (distinct config))
                      e))
          ]
        ]

  pub start-shape :
      (xxhash : List ℕ → ℕ) (join : List ℕ → List ℕ → List ℕ) (disk : Disk L debug) (now : ℕ)
      (config : ServerConfig) (entries : Option (List (Option (List ℕ))))
      → ((c : QueueConfig) → AreDifferent (disk.queue_checkpoint c))
      → AreOpened (start L debug xxhash join disk now config entries)
  unfolding start queues_shape shape
  start-shape xxhash join disk now config entries distinct =
      elim (Option-cases (read_queue_configs join config entries)) [
        | inl p ↦ rw (p, start) tt
        | inr (configs, p) ↦
            rw (p, start) (load_queues-shape xxhash disk now configs [] nothing_open distinct refl)
      ]
