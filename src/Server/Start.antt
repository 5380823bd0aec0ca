-- ===== src/Server/Start.antt =====
-- src/server.rs, `Server`: how it starts, its own settings, what it tells of itself, and its two threads
-- beside the workers. The clock's time, the files and what the directories hold are arguments.
use floki.Prelude.{
  ℕ, ◌+◌, ◌/◌, true, Option, none, some, List, [], ◌∷◌, ◌++◌, Outcome, done, ◌>>=◌, u32, ltb,
  if◌then◌else◌, length, unwrap,
}
use floki.Config.{QueueConfig}
use floki.Config.Reading.{ServerConfig, read_queue_configs}
use floki.Segment.{SegmentCheckpoint, FileImage, BackendResult}
use floki.Backend.Upkeep
use floki.Collections.{LinkedHashMap}
use floki.Channel
use floki.Channel.{Channel, InFlightState, QueueError, update_state}
use floki.Queue
use floki.Queue.{Name, QueueCheckpoint, ChannelInfo, InnerQueue, lookup, replace}
use floki.Server.{Waiter, WaitingClients, Server, insert}
use floki.Server.Clients.{NotifyMessage, messages_available, Clients, clock_ms}
use floki.Server.Commands.{Queues, with_ok}
use floki.Server.Commands.Settings.{queue_config_set}

unfoldable pub clock_s : ℕ → Server → ℕ × Server
unfolding clock_ms
clock_s now s = let (clock, s') = clock_ms now s in (u32 (clock / 1000), s')

-- An empty table for each channel.
unfoldable pub empty_tables :
    List (Name × ChannelInfo) → List (Name × List Waiter) → List (Name × List Waiter)
empty_tables [] tables = tables
empty_tables ((name, _) ∷ channels) tables = empty_tables channels (insert name [] tables)

-- The state that `Server::new` makes, without queues.
abbrev pub nothing_open : Server
nothing_open = record {
  waiting_clients = [];
  awaking_clients = [];
  nonce = 0;
  internal_clock_ms = 0;
}

module _ (L : LinkedHashMap InFlightState) (debug : QueueError → List ℕ) where
  -- What the disk has: the content of a segment's files, and the checkpoints of the log and of the
  -- queue, for each queue's settings.
  pub record Disk : Type 0 where
    pub files : QueueConfig → SegmentCheckpoint → BackendResult FileImage
    pub backend_checkpoint : QueueConfig → Option (List SegmentCheckpoint)
    pub queue_checkpoint : QueueConfig → Option QueueCheckpoint

  -- `Queue::new(config, true)`. Out of fuel, which a recovery never is, stands with a panic.
  unfoldable pub open_queue : (List ℕ → ℕ) → Disk → QueueConfig → Outcome (InnerQueue L)
  open_queue xxhash disk config = do
    opened ← Upkeep.new xxhash (disk.files config) config true (disk.backend_checkpoint config)
    backend ← unwrap opened
    done (Queue.new L config backend true (disk.queue_checkpoint config))

  unfoldable pub load_queue :
      ℕ → Name → InnerQueue L → Queues L debug → Server → Queues L debug × Server
  unfolding clock_s empty_tables
  load_queue now name q qs s =
      let (clock, s') = clock_s now s in
      let (q', info) = Queue.info L q clock in
      let tables : WaitingClients = record {
        head = info.head;
        channels = empty_tables info.channels [];
      } in
      (insert name q' qs, record s' { waiting_clients = insert name tables s'.waiting_clients })

  unfoldable pub load_queues :
      (List ℕ → ℕ)
      → Disk
      → ℕ
      → List QueueConfig
      → Queues L debug
      → Server
      → Outcome (Queues L debug × Server)
  unfolding open_queue load_queue
  load_queues xxhash disk now [] qs s = done (qs, s)
  load_queues xxhash disk now (config ∷ configs) qs s = do
    q ← open_queue xxhash disk config
    let (qs', s') = load_queue now config.name q qs s
    load_queues xxhash disk now configs qs' s'

  -- `Server::new`, but for the socket, the event loop's registration and the threads. `entries` are the
  -- names in the data directory.
  unfoldable pub start :
      (List ℕ → ℕ)
      → (List ℕ → List ℕ → List ℕ)
      → Disk
      → ℕ
      → ServerConfig
      → Option (List (Option (List ℕ)))
      → Outcome (Queues L debug × Server)
  unfolding load_queues
  start xxhash join disk now config entries = do
    queue_configs ← unwrap (read_queue_configs join config entries)
    load_queues xxhash disk now queue_configs [] nothing_open

  -- One queue in a round of the maintenance, if it is still there.
  unfoldable pub maintain : ℕ → Name → Queues L debug → Outcome (Queues L debug)
  maintain clock name qs = elim (lookup name qs) [
    | none ↦ done qs
    | some q ↦ do (q', _, _, _) ← Queue.maintenance L q clock; done (replace name q' qs)
  ]

  -- What the monitor sends of a queue's channels, as the iteration left them.
  unfoldable pub available_notices : Name → List (Name × Channel L) → List NotifyMessage
  available_notices queue [] = []
  available_notices queue ((name, c) ∷ cs) =
      let rest = available_notices queue cs in
      let available = Channel.messages_available L c in
      if ltb 0 available then messages_available queue name available ∷ rest else rest

  -- A round of the monitor.
  unfoldable pub monitor : ℕ → Queues L debug → Queues L debug × List NotifyMessage
  unfolding available_notices
  monitor clock [] = ([], [])
  monitor clock ((name, q) ∷ qs) =
      let q' = Queue.iter_channels L q clock in
      let (qs', notices) = monitor clock qs in
      ((name, q') ∷ qs', available_notices name q'.channels ++ notices)

-- `Server::config_set`: an error leaves the settings.
unfoldable pub config_set :
    (List ℕ → List ℕ) → List ℕ → List ℕ → ServerConfig → ServerConfig × NotifyMessage
config_set to_lowercase key value config =
    let r = queue_config_set to_lowercase config.default_queue_config key value in
    elim r.1 [
      | none ↦ (record config { default_queue_config = r.0 }, with_ok)
      | some answer ↦ (config, answer)
    ]

pub record ServerInfo : Type 0 where
  pub client_count : ℕ
  pub blocked_client_count : ℕ
  pub thread_count : ℕ
  pub queue_count : ℕ
  pub clock : ℕ

-- `sum` of `u32`, without the overflow check of a debug build.
unfoldable pub blocked_in : List (Name × List Waiter) → ℕ
blocked_in [] = 0
blocked_in ((_, tokens) ∷ es) = u32 (u32 (length tokens) + blocked_in es)

unfoldable pub blocked : List (Name × WaitingClients) → ℕ
unfolding blocked_in
blocked [] = 0
blocked ((_, w) ∷ es) = u32 (blocked_in w.channels + blocked es)

module _ (L : LinkedHashMap InFlightState) (debug : QueueError → List ℕ) where
  -- `Server::info`.
  unfoldable pub info : ℕ → ℕ → Clients → Server → Queues L debug → ServerInfo
  unfolding blocked
  info thread_count now cs s qs = record {
    client_count = u32 (length cs);
    blocked_client_count = blocked s.waiting_clients;
    thread_count = thread_count;
    queue_count = u32 (length qs);
    clock = now;
  }
