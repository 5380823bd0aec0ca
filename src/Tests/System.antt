-- ===== src/Tests/System.antt =====
-- The listed theorems of src/server.rs and src/config.rs on how the server starts and on its threads together.
use floki.Prelude.{
  ℕ, ◌≡◌, refl, none, some, List, [], ◌∷◌, ◌++◌, arith, true, false, codes, Returns, pos,
}
use floki.Config.{QueueConfig}
use floki.Config.Reading.{ServerConfig, Toml, read, read_queue_configs}
use floki.Config.Reading.Accepted.{IsRead, read_lem}
use floki.Segment
use floki.Backend.Upkeep
use floki.Queue
use floki.Queue.{Name, QueueCheckpoint, InnerQueue, ready}
use floki.Channel.{QueueError}
use floki.Protocol.{Value, array, bytes, one_more, none_left}
use floki.Server.{Server}
use floki.Server.Clients.{queue_create, queue_delete, notify_server}
use floki.Server.Start.{Disk, nothing_open, start, load_queue}
use floki.Server.Commands.{Queues}
use floki.Server.Commands.Meta.{new_queue, take_queue}
use floki.Server.Commands.Settings.{Json, Environment, dispatch}
use floki.Server.Commands.Notices.{deliver}
use floki.Server.Commands.Tables.{Mirrors}
use floki.Server.Deletion.{Registry, Steps, idle, delete_queue, is_free}
use floki.Server.Deletion.Hanging.{IsStuck, delete_twice_hangs}
use floki.System.Shape.{shape, shape_of, told, notify_server-told}
use floki.System.Commands.{Tells}
use floki.System.Commands.Settings.{dispatch-Tells}
use floki.System.Steps.{System, Reachable, started, worked, announced, stored, queue_taken}
use floki.System.Locking.{storing, free, telling}
use floki.System.Safety.{Reachable-Mirrors}
use floki.Tests.Data.{association, checksum, settings}

abbrev silent : QueueError → List ℕ
silent _ = []

abbrev no_texts : Json
no_texts = record {
  server_config = [];
  server_info = [];
  queue_configs = λ _. [];
  queue_infos = λ _. [];
}

-- A queue with one channel, and no messages.
abbrev disk : Disk association silent
disk = record {
  files = λ _ _. Segment.err Segment.segment_full;
  backend_checkpoint = λ _. none;
  queue_checkpoint = λ _. some (record {
    state = ready;
    channels = (codes "c", record { tail = 1; last_touched = 0 }) ∷ [];
  });
}

abbrev server_config : ServerConfig
server_config = record {
  data_directory = codes "data";
  bind_address = codes "0.0.0.0:9797";
  max_connections = 10;
  maintenance_interval = 1000;
  monitor_interval = 1000;
  default_queue_config = settings;
}

abbrev environment : Environment association silent (λ s. s) no_texts
environment = record {
  is_alphanumeric = λ _. true;
  xxhash = checksum;
  load = λ _. Segment.err Segment.segment_full;
  max_results = 100;
  default_config = settings;
  new_config = λ _. settings;
  clock = 9;
  tickets = λ i. i;
  files = λ _. Segment.err Segment.segment_full;
}

abbrev queue_a : QueueConfig
queue_a = record settings { name = codes "a"; data_directory = codes "data/a" }

abbrev opened : Queues association silent × Server
opened =
    load_queue association silent 9000 (codes "a")
      (Queue.new association queue_a (Upkeep.empty checksum (disk.files queue_a) queue_a) true
        (disk.queue_checkpoint queue_a))
      [] nothing_open

abbrev at_start : System association silent (λ s. s) no_texts
at_start = record { queues = opened.0; pending = []; held = free; clients = []; server = opened.1 }

-- The queue `q` is announced, and put into the map.
abbrev made : InnerQueue association
made =
    new_queue association silent checksum (λ _. Segment.err Segment.segment_full) (λ _. settings)
      (codes "q")

abbrev announced_q : System association silent (λ s. s) no_texts
announced_q = record at_start {
  pending = queue_create (codes "q") ∷ [];
  held = storing (codes "q") made;
}

abbrev with_q : System association silent (λ s. s) no_texts
with_q = record announced_q { queues = opened.0 ++ (codes "q", made) ∷ []; held = free }

-- The queue `a` is taken from the map to be deleted, and the event loop has not been told of `q`.
abbrev without_a : System association silent (λ s. s) no_texts
without_a = record with_q {
  queues = (codes "q", made) ∷ [];
  held = telling (queue_delete (codes "a") ∷ []);
}

without_a-Reachable : Reachable association silent (λ s. s) no_texts disk without_a
unfolding start load_queue Upkeep.new Upkeep.recover read_queue_configs take_queue
without_a-Reachable =
    worked
      (worked
        (worked
          (started checksum (λ a b. a ++ codes "/" ++ b) 9000 server_config
            (some (some (codes "a") ∷ [])) opened.0 opened.1 refl)
          (announced environment (codes "q") refl refl))
        (stored (codes "q") made refl))
      (queue_taken (codes "a") ((codes "q", made) ∷ []) refl refl)

-- The tables become those of the queue `q` alone.
Reachable-Mirrors_example :
    Returns
      (λ s.
        Returns
          (λ s'. Mirrors association silent ((codes "q", made) ∷ []) s')
          (deliver (queue_delete (codes "a") ∷ []) s))
      (deliver (queue_create (codes "q") ∷ []) opened.1)
Reachable-Mirrors_example =
    Reachable-Mirrors association silent (λ s. s) no_texts disk without_a (λ _. (refl, tt))
      without_a-Reachable

abbrev set_q_c : Value
set_q_c = array (
    one_more (bytes (codes "SET"))
      (one_more (bytes (codes "q")) (one_more (bytes (codes "c")) none_left)))

dispatch-Tells_example :
    Tells association silent opened.0
      (dispatch association silent (λ s. s) no_texts environment set_q_c opened.0)
dispatch-Tells_example =
    dispatch-Tells association silent (λ s. s) no_texts environment set_q_c opened.0

notify_server-told_example :
    shape_of (notify_server (queue_create (codes "q")) nothing_open)
    ≡ told (queue_create (codes "q")) (shape nothing_open)
notify_server-told_example = notify_server-told (queue_create (codes "q")) nothing_open

abbrev two_idle : Registry
two_idle = record { queues = codes "q" ∷ []; workers = idle ∷ idle ∷ [] }

delete_twice_hangs_example :
    (x : Registry) × Steps two_idle x
    × ((z : Registry)
        → Steps x z
        → IsStuck 0 1 delete_queue (codes "q") z × (is_free z.workers ≡ false))
delete_twice_hangs_example =
    delete_twice_hangs 0 1 (codes "q") two_idle (λ e. ground arith) refl refl refl refl

-- Every text is `16777216`, and every number 10.
abbrev file : Toml
file = record {
  Value = Unit;
  get = λ _. some tt;
  as_str = λ _. some (codes "16777216");
  as_integer = λ _. some (pos 10);
}

abbrev text : List ℕ
text = codes "a = 16777216"

read_lem_example :
    IsRead
      (λ s. s)
      (λ _. some file)
      (some (some text))
      true
      (read (λ s. s) (λ _. some file) (some (some text)) true)
read_lem_example = read_lem (λ s. s) (λ _. some file) (some (some text)) true
