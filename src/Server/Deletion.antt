-- ===== src/Server/Deletion.antt =====
-- src/server.rs, `Dispatch`: how workers that create and delete keep each other out, by the meta lock and
-- by the count of a queue's `Arc`s. A step is what a worker does between two waits.
pub mod Hanging
use floki.Prelude.{
  ℕ, zero, suc, ◌+◌, ◌≡◌, Bool, true, false, ◌&&◌, Option, some, List, [], ◌∷◌, ◌==◌, same,
  if◌then◌else◌, get_elem?,
}
use floki.Queue.{Name}

-- What a worker is to do under the meta lock, with the queue that it has.
pub data Task : Type 0 where
  create_channel delete_channel delete_queue : Task

-- A worker is idle; or it uses a queue, without the meta lock; or has a queue and waits for the lock; or
-- it has the lock, has taken the queue from the map and waits until no other worker has it.
pub data Stage : Type 0 where
  idle : Stage
  uses : Name → Stage
  has : Task → Name → Stage
  waits : Name → Stage

pub record Registry : Type 0 where
  pub queues : List Name
  pub workers : List Stage

abbrev pub contains : Name → List Name → Bool
contains n [] = false
contains n (m ∷ ms) = let rest = contains n ms in if same m n then true else rest

abbrev pub remove : Name → List Name → List Name
remove n [] = []
remove n (m ∷ ms) = let rest = remove n ms in if same m n then ms else m ∷ rest

abbrev pub put_stage : ℕ → Stage → List Stage → List Stage
put_stage i s [] = []
put_stage zero s (r ∷ rs) = s ∷ rs
put_stage (suc i) s (r ∷ rs) = r ∷ put_stage i s rs

-- The `Arc`s of a queue that a worker has.
abbrev pub arcs : Name → Stage → ℕ
arcs n idle = 0
arcs n (uses m) = if same m n then 1 else 0
arcs n (has task m) = if same m n then 1 else 0
arcs n (waits m) = if same m n then 1 else 0

abbrev pub all_arcs : Name → List Stage → ℕ
all_arcs n [] = 0
all_arcs n (s ∷ ss) = arcs n s + all_arcs n ss

-- `Arc::strong_count`.
unfoldable pub strong_count : Name → Registry → ℕ
strong_count n y = (if contains n y.queues then 1 else 0) + all_arcs n y.workers

-- Whether the meta lock is free: no worker waits with it.
abbrev pub is_free : List Stage → Bool
is_free [] = true
is_free (idle ∷ ss) = is_free ss
is_free (uses _ ∷ ss) = is_free ss
is_free (has _ _ ∷ ss) = is_free ss
is_free (waits _ ∷ ss) = false

-- What comes of a task, once the worker has the lock: the map, and where the worker is then.
unfoldable pub enter : Task → Name → List Name → List Name × Stage
enter create_channel n queues = (queues, idle)
enter delete_channel n queues = (queues, idle)
enter delete_queue n queues =
    if contains n queues then (remove n queues, waits n) else (queues, idle)

abbrev pub add_queue : Name → List Name → List Name
add_queue n queues = if contains n queues then queues else n ∷ queues

abbrev pub goes : ℕ → Stage → Registry → Registry
goes i s y = record y { workers = put_stage i s y.workers }

pub data Step : Registry → Registry → Type 0 where
  -- `get_queue`, in `del`.
  finds :
      {y : Registry} (i : ℕ) (task : Task) (n : Name)
      → get_elem? y.workers i ≡ some idle
      → contains n y.queues ≡ true
      → Step y (goes i (has task n) y)
  -- `create_queue`, in `set`.
  creates :
      {y : Registry} (i : ℕ) (n : Name)
      → get_elem? y.workers i ≡ some idle
      → is_free y.workers ≡ true
      → Step y (record (goes i (has create_channel n) y) { queues = add_queue n y.queues })
  -- `get_queue`, in the other commands.
  reads :
      {y : Registry} (i : ℕ) (n : Name)
      → get_elem? y.workers i ≡ some idle
      → contains n y.queues ≡ true
      → Step y (goes i (uses n) y)
  drops :
      {y : Registry} (i : ℕ) (n : Name)
      → get_elem? y.workers i ≡ some (uses n)
      → Step y (goes i idle y)
  locks :
      {y : Registry} (i : ℕ) (task : Task) (n : Name)
      → get_elem? y.workers i ≡ some (has task n)
      → is_free y.workers ≡ true
      → Step y (record {
        queues = (enter task n y.queues).0;
        workers = put_stage i (enter task n y.queues).1 y.workers;
      })
  frees :
      {y : Registry} (i : ℕ) (n : Name)
      → get_elem? y.workers i ≡ some (waits n)
      → strong_count n y ≡ 1
      → Step y (goes i idle y)

pub data Steps : Registry → Registry → Type 0 where
  none_yet : {y : Registry} → Steps y y
  after : {x y z : Registry} → Step x y → Steps y z → Steps x z
