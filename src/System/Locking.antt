-- ===== src/System/Locking.antt =====
-- src/server.rs, `Dispatch`: which requests take the meta lock, and what its holder has still to do.
use floki.Prelude.{
  ℕ, Bool, false, ◌||◌, none, some, List, [], ◌∷◌, ◌++◌, codes, same, ltb, if◌then◌else◌,
}
use floki.Collections.{LinkedHashMap}
use floki.Channel.{InFlightState, QueueError}
use floki.Queue.{Name, InnerQueue}
use floki.Protocol.{Value, nil, int, bytes, array, status, error, message, count}
use floki.Server.Clients.{NotifyMessage}
use floki.Server.Commands.{Queues, data_only}

abbrev pub is_creating_or_deleting : List ℕ → Bool
is_creating_or_deleting name =
    same name (codes "SET") || same name (codes "SETNX") || same name (codes "DEL")

-- Only the functions of `SET` and `DEL` take the meta lock, and not for what is no command.
unfoldable pub takes_meta_lock : Value → Bool
unfolding data_only
takes_meta_lock (array vs) = if ltb 50 (count vs) then false else elim (data_only vs) [
  | none ↦ false
  | some args ↦ elim args [ [] ↦ false | name ∷ _ ↦ is_creating_or_deleting name ]
]
takes_meta_lock nil = false
takes_meta_lock (int _) = false
takes_meta_lock (bytes _) = false
takes_meta_lock (status _) = false
takes_meta_lock (error _) = false
takes_meta_lock (message _ _) = false

module _ (L : LinkedHashMap InFlightState) where
  -- Nobody has the lock, or its holder has sent the notice of a new queue and is to put it into the
  -- map, or it has changed the queues and is to send what it tells of it. The last is also where the
  -- deletion of a queue waits, if for ever, until no other worker has the queue.
  pub data Held : Type 0 where
    free : Held
    storing : Name → InnerQueue L → Held
    telling : List NotifyMessage → Held

  abbrev pub yet_to_tell : Held → List NotifyMessage
  yet_to_tell free = []
  yet_to_tell (storing _ _) = []
  yet_to_tell (telling ms) = ms

  -- With the queue that is to be put there.
  abbrev pub with_stored : (debug : QueueError → List ℕ) → Queues L debug → Held → Queues L debug
  with_stored debug qs free = qs
  with_stored debug qs (storing name q) = qs ++ (name, q) ∷ []
  with_stored debug qs (telling _) = qs
