-- ===== src/System/Steps.antt =====
-- src/server.rs: the workers, the two threads beside them and the event loop, one step after the other.
-- What is sent to the event loop for the server comes to it in the order of sending.
use floki.Prelude.{ℕ, ◌≡◌, Bool, false, Option, none, some, List, [], ◌∷◌, ◌++◌, done, ◌==◌}
use floki.Config.Reading.{ServerConfig}
use floki.Cookie
use floki.Collections.{LinkedHashMap}
use floki.Channel.{InFlightState, QueueError}
use floki.Queue.{Name, InnerQueue, lookup, replace}
use floki.Protocol.{Value}
use floki.Server.{Server}
use floki.Server.Clients.{
  NotifyMessage, queue_create, queue_delete, Clients, notify_server, handle_notify, handle_timeout,
  tick,
}
use floki.Server.Clients.Ready.{Events, accept, handle_ready}
use floki.Server.Commands.{Queues}
use floki.Server.Commands.Meta.{new_queue, create_channel, take_queue, delete_channel}
use floki.Server.Commands.Settings.{Json, Environment, dispatch}
use floki.System.Locking.{Held, free, storing, telling, takes_meta_lock}
use floki.Server.Start.{Disk, start, maintain, monitor}

module _ (L : LinkedHashMap InFlightState) (debug : QueueError → List ℕ)
    (to_lowercase : List ℕ → List ℕ) (json : Json) where
  -- `pending` is what was sent for the server and not yet taken, `held` what the holder of the meta
  -- lock is at.
  pub record System : Type 0 where
    pub queues : Queues L debug
    pub pending : List NotifyMessage
    pub held : Held L
    pub clients : Clients
    pub server : Server

  -- What the threads of the pool do. One that holds the meta lock takes a step for each change of the
  -- queues and for each notice of it, and others may take theirs between these. A `SET` or `DEL` that is
  -- refused, before it has the lock or under it, changes nothing here, so there is no step for it. A
  -- command without the lock is one step; one that goes on with a queue which has been taken from the
  -- map tells nothing and leaves the map.
  pub data WorkerStep : System → System → Type 0 where
    dispatched :
        {y : System} (e : Environment L debug to_lowercase json) (request : Value)
        (qs : Queues L debug) (notices : List NotifyMessage) (answer : NotifyMessage)
        → takes_meta_lock request ≡ false
        → dispatch L debug to_lowercase json e request y.queues ≡ done (qs, notices, answer)
        → WorkerStep y (record y { queues = qs; pending = y.pending ++ notices })
    announced :
        {y : System} (e : Environment L debug to_lowercase json) (name : Name)
        → y.held ≡ free
        → lookup name y.queues ≡ none
        → WorkerStep y (record y {
          pending = y.pending ++ queue_create name ∷ [];
          held = storing name (new_queue L debug e.xxhash e.load e.new_config name);
        })
    stored :
        {y : System} (name : Name) (q : InnerQueue L)
        → y.held ≡ storing name q
        → WorkerStep y (record y { queues = y.queues ++ (name, q) ∷ []; held = free })
    channel_made :
        {y : System} (clock : ℕ) (name : Name) (q : InnerQueue L) (channel_name : Name)
        (use_existing : Bool)
        → y.held ≡ free
        → lookup name y.queues ≡ some q
        → WorkerStep y (
            let r = create_channel L debug clock name q channel_name use_existing in
            record y { queues = replace name r.0 y.queues; held = telling r.1 })
    channel_deleted :
        {y : System} (name : Name) (q : InnerQueue L) (channel_name : Name)
        → y.held ≡ free
        → lookup name y.queues ≡ some q
        → WorkerStep y (
            let r = delete_channel L debug name q channel_name in
            record y { queues = replace name r.0 y.queues; held = telling r.1 })
    queue_taken :
        {y : System} (name : Name) (qs : Queues L debug)
        → y.held ≡ free
        → take_queue L debug name y.queues ≡ some qs
        → WorkerStep y (record y { queues = qs; held = telling (queue_delete name ∷ []) })
    sent :
        {y : System} (ms : List NotifyMessage)
        → y.held ≡ telling ms
        → WorkerStep y (record y { pending = y.pending ++ ms; held = free })
    maintained :
        {y : System} (clock : ℕ) (name : Name) (qs : Queues L debug)
        → maintain L debug clock name y.queues ≡ done qs
        → WorkerStep y (record y { queues = qs })
    monitored :
        {y : System} (clock : ℕ)
        → WorkerStep y (
            let r = monitor L debug clock y.queues in
            record y { queues = r.0; pending = y.pending ++ r.1 })

  -- What the event loop does. A message to a client comes at any time.
  pub data LoopStep : System → System → Type 0 where
    taken :
        {y : System} (msg : NotifyMessage) (msgs : List NotifyMessage) (s : Server)
        → y.pending ≡ msg ∷ msgs
        → notify_server msg y.server ≡ done s
        → LoopStep y (record y { pending = msgs; server = s })
    answered :
        {y : System} (now : ℕ) (cleared : ℕ → Bool) (timer cookie : ℕ) (msg : NotifyMessage)
        (cs : Clients) (s : Server)
        → (Cookie.token cookie == 0) ≡ false
        → handle_notify now cleared timer cookie msg y.clients y.server ≡ done (cs, s)
        → LoopStep y (record y { clients = cs; server = s })
    timed_out :
        {y : System} (cleared : ℕ → Bool) (token : ℕ) (queue channel : Name) (cs : Clients)
        (s : Server)
        → handle_timeout cleared token queue channel y.clients y.server ≡ done (cs, s)
        → LoopStep y (record y { clients = cs; server = s })
    ticked :
        {y : System} (now : ℕ) (cleared : ℕ → Bool) (r : _ × Clients × Server)
        → tick now cleared y.clients y.server ≡ done r
        → LoopStep y (record y { clients = r.1; server = r.2 })
    became_ready :
        {y : System} (is_utf8 : List ℕ → Bool) (max_values now : ℕ) (cleared : ℕ → Bool) (token : ℕ)
        (events : Events) (r : _ × Clients × Server)
        → handle_ready is_utf8 max_values now cleared token events y.clients y.server ≡ done r
        → LoopStep y (record y { clients = r.1; server = r.2 })
    accepted :
        {y : System} (token : Option ℕ) → LoopStep y (record y { clients = accept token y.clients })

  -- From the start on what the disk has.
  pub data Reachable (disk : Disk L debug) : System → Type 0 where
    started :
        (xxhash : List ℕ → ℕ) (join : List ℕ → List ℕ → List ℕ) (now : ℕ) (config : ServerConfig)
        (entries : Option (List (Option (List ℕ)))) (qs : Queues L debug) (s : Server)
        → start L debug xxhash join disk now config entries ≡ done (qs, s)
        → Reachable disk
            (record { queues = qs; pending = []; held = free; clients = []; server = s })
    worked : {y z : System} → Reachable disk y → WorkerStep y z → Reachable disk z
    looped : {y z : System} → Reachable disk y → LoopStep y z → Reachable disk z
