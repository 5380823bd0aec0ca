-- ===== src/Server/Commands/Meta.antt =====
-- src/server.rs, `Dispatch`: the commands that create and delete queues and channels, and what they
-- tell the event loop.
use floki.Prelude.{
  ℕ, Bool, true, false, ◌&&◌, ◌||◌, Option, none, some, List, [], ◌∷◌, ◌++◌, codes, Outcome, done,
  ◌>>=◌, ◌==◌, same, if◌then◌else◌,
}
use floki.Config.{QueueConfig}
use floki.Segment.{SegmentCheckpoint, FileImage, BackendResult}
use floki.Backend.Upkeep
use floki.Collections.{LinkedHashMap}
use floki.Channel.{InFlightState, QueueError, queue_already_exists, QueueResult, ok, err}
use floki.Queue
use floki.Queue.{Name, InnerQueue, lookup, replace, discard}
use floki.Server.Clients.{NotifyMessage, channel_create, channel_delete, queue_create, queue_delete}
use floki.Server.Commands.{with_ok, with_error, with_int, Queues, Done, from_error, refuse}

-- `all`, over the bytes of an identifier; `is_alphanumeric` is that of a `char`.
unfoldable pub check_identifier_str : (ℕ → Bool) → List ℕ → Bool
check_identifier_str is_alphanumeric [] = true
check_identifier_str is_alphanumeric (b ∷ bs) =
    let rest = check_identifier_str is_alphanumeric bs in (is_alphanumeric b || b == b'_') && rest

-- Whether the last argument is so.
unfoldable pub last_is : List ℕ → List (List ℕ) → Bool
last_is text [] = false
last_is text (a ∷ []) = same a text
last_is text (a ∷ b ∷ args) = last_is text (b ∷ args)

module _ (L : LinkedHashMap InFlightState) (debug : QueueError → List ℕ) where
  -- `new_config` is `ServerConfig::new_queue_config`, and `load` opens files, of which a new queue has
  -- none.
  abbrev pub new_queue :
      (List ℕ → ℕ)
      → (SegmentCheckpoint → BackendResult FileImage)
      → (Name → QueueConfig)
      → Name
      → InnerQueue L
  new_queue xxhash load new_config name =
      Queue.new L (new_config name) (Upkeep.empty xxhash load (new_config name)) false none

  -- The answer is whether there is such a queue now.
  unfoldable pub create_queue :
      (List ℕ → ℕ)
      → (SegmentCheckpoint → BackendResult FileImage)
      → (Name → QueueConfig)
      → Name
      → Bool
      → Queues L debug
      → Queues L debug × List NotifyMessage × QueueResult (InnerQueue L)
  create_queue xxhash load new_config name use_existing qs = elim (lookup name qs) [
    | some q ↦ (qs, [], if use_existing then ok q else err queue_already_exists)
    | none ↦
        let q = new_queue xxhash load new_config name in
        (qs ++ (name, q) ∷ [], queue_create name ∷ [], ok q)
  ]

  unfoldable pub create_channel :
      ℕ
      → Name
      → InnerQueue L
      → Name
      → Bool
      → InnerQueue L × List NotifyMessage × QueueResult (Unit {0})
  create_channel clock name q channel_name use_existing =
      let (q', r) = Queue.create_channel L q channel_name clock in
      elim r [
        | ok _ ↦ (q', channel_create name channel_name ∷ [], ok tt)
        | err e ↦ (q', [], if use_existing then ok tt else err e)
      ]

  -- `SET` with `NX`, and `SETNX`, leave what exists.
  unfoldable pub set :
      (List ℕ → ℕ)
      → (SegmentCheckpoint → BackendResult FileImage)
      → (ℕ → Bool)
      → (Name → QueueConfig)
      → ℕ
      → List (List ℕ)
      → Queues L debug
      → Outcome (Done L debug)
  unfolding check_identifier_str last_is create_queue create_channel from_error
  set xxhash load is_alphanumeric new_config clock (command ∷ queue_name ∷ channel_name ∷ args) qs =
      let nx_flag = same command (codes "SETNX") || last_is (codes "NX") args in
      if check_identifier_str is_alphanumeric queue_name
        && check_identifier_str is_alphanumeric channel_name
      then (let (qs', notices, r) = create_queue xxhash load new_config queue_name nx_flag qs in
          elim r [
            | err e ↦ done (qs', notices, from_error L debug e)
            | ok q ↦
                let (q', notices', r') = create_channel clock queue_name q channel_name nx_flag in
                let qs'' = replace queue_name q' qs' in
                elim r' [
                  | err e ↦ done (qs'', notices ++ notices', from_error L debug e)
                  | ok _ ↦ done (qs'', notices ++ notices', with_ok)
                ]
          ])
      else refuse L debug qs (with_error (codes "IPA Invalid Identifier Name"))
  set xxhash load is_alphanumeric new_config clock _ qs =
      refuse L debug qs (with_error (codes "MPA Queue or Channel Missing"))

  -- The `remove` from the map: `none` if the queue is not there.
  unfoldable pub take_queue : Name → Queues L debug → Option (Queues L debug)
  take_queue name qs = elim (lookup name qs) [ none ↦ none | some _ ↦ some (discard name qs) ]

  -- Nothing is done if another worker has taken the queue. The wait until no other worker has it is not
  -- in the result of a run that ends: System.Steps and Server.Deletion have it. `delete` empties the
  -- queue.
  unfoldable pub delete_queue :
      Name → InnerQueue L → Queues L debug → Outcome (Queues L debug × List NotifyMessage)
  unfolding take_queue
  delete_queue name q qs = elim (take_queue name qs) [
    | none ↦ done (qs, [])
    | some qs' ↦ do _ ← Queue.delete L q; done (qs', queue_delete name ∷ [])
  ]

  unfoldable pub delete_channel :
      Name → InnerQueue L → Name → InnerQueue L × List NotifyMessage × QueueResult (Unit {0})
  delete_channel name q channel_name =
      let (q', r) = Queue.delete_channel L q channel_name in
      (q', elim r [ ok _ ↦ channel_delete name channel_name ∷ [] | err _ ↦ [] ], r)

  unfoldable pub del : List (List ℕ) → Queues L debug → Outcome (Done L debug)
  unfolding delete_queue delete_channel
  del (_ ∷ queue_name ∷ args) qs = elim (lookup queue_name qs) [
    | none ↦ refuse L debug qs (with_int 0)
    | some q ↦ elim args [
      | [] ↦ do (qs', notices) ← delete_queue queue_name q qs; done (qs', notices, with_int 1)
      | channel_name ∷ _ ↦
          let (q', notices, r) = delete_channel queue_name q channel_name in
          let qs' = replace queue_name q' qs in
          done (qs', notices, elim r [ ok _ ↦ with_int 1 | err _ ↦ with_int 0 ])
    ]
  ]
  del _ qs = refuse L debug qs (with_error (codes "MPA Queue Missing"))
