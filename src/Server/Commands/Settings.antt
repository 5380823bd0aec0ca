-- ===== src/Server/Commands/Settings.antt =====
-- src/server.rs, `Dispatch`: the commands that read and set the configuration or show the state, and
-- the choice of a command. Texts in JSON are the `rustc_serialize` crate's, and so parameters, as is
-- `to_lowercase` of the standard library.
use floki.Prelude.{
  ℕ, zero, suc, ◌/◌, Bool, true, false, ◌&&◌, ◌||◌, Option, none, some, List, [], ◌∷◌, codes,
  Outcome, done, u32, ltb, ◌==◌, same, if◌then◌else◌,
}
use floki.Config
use floki.Config.{QueueConfig, ConfigResult, parse_duration, parse_size}
use floki.Segment.{SegmentCheckpoint, FileImage, BackendResult}
use floki.Collections.{LinkedHashMap}
use floki.Channel.{InFlightState, QueueError, queue_not_found}
use floki.Queue
use floki.Queue.{Name, QueueInfo, InnerQueue, lookup, replace}
use floki.Protocol.{
  Value, nil, int, bytes, array, status, error, message, none_left, one_more, count,
}
use floki.Server.Clients.{NotifyMessage, response, server_info, server_set_config}
use floki.Server.Commands.{with_ok, with_error, data_only, Queues, Done, from_error, refuse}
use floki.Server.Commands.Messages.{hmset, hmget, rpush, hdel, srem}
use floki.Server.Commands.Meta.{set, del}

-- `queue_config_set!`: the configuration with the key set, or the answer.
module _ (to_lowercase : List ℕ → List ℕ) where
  abbrev pub with_duration :
      List ℕ
      → (ℕ → QueueConfig)
      → QueueConfig × Option NotifyMessage
      → QueueConfig × Option NotifyMessage
  with_duration value change (c, _) = elim (parse_duration to_lowercase value) [
    | Config.err _ ↦ (c, some (with_error (codes "IPA Invalid Duration Value")))
    | Config.ok ms ↦ (change (u32 (ms / 1000)), none)
  ]

  abbrev pub with_size :
      List ℕ
      → (ℕ → QueueConfig)
      → QueueConfig × Option NotifyMessage
      → QueueConfig × Option NotifyMessage
  with_size value change (c, _) = elim (parse_size to_lowercase value) [
    | Config.err _ ↦ (c, some (with_error (codes "IPA Invalid Size Value")))
    | Config.ok n ↦ (change n, none)
  ]

  unfoldable pub queue_config_set :
      QueueConfig → List ℕ → List ℕ → QueueConfig × Option NotifyMessage
  queue_config_set c key value =
      if same key (codes "message_timeout")
      then with_duration value (λ n. record c { message_timeout = n }) (c, none)
      else if same key (codes "segment_size")
      then with_size value (λ n. record c { segment_size = n }) (c, none)
      else if same key (codes "retention_size")
      then with_size value (λ n. record c { retention_size = n }) (c, none)
      else if same key (codes "hard_retention_size")
      then with_size value (λ n. record c { hard_retention_size = n }) (c, none)
      else if same key (codes "retention_period")
      then with_duration value (λ n. record c { retention_period = n }) (c, none)
      else if same key (codes "hard_retention_period")
      then with_duration value (λ n. record c { hard_retention_period = n }) (c, none)
      else (c, some (with_error (codes "IPA Invalid CONFIG SET parameter")))

-- `splitn(n, ".")` for `n` of one or more: at most `n` parts.
unfoldable pub splitn : ℕ → List ℕ → List (List ℕ)
splitn zero text = []
splitn (suc n) [] = [] ∷ []
splitn (suc n) (c ∷ cs) =
    let next = splitn n cs in
    let rest = splitn (suc n) cs in
    if (c == b'.') && ltb 0 n
    then [] ∷ next
    else elim rest [ [] ↦ (c ∷ []) ∷ [] | part ∷ parts ↦ (c ∷ part) ∷ parts ]

unfoldable pub starts_with : List ℕ → List ℕ → Bool
starts_with text [] = true
starts_with [] (d ∷ prefix) = false
starts_with (c ∷ text) (d ∷ prefix) = (c == d) && starts_with text prefix

abbrev pub one_data : List ℕ → NotifyMessage
one_data json = response (array (one_more (bytes json) none_left))

-- The crate's texts. Those of the server come from the event loop or its configuration.
pub record Json : Type 0 where
  pub server_config : List ℕ
  pub server_info : List ℕ
  pub queue_configs : List (Name × QueueConfig) → List ℕ
  pub queue_infos : List (Name × QueueInfo) → List ℕ

module _ (L : LinkedHashMap InFlightState) (debug : QueueError → List ℕ)
    (to_lowercase : List ℕ → List ℕ) (json : Json) where
  unfoldable pub config_queue_get : List ℕ → Queues L debug → List (Name × QueueConfig)
  unfolding starts_with
  config_queue_get prefix [] = []
  config_queue_get prefix ((name, q) ∷ qs) =
      let rest = config_queue_get prefix qs in
      if same prefix (codes "*") || starts_with name prefix then (name, q.config) ∷ rest else rest

  unfoldable pub config_get : List ℕ → Queues L debug → NotifyMessage
  unfolding splitn config_queue_get
  config_get path qs = elim (splitn 2 path) [
    | [] ↦ with_error (codes "IPA Invalid CONFIG parameter")
    | a ∷ more ↦ elim more [
      | [] ↦
          if same a (codes "server")
          then one_data json.server_config
          else if same a (codes "queues")
          then one_data (json.queue_configs (config_queue_get (codes "*") qs))
          else with_error (codes "IPA Invalid CONFIG parameter")
      | prefix ∷ _ ↦
          if same a (codes "queues")
          then one_data (json.queue_configs (config_queue_get prefix qs))
          else with_error (codes "IPA Invalid CONFIG parameter")
    ]
  ]

  abbrev pub settled : QueueConfig × Option NotifyMessage → NotifyMessage
  settled (c, none) = with_ok
  settled (c, some answer) = answer

  -- The `match` of `config_set`, on the parts of the path. `default_config` is the server's, which the
  -- event loop sets and answers for.
  unfoldable pub config_set_parts :
      QueueConfig → List ℕ → List (List ℕ) → Queues L debug → Outcome (Done L debug)
  unfolding queue_config_set
  config_set_parts default_config value (a ∷ config_name ∷ []) qs =
      if same a (codes "server")
      then done (
        qs,
        server_set_config config_name value 0 ∷ [],
        settled (queue_config_set to_lowercase default_config config_name value),
      )
      else refuse L debug qs (with_error (codes "IPA Invalid CONFIG SET parameter"))
  config_set_parts default_config value (a ∷ queue_name ∷ config_name ∷ []) qs =
      if same a (codes "queues")
      then elim (lookup queue_name qs) [
        | none ↦ refuse L debug qs (from_error L debug queue_not_found)
        | some q ↦
            refuse L debug qs (settled (queue_config_set to_lowercase q.config config_name value))
      ]
      else refuse L debug qs (with_error (codes "IPA Invalid CONFIG SET parameter"))
  config_set_parts default_config value _ qs =
      refuse L debug qs (with_error (codes "IPA Invalid CONFIG SET parameter"))

  unfoldable pub config_set :
      QueueConfig → List ℕ → List ℕ → Queues L debug → Outcome (Done L debug)
  unfolding splitn config_set_parts
  config_set default_config path value qs = config_set_parts default_config value (splitn 3 path) qs

  unfoldable pub config : QueueConfig → List (List ℕ) → Queues L debug → Outcome (Done L debug)
  unfolding config_get config_set
  config default_config (_ ∷ verb ∷ path ∷ args) qs =
      if same verb (codes "GET")
      then refuse L debug qs (config_get path qs)
      else if same verb (codes "SET")
      then elim args [
        | [] ↦ refuse L debug qs (with_error (codes "MPA Missing CONFIG Parameter"))
        | value ∷ _ ↦ config_set default_config path value qs
      ]
      else refuse L debug qs (with_error (codes "IPA Invalid CONFIG Parameter"))
  config default_config _ qs = refuse L debug qs (with_error (codes "MPA Missing CONFIG Parameter"))

  -- The state is read by `info` of each queue, which also marks what has expired.
  unfoldable pub info_queue : ℕ → List ℕ → Queues L debug → Queues L debug × List (Name × QueueInfo)
  unfolding starts_with
  info_queue clock prefix [] = ([], [])
  info_queue clock prefix ((name, q) ∷ qs) =
      let (qs', infos) = info_queue clock prefix qs in
      let (q', shown) = Queue.info L q clock in
      if starts_with name prefix
      then ((name, q') ∷ qs', (name, shown) ∷ infos)
      else ((name, q) ∷ qs', infos)

  unfoldable pub info : ℕ → List (List ℕ) → Queues L debug → Outcome (Done L debug)
  unfolding splitn info_queue
  info clock (_ ∷ path ∷ _) qs = elim (splitn 2 path) [
    | [] ↦ refuse L debug qs (with_error (codes "IPA Invalid INFO parameter"))
    | a ∷ more ↦
        let (qs', infos) = info_queue clock (elim more [ [] ↦ [] | prefix ∷ _ ↦ prefix ]) qs in
        if same a (codes "queues")
        then done (qs', [], one_data (json.queue_infos infos))
        else elim more [
          | [] ↦
              if same a (codes "server")
              then done (qs, server_info 0 ∷ [], one_data json.server_info)
              else refuse L debug qs (with_error (codes "IPA Invalid INFO parameter"))
          | _ ∷ _ ↦ refuse L debug qs (with_error (codes "IPA Invalid INFO parameter"))
        ]
  ]
  info clock _ qs = refuse L debug qs (with_error (codes "MPA Missing INFO Parameter"))

  -- What a worker has besides the request and the queues.
  pub record Environment : Type 0 where
    pub is_alphanumeric : ℕ → Bool
    pub xxhash : List ℕ → ℕ
    pub load : SegmentCheckpoint → BackendResult FileImage
    pub max_results : ℕ
    pub default_config : QueueConfig
    pub new_config : Name → QueueConfig
    pub clock : ℕ
    pub tickets : ℕ → ℕ
    pub files : ℕ → BackendResult FileImage

  unfoldable pub run :
      Environment → Value → List ℕ → List (List ℕ) → Queues L debug → Outcome (Done L debug)
  unfolding config info
  run e request name args qs =
      if same name (codes "RPUSH")
      then rpush L debug e.xxhash e.files e.clock args qs
      else if same name (codes "HMGET")
      then hmget L debug e.max_results e.clock e.tickets request args qs
      else if same name (codes "HDEL")
      then hdel L debug e.clock args qs
      else if same name (codes "INFO")
      then info e.clock args qs
      else if same name (codes "HMSET")
      then hmset L debug e.clock args qs
      else if same name (codes "SET") || same name (codes "SETNX")
      then set L debug e.xxhash e.load e.is_alphanumeric e.new_config e.clock args qs
      else if same name (codes "DEL")
      then del L debug args qs
      else if same name (codes "SREM")
      then srem L debug e.clock args qs
      else if same name (codes "CONFIG")
      then config e.default_config args qs
      else refuse L debug qs (with_error (codes "UCOM Unknown Command"))

  -- The loop over the request, for an array of one to fifty values.
  unfoldable pub dispatch : Environment → Value → Queues L debug → Outcome (Done L debug)
  unfolding run data_only
  dispatch e (array vs) qs =
      if ltb 50 (count vs)
      then refuse L debug qs (with_error (codes "ICOM Invalid Command"))
      else elim (data_only vs) [
        | none ↦ refuse L debug qs (with_error (codes "ICOM Invalid Type"))
        | some args ↦ elim args [
          | [] ↦ refuse L debug qs (with_error (codes "ICOM Invalid Command"))
          | name ∷ rest ↦ run e (array vs) name (name ∷ rest) qs
        ]
      ]
  dispatch e nil qs = refuse L debug qs (with_error (codes "ICOM Invalid Command"))
  dispatch e (int _) qs = refuse L debug qs (with_error (codes "ICOM Invalid Command"))
  dispatch e (bytes _) qs = refuse L debug qs (with_error (codes "ICOM Invalid Command"))
  dispatch e (status _) qs = refuse L debug qs (with_error (codes "ICOM Invalid Command"))
  dispatch e (error _) qs = refuse L debug qs (with_error (codes "ICOM Invalid Command"))
  dispatch e (message _ _) qs = refuse L debug qs (with_error (codes "ICOM Invalid Command"))
