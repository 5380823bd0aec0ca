-- ===== src/System/Commands/Settings.antt =====
-- src/server.rs, `Dispatch`: what every command tells the event loop.
use floki.Prelude.{
  ℕ, ◌≡◌, refl, ap, Bool-cases, ◌||◌, Option-cases, inl, inr, List, [], ◌∷◌, codes, Outcome, same,
  true, false, arith, ltb,
}
use floki.Config.{QueueConfig}
use floki.Collections.{LinkedHashMap}
use floki.Channel.{InFlightState, QueueError}
use floki.Queue.{lookup}
use floki.Protocol.{Value, nil, int, bytes, array, status, error, message, count}
use floki.Server.Commands.{Queues, Done, data_only}
use floki.Server.Commands.Meta.{set, del}
use floki.System.Locking.{is_creating_or_deleting, takes_meta_lock}
use floki.Server.Commands.Settings.{
  Json, splitn, starts_with, config_set_parts, config_set, config, info_queue, info, Environment,
  run, dispatch,
}
use floki.System.Maps.{List-cases}
use floki.System.Shape.{told, told_all}
use floki.System.Commands.{queue_names, queues_shape, Tells, Leaves, Leaves-Tells}
use floki.System.Commands.Reads.{hmget-Leaves, hmset-Leaves}
use floki.System.Commands.Writes.{hdel-Leaves, rpush-Leaves, srem-Leaves}
use floki.System.Commands.Meta.{set-Tells, del-Tells}
use floki.System.Queues.{info-names}

module _ (L : LinkedHashMap InFlightState) (debug : QueueError → List ℕ)
    (to_lowercase : List ℕ → List ℕ) (json : Json) where
  info_queue-shape :
      (clock : ℕ) (prefix : List ℕ) (qs : Queues L debug)
      → queues_shape L debug (info_queue L debug to_lowercase json clock prefix qs).0
        ≡ queues_shape L debug qs
  unfolding info_queue queues_shape
  info_queue-shape clock prefix [] = refl
  info_queue-shape clock prefix ((name, q) ∷ qs) = elim (Bool-cases (starts_with name prefix)) [
    | inl b ↦
        rw (b, info_queue, info-names L q clock)
          (ap (λ r. (name, queue_names L debug q) ∷ r) (info_queue-shape clock prefix qs))
    | inr b ↦
        rw (b, info_queue)
          (ap (λ r. (name, queue_names L debug q) ∷ r) (info_queue-shape clock prefix qs))
  ]

  info-Leaves :
      (clock : ℕ) (args : List (List ℕ)) (qs : Queues L debug)
      → Leaves L debug qs (info L debug to_lowercase json clock args qs)
  unfolding info told_all told
  info-Leaves clock [] qs = (λ _. refl, refl)
  info-Leaves clock (a ∷ []) qs = (λ _. refl, refl)
  info-Leaves clock (a ∷ path ∷ args) qs = elim (List-cases (splitn 2 path)) [
    | inl p ↦ rw (p, info) (λ _. refl, refl)
    | inr (b, more, p) ↦ elim (Bool-cases (same b (codes "queues"))) [
      | inl h ↦
          rw (p, h, info)
            (λ _. refl, info_queue-shape clock (elim more [ [] ↦ [] | prefix ∷ _ ↦ prefix ]) qs)
      | inr h ↦ elim (List-cases more) [
        | inl p' ↦ elim (Bool-cases (same b (codes "server"))) [
          | inl h' ↦ rw (p, p', h, h', info) (λ _. refl, refl)
          | inr h' ↦ rw (p, p', h, h', info) (λ _. refl, refl)
        ]
        | inr (prefix, others, p') ↦ rw (p, p', h, info) (λ _. refl, refl)
      ]
    ]
  ]

  config_set_parts-Leaves :
      (c : QueueConfig) (value : List ℕ) (parts : List (List ℕ)) (qs : Queues L debug)
      → Leaves L debug qs (config_set_parts L debug to_lowercase json c value parts qs)
  unfolding config_set_parts told_all told
  config_set_parts-Leaves c value [] qs = (λ _. refl, refl)
  config_set_parts-Leaves c value (a ∷ []) qs = (λ _. refl, refl)
  config_set_parts-Leaves c value (a ∷ name ∷ []) qs = elim (Bool-cases (same a (codes "server"))) [
    | inl b ↦ rw (b, config_set_parts) (λ _. refl, refl)
    | inr b ↦ rw (b, config_set_parts) (λ _. refl, refl)
  ]
  config_set_parts-Leaves c value (a ∷ queue_name ∷ name ∷ []) qs =
      elim (Bool-cases (same a (codes "queues"))) [
        | inl b ↦ elim (Option-cases (lookup queue_name qs)) [
          | inl p ↦ rw (b, p, config_set_parts) (λ _. refl, refl)
          | inr (q, p) ↦ rw (b, p, config_set_parts) (λ _. refl, refl)
        ]
        | inr b ↦ rw (b, config_set_parts) (λ _. refl, refl)
      ]
  config_set_parts-Leaves c value (a ∷ b ∷ d ∷ e ∷ parts) qs = (λ _. refl, refl)

  config-Leaves :
      (c : QueueConfig) (args : List (List ℕ)) (qs : Queues L debug)
      → Leaves L debug qs (config L debug to_lowercase json c args qs)
  unfolding config config_set told_all
  config-Leaves c [] qs = (λ _. refl, refl)
  config-Leaves c (a ∷ []) qs = (λ _. refl, refl)
  config-Leaves c (a ∷ b ∷ []) qs = (λ _. refl, refl)
  config-Leaves c (a ∷ verb ∷ path ∷ []) qs = elim (Bool-cases (same verb (codes "GET"))) [
    | inl b ↦ rw (b, config) (λ _. refl, refl)
    | inr b ↦ elim (Bool-cases (same verb (codes "SET"))) [
      | inl b' ↦ rw (b, b', config) (λ _. refl, refl)
      | inr b' ↦ rw (b, b', config) (λ _. refl, refl)
    ]
  ]
  config-Leaves c (a ∷ verb ∷ path ∷ value ∷ args) qs =
      elim (Bool-cases (same verb (codes "GET"))) [
        | inl b ↦ rw (b, config) (λ _. refl, refl)
        | inr b ↦ elim (Bool-cases (same verb (codes "SET"))) [
          | inl b' ↦ rw (b, b', config) (config_set_parts-Leaves c value (splitn 3 path) qs)
          | inr b' ↦ rw (b, b', config) (λ _. refl, refl)
        ]
      ]

  -- A predicate of what every command but `SET` and `DEL` leaves, and of their results, where these
  -- are run.
  run_by :
      (e : Environment L debug to_lowercase json) (request : Value) (name : List ℕ)
      (args : List (List ℕ)) (qs : Queues L debug) (P : Outcome (Done L debug) → Type 0)
      → ((o : Outcome (Done L debug)) → Leaves L debug qs o → P o)
      → ((same name (codes "SET") || same name (codes "SETNX")) ≡ true
          → P (set L debug e.xxhash e.load e.is_alphanumeric e.new_config e.clock args qs))
      → (same name (codes "DEL") ≡ true → P (del L debug args qs))
      → P (run L debug to_lowercase json e request name args qs)
  unfolding run told_all
  run_by e request name args qs P by_leaves by_set by_del =
      elim (Bool-cases (same name (codes "RPUSH"))) [
        | inl b ↦ rw (b, run) (by_leaves _ (rpush-Leaves L debug e.xxhash e.files e.clock args qs))
        | inr b ↦
            rw (b, run)
              (elim (Bool-cases (same name (codes "HMGET"))) [
                | inl b ↦ rw b (
                    by_leaves _
                      (hmget-Leaves L debug e.max_results e.clock e.tickets request args qs))
                | inr b ↦ rw b (elim (Bool-cases (same name (codes "HDEL"))) [
                  | inl b ↦ rw b (by_leaves _ (hdel-Leaves L debug e.clock args qs))
                  | inr b ↦ rw b (elim (Bool-cases (same name (codes "INFO"))) [
                    | inl b ↦ rw b (by_leaves _ (info-Leaves e.clock args qs))
                    | inr b ↦ rw b (elim (Bool-cases (same name (codes "HMSET"))) [
                      | inl b ↦ rw b (by_leaves _ (hmset-Leaves L debug e.clock args qs))
                      | inr b ↦
                          rw b
                            (elim (Bool-cases
                              (same name (codes "SET") || same name (codes "SETNX"))) [
                                | inl b ↦ rw b (by_set b)
                                | inr b ↦ rw b (elim (Bool-cases (same name (codes "DEL"))) [
                                  | inl b ↦ rw b (by_del b)
                                  | inr b ↦ rw b (elim (Bool-cases (same name (codes "SREM"))) [
                                    | inl b ↦
                                        rw b (by_leaves _ (srem-Leaves L debug e.clock args qs))
                                    | inr b ↦ rw b (elim (Bool-cases (same name (codes "CONFIG"))) [
                                      | inl b ↦
                                          rw b
                                            (by_leaves _ (config-Leaves e.default_config args qs))
                                      | inr b ↦ rw b (by_leaves _ (λ _. refl, refl))
                                    ])
                                  ])
                                ])
                              ])
                    ])
                  ])
                ])
              ])
      ]

  run-Tells :
      (e : Environment L debug to_lowercase json) (request : Value) (name : List ℕ)
      (args : List (List ℕ)) (qs : Queues L debug)
      → Tells L debug qs (run L debug to_lowercase json e request name args qs)
  run-Tells e request name args qs =
      run_by e request name args qs (Tells L debug qs) (Leaves-Tells L debug qs)
        (λ _. set-Tells L debug e.xxhash e.load e.new_config e.is_alphanumeric e.clock args qs)
        (λ _. del-Tells L debug args qs)

  run-Leaves :
      (e : Environment L debug to_lowercase json) (request : Value) (name : List ℕ)
      (args : List (List ℕ)) (qs : Queues L debug)
      → is_creating_or_deleting name ≡ false
      → Leaves L debug qs (run L debug to_lowercase json e request name args qs)
  run-Leaves e request name args qs other =
      run_by e request name args qs (Leaves L debug qs) (λ _ h. h) (λ b. absurd (ground arith))
        (λ b. absurd (ground arith))

  -- Whatever the request and the queues are, a worker's run of it panics or leaves queues whose
  -- names and channels' names are what the notices of the run, each in its turn, make of the names
  -- that were there before.
  pub dispatch-Tells :
      (e : Environment L debug to_lowercase json) (request : Value) (qs : Queues L debug)
      → Tells L debug qs (dispatch L debug to_lowercase json e request qs)
  unfolding dispatch told_all
  dispatch-Tells e (array vs) qs = elim (Bool-cases (ltb 50 (count vs))) [
    | inl b ↦ rw (b, dispatch) refl
    | inr b ↦ elim (Option-cases (data_only vs)) [
      | inl p ↦ rw (b, p, dispatch) refl
      | inr (args, p) ↦ elim (List-cases args) [
        | inl p' ↦ rw (b, p, p', dispatch) refl
        | inr (name, rest, p') ↦
            rw (b, p, p', dispatch) (run-Tells e (array vs) name (name ∷ rest) qs)
      ]
    ]
  ]
  dispatch-Tells e nil qs = refl
  dispatch-Tells e (int _) qs = refl
  dispatch-Tells e (bytes _) qs = refl
  dispatch-Tells e (status _) qs = refl
  dispatch-Tells e (error _) qs = refl
  dispatch-Tells e (message _ _) qs = refl

  -- A request that does not take the meta lock.
  pub dispatch-Leaves :
      (e : Environment L debug to_lowercase json) (request : Value) (qs : Queues L debug)
      → takes_meta_lock request ≡ false
      → Leaves L debug qs (dispatch L debug to_lowercase json e request qs)
  unfolding dispatch told_all takes_meta_lock
  dispatch-Leaves e (array vs) qs other = elim (Bool-cases (ltb 50 (count vs))) [
    | inl b ↦ rw (b, dispatch) (λ _. refl, refl)
    | inr b ↦ elim (Option-cases (data_only vs)) [
      | inl p ↦ rw (b, p, dispatch) (λ _. refl, refl)
      | inr (args, p) ↦ elim (List-cases args) [
        | inl p' ↦ rw (b, p, p', dispatch) (λ _. refl, refl)
        | inr (name, rest, p') ↦
            rw (b, p, p', dispatch)
              (run-Leaves e (array vs) name (name ∷ rest) qs
                (rw (b, p, p', takes_meta_lock) at (other)))
      ]
    ]
  ]
  dispatch-Leaves e nil qs other = (λ _. refl, refl)
  dispatch-Leaves e (int _) qs other = (λ _. refl, refl)
  dispatch-Leaves e (bytes _) qs other = (λ _. refl, refl)
  dispatch-Leaves e (status _) qs other = (λ _. refl, refl)
  dispatch-Leaves e (error _) qs other = (λ _. refl, refl)
  dispatch-Leaves e (message _ _) qs other = (λ _. refl, refl)
