-- ===== src/Server/Commands/Notices.antt =====
-- src/server.rs: what `SET` tells the event loop fits the tables that the event loop keeps.
use floki.Prelude.{
  ℕ, ◌≡◌, refl, ap, subst, ◌∙◌, Bool, Bool-cases, false, ◌&&◌, ◌||◌, Option-cases, Outcome-cases,
  inl, inr, Option, none, some, List, [], ◌∷◌, ◌++◌, codes, Outcome, done, ◌>>=◌, Returns, same,
}
use floki.Config.{QueueConfig}
use floki.Segment.{SegmentCheckpoint, FileImage, BackendResult}
use floki.Backend.Upkeep
use floki.Collections.{LinkedHashMap}
use floki.Channel
use floki.Channel.{
  Channel, InFlightState, QueueError, QueueResult, ok, err, queue_already_exists,
  channel_already_exists,
}
use floki.Queue
use floki.Queue.{Name, InnerQueue, lookup, replace}
use floki.Server.{WaitingClients, Server, insert, notify_queue_created, notify_channel_created}
use floki.Server.Clients.{NotifyMessage, channel_create, notify_server}
use floki.Server.Commands.{Queues}
use floki.Server.Commands.Meta.{create_queue, create_channel, set, check_identifier_str, last_is}
use floki.Server.Commands.Tables.{
  QueueResult-cases, same_refl, lookup-snoc, lookup-replace_same, lookup-replace_other, AreBoth,
  Mirrors, table_of, replace-Mirrors, channel_added, no_table, unknown_queue, queue_added,
}

-- The event loop takes the notices one after the other.
unfoldable pub deliver : List NotifyMessage → Server → Outcome Server
deliver [] s = done s
deliver (msg ∷ msgs) s = do s' ← notify_server msg s; deliver msgs s'

module _ (L : LinkedHashMap InFlightState) (debug : QueueError → List ℕ) where
  pub create_channel-none :
      (q : InnerQueue L) (name : Name) (clock : ℕ)
      → lookup name q.channels ≡ none
      → Queue.create_channel L q name clock ≡ (
        record q { channels = q.channels ++ (name, Channel.new L clock q.backend.head) ∷ [] },
        ok tt,
      )
  unfolding Queue.create_channel
  create_channel-none q name clock e = rw (e, Queue.create_channel) refl

  pub create_channel-some :
      (q : InnerQueue L) (name : Name) (clock : ℕ) (c : Channel L)
      → lookup name q.channels ≡ some c
      → Queue.create_channel L q name clock ≡ (q, err channel_already_exists)
  unfolding Queue.create_channel
  create_channel-some q name clock c e = rw (e, Queue.create_channel) refl

  create_channel_lem :
      (clock : ℕ) (name : Name) (q : InnerQueue L) (channel_name : Name) (use_existing : Bool)
      (qs : Queues L debug) (s : Server)
      → Mirrors L debug qs s
      → lookup name qs ≡ some q
      → (let r = create_channel L debug clock name q channel_name use_existing in
          Returns (λ s'. Mirrors L debug (replace name r.0 qs) s') (deliver r.1 s))
  unfolding create_channel deliver notify_server notify_channel_created
  create_channel_lem clock name q channel_name use_existing qs s mirrors e =
      let (w, e', both) = table_of L debug name q qs s mirrors e in
      elim (Option-cases (lookup channel_name q.channels)) [
        | inl p ↦
            let none_there : lookup channel_name w.channels ≡ none =
              no_table L debug channel_name q w both p in
            let q' = record q {
              channels = q.channels ++ (channel_name, Channel.new L clock q.backend.head) ∷ [];
            } in
            let w' = record w { channels = insert channel_name [] w.channels } in
            let s' = record s { waiting_clients = replace name w' s.waiting_clients } in
            let inserted : insert channel_name [] w.channels
                ≡ w.channels ++ (channel_name, []) ∷ [] =
              rw (none_there, insert) refl in
            let made = create_channel-none q channel_name clock p in
            let step : create_channel L debug clock name q channel_name use_existing
                ≡ (q', channel_create name channel_name ∷ [], ok tt) =
              rw (made, create_channel, made) refl in
            let told : notify_channel_created name channel_name s ≡ done s' =
              rw (e', notify_channel_created) refl in
            rw (step, told, deliver, ◌>>=◌)
              (replace-Mirrors L debug name q q' w' qs s s' mirrors e
                (lookup-replace_same name w' w s.waiting_clients e')
                (λ m other. lookup-replace_other m name w' s.waiting_clients other)
                (λ n. rw inserted (
                  channel_added L debug channel_name (Channel.new L clock q.backend.head) []
                    q.channels w.channels both n)))
        | inr (c, p) ↦
            let there = create_channel-some q channel_name clock c p in
            rw (there, create_channel, there)
              (replace-Mirrors L debug name q q w qs s s mirrors e e' (λ _ _. refl) both)
      ]

  create_queue_lem :
      (xxhash : List ℕ → ℕ) (load : SegmentCheckpoint → BackendResult FileImage)
      (new_config : Name → QueueConfig) (name : Name) (use_existing : Bool) (qs : Queues L debug)
      (s : Server)
      → Mirrors L debug qs s
      → (let r = create_queue L debug xxhash load new_config name use_existing qs in
          Returns (λ s'. Mirrors L debug r.0 s') (deliver r.1 s))
  unfolding create_queue deliver notify_server notify_queue_created Queue.new Queue.checkpoint
  create_queue_lem xxhash load new_config name use_existing qs s mirrors =
      elim (Option-cases (lookup name qs)) [
        | inl p ↦
            let q =
              Queue.new L (new_config name) (Upkeep.empty xxhash load (new_config name)) false
                none in
            let w : WaitingClients = record { head = 0; channels = [] } in
            let none_there : lookup name s.waiting_clients ≡ none =
              unknown_queue L debug name qs s mirrors p in
            let s' = record s { waiting_clients = insert name w s.waiting_clients } in
            let inserted : insert name w s.waiting_clients ≡ s.waiting_clients ++ (name, w) ∷ [] =
              rw (none_there, insert) refl in
            let told : notify_queue_created name s ≡ done s' =
              rw (none_there, notify_queue_created) refl in
            rw (p, create_queue, told, deliver, ◌>>=◌)
              (rw inserted (queue_added L debug name q w qs s mirrors (λ ch. tt)))
        | inr (q, p) ↦ rw (p, create_queue) mirrors
      ]

  deliver-append :
      (ms ns : List NotifyMessage) (s : Server)
      → deliver (ms ++ ns) s ≡ (deliver ms s >>= λ s'. deliver ns s')
  unfolding deliver
  deliver-append [] ns s = refl
  deliver-append (m ∷ ms) ns s = elim (Outcome-cases (notify_server m s)) [
    | inl p ↦ rw (p, deliver, ◌>>=◌) refl
    | inr (s', p) ↦ rw (p, deliver, ◌>>=◌) (deliver-append ms ns s')
  ]

  abbrev value_of : {A : Type 0} → QueueResult A → Option A
  value_of (ok a) = some a
  value_of (err e) = none

  module _ (xxhash : List ℕ → ℕ) (load : SegmentCheckpoint → BackendResult FileImage)
      (new_config : Name → QueueConfig) where
    pub create_queue-lookup :
        (name : Name) (use_existing : Bool) (qs : Queues L debug) (q : InnerQueue L)
        → (create_queue L debug xxhash load new_config name use_existing qs).2 ≡ ok q
        → lookup name (create_queue L debug xxhash load new_config name use_existing qs).0 ≡ some q
    unfolding create_queue
    create_queue-lookup name use_existing qs q e = elim (Option-cases (lookup name qs)) [
      | inl p ↦
          let q' =
            Queue.new L (new_config name) (Upkeep.empty xxhash load (new_config name)) false none in
          let answer : ok q' ≡ ok q = rw (p, create_queue) at e in
          let made : some q' ≡ some q = ap value_of answer in
          let added : lookup name (qs ++ (name, q') ∷ []) ≡ some q' =
            lookup-snoc name name q' qs ∙ rw (p, same_refl name) refl in
          rw (p, create_queue) (added ∙ made)
      | inr (q', p) ↦ elim (Bool-cases use_existing) [
        | inl b ↦
            let answer : ok q' ≡ ok q = rw (p, b, create_queue) at e in
            let same_queue : some q' ≡ some q = ap value_of answer in
            rw (p, create_queue) (p ∙ same_queue)
        | inr b ↦
            let answer : err queue_already_exists ≡ ok q = rw (p, b, create_queue) at e in
            let no_queue : none ≡ some q = ap value_of answer in
            absurd (subst (λ o. AreBoth {A = InnerQueue L} none o) no_queue tt)
      ]
    ]

    -- The answers to both steps, delivered one after the other.
    both_delivered :
        (clock : ℕ) (name channel_name : Name) (nx_flag : Bool) (qs : Queues L debug) (s : Server)
        (q : InnerQueue L)
        → Mirrors L debug qs s
        → (create_queue L debug xxhash load new_config name nx_flag qs).2 ≡ ok q
        → (let r = create_queue L debug xxhash load new_config name nx_flag qs in
            let r' = create_channel L debug clock name q channel_name nx_flag in
            Returns (λ s'. Mirrors L debug (replace name r'.0 r.0) s') (deliver (r.1 ++ r'.1) s))
    both_delivered clock name channel_name nx_flag qs s q mirrors e =
        let r = create_queue L debug xxhash load new_config name nx_flag qs in
        let r' = create_channel L debug clock name q channel_name nx_flag in
        let first = create_queue_lem xxhash load new_config name nx_flag qs s mirrors in
        elim (Outcome-cases (deliver r.1 s)) [
          | inl p ↦ absurd (rw p at first)
          | inr (s', p) ↦
              let mirrors' : Mirrors L debug r.0 s' = rw p at first in
              rw (deliver-append r.1 r'.1 s, p, ◌>>=◌)
                (create_channel_lem clock name q channel_name nx_flag r.0 s' mirrors'
                  (create_queue-lookup name nx_flag qs q e))
        ]

    -- If the event loop has a table for each queue, with the same channels, and for nothing else,
    -- then `SET` and `SETNX`, whatever their arguments, do not panic, and the event loop takes
    -- their notices in order without a panic and then has again a table for each queue with the
    -- same channels.
    pub set-Mirrors :
        (is_alphanumeric : ℕ → Bool) (clock : ℕ) (args : List (List ℕ)) (qs : Queues L debug)
        (s : Server)
        → Mirrors L debug qs s
        → Returns
            (λ (qs', notices, answer). Returns (λ s'. Mirrors L debug qs' s') (deliver notices s))
            (set L debug xxhash load is_alphanumeric new_config clock args qs)
    unfolding set deliver
    set-Mirrors is_alphanumeric clock [] qs s mirrors = mirrors
    set-Mirrors is_alphanumeric clock (a ∷ []) qs s mirrors = mirrors
    set-Mirrors is_alphanumeric clock (a ∷ b ∷ []) qs s mirrors = mirrors
    set-Mirrors is_alphanumeric clock (a ∷ name ∷ channel_name ∷ args) qs s mirrors =
        let nx_flag = same a (codes "SETNX") || last_is (codes "NX") args in
        let r = create_queue L debug xxhash load new_config name nx_flag qs in
        elim (Bool-cases (
          check_identifier_str is_alphanumeric name
          && check_identifier_str is_alphanumeric channel_name)) [
            | inr b ↦ rw (b, set) mirrors
            | inl b ↦ elim (QueueResult-cases r.2) [
              | inl (e, p) ↦
                  rw (b, p, set) (create_queue_lem xxhash load new_config name nx_flag qs s mirrors)
              | inr (q, p) ↦
                  let r' = create_channel L debug clock name q channel_name nx_flag in
                  let done_both = both_delivered clock name channel_name nx_flag qs s q mirrors p in
                  elim (QueueResult-cases r'.2) [
                    | inl (e, p') ↦ rw (b, p, p', set) done_both
                    | inr (_, p') ↦ rw (b, p, p', set) done_both
                  ]
            ]
          ]
