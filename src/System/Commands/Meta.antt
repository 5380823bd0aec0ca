-- ===== src/System/Commands/Meta.antt =====
-- src/server.rs, `Dispatch`: `SET` and `DEL` tell the event loop how they change the queues.
use floki.Prelude.{
  ℕ, ◌≡◌, refl, ap, sym, Bool, Bool-cases, ◌&&◌, ◌||◌, Option-cases, Outcome-cases, inl, inr,
  Option, subst, none, some, List, [], ◌∷◌, ◌++◌, codes, Outcome, done, panic, ◌>>=◌, same, false,
}
use floki.Config.{QueueConfig}
use floki.Segment.{SegmentCheckpoint, FileImage, BackendResult}
use floki.Backend.Upkeep
use floki.Collections.{LinkedHashMap}
use floki.Channel
use floki.Channel.{Channel, InFlightState, QueueError, QueueResult, ok, err}
use floki.Queue
use floki.Queue.{Name, InnerQueue, lookup, replace, discard}
use floki.Server.{insert}
use floki.Server.Clients.{NotifyMessage, queue_delete}
use floki.Server.Commands.{Queues}
use floki.Server.Commands.Meta.{
  create_queue, create_channel, set, take_queue, delete_queue, delete_channel, del,
  check_identifier_str, last_is,
}
use floki.Server.Commands.Notices.{create_channel-none, create_channel-some, create_queue-lookup}
use floki.Server.Commands.Tables.{QueueResult-cases}
use floki.System.Maps.{
  names, lookup-with_values, replace-with_values, discard-with_values, append-with_values,
}
use floki.System.Shape.{Shape, told, told_all}
use floki.System.Commands.{queue_names, queues_shape, Tells, queue_found, queue_kept}

abbrev IsNone : {A : Type 0} → Option A → Type 0
IsNone none = Unit
IsNone (some _) = ⊥

abbrev or_none : {A : Type 0} → A → Option A → A
or_none a none = a
or_none a (some b) = b

pub told_all-append :
    (ms ns : List NotifyMessage) (sh : Shape)
    → told_all (ms ++ ns) sh ≡ (told_all ms sh >>= told_all ns)
unfolding told_all
told_all-append [] ns sh = refl
told_all-append (m ∷ ms) ns sh = elim (Outcome-cases (told m sh)) [
  | inl p ↦ rw (p, told_all) refl
  | inr (sh', p) ↦ rw (p, told_all) (told_all-append ms ns sh')
]

module _ (L : LinkedHashMap InFlightState) (debug : QueueError → List ℕ) where
  pub no_queue :
      (name : Name) (qs : Queues L debug)
      → lookup name qs ≡ none
      → lookup name (queues_shape L debug qs) ≡ none
  unfolding queues_shape
  no_queue name qs e = rw (lookup-with_values (queue_names L debug) name qs, e) refl

  pub create_channel-Tells :
      (clock : ℕ) (name : Name) (q : InnerQueue L) (channel_name : Name) (use_existing : Bool)
      (qs : Queues L debug)
      → lookup name qs ≡ some q
      → (let r = create_channel L debug clock name q channel_name use_existing in
          told_all r.1 (queues_shape L debug qs)
          ≡ done (queues_shape L debug (replace name r.0 qs)))
  unfolding create_channel told_all told queues_shape
  create_channel-Tells clock name q channel_name use_existing qs e =
      elim (Option-cases (lookup channel_name q.channels)) [
        | inl p ↦
            let made = create_channel-none L debug q channel_name clock p in
            let c = Channel.new L clock q.backend.head in
            let q' = record q { channels = q.channels ++ (channel_name, c) ∷ [] } in
            let unknown : lookup channel_name (names q.channels) ≡ none =
              rw (lookup-with_values {V = Channel L} (λ _. tt) channel_name q.channels, p) refl in
            let added : insert channel_name tt (names q.channels) ≡ queue_names L debug q' =
              rw (unknown, insert)
                (sym (
                  append-with_values {V = Channel L} (λ _. tt) q.channels
                    ((channel_name, c) ∷ []))) in
            rw (made, create_channel, made, told_all, told, queue_found L debug name q qs e, added)
              (ap done (sym (replace-with_values (queue_names L debug) name q' qs)))
        | inr (c, p) ↦
            let made = create_channel-some L debug q channel_name clock c p in
            rw (made, create_channel, made) (ap done (sym (queue_kept L debug name q q qs e refl)))
      ]

  module _ (xxhash : List ℕ → ℕ) (load : SegmentCheckpoint → BackendResult FileImage)
      (new_config : Name → QueueConfig) where
    pub create_queue-Tells :
        (name : Name) (use_existing : Bool) (qs : Queues L debug)
        → (let r = create_queue L debug xxhash load new_config name use_existing qs in
            told_all r.1 (queues_shape L debug qs) ≡ done (queues_shape L debug r.0))
    unfolding create_queue told_all told queues_shape Queue.new Queue.checkpoint
    create_queue-Tells name use_existing qs = elim (Option-cases (lookup name qs)) [
      | inl p ↦
          let q =
            Queue.new L (new_config name) (Upkeep.empty xxhash load (new_config name)) false none in
          rw (p, create_queue, told_all, told, no_queue name qs p)
            (ap done (sym (append-with_values (queue_names L debug) qs ((name, q) ∷ []))))
      | inr (q, p) ↦ rw (p, create_queue) refl
    ]

    both-Tells :
        (clock : ℕ) (name channel_name : Name) (nx_flag : Bool) (qs : Queues L debug)
        (q : InnerQueue L)
        → (create_queue L debug xxhash load new_config name nx_flag qs).2 ≡ ok q
        → (let r = create_queue L debug xxhash load new_config name nx_flag qs in
            let r' = create_channel L debug clock name q channel_name nx_flag in
            told_all (r.1 ++ r'.1) (queues_shape L debug qs)
            ≡ done (queues_shape L debug (replace name r'.0 r.0)))
    both-Tells clock name channel_name nx_flag qs q e =
        let r = create_queue L debug xxhash load new_config name nx_flag qs in
        let r' = create_channel L debug clock name q channel_name nx_flag in
        rw (told_all-append r.1 r'.1 (queues_shape L debug qs), create_queue-Tells name nx_flag qs)
          (create_channel-Tells clock name q channel_name nx_flag r.0
            (create_queue-lookup L debug xxhash load new_config name nx_flag qs q e))

    pub set-Tells :
        (is_alphanumeric : ℕ → Bool) (clock : ℕ) (args : List (List ℕ)) (qs : Queues L debug)
        → Tells L debug qs (set L debug xxhash load is_alphanumeric new_config clock args qs)
    unfolding set told_all
    set-Tells is_alphanumeric clock [] qs = refl
    set-Tells is_alphanumeric clock (a ∷ []) qs = refl
    set-Tells is_alphanumeric clock (a ∷ b ∷ []) qs = refl
    set-Tells is_alphanumeric clock (a ∷ name ∷ channel_name ∷ args) qs =
        let nx_flag = same a (codes "SETNX") || last_is (codes "NX") args in
        let r = create_queue L debug xxhash load new_config name nx_flag qs in
        elim (Bool-cases (
          check_identifier_str is_alphanumeric name
          && check_identifier_str is_alphanumeric channel_name)) [
            | inr b ↦ rw (b, set) refl
            | inl b ↦ elim (QueueResult-cases r.2) [
              | inl (e, p) ↦ rw (b, p, set) (create_queue-Tells name nx_flag qs)
              | inr (q, p) ↦
                  let r' = create_channel L debug clock name q channel_name nx_flag in
                  let told_both = both-Tells clock name channel_name nx_flag qs q p in
                  elim (QueueResult-cases r'.2) [
                    | inl (e, p') ↦ rw (b, p, p', set) told_both
                    | inr (_, p') ↦ rw (b, p, p', set) told_both
                  ]
            ]
          ]

  pub delete_channel-Tells :
      (name : Name) (q : InnerQueue L) (channel_name : Name) (qs : Queues L debug)
      → lookup name qs ≡ some q
      → (let r = delete_channel L debug name q channel_name in
          told_all r.1 (queues_shape L debug qs)
          ≡ done (queues_shape L debug (replace name r.0 qs)))
  unfolding delete_channel told_all told queues_shape Queue.delete_channel
  delete_channel-Tells name q channel_name qs e =
      elim (Option-cases (lookup channel_name q.channels)) [
        | inl p ↦
            rw (p, delete_channel, Queue.delete_channel)
              (ap done (sym (queue_kept L debug name q q qs e refl)))
        | inr (c, p) ↦
            let q' = record q { channels = discard channel_name q.channels } in
            let known : lookup channel_name (names q.channels) ≡ some tt =
              rw (lookup-with_values {V = Channel L} (λ _. tt) channel_name q.channels, p) refl in
            let gone : discard channel_name (names q.channels) ≡ queue_names L debug q' =
              sym (discard-with_values {V = Channel L} (λ _. tt) channel_name q.channels) in
            rw
              (
                p,
                delete_channel,
                Queue.delete_channel,
                told_all,
                told,
                queue_found L debug name q qs e,
                known,
                gone,
              )
              (ap done (sym (replace-with_values (queue_names L debug) name q' qs)))
      ]

  -- Before there is an answer.
  abbrev pub Told : Queues L debug → Outcome (Queues L debug × List NotifyMessage) → Type 0
  Told qs panic = Unit
  Told qs (done (qs', notices)) =
      told_all notices (queues_shape L debug qs) ≡ done (queues_shape L debug qs')

  -- The queue is away, and the notice of it is still to be sent.
  pub take_queue-told :
      (name : Name) (qs qs' : Queues L debug)
      → take_queue L debug name qs ≡ some qs'
      → told_all (queue_delete name ∷ []) (queues_shape L debug qs)
        ≡ done (queues_shape L debug qs')
  unfolding take_queue told_all told queues_shape
  take_queue-told name qs qs' e = elim (Option-cases (lookup name qs)) [
    | inl p ↦ absurd (subst IsNone (rw (p, take_queue) at (e)) tt)
    | inr (q, p) ↦
        let left : discard name qs ≡ qs' = ap (or_none qs) (rw (p, take_queue) at (e)) in
        rw (told_all, told, queue_found L debug name q qs p, sym left)
          (ap done (sym (discard-with_values (queue_names L debug) name qs)))
  ]

  pub delete_queue-Told :
      (name : Name) (q : InnerQueue L) (qs : Queues L debug)
      → Told qs (delete_queue L debug name q qs)
  unfolding delete_queue told_all
  delete_queue-Told name q qs = elim (Option-cases (take_queue L debug name qs)) [
    | inl t ↦ rw (t, delete_queue) refl
    | inr (qs', t) ↦ elim (Outcome-cases (Queue.delete L q)) [
      | inl p ↦ rw (t, p, delete_queue) tt
      | inr (gone, p) ↦ rw (t, p, delete_queue) (take_queue-told name qs qs' t)
    ]
  ]

  pub del-Tells :
      (args : List (List ℕ)) (qs : Queues L debug) → Tells L debug qs (del L debug args qs)
  unfolding del told_all
  del-Tells [] qs = refl
  del-Tells (a ∷ []) qs = refl
  del-Tells (a ∷ name ∷ []) qs = elim (Option-cases (lookup name qs)) [
    | inl e ↦ rw (e, del) refl
    | inr (q, e) ↦
        let told_it = delete_queue-Told name q qs in
        elim (Outcome-cases (delete_queue L debug name q qs)) [
          | inl p ↦ rw (e, p, del) tt
          | inr (gone, p) ↦ rw (e, p, del) (rw p at told_it)
        ]
  ]
  del-Tells (a ∷ name ∷ channel_name ∷ args) qs = elim (Option-cases (lookup name qs)) [
    | inl e ↦ rw (e, del) refl
    | inr (q, e) ↦ rw (e, del) (delete_channel-Tells name q channel_name qs e)
  ]
