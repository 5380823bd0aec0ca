-- ===== src/System/Shape.antt =====
-- src/server.rs: which queues there are and with which channels, as the notices to the event loop tell
-- it, and what the event loop does to its tables with each notice.
use floki.Prelude.{
  ℕ, ◌≡◌, refl, ap, Option-cases, inl, inr, none, some, List, [], ◌∷◌, ◌++◌, Outcome, done, panic,
  ◌>>=◌, min, length, drop,
}
use floki.Queue.{Name, lookup, replace, discard}
use floki.Server.{
  Waiter, WaitingClients, Server, insert, set_channel, notify_channel, notify_queue_created,
  notify_queue_deleted, notify_channel_created, notify_channel_deleted,
}
use floki.Server.Clients.{
  NotifyMessage, response, put_response, messages_available, get_would_block, channel_create,
  channel_delete, queue_create, queue_delete, server_info, server_set_config, notify_server,
}
use floki.System.Maps.{
  with_values, names, lookup-with_values, replace-with_values, discard-with_values,
  append-with_values, insert-with_values, replace_same,
}

-- The names of the queues, each with those of its channels.
abbrev pub Shape : Type 0
Shape = List (Name × List (Name × Unit {0}))

abbrev pub table_names : WaitingClients → List (Name × Unit {0})
table_names w = names w.channels

unfoldable pub shape : Server → Shape
shape s = with_values table_names s.waiting_clients

-- What a notice says of the queues, where it says something that can be.
unfoldable pub told : NotifyMessage → Shape → Outcome Shape
told (queue_create queue) sh = elim (lookup queue sh) [
  | none ↦ done (sh ++ (queue, []) ∷ [])
  | some _ ↦ panic
]
told (queue_delete queue) sh = elim (lookup queue sh) [
  | none ↦ panic
  | some _ ↦ done (discard queue sh)
]
told (channel_create queue channel) sh = elim (lookup queue sh) [
  | none ↦ panic
  | some cs ↦ done (replace queue (insert channel tt cs) sh)
]
told (channel_delete queue channel) sh = elim (lookup queue sh) [
  | none ↦ panic
  | some cs ↦ elim (lookup channel cs) [
    | none ↦ panic
    | some _ ↦ done (replace queue (discard channel cs) sh)
  ]
]
told (messages_available _ _ _) sh = done sh
told (server_info _) sh = done sh
told (server_set_config _ _ _) sh = done sh
told (response _) sh = panic
told (put_response _ _ _) sh = panic
told (get_would_block _ _ _ _ _) sh = panic

unfoldable pub told_all : List NotifyMessage → Shape → Outcome Shape
told_all [] sh = done sh
told_all (m ∷ ms) sh = told m sh >>= told_all ms

abbrev pub shape_of : Outcome Server → Outcome Shape
shape_of (done s) = done (shape s)
shape_of panic = panic

-- A table is exchanged for one with the same channels.
pub table_kept :
    (queue : Name) (w w' : WaitingClients) (s : Server)
    → lookup queue s.waiting_clients ≡ some w
    → table_names w' ≡ table_names w
    → with_values table_names (replace queue w' s.waiting_clients) ≡ shape s
unfolding shape
table_kept queue w w' s e kept =
    rw (replace-with_values table_names queue w' s.waiting_clients, kept)
      (replace_same queue (table_names w) (with_values table_names s.waiting_clients)
        (rw (lookup-with_values table_names queue s.waiting_clients, e) refl))

-- A list of waiters is exchanged for another.
pub set_channel-shape :
    (queue channel : Name) (w : WaitingClients) (tokens tokens' : List Waiter) (s : Server)
    → lookup queue s.waiting_clients ≡ some w
    → lookup channel w.channels ≡ some tokens
    → shape (set_channel queue channel w tokens' s) ≡ shape s
unfolding shape
set_channel-shape queue channel w tokens tokens' s e e' =
    table_kept queue w (record w { channels = replace channel tokens' w.channels }) s e
      (rw (replace-with_values {V = List Waiter} (λ _. tt) channel tokens' w.channels) (
        replace_same channel tt (names w.channels)
          (rw (lookup-with_values {V = List Waiter} (λ _. tt) channel w.channels, e') refl)))

pub notify_channel-shape :
    (queue channel : Name) (available : ℕ) (s : Server)
    → shape (notify_channel queue channel available s) ≡ shape s
unfolding notify_channel shape
notify_channel-shape queue channel available s =
    elim (Option-cases (lookup queue s.waiting_clients)) [
      | inl p ↦ rw (p, notify_channel) refl
      | inr (w, p) ↦ elim (Option-cases (lookup channel w.channels)) [
        | inl p' ↦ rw (p, p', notify_channel) refl
        | inr (tokens, p') ↦
            rw (p, p', notify_channel)
              (set_channel-shape queue channel w tokens
                (drop (min available (length tokens)) tokens) s p p')
      ]
    ]

-- Whatever the notice, the names of the queues and channels in the event loop's tables change as an
-- abstract map of names does, and the event loop panics exactly where that map has no such change:
-- a queue that is created twice, a queue or channel that is deleted or a channel that is created
-- where there is none, or an answer for a client.
pub notify_server-told :
    (msg : NotifyMessage) (s : Server) → shape_of (notify_server msg s) ≡ told msg (shape s)
unfolding told notify_server notify_queue_created notify_queue_deleted notify_channel_created
    notify_channel_deleted shape
notify_server-told (queue_create queue) s = elim (Option-cases (lookup queue s.waiting_clients)) [
  | inl p ↦
      rw
        (
          p,
          notify_queue_created,
          told,
          insert,
          lookup-with_values table_names queue s.waiting_clients,
          p,
        )
        (ap done (
          append-with_values table_names s.waiting_clients
            ((queue, record { head = 0; channels = [] }) ∷ [])))
  | inr (w, p) ↦
      rw (p, notify_queue_created, told, lookup-with_values table_names queue s.waiting_clients, p)
        refl
]
notify_server-told (queue_delete queue) s = elim (Option-cases (lookup queue s.waiting_clients)) [
  | inl p ↦
      rw (p, notify_queue_deleted, told, lookup-with_values table_names queue s.waiting_clients, p)
        refl
  | inr (w, p) ↦
      rw (p, notify_queue_deleted, told, lookup-with_values table_names queue s.waiting_clients, p)
        (ap done (discard-with_values table_names queue s.waiting_clients))
]
notify_server-told (channel_create queue channel) s =
    elim (Option-cases (lookup queue s.waiting_clients)) [
      | inl p ↦
          rw
            (
              p,
              notify_channel_created,
              told,
              lookup-with_values table_names queue s.waiting_clients,
              p,
            )
            refl
      | inr (w, p) ↦
          rw
            (
              p,
              notify_channel_created,
              told,
              lookup-with_values table_names queue s.waiting_clients,
              p,
              replace-with_values table_names queue
                  (record w { channels = insert channel [] w.channels }) s.waiting_clients,
              insert-with_values {V = List Waiter} (λ _. tt) channel [] w.channels,
            )
            refl
    ]
notify_server-told (channel_delete queue channel) s =
    elim (Option-cases (lookup queue s.waiting_clients)) [
      | inl p ↦
          rw
            (
              p,
              notify_channel_deleted,
              told,
              lookup-with_values table_names queue s.waiting_clients,
              p,
            )
            refl
      | inr (w, p) ↦ elim (Option-cases (lookup channel w.channels)) [
        | inl p' ↦
            rw
              (
                p,
                p',
                notify_channel_deleted,
                told,
                lookup-with_values table_names queue s.waiting_clients,
                p,
                lookup-with_values {V = List Waiter} (λ _. tt) channel w.channels,
                p',
              )
              refl
        | inr (tokens, p') ↦
            rw
              (
                p,
                p',
                notify_channel_deleted,
                told,
                lookup-with_values table_names queue s.waiting_clients,
                p,
                lookup-with_values {V = List Waiter} (λ _. tt) channel w.channels,
                p',
                replace-with_values table_names queue
                    (record w { channels = discard channel w.channels }) s.waiting_clients,
                discard-with_values {V = List Waiter} (λ _. tt) channel w.channels,
              )
              refl
      ]
    ]
notify_server-told (messages_available queue channel available) s =
    ap done (notify_channel-shape queue channel available s)
notify_server-told (server_info _) s = refl
notify_server-told (server_set_config _ _ _) s = refl
notify_server-told (response _) s = refl
notify_server-told (put_response _ _ _) s = refl
notify_server-told (get_would_block _ _ _ _ _) s = refl
