-- ===== src/Server/Waiters.antt =====
-- src/server.rs: no waiting client is lost or doubled when queues and channels come, go and fill.
use floki.Prelude.{
  ℕ, suc, ◌+◌, ◌-◌, ◌≡◌, refl, sym, ap, ◌∙◌, Bool-cases, Option-cases, inl, inr, none, some, List,
  [], ◌∷◌, ◌++◌, arith, min, Returns, leb, ltb, ◌==◌, if◌then◌else◌, length, take, drop,
  take-append-drop,
}
use floki.Protocol.{Value}
use floki.Queue.{Name, lookup, replace, discard}
use floki.Server.{
  Waiter, WaitingClients, Server, insert, set_channel, awake, wait_queue, drain, notify_queue,
  notify_channel, retain, notify_timeout, all_waiters, notify_queue_deleted, notify_queue_created,
  notify_channel_deleted, notify_channel_created,
}

-- The sum of a measure of the values.
abbrev pub total : {V : Type 0} → (V → ℕ) → List (Name × V) → ℕ
total cost [] = 0
total cost ((n, v) ∷ es) = cost v + total cost es

module _ {V : Type 0} (cost : V → ℕ) where
  total-append : (es fs : List (Name × V)) → total cost (es ++ fs) ≡ total cost es + total cost fs
  total-append [] fs = omega arith
  total-append ((n, v) ∷ es) fs = omega (arith, total-append es fs)

  total-replace :
      (n : Name) (v w : V) (es : List (Name × V))
      → lookup n es ≡ some v
      → total cost (replace n w es) + cost v ≡ total cost es + cost w
  total-replace n v w [] e = ground arith
  total-replace n v w ((k, u) ∷ es) e = ground (arith, total-replace n v w es)

  total-discard :
      (n : Name) (v : V) (es : List (Name × V))
      → lookup n es ≡ some v
      → total cost (discard n es) + cost v ≡ total cost es
  total-discard n v [] e = ground arith
  total-discard n v ((k, u) ∷ es) e = ground (arith, total-discard n v es)

  total-insert :
      (n : Name) (v : V) (es : List (Name × V))
      → lookup n es ≡ none
      → total cost (insert n v es) ≡ total cost es + cost v
  total-insert n v es e = rw (e, insert) (omega (arith, total-append es ((n, v) ∷ [])))

-- How often a client stands in a queue of waiters.
abbrev pub tally : ℕ → List Waiter → ℕ
tally t [] = 0
tally t ((u, request) ∷ ws) = if u == t then suc (tally t ws) else tally t ws

tally-append : (t : ℕ) (ws vs : List Waiter) → tally t (ws ++ vs) ≡ tally t ws + tally t vs
tally-append t [] vs = omega arith
tally-append t ((u, request) ∷ ws) vs = ground (arith, tally-append t ws vs)

-- How often it waits, and is to be woken, in all.
abbrev pub waiting : ℕ → List (Name × List Waiter) → ℕ
waiting t = total (tally t)

abbrev pub places : ℕ → Server → ℕ
places t s = total (λ w. waiting t w.channels) s.waiting_clients + tally t s.awaking_clients

-- The two halves of what a drain cuts.
tally-cut : (t n : ℕ) (ws : List Waiter) → tally t (take n ws) + tally t (drop n ws) ≡ tally t ws
tally-cut t n ws =
    sym (tally-append t (take n ws) (drop n ws)) ∙ ap (tally t) (take-append-drop n ws)

drain_lem :
    (t n : ℕ) (es : List (Name × List Waiter))
    → waiting t (drain n es).0 + tally t (drain n es).1 ≡ waiting t es
unfolding drain
drain_lem t n [] = refl
drain_lem t n ((channel, ws) ∷ es) =
    let d = min n (length ws) in
    omega (arith, drain_lem t n es, tally-cut t d ws, tally-append t (take d ws) (drain n es).1)

all_waiters_lem : (t : ℕ) (es : List (Name × List Waiter)) → tally t (all_waiters es) ≡ waiting t es
unfolding all_waiters
all_waiters_lem t [] = refl
all_waiters_lem t ((channel, ws) ∷ es) =
    omega (arith, all_waiters_lem t es, tally-append t ws (all_waiters es))

places-awake :
    (t : ℕ) (ws : List Waiter) (s : Server) → places t (awake ws s) ≡ places t s + tally t ws
places-awake t ws s = omega (arith, tally-append t s.awaking_clients ws)

pub places-set_channel :
    (t : ℕ) (queue channel : Name) (w : WaitingClients) (ws vs : List Waiter) (s : Server)
    → lookup queue s.waiting_clients ≡ some w
    → lookup channel w.channels ≡ some ws
    → places t (set_channel queue channel w vs s) + tally t ws ≡ places t s + tally t vs
places-set_channel t queue channel w ws vs s e e' = omega (
  arith,
  total-replace (λ w. waiting t w.channels) queue w
      (record w { channels = replace channel vs w.channels }) s.waiting_clients e,
  total-replace (tally t) channel ws vs w.channels e',
)

-- A client that waits gets one place, and the others keep theirs.
pub places-wait_queue :
    (t : ℕ) (request : Value) (queue channel : Name) (token required_tail : ℕ) (s : Server)
    → places t (wait_queue request queue channel token required_tail s)
      ≡ places t s + tally t ((token, request) ∷ [])
unfolding wait_queue
places-wait_queue t request queue channel token required_tail s =
    let woken = places-awake t ((token, request) ∷ []) s in
    elim (Option-cases (lookup queue s.waiting_clients)) [
      | inl e ↦ rw (e, wait_queue) woken
      | inr (w, e) ↦ elim (Option-cases (lookup channel w.channels)) [
        | inl e' ↦ rw (e, e', wait_queue) woken
        | inr (ws, e') ↦ elim (Bool-cases (leb w.head required_tail)) [
          | inl b ↦
              rw (e, e', b, wait_queue)
                (omega (
                  arith,
                  places-set_channel t queue channel w ws (ws ++ (token, request) ∷ []) s e e',
                  tally-append t ws ((token, request) ∷ []),
                ))
          | inr b ↦ rw (e, e', b, wait_queue) woken
        ]
      ]
    ]

-- A push leaves every client as many places as it had, and so does the monitor.
pub places-notify_queue :
    (t : ℕ) (queue : Name) (new_head : ℕ) (s : Server)
    → places t (notify_queue queue new_head s) ≡ places t s
unfolding notify_queue
places-notify_queue t queue new_head s = elim (Option-cases (lookup queue s.waiting_clients)) [
  | inl e ↦ rw (e, notify_queue) refl
  | inr (w, e) ↦ elim (Bool-cases (ltb w.head new_head)) [
    | inl b ↦
        let d = drain (new_head - w.head) w.channels in
        rw (e, b, notify_queue)
          (omega (
            arith,
            drain_lem t (new_head - w.head) w.channels,
            total-replace (λ w. waiting t w.channels) queue w
                (record { head = new_head; channels = d.0 }) s.waiting_clients e,
            tally-append t s.awaking_clients d.1,
          ))
    | inr b ↦ rw (e, b, notify_queue) refl
  ]
]

pub places-notify_channel :
    (t : ℕ) (queue channel : Name) (available : ℕ) (s : Server)
    → places t (notify_channel queue channel available s) ≡ places t s
unfolding notify_channel
places-notify_channel t queue channel available s =
    elim (Option-cases (lookup queue s.waiting_clients)) [
      | inl e ↦ rw (e, notify_channel) refl
      | inr (w, e) ↦ elim (Option-cases (lookup channel w.channels)) [
        | inl e' ↦ rw (e, e', notify_channel) refl
        | inr (ws, e') ↦
            let d = min available (length ws) in
            rw (e, e', notify_channel)
              (omega (
                arith,
                places-set_channel t queue channel w ws (drop d ws) s e e',
                tally-cut t d ws,
                places-awake t (take d ws) (set_channel queue channel w (drop d ws) s),
              ))
      ]
    ]

pub places-notify_queue_deleted :
    (t : ℕ) (queue : Name) (s : Server)
    → (w : WaitingClients) × (lookup queue s.waiting_clients ≡ some w)
    → Returns (λ s'. places t s' ≡ places t s) (notify_queue_deleted queue s)
unfolding notify_queue_deleted
places-notify_queue_deleted t queue s (w, e) =
    rw (e, notify_queue_deleted)
      (omega (
        arith,
        all_waiters_lem t w.channels,
        total-discard (λ w. waiting t w.channels) queue w s.waiting_clients e,
        tally-append t s.awaking_clients (all_waiters w.channels),
      ))

pub places-notify_queue_created :
    (t : ℕ) (queue : Name) (s : Server)
    → lookup queue s.waiting_clients ≡ none
    → Returns (λ s'. places t s' ≡ places t s) (notify_queue_created queue s)
unfolding notify_queue_created
places-notify_queue_created t queue s e =
    let added =
      total-insert (λ w. waiting t w.channels) queue (record { head = 0; channels = [] })
        s.waiting_clients e in
    rw (e, notify_queue_created) (omega (arith, added))

pub places-notify_channel_deleted :
    (t : ℕ) (queue channel : Name) (s : Server) (w : WaitingClients) (ws : List Waiter)
    → lookup queue s.waiting_clients ≡ some w
    → lookup channel w.channels ≡ some ws
    → Returns (λ s'. places t s' ≡ places t s) (notify_channel_deleted queue channel s)
unfolding notify_channel_deleted
places-notify_channel_deleted t queue channel s w ws e e' =
    rw (e, e', notify_channel_deleted)
      (omega (
        arith,
        total-replace (λ w. waiting t w.channels) queue w
            (record w { channels = discard channel w.channels }) s.waiting_clients e,
        total-discard (tally t) channel ws w.channels e',
        tally-append t s.awaking_clients ws,
      ))

pub places-notify_channel_created :
    (t : ℕ) (queue channel : Name) (s : Server) (w : WaitingClients)
    → lookup queue s.waiting_clients ≡ some w
    → lookup channel w.channels ≡ none
    → Returns (λ s'. places t s' ≡ places t s) (notify_channel_created queue channel s)
unfolding notify_channel_created
places-notify_channel_created t queue channel s w e e' =
    rw (e, notify_channel_created)
      (omega (
        arith,
        total-replace (λ w. waiting t w.channels) queue w
            (record w { channels = insert channel [] w.channels }) s.waiting_clients e,
        total-insert (tally t) channel [] w.channels e',
      ))

-- Of the clients in a queue of waiters, `retain` takes one out, and leaves the others.
pub tally-retain :
    (t u : ℕ) (ws : List Waiter) → tally t (retain u ws) ≡ (if u == t then 0 else tally t ws)
unfolding retain
tally-retain t u [] = ground arith
tally-retain t u ((v, request) ∷ ws) = ground (arith, tally-retain t u ws)

places-notify_timeout :
    (t : ℕ) (queue channel : Name) (token : ℕ) (s : Server) (w : WaitingClients) (ws : List Waiter)
    → lookup queue s.waiting_clients ≡ some w
    → lookup channel w.channels ≡ some ws
    → Returns
        (λ s'. places t s' + (if token == t then tally t ws else 0) ≡ places t s)
        (notify_timeout queue channel token s)
unfolding notify_timeout
places-notify_timeout t queue channel token s w ws e e' =
    rw (e, e', notify_timeout)
      (ground (
        arith,
        places-set_channel t queue channel w ws (retain token ws) s e e',
        tally-retain t token ws,
      ))
