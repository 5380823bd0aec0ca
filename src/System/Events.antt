-- ===== src/System/Events.antt =====
-- src/server.rs: what the event loop does, besides taking a notice, leaves the queues and channels that
-- it has tables for.
pub mod Turns
pub mod Ready
use floki.Prelude.{
  ℕ, ◌-◌, ◌≡◌, refl, ap, sym, ◌∙◌, Bool, Bool-cases, true, false, Option-cases, Outcome-cases, inl,
  inr, Option, none, some, List, [], ◌∷◌, ◌++◌, Outcome, done, panic, ◌>>=◌, assert, unwrap, u64,
  ◌*◌, ◌+◌, leb, ltb, ◌==◌,
}
use floki.Cookie
use floki.Collections.{find}
use floki.Protocol.{Value, nil, incomplete, invalid, parsed, failed, panicked, exhausted}
use floki.Protocol.Requests.{pop_value}
use floki.Queue.{Name, lookup, replace}
use floki.Server.{
  Waiter, WaitingClients, Server, make_cookie, set_channel, awake, drain, wait_queue, notify_queue,
  notify_timeout, retain,
}
use floki.Server.Clients
use floki.Server.Clients.{
  NotifyMessage, response, put_response, messages_available, get_would_block, channel_create,
  channel_delete, queue_create, queue_delete, server_info, server_set_config, Client, Clients,
  Dispatch, clock_ms, dispatch, retry, same_cookie, notify, timeout, notify_client_gone, store,
  remove_client, retry_all, tick, settle, handle_notify, handle_timeout, send_response,
}
use floki.System.Maps.{with_values, names}
use floki.System.Shape.{shape, table_names, table_kept, set_channel-shape}

-- Whatever the operation gives has a server with the same queues and channels.
abbrev pub KeepsShape : {A : Type 0} → (A → Server) → Server → Outcome A → Type 0
KeepsShape server s panic = Unit
KeepsShape server s (done a) = shape (server a) ≡ shape s

-- One operation after the other.
pub KeepsShape-then :
    {A B : Type 0} (f : A → Server) (g : B → Server) (s : Server) (o : Outcome A)
    (k : A → Outcome B)
    → KeepsShape f s o
    → ((a : A) → KeepsShape g (f a) (k a))
    → KeepsShape g s (o >>= k)
KeepsShape-then f g s panic k kept next = tt
KeepsShape-then f g s (done a) k kept next = elim (Outcome-cases (k a)) [
  | inl p ↦ rw p tt
  | inr (b, p) ↦ rw p (rw p at (next a) ∙ kept)
]

pub clock_ms-shape : (now : ℕ) (s : Server) → shape (clock_ms now s).1 ≡ shape s
unfolding clock_ms shape
clock_ms-shape now s = elim (Bool-cases (s.internal_clock_ms == 0)) [
  | inl b ↦ rw (b, clock_ms) refl
  | inr b ↦ rw (b, clock_ms) refl
]

pub wait_queue-shape :
    (request : Value) (queue channel : Name) (token required_tail : ℕ) (s : Server)
    → shape (wait_queue request queue channel token required_tail s) ≡ shape s
unfolding wait_queue shape
wait_queue-shape request queue channel token required_tail s =
    elim (Option-cases (lookup queue s.waiting_clients)) [
      | inl p ↦ rw (p, wait_queue) refl
      | inr (w, p) ↦ elim (Option-cases (lookup channel w.channels)) [
        | inl p' ↦ rw (p, p', wait_queue) refl
        | inr (tokens, p') ↦ elim (Bool-cases (leb w.head required_tail)) [
          | inl b ↦
              rw (p, p', b, wait_queue)
                (set_channel-shape queue channel w tokens (tokens ++ (token, request) ∷ []) s p p')
          | inr b ↦ rw (p, p', b, wait_queue) refl
        ]
      ]
    ]

drain-names :
    (available : ℕ) (es : List (Name × List Waiter)) → names (drain available es).0 ≡ names es
unfolding drain
drain-names available [] = refl
drain-names available ((channel, tokens) ∷ es) =
    ap (λ r. (channel, tt) ∷ r) (drain-names available es)

pub notify_queue-shape :
    (queue : Name) (new_head : ℕ) (s : Server) → shape (notify_queue queue new_head s) ≡ shape s
unfolding notify_queue shape
notify_queue-shape queue new_head s = elim (Option-cases (lookup queue s.waiting_clients)) [
  | inl p ↦ rw (p, notify_queue) refl
  | inr (w, p) ↦ elim (Bool-cases (ltb w.head new_head)) [
    | inl b ↦
        rw (p, b, notify_queue)
          (table_kept queue w
            (record { head = new_head; channels = (drain (new_head - w.head) w.channels).0 }) s p
            (drain-names (new_head - w.head) w.channels))
    | inr b ↦ rw (p, b, notify_queue) refl
  ]
]

abbrev pub itself : Server → Server
itself s = s

pub notify_timeout-shape :
    (queue channel : Name) (token : ℕ) (s : Server)
    → KeepsShape itself s (notify_timeout queue channel token s)
unfolding notify_timeout
notify_timeout-shape queue channel token s = elim (Option-cases (lookup queue s.waiting_clients)) [
  | inl p ↦ rw (p, notify_timeout) tt
  | inr (w, p) ↦ elim (Option-cases (lookup channel w.channels)) [
    | inl p' ↦ rw (p, p', notify_timeout) tt
    | inr (tokens, p') ↦
        rw (p, p', notify_timeout)
          (set_channel-shape queue channel w tokens (retain token tokens) s p p')
  ]
]

notify_client_gone-shape :
    (cleared : ℕ → Bool) (c : Client) (s : Server)
    → KeepsShape itself s (notify_client_gone cleared c s)
unfolding notify_client_gone
notify_client_gone-shape cleared c s = elim (Option-cases c.timeout) [
  | inl t ↦ rw (t, notify_client_gone) refl
  | inr ((timer, queue, channel), t) ↦ elim (Bool-cases (cleared timer)) [
    | inr b ↦ rw (t, b, notify_client_gone) tt
    | inl b ↦ elim (Option-cases (lookup queue s.waiting_clients)) [
      | inl p ↦ rw (t, b, p, notify_client_gone) tt
      | inr (w, p) ↦ elim (Option-cases (lookup channel w.channels)) [
        | inl p' ↦ rw (t, b, p, p', notify_client_gone) tt
        | inr (tokens, p') ↦
            rw (t, b, p, p', notify_client_gone)
              (set_channel-shape queue channel w tokens (retain c.token tokens) s p p')
      ]
    ]
  ]
]

pub remove_client-shape :
    (cleared : ℕ → Bool) (token : ℕ) (cs : Clients) (s : Server)
    → KeepsShape (λ r. r.1) s (remove_client cleared token cs s)
unfolding remove_client
remove_client-shape cleared token cs s = elim (Option-cases (find token cs)) [
  | inl p ↦ rw (p, remove_client) tt
  | inr (c, p) ↦
      let kept = notify_client_gone-shape cleared c s in
      elim (Outcome-cases (notify_client_gone cleared c s)) [
        | inl p' ↦ rw (p, p', remove_client) tt
        | inr (s', p') ↦ rw (p, p', remove_client) (rw p' at (kept))
      ]
]

pub settle-shape :
    (cleared : ℕ → Bool) (token : ℕ) (cs : Clients) (answer : Bool × Client × Server)
    → KeepsShape (λ r. r.1) (answer.2) (settle cleared token cs answer)
settle-shape cleared token cs (true, c, s) = refl
settle-shape cleared token cs (false, c, s) = remove_client-shape cleared token (store token c cs) s
