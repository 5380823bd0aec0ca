-- ===== src/Server.antt =====
-- src/server.rs, `Server`: the clients that wait for messages, by queue and channel, and those to wake
-- at the end of a turn of the event loop. A token is the number that it wraps.
pub mod Waiters
pub mod Clients
pub mod Commands
pub mod Start
pub mod Deletion
use floki.Prelude.{
  ℕ, ◌+◌, ◌-◌, ◌%◌, ◌^◌, Bool, true, false, Option, none, some, List, [], ◌∷◌, ◌++◌, min, Outcome,
  done, panic, ◌>>=◌, leb, ltb, ◌==◌, if◌then◌else◌, length, take, drop,
}
use floki.Cookie
use floki.Protocol.{Value}
use floki.Queue.{Name, lookup, replace, discard}

-- A token and its request, which is dispatched again when the client is woken.
abbrev pub Waiter : Type 0
Waiter = ℕ × Value

pub record WaitingClients : Type 0 where
  pub head : ℕ
  pub channels : List (Name × List Waiter)

-- `nonce` is of the last cookie, and `clock_ms` is the cached clock, 0 when there is none.
pub record Server : Type 0 where
  pub waiting_clients : List (Name × WaitingClients)
  pub awaking_clients : List Waiter
  pub nonce : ℕ
  pub internal_clock_ms : ℕ

-- `HashMap::insert`.
abbrev pub insert : {V : Type 0} → Name → V → List (Name × V) → List (Name × V)
insert n v es = elim (lookup n es) [ none ↦ es ++ (n, v) ∷ [] | some _ ↦ replace n v es ]

unfoldable pub make_cookie : ℕ → Server → ℕ × Server
make_cookie token s =
    let nonce = (s.nonce + 1) % 2 ^ 64 in (Cookie.new token nonce, record s { nonce = nonce })

abbrev pub set_channel : Name → Name → WaitingClients → List Waiter → Server → Server
set_channel queue channel w tokens s = record s {
  waiting_clients =
      replace queue (record w { channels = replace channel tokens w.channels }) s.waiting_clients;
}

abbrev pub awake : List Waiter → Server → Server
awake tokens s = record s { awaking_clients = s.awaking_clients ++ tokens }

unfoldable pub wait_queue : Value → Name → Name → ℕ → ℕ → Server → Server
wait_queue request queue channel token required_tail s = elim (lookup queue s.waiting_clients) [
  | none ↦ awake ((token, request) ∷ []) s
  | some w ↦ elim (lookup channel w.channels) [
    | none ↦ awake ((token, request) ∷ []) s
    | some tokens ↦
        if leb w.head required_tail
        then set_channel queue channel w (tokens ++ (token, request) ∷ []) s
        else awake ((token, request) ∷ []) s
  ]
]

-- The loop over the channels of a queue: what stays of them, and who is woken.
unfoldable pub drain : ℕ → List (Name × List Waiter) → List (Name × List Waiter) × List Waiter
drain available [] = ([], [])
drain available ((channel, tokens) ∷ es) =
    let drain_len = min available (length tokens) in
    let (es', woken) = drain available es in
    ((channel, drop drain_len tokens) ∷ es', take drain_len tokens ++ woken)

unfoldable pub notify_queue : Name → ℕ → Server → Server
unfolding drain
notify_queue queue new_head s = elim (lookup queue s.waiting_clients) [
  | none ↦ s
  | some w ↦
      let (channels, woken) = drain (new_head - w.head) w.channels in
      if ltb w.head new_head
      then awake woken (record s {
        waiting_clients =
            replace queue (record { head = new_head; channels = channels }) s.waiting_clients;
      })
      else s
]

unfoldable pub notify_channel : Name → Name → ℕ → Server → Server
notify_channel queue channel available s = elim (lookup queue s.waiting_clients) [
  | none ↦ s
  | some w ↦ elim (lookup channel w.channels) [
    | none ↦ s
    | some tokens ↦
        let drain_len = min available (length tokens) in
        awake (take drain_len tokens) (set_channel queue channel w (drop drain_len tokens) s)
  ]
]

-- `retain(|&(t, _)| t != token)`.
unfoldable pub retain : ℕ → List Waiter → List Waiter
retain token [] = []
retain token ((t, request) ∷ tokens) =
    let rest = retain token tokens in if t == token then rest else (t, request) ∷ rest

unfoldable pub notify_timeout : Name → Name → ℕ → Server → Outcome Server
unfolding retain
notify_timeout queue channel token s = elim (lookup queue s.waiting_clients) [
  | none ↦ panic
  | some w ↦ elim (lookup channel w.channels) [
    | none ↦ panic
    | some tokens ↦ done (set_channel queue channel w (retain token tokens) s)
  ]
]

-- The waiters of all channels, one channel after the other.
unfoldable pub all_waiters : List (Name × List Waiter) → List Waiter
all_waiters [] = []
all_waiters ((channel, tokens) ∷ es) = tokens ++ all_waiters es

unfoldable pub notify_queue_deleted : Name → Server → Outcome Server
unfolding all_waiters
notify_queue_deleted queue s = elim (lookup queue s.waiting_clients) [
  | none ↦ panic
  | some w ↦ done (
      awake (all_waiters w.channels)
        (record s { waiting_clients = discard queue s.waiting_clients }))
]

unfoldable pub notify_queue_created : Name → Server → Outcome Server
notify_queue_created queue s = elim (lookup queue s.waiting_clients) [
  | none ↦ done (record s {
    waiting_clients = insert queue (record { head = 0; channels = [] }) s.waiting_clients;
  })
  | some _ ↦ panic
]

unfoldable pub notify_channel_deleted : Name → Name → Server → Outcome Server
notify_channel_deleted queue channel s = elim (lookup queue s.waiting_clients) [
  | none ↦ panic
  | some w ↦ elim (lookup channel w.channels) [
    | none ↦ panic
    | some tokens ↦ done (
        awake tokens (record s {
          waiting_clients =
              replace queue (record w { channels = discard channel w.channels }) s.waiting_clients;
        }))
  ]
]

-- The `debug_assert!` is not in a release.
unfoldable pub notify_channel_created : Name → Name → Server → Outcome Server
notify_channel_created queue channel s = elim (lookup queue s.waiting_clients) [
  | none ↦ panic
  | some w ↦ done (record s {
    waiting_clients =
        replace queue (record w { channels = insert channel [] w.channels }) s.waiting_clients;
  })
]
