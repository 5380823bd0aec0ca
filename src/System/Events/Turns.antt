-- ===== src/System/Events/Turns.antt =====
-- src/server.rs, `Client` and `ServerHandler`: the turns of the event loop leave the queues and
-- channels that it has tables for.
use floki.Prelude.{
  ℕ, ◌≡◌, refl, ◌∙◌, Bool, Bool-cases, true, false, Option-cases, Outcome-cases, inl, inr, none,
  some, List, [], ◌∷◌, done, panic, u64, ◌*◌, ◌+◌, leb, ◌==◌, if◌then◌else◌,
}
use floki.Cookie
use floki.Collections.{find}
use floki.Protocol.{Value, nil}
use floki.Queue.{Name}
use floki.Server.{Server, make_cookie, wait_queue, notify_queue, notify_timeout}
use floki.Server.Clients.{
  NotifyMessage, response, put_response, messages_available, get_would_block, channel_create,
  channel_delete, queue_create, queue_delete, server_info, server_set_config, Client, Clients,
  clock_ms, dispatch, retry, same_cookie, notify, timeout, store, retry_all, tick, settle,
  handle_notify, handle_timeout, send_response,
}
use floki.System.Shape.{shape}
use floki.System.Events.{
  KeepsShape, KeepsShape-then, clock_ms-shape, wait_queue-shape, notify_queue-shape, itself,
  notify_timeout-shape, settle-shape,
}

pub dispatch-shape :
    (now : ℕ) (request : Value) (c : Client) (s : Server)
    → KeepsShape (λ r. r.2) s (dispatch now request c s)
unfolding dispatch make_cookie shape
dispatch-shape now request c s = elim (Option-cases c.processing) [
  | inl p ↦ rw (p, dispatch) (clock_ms-shape now (make_cookie c.token s).1)
  | inr (cookie, p) ↦ rw (p, dispatch) tt
]

retry-shape :
    (now : ℕ) (cleared : ℕ → Bool) (request : Value) (c : Client) (s : Server)
    → KeepsShape (λ r. r.2) s (retry now cleared request c s)
unfolding retry
retry-shape now cleared request c s = elim (Option-cases c.timeout) [
  | inl t ↦ rw (t, retry) tt
  | inr ((timer, queue, channel), t) ↦ elim (Bool-cases (cleared timer)) [
    | inl b ↦ rw (t, b, retry) (dispatch-shape now request (record c { timeout = none }) s)
    | inr b ↦ rw (t, b, retry) tt
  ]
]

retry_all-shape :
    (now : ℕ) (cleared : ℕ → Bool) (ws : List (ℕ × Value)) (cs : Clients) (s : Server)
    → KeepsShape (λ r. r.2) s (retry_all now cleared ws cs s)
unfolding retry_all
retry_all-shape now cleared [] cs s = refl
retry_all-shape now cleared ((token, request) ∷ ws) cs s = elim (Option-cases (find token cs)) [
  | inl p ↦ rw (p, retry_all) tt
  | inr (c, p) ↦
      let kept = retry-shape now cleared request c s in
      elim (Outcome-cases (retry now cleared request c s)) [
        | inl p' ↦ rw (p, p', retry_all) tt
        | inr ((job, c', s'), p') ↦
            let others = retry_all-shape now cleared ws (store token c' cs) s' in
            elim (Outcome-cases (retry_all now cleared ws (store token c' cs) s')) [
              | inl p'' ↦ rw (p, p', p'', retry_all) tt
              | inr ((jobs, cs', s''), p'') ↦
                  rw (p, p', p'', retry_all) (rw p'' at (others) ∙ rw p' at (kept))
            ]
      ]
]

pub tick-shape :
    (now : ℕ) (cleared : ℕ → Bool) (cs : Clients) (s : Server)
    → KeepsShape (λ r. r.2) s (tick now cleared cs s)
unfolding tick shape
tick-shape now cleared cs s =
    let quiet = record s { awaking_clients = [] } in
    let kept = retry_all-shape now cleared s.awaking_clients cs quiet in
    elim (Outcome-cases (retry_all now cleared s.awaking_clients cs quiet)) [
      | inl p ↦ rw (p, tick) tt
      | inr ((jobs, cs', s'), p) ↦ rw (p, tick) (rw p at (kept))
    ]

-- The answer to a client whose request is still being waited for.
answer-shape :
    (now timer : ℕ) (msg : NotifyMessage) (c c' : Client) (s : Server)
    → KeepsShape {A = Bool × Client × Server}
        (λ r. r.2)
        s
        (elim msg [
          | get_would_block request queue channel required_head wait ↦
              let deadline = u64 (c.request_clock_ms + wait * 1000) in
              let (clock, s') = clock_ms now s in
              (if leb deadline clock
                then done (true, send_response nil c', s')
                else done (
                  true,
                  record c' { timeout = some (timer, queue, channel) },
                  wait_queue request queue channel c.token required_head s',
                ))
          | put_response value queue head ↦
              done (true, send_response value c', notify_queue queue head s)
          | response value ↦ done (true, send_response value c', s)
          | messages_available _ _ _ ↦ panic
          | channel_create _ _ ↦ panic
          | channel_delete _ _ ↦ panic
          | queue_create _ ↦ panic
          | queue_delete _ ↦ panic
          | server_info _ ↦ panic
          | server_set_config _ _ _ ↦ panic
        ])
answer-shape now timer (get_would_block request queue channel required_head wait) c c' s =
    let (clock, s') = clock_ms now s in
    elim (Bool-cases (leb (u64 (c.request_clock_ms + wait * 1000)) clock)) [
      | inl b ↦ rw b (clock_ms-shape now s)
      | inr b ↦
          rw b
            (wait_queue-shape request queue channel c.token required_head s' ∙ clock_ms-shape now s)
    ]
answer-shape now timer (put_response value queue head) c c' s = notify_queue-shape queue head s
answer-shape now timer (response value) c c' s = refl
answer-shape now timer (messages_available _ _ _) c c' s = tt
answer-shape now timer (channel_create _ _) c c' s = tt
answer-shape now timer (channel_delete _ _) c c' s = tt
answer-shape now timer (queue_create _) c c' s = tt
answer-shape now timer (queue_delete _) c c' s = tt
answer-shape now timer (server_info _) c c' s = tt
answer-shape now timer (server_set_config _ _ _) c c' s = tt

notify-shape :
    (now timer cookie : ℕ) (msg : NotifyMessage) (c : Client) (s : Server)
    → KeepsShape (λ r. r.2) s (notify now timer cookie msg c s)
unfolding notify
notify-shape now timer cookie msg c s = elim (Option-cases c.timeout) [
  | inr (t, p) ↦ rw (p, notify) tt
  | inl p ↦ elim (Bool-cases (same_cookie cookie c.processing)) [
    | inr b ↦ rw (p, b, notify) refl
    | inl b ↦ elim (Bool-cases c.hup) [
      | inl h ↦ rw (p, b, h, notify) refl
      | inr h ↦
          rw (p, b, h, notify) (answer-shape now timer msg c (record c { processing = none }) s)
    ]
  ]
]

timeout-shape :
    (queue channel : Name) (c : Client) (s : Server)
    → KeepsShape (λ r. r.2) s (timeout queue channel c s)
unfolding timeout
timeout-shape queue channel c s = elim (Option-cases c.processing) [
  | inr (t, p) ↦ rw (p, timeout) tt
  | inl p ↦ elim (Option-cases c.timeout) [
    | inl p' ↦ rw (p, p', timeout) tt
    | inr (t, p') ↦
        rw (p, p', timeout)
          (KeepsShape-then itself (λ r. r.2) s (notify_timeout queue channel c.token s)
            (λ s'. done (true, send_response nil (record c { timeout = none }), s'))
            (notify_timeout-shape queue channel c.token s) (λ s'. refl))
  ]
]

pub handle_notify-shape :
    (now : ℕ) (cleared : ℕ → Bool) (timer cookie : ℕ) (msg : NotifyMessage) (cs : Clients)
    (s : Server)
    → (Cookie.token cookie == 0) ≡ false
    → KeepsShape (λ r. r.1) s (handle_notify now cleared timer cookie msg cs s)
unfolding handle_notify
handle_notify-shape now cleared timer cookie msg cs s client =
    elim (Option-cases (find (Cookie.token cookie) cs)) [
      | inl p ↦ rw (client, p, handle_notify) tt
      | inr (c, p) ↦
          rw (client, p, handle_notify)
            (KeepsShape-then (λ r. r.2) (λ r. r.1) s (notify now timer cookie msg c s)
              (settle cleared (Cookie.token cookie) cs) (notify-shape now timer cookie msg c s)
              (settle-shape cleared (Cookie.token cookie) cs))
    ]

pub handle_timeout-shape :
    (cleared : ℕ → Bool) (token : ℕ) (queue channel : Name) (cs : Clients) (s : Server)
    → KeepsShape (λ r. r.1) s (handle_timeout cleared token queue channel cs s)
unfolding handle_timeout
handle_timeout-shape cleared token queue channel cs s = elim (Bool-cases (token == 0)) [
  | inl b ↦ rw (b, handle_timeout) tt
  | inr b ↦ elim (Option-cases (find token cs)) [
    | inl p ↦ rw (b, p, handle_timeout) tt
    | inr (c, p) ↦
        rw (b, p, handle_timeout)
          (KeepsShape-then (λ r. r.2) (λ r. r.1) s (timeout queue channel c s)
            (settle cleared token cs) (timeout-shape queue channel c s)
            (settle-shape cleared token cs))
  ]
]
