-- ===== src/Server/Clients.antt =====
-- src/server.rs, `Client` and `ServerHandler`: one connection, and what the event loop calls. The
-- event loop is mio's: the handle of a new timer, what `clear_timeout` answers, the bytes that
-- sockets move and the time are arguments. Token 0 is the server's own.
pub mod Ready
pub mod Turns
pub mod Parking
pub mod Races
use floki.Prelude.{
  ℕ, zero, suc, ◌+◌, ◌-◌, ◌*◌, ◌/◌, ◌%◌, ◌^◌, Bool, true, false, Option, none, some, List, [], ◌∷◌,
  ◌++◌, Outcome, done, panic, ◌>>=◌, ◌>>◌, assert, unwrap, u32, u64, leb, ltb, ◌==◌, if◌then◌else◌,
}
use floki.Cookie
use floki.Collections.{find}
use floki.Protocol.{
  Value, nil, ProtocolError, incomplete, invalid, Parsed, parsed, failed, panicked, exhausted,
}
use floki.Protocol.Requests
use floki.Protocol.Requests.{RequestBuffer}
use floki.Protocol.Responses
use floki.Protocol.Responses.{ResponseBuffer}
use floki.Queue.{Name, lookup}
use floki.Server.{
  Server, make_cookie, set_channel, wait_queue, notify_queue, notify_channel, notify_timeout,
  notify_queue_deleted, notify_queue_created, notify_channel_deleted, notify_channel_created,
  retain,
}

-- `server_info` and `server_set_config` have the promise that a worker waits for.
pub data NotifyMessage : Type 0 where
  response : Value → NotifyMessage
  put_response : Value → Name → ℕ → NotifyMessage
  messages_available : Name → Name → ℕ → NotifyMessage
  get_would_block : Value → Name → Name → ℕ → ℕ → NotifyMessage
  channel_create channel_delete : Name → Name → NotifyMessage
  queue_create queue_delete : Name → NotifyMessage
  server_info : ℕ → NotifyMessage
  server_set_config : Name → Name → ℕ → NotifyMessage

-- The events, besides the end of a connection, that a client is registered for.
pub data Interest : Type 0 where
  readable writable neither : Interest

-- `timeout` has the handle of the timer.
pub record Client : Type 0 where
  pub token : ℕ
  pub interest : Interest
  pub request_clock_ms : ℕ
  pub request : RequestBuffer
  pub response : ResponseBuffer
  pub timeout : Option (ℕ × Name × Name)
  pub processing : Option ℕ
  pub hup : Bool

-- What a worker of the thread pool is given.
pub record Dispatch : Type 0 where
  pub cookie : ℕ
  pub request : Value
  pub clock : ℕ

unfoldable pub new : ℕ → Client
new token = record {
  token = token;
  interest = readable;
  request_clock_ms = 0;
  request = Requests.new;
  response = Responses.new;
  timeout = none;
  processing = none;
  hup = false;
}

unfoldable pub send_response : Value → Client → Client
send_response value c = record c {
  response = Responses.push_value value c.response;
  interest = writable;
}

-- `Server::clock_ms`; `now` is the time.
unfoldable pub clock_ms : ℕ → Server → ℕ × Server
clock_ms now s =
    if s.internal_clock_ms == 0
    then (now, record s { internal_clock_ms = now })
    else (s.internal_clock_ms, s)

unfoldable pub dispatch : ℕ → Value → Client → Server → Outcome (Dispatch × Client × Server)
unfolding clock_ms make_cookie
dispatch now request c s = elim c.processing [
  | some _ ↦ panic
  | none ↦
      let (cookie, s') = make_cookie c.token s in
      let (clock, s'') = clock_ms now s' in
      done (
        record { cookie = cookie; request = request; clock = u32 (clock / 1000) },
        record c { processing = some cookie },
        s'',
      )
]

-- `cleared` is what `clear_timeout` answers for a timer.
unfoldable pub retry :
    ℕ → (ℕ → Bool) → Value → Client → Server → Outcome (Dispatch × Client × Server)
unfolding dispatch
retry now cleared request c s = do
  (timer, _, _) ← unwrap c.timeout
  assert (cleared timer)
  dispatch now request (record c { timeout = none }) s

unfoldable pub same_cookie : ℕ → Option ℕ → Bool
same_cookie cookie none = false
same_cookie cookie (some processing) = cookie == processing

-- `timer` is the handle of the timer that `timeout_ms` would start.
unfoldable pub notify :
    ℕ → ℕ → ℕ → NotifyMessage → Client → Server → Outcome (Bool × Client × Server)
unfolding same_cookie send_response clock_ms wait_queue notify_queue
notify now timer cookie msg c s = elim c.timeout [
  | some _ ↦ panic
  | none ↦
      if same_cookie cookie c.processing
      then (let c' = record c { processing = none } in
          if c.hup then done (false, c', s) else elim msg [
            | get_would_block request queue channel required_head timeout ↦
                let deadline = u64 (c.request_clock_ms + timeout * 1000) in
                let (clock, s') = clock_ms now s in
                (if leb deadline clock
                  then done (true, send_response nil c', s')
                  else done (
                    true,
                    record c' { timeout = some (timer, queue, channel) },
                    wait_queue request queue channel c.token required_head s',
                  ))
            | put_response value queue head ↦
                done (true, send_response value c', notify_queue queue head s)
            | response value ↦ done (true, send_response value c', s)
            | messages_available _ _ _ ↦ panic
            | channel_create _ _ ↦ panic
            | channel_delete _ _ ↦ panic
            | queue_create _ ↦ panic
            | queue_delete _ ↦ panic
            | server_info _ ↦ panic
            | server_set_config _ _ _ ↦ panic
          ])
      else done (true, c, s)
]

unfoldable pub timeout : Name → Name → Client → Server → Outcome (Bool × Client × Server)
unfolding send_response
timeout queue channel c s = elim c.processing [
  | some _ ↦ panic
  | none ↦ elim c.timeout [
    | none ↦ panic
    | some _ ↦ do
      s' ← notify_timeout queue channel c.token s
      done (true, send_response nil (record c { timeout = none }), s')
  ]
]

unfoldable pub notify_client_gone : (ℕ → Bool) → Client → Server → Outcome Server
notify_client_gone cleared c s = elim c.timeout [
  | none ↦ done s
  | some (timer, queue, channel) ↦ do
    assert (cleared timer)
    w ← unwrap (lookup queue s.waiting_clients)
    tokens ← unwrap (lookup channel w.channels)
    done (set_channel queue channel w (retain c.token tokens) s)
]

-- `Slab<Client>`, as its entries.
abbrev pub Clients : Type 0
Clients = List (ℕ × Client)

abbrev pub store : ℕ → Client → Clients → Clients
store token c [] = []
store token c ((t, c') ∷ cs) = if t == token then (t, c) ∷ cs else (t, c') ∷ store token c cs

-- `Slab::remove`.
abbrev pub discard_client : ℕ → Clients → Clients
discard_client token [] = []
discard_client token ((t, c) ∷ cs) =
    let rest = discard_client token cs in if t == token then rest else (t, c) ∷ rest

unfoldable pub remove_client : (ℕ → Bool) → ℕ → Clients → Server → Outcome (Clients × Server)
unfolding notify_client_gone
remove_client cleared token cs s = do
  c ← unwrap (find token cs)
  s' ← notify_client_gone cleared c s
  done (discard_client token cs, s')

-- The loop of `tick`. The jobs go to the thread pool in this order.
unfoldable pub retry_all :
    ℕ
    → (ℕ → Bool)
    → List (ℕ × Value)
    → Clients
    → Server
    → Outcome (List Dispatch × Clients × Server)
unfolding retry
retry_all now cleared [] cs s = done ([], cs, s)
retry_all now cleared ((token, request) ∷ ws) cs s = do
  c ← unwrap (find token cs)
  (job, c', s') ← retry now cleared request c s
  (jobs, cs', s'') ← retry_all now cleared ws (store token c' cs) s'
  done (job ∷ jobs, cs', s'')

unfoldable pub tick : ℕ → (ℕ → Bool) → Clients → Server → Outcome (List Dispatch × Clients × Server)
unfolding retry_all
tick now cleared cs s = do
  (jobs, cs', s') ← retry_all now cleared s.awaking_clients cs (record s { awaking_clients = [] })
  done (jobs, cs', record s' { awaking_clients = []; internal_clock_ms = 0 })

-- `Server::notify`. What a worker asks of the server by a promise does not change the state here.
unfoldable pub notify_server : NotifyMessage → Server → Outcome Server
notify_server msg s = elim msg [
  | messages_available queue channel available ↦ done (notify_channel queue channel available s)
  | queue_delete queue ↦ notify_queue_deleted queue s
  | queue_create queue ↦ notify_queue_created queue s
  | channel_delete queue channel ↦ notify_channel_deleted queue channel s
  | channel_create queue channel ↦ notify_channel_created queue channel s
  | server_info _ ↦ done s
  | server_set_config _ _ _ ↦ done s
  | response _ ↦ panic
  | put_response _ _ _ ↦ panic
  | get_would_block _ _ _ _ _ ↦ panic
]

-- What `ServerHandler` does with a client's answer.
abbrev pub settle : (ℕ → Bool) → ℕ → Clients → Bool × Client × Server → Outcome (Clients × Server)
settle cleared token cs (true, c, s) = done (store token c cs, s)
settle cleared token cs (false, c, s) = remove_client cleared token (store token c cs) s

-- `ServerHandler::notify`.
unfoldable pub handle_notify :
    ℕ → (ℕ → Bool) → ℕ → ℕ → NotifyMessage → Clients → Server → Outcome (Clients × Server)
unfolding notify notify_server remove_client
handle_notify now cleared timer cookie msg cs s =
    let token = Cookie.token cookie in
    if token == 0 then (do s' ← notify_server msg s; done (cs, s')) else (do
      c ← unwrap (find token cs)
      answer ← notify now timer cookie msg c s
      settle cleared token cs answer)

-- `ServerHandler::timeout`.
unfoldable pub handle_timeout :
    (ℕ → Bool) → ℕ → Name → Name → Clients → Server → Outcome (Clients × Server)
unfolding timeout remove_client
handle_timeout cleared token queue channel cs s = if token == 0 then panic else (do
  c ← unwrap (find token cs)
  answer ← timeout queue channel c s
  settle cleared token cs answer)
