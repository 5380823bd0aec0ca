-- ===== src/Server/Clients/Ready.antt =====
-- src/server.rs: what happens when a connection can be read or written, or is gone.
use floki.Prelude.{
  ℕ, Bool, true, false, Option, none, some, List, [], ◌∷◌, Outcome, done, panic, ◌>>=◌, unwrap,
  ◌==◌, if◌then◌else◌,
}
use floki.Collections.{find}
use floki.Protocol.{incomplete, invalid, parsed, failed, panicked, exhausted}
use floki.Protocol.Requests.{RequestBuffer, receive, pop_value}
use floki.Protocol.Responses.{ResponseBuffer, advance, remaining}
use floki.Server.{Server}
use floki.Server.Clients.{
  Client, Clients, Dispatch, readable, neither, new, clock_ms, dispatch, store, remove_client,
}

-- The event set of a connection. If it can be read, what each read gave until one gave nothing: what
-- the buffer's `reserve` added, and the bytes. If it can be written, how many bytes each write took.
pub record Events : Type 0 where
  pub hung_up : Bool
  pub reads : Option (List (List ℕ × List ℕ))
  pub writes : Option (List ℕ)

unfoldable pub fill : List (List ℕ × List ℕ) → RequestBuffer → RequestBuffer
fill [] b = b
fill ((reserved, received) ∷ rs) b = fill rs (receive reserved received b)

unfoldable pub flush : List ℕ → ResponseBuffer → ResponseBuffer
flush [] b = b
flush (n ∷ ns) b = flush ns (advance n b)

-- What an event asks for: that the client stays, and a job.
abbrev pub Answer : Type 0
Answer = Bool × Option Dispatch × Client × Server

unfoldable pub write_response : Option (List ℕ) → Client → Client
unfolding flush
write_response none c = c
write_response (some ns) c =
    let rest = flush ns c.response in
    if remaining rest == 0
    then record c { response = rest; interest = readable }
    else record c { response = rest }

module _ (is_utf8 : List ℕ → Bool) (max_values : ℕ) where
  -- Out of fuel, which a parse never is, stands with a panic.
  unfoldable pub try_parse_request : ℕ → Client → Server → Outcome Answer
  unfolding pop_value clock_ms dispatch
  try_parse_request now c s =
      let (result, request) = pop_value is_utf8 max_values c.request in
      elim result [
        | parsed value ↦ do
          let (clock, s') = clock_ms now s
          let c' = record c { request = request; request_clock_ms = clock; interest = neither }
          (job, c'', s'') ← dispatch now value c' s'
          done (true, some job, c'', s'')
        | failed e ↦ elim e [
          | incomplete ↦ done (true, none, record c { request = request }, s)
          | invalid _ ↦ done (false, none, record c { request = request }, s)
        ]
        | panicked ↦ panic
        | exhausted ↦ panic
      ]

  -- `Client::ready`.
  unfoldable pub ready : ℕ → Events → Client → Server → Outcome Answer
  unfolding try_parse_request fill write_response
  ready now events c s =
      if events.hung_up
      then done
          (elim c.processing [ none ↦ false | some _ ↦ true ], none, record c { hup = true }, s)
      else elim events.reads [
        | none ↦ done (true, none, write_response events.writes c, s)
        | some rs ↦ do
          (stays, job, c', s') ← try_parse_request now (record c { request = fill rs c.request }) s
          (if stays
              then done (true, job, write_response events.writes c', s')
              else done (false, job, c', s'))
      ]

  -- `ServerHandler::ready` of a client's token.
  unfoldable pub handle_ready :
      ℕ → (ℕ → Bool) → ℕ → Events → Clients → Server → Outcome (Option Dispatch × Clients × Server)
  unfolding ready remove_client
  handle_ready now cleared token events cs s = do
    c ← unwrap (find token cs)
    (stays, job, c', s') ← ready now events c s
    (if stays then done (job, store token c' cs, s') else (do
      (cs', s'') ← remove_client cleared token (store token c' cs) s'
      done (job, cs', s'')))

-- `Server::ready`: a connection is accepted. `token_opt` is the token that the slab has free.
unfoldable pub accept : Option ℕ → Clients → Clients
accept none cs = cs
accept (some token) cs = (token, new token) ∷ cs
