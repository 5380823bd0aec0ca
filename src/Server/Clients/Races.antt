-- ===== src/Server/Clients/Races.antt =====
-- src/server.rs: a timer or the end of a connection, before a client is woken and after.
use floki.Prelude.{
  ◌⊎◌, ℕ, ◌+◌, ◌≡◌, ◌≢◌, refl, ◌∙◌, Bool, Bool-cases, true, false, Option-cases, Outcome-cases, inl,
  inr, none, some, List, [], ◌∷◌, arith, Outcome, done, panic, ◌>>=◌, ◌>>◌, Returns, ◌==◌,
}
use floki.Collections.{find}
use floki.Protocol.{Value, nil}
use floki.Queue.{Name, lookup}
use floki.Server.{Waiter, WaitingClients, Server, set_channel, notify_timeout, retain}
use floki.Server.Waiters.{tally, places, places-set_channel, tally-retain}
use floki.Server.Clients.{
  Client, Clients, send_response, timeout, notify_client_gone, store, discard_client, remove_client,
  handle_timeout, retry, retry_all, tick,
}
use floki.Server.Clients.Ready.{Events, ready, handle_ready}
use floki.Server.Clients.Turns.{IsParked, Fits, AreParked, find-store}
use floki.Server.Clients.Parking.{store_parked, find-discard_client}

-- The place of a client is in the channel that its timer names.
abbrev pub IsSeated : ℕ → Name → Name → Server → Type 0
IsSeated token queue channel s =
    (w : WaitingClients) × (ws : List Waiter) × (lookup queue s.waiting_clients ≡ some w)
    × (lookup channel w.channels ≡ some ws)
    × (tally token ws ≡ 1)

-- If the clients with a timer are those with one place, and the timer of a client fires that is in
-- the channel which the timer names, then the handler does not panic, the client is answered nil
-- and has neither timer nor place, and the others keep theirs.
pub handle_timeout-AreParked :
    (cleared : ℕ → Bool) (token : ℕ) (queue channel : Name) (c : Client) (cs : Clients) (s : Server)
    → AreParked cs s []
    → token ≢ 0
    → find token cs ≡ some c
    → (timer : ℕ) → c.timeout ≡ some (timer, queue, channel)
    → IsSeated token queue channel s
    → Returns
        (λ (cs', s').
          AreParked cs' s' []
          × (find token cs' ≡ some (send_response nil (record c { timeout = none }))))
        (handle_timeout cleared token queue channel cs s)
unfolding handle_timeout timeout send_response notify_timeout floki.Protocol.Responses.push_value
handle_timeout-AreParked cleared token queue channel c cs s parked client e timer on
      (w, ws, e', e'', one) =
    let fits : Fits token (some c) (places token s + tally token []) = rw e at (parked token) in
    let (place, idle) : IsParked (some (timer, queue, channel)) c.processing
        (places token s + tally token []) =
      rw on at fits.1 in
    let c' = send_response nil (record c { timeout = none }) in
    let s' = set_channel queue channel w (retain c.token ws) s in
    let answer : timeout queue channel c s ≡ done (true, c', s') =
      rw (idle, on, e', e'', timeout, notify_timeout, ◌>>=◌, idle) refl in
    let moved = λ (t : ℕ). places-set_channel t queue channel w ws (retain c.token ws) s e' e'' in
    let kept = λ (t : ℕ). tally-retain t c.token ws in
    let b : (token == 0) ≡ false = ground arith in
    let found : find token (store token c' cs) ≡ some c' =
      ground (arith, find-store token token c c' cs e) in
    rw (b, e, answer, ◌>>=◌)
      (
        store_parked token c c' cs s s' parked e fits.0
            (λ t other. ground (arith, moved t, kept t, fits.0))
            (ground (arith, moved token, kept token, fits.0, place, one)),
        found,
      )

-- A client that is to be woken and is not there, or has no timer, ends the server.
tick_panics :
    (now : ℕ) (cleared : ℕ → Bool) (token : ℕ) (request : Value) (ws : List Waiter) (cs : Clients)
    (s : Server)
    → s.awaking_clients ≡ (token, request) ∷ ws
    → (c : Client) → c.timeout ≡ none
    → (find token cs ≡ none) ⊎ (find token cs ≡ some c)
    → tick now cleared cs s ≡ panic
unfolding tick retry_all retry
tick_panics now cleared token request ws cs s e c off (inl gone) =
    rw (e, gone, tick, retry_all, ◌>>=◌) refl
tick_panics now cleared token request ws cs s e c off (inr there) =
    rw (e, there, off, tick, retry_all, retry, ◌>>=◌) refl

-- Whatever does not panic leaves the clients to wake as they are.
abbrev pub KeepsAwaking : Server → Outcome Server → Type 0
KeepsAwaking s panic = Unit
KeepsAwaking s (done s') = s'.awaking_clients ≡ s.awaking_clients

notify_timeout-KeepsAwaking :
    (queue channel : Name) (token : ℕ) (s : Server)
    → KeepsAwaking s (notify_timeout queue channel token s)
unfolding notify_timeout
notify_timeout-KeepsAwaking queue channel token s =
    elim (Option-cases (lookup queue s.waiting_clients)) [
      | inl q ↦ rw (q, notify_timeout) tt
      | inr (w, q) ↦ elim (Option-cases (lookup channel w.channels)) [
        | inl ch ↦ rw (q, ch, notify_timeout) tt
        | inr (ws, ch) ↦ rw (q, ch, notify_timeout) refl
      ]
    ]

notify_client_gone-KeepsAwaking :
    (cleared : ℕ → Bool) (c : Client) (s : Server) → KeepsAwaking s (notify_client_gone cleared c s)
unfolding notify_client_gone
notify_client_gone-KeepsAwaking cleared c s = elim (Option-cases c.timeout) [
  | inl off ↦ rw (off, notify_client_gone) refl
  | inr ((timer, queue, channel), on) ↦ elim (Bool-cases (cleared timer)) [
    | inr b ↦ rw (on, b, notify_client_gone, ◌>>=◌) tt
    | inl b ↦ elim (Option-cases (lookup queue s.waiting_clients)) [
      | inl q ↦ rw (on, b, q, notify_client_gone, ◌>>=◌, ◌>>◌) tt
      | inr (w, q) ↦ elim (Option-cases (lookup channel w.channels)) [
        | inl ch ↦ rw (on, b, q, ch, notify_client_gone, ◌>>=◌, ◌>>◌) tt
        | inr (ws, ch) ↦ rw (on, b, q, ch, notify_client_gone, ◌>>=◌, ◌>>◌) refl
      ]
    ]
  ]
]

-- If the timer of a client fires that is the first of those to wake, then the handler of the timer
-- or the tick after it panics.
pub timeout-tick_panics :
    (now : ℕ) (cleared : ℕ → Bool) (token : ℕ) (queue channel : Name) (c : Client) (request : Value)
    (ws : List Waiter) (cs : Clients) (s : Server)
    → find token cs ≡ some c
    → s.awaking_clients ≡ (token, request) ∷ ws
    → (handle_timeout cleared token queue channel cs s >>= λ (cs', s'). tick now cleared cs' s')
      ≡ panic
unfolding handle_timeout timeout notify_timeout send_response
timeout-tick_panics now cleared token queue channel c request ws cs s e awaking =
    elim (Bool-cases (token == 0)) [
      | inl b ↦ rw (b, ◌>>=◌) refl
      | inr b ↦ elim (Option-cases c.processing) [
        | inr (p, busy) ↦ rw (b, e, busy, timeout, ◌>>=◌) refl
        | inl idle ↦ elim (Option-cases c.timeout) [
          | inl off ↦ rw (b, e, idle, off, timeout, ◌>>=◌) refl
          | inr (o, on) ↦ elim (Outcome-cases (notify_timeout queue channel c.token s)) [
            | inl p ↦ rw (b, e, idle, on, p, timeout, ◌>>=◌) refl
            | inr (s', p) ↦
                let kept : s'.awaking_clients ≡ s.awaking_clients =
                  rw p at (notify_timeout-KeepsAwaking queue channel c.token s) in
                let c' = send_response nil (record c { timeout = none }) in
                let answer : timeout queue channel c s ≡ done (true, c', s') =
                  rw (idle, on, p, timeout, ◌>>=◌, idle) refl in
                let found : find token (store token c' cs) ≡ some c' =
                  ground (arith, find-store token token c c' cs e) in
                rw (b, e, answer, ◌>>=◌)
                  (tick_panics now cleared token request ws (store token c' cs) s' (kept ∙ awaking)
                    c' refl (inr found))
          ]
        ]
      ]
    ]

module _ (is_utf8 : List ℕ → Bool) (max_values : ℕ) where
  -- If a client hangs up that is the first of those to wake and no worker is at its request, then
  -- the handler of the event or the tick after it panics.
  pub hang_up-tick_panics :
      (now : ℕ) (cleared : ℕ → Bool) (token : ℕ) (events : Events) (c : Client) (request : Value)
      (ws : List Waiter) (cs : Clients) (s : Server)
      → events.hung_up ≡ true
      → find token cs ≡ some c
      → c.processing ≡ none
      → s.awaking_clients ≡ (token, request) ∷ ws
      → (handle_ready is_utf8 max_values now cleared token events cs s >>= λ (job, cs', s').
          tick now cleared cs' s')
        ≡ panic
  unfolding handle_ready ready remove_client notify_client_gone
  hang_up-tick_panics now cleared token events c request ws cs s up e idle awaking =
      let c' = record c { hup = true } in
      let answer : ready is_utf8 max_values now events c s ≡ done (false, none, c', s) =
        rw (up, idle, ready) refl in
      let found : find token (store token c' cs) ≡ some c' =
        ground (arith, find-store token token c c' cs e) in
      let gone : find token (discard_client token (store token c' cs)) ≡ none =
        ground (arith, find-discard_client token token (store token c' cs)) in
      elim (Outcome-cases (notify_client_gone cleared c' s)) [
        | inl p ↦ rw (e, answer, ◌>>=◌) (rw (found, remove_client, ◌>>=◌) (rw (p, ◌>>=◌) refl))
        | inr (s', p) ↦
            let kept : s'.awaking_clients ≡ s.awaking_clients =
              rw p at (notify_client_gone-KeepsAwaking cleared c' s) in
            rw (e, answer, ◌>>=◌)
              (rw (found, remove_client, ◌>>=◌)
                (rw (p, ◌>>=◌)
                  (tick_panics now cleared token request ws
                    (discard_client token (store token c' cs)) s' (kept ∙ awaking)
                    (record c { timeout = none }) refl (inl gone))))
      ]
