-- ===== src/Server/Clients/Turns.antt =====
-- src/server.rs: a turn of the event loop. Every client that waits has one place and a timer, and at
-- the end of the turn those to wake are dispatched again.
use floki.Prelude.{
  ℕ, ◌+◌, ◌%◌, ◌^◌, ◌≤◌, ◌≡◌, refl, sym, ap, subst, Outcome-cases, ◌∙◌, Bool, Bool-cases, true,
  Option-cases, inl, inr, Option, none, some, List, [], ◌∷◌, map, arith, ◌>>=◌, ◌>>◌, Returns, ◌==◌,
  if◌then◌else◌,
}
use floki.Cookie
use floki.Collections.{find}
use floki.Protocol.{Value}
use floki.Queue.{Name}
use floki.Server.{Waiter, Server, make_cookie}
use floki.Server.Waiters.{tally, places}
use floki.Server.Clients.{
  Client, Clients, Dispatch, clock_ms, dispatch, retry, store, retry_all, tick,
}

-- A client without a timer has no place; one with a timer has one, and no worker is at its request.
abbrev pub IsParked : Option (ℕ × Name × Name) → Option ℕ → ℕ → Type 0
IsParked none processing n = n ≡ 0
IsParked (some _) processing n = (n ≡ 1) × (processing ≡ none)

abbrev pub Fits : ℕ → Option Client → ℕ → Type 0
Fits t none n = n ≡ 0
Fits t (some c) n = (c.token ≡ t) × IsParked c.timeout c.processing n

-- `ws` are taken out of the server and are still to be dispatched.
abbrev pub AreParked : Clients → Server → List Waiter → Type 0
AreParked cs s ws = (t : ℕ) → Fits t (find t cs) (places t s + tally t ws)

pub find-store :
    (t token : ℕ) (c c' : Client) (cs : Clients)
    → find token cs ≡ some c
    → find t (store token c' cs) ≡ (if token == t then some c' else find t cs)
find-store t token c c' [] e = ground arith
find-store t token c c' ((u, d) ∷ cs) e = ground (arith, find-store t token c c' cs)

-- What the loop did: a job for each client, in their order.
abbrev pub AreRetried : List Waiter → Server → List Dispatch × Clients × Server → Type 0
AreRetried ws s (jobs, cs', s') =
    AreParked cs' s' []
    × (map (λ j. Cookie.token j.cookie) jobs ≡ map (λ w. w.0 % 2 ^ 16) ws)
    × (map (λ j. j.request) jobs ≡ map (λ w. w.1) ws)
    × (s'.waiting_clients ≡ s.waiting_clients)

-- A client that has a place is there, and can be dispatched.
parked_some :
    (t n : ℕ) (o : Option Client)
    → Fits t o n
    → 1 ≤ n
    → (c : Client) × (o ≡ some c)
      × (c.token ≡ t)
      × (n ≡ 1)
      × (c.processing ≡ none)
      × (timeout : ℕ × Name × Name) × (c.timeout ≡ some timeout)
parked_some t n none fits h = absurd (omega arith)
parked_some t n (some c) (same, fits) h = elim (Option-cases c.timeout) [
  | inl e ↦ absurd (let none_left : n ≡ 0 = rw e at fits in omega arith)
  | inr (timeout, e) ↦ let (one, idle) = rw e at fits in (c, refl, same, one, idle, timeout, e)
]

pub clock_ms_lem :
    (now : ℕ) (s : Server)
    → ((clock_ms now s).1.waiting_clients ≡ s.waiting_clients)
      × ((clock_ms now s).1.awaking_clients ≡ s.awaking_clients)
unfolding clock_ms
clock_ms_lem now s = elim (Bool-cases (s.internal_clock_ms == 0)) [
  | inl b ↦ rw (b, clock_ms) (refl, refl)
  | inr b ↦ rw (b, clock_ms) (refl, refl)
]

pub places_same :
    (t : ℕ) (s s' : Server)
    → s'.waiting_clients ≡ s.waiting_clients
    → s'.awaking_clients ≡ s.awaking_clients
    → places t s' ≡ places t s
places_same t s s' e e' = rw (e, e') refl

module _ (now : ℕ) (cleared : ℕ → Bool) (clears : (timer : ℕ) → cleared timer ≡ true) where
  dispatched :
      (request : Value) (c : Client) (s : Server) (timeout : ℕ × Name × Name)
      → c.processing ≡ none
      → c.timeout ≡ some timeout
      → Returns
          (λ (job, c', s').
            (c'.token ≡ c.token)
            × (c'.timeout ≡ none)
            × (Cookie.token job.cookie ≡ c.token % 2 ^ 16)
            × (job.request ≡ request)
            × (s'.waiting_clients ≡ s.waiting_clients)
            × (s'.awaking_clients ≡ s.awaking_clients))
          (retry now cleared request c s)
  unfolding retry dispatch make_cookie
  dispatched request c s timeout idle e =
      let s' = (make_cookie c.token s).1 in
      let (same_waiting, same_awaking) = clock_ms_lem now s' in
      rw (e, clears timeout.0, idle, retry, ◌>>=◌, ◌>>◌)
        (refl, refl, (Cookie.token-new c.token s'.nonce).1, refl, same_waiting, same_awaking)

  -- Once the first of those to wake is dispatched, the others are still parked.
  rest_parked :
      (token : ℕ) (request : Value) (ws : List Waiter) (c c' : Client) (cs : Clients)
      (s s' : Server)
      → AreParked cs s ((token, request) ∷ ws)
      → find token cs ≡ some c
      → places token s + tally token ((token, request) ∷ ws) ≡ 1
      → c'.token ≡ token
      → c'.timeout ≡ none
      → s'.waiting_clients ≡ s.waiting_clients
      → s'.awaking_clients ≡ s.awaking_clients
      → AreParked (store token c' cs) s' ws
  rest_parked token request ws c c' cs s s' parked e one same off e' e'' t =
      elim (Bool-cases (token == t)) [
        | inl b ↦
            let is_t : token ≡ t = ground arith in
            let left : places t s' + tally t ws ≡ 0 =
              ground (arith, places_same t s s' e' e'', rw is_t at one) in
            let found : find t (store token c' cs) ≡ some c' =
              rw b at (find-store t token c c' cs e) in
            rw found (same ∙ is_t, rw off left)
        | inr b ↦
            let before : Fits t (find t cs) (places t s + tally t ws) = rw b at (parked t) in
            let moved = ap (λ n. n + tally t ws) (places_same t s s' e' e'') in
            let found : find t (store token c' cs) ≡ find t cs =
              rw b at (find-store t token c c' cs e) in
            subst (λ o. Fits t o (places t s' + tally t ws)) (sym found)
              (subst (λ n. Fits t (find t cs) n) (sym moved) before)
      ]

  retry_all_lem :
      (ws : List Waiter) (cs : Clients) (s : Server)
      → AreParked cs s ws
      → Returns
          (λ r. AreRetried ws s r × (r.2.awaking_clients ≡ s.awaking_clients))
          (retry_all now cleared ws cs s)
  unfolding retry_all
  retry_all_lem [] cs s parked = ((parked, refl, refl, refl), refl)
  retry_all_lem ((token, request) ∷ ws) cs s parked =
      let here : 1 ≤ places token s + tally token ((token, request) ∷ ws) = ground arith in
      let (c, e, same, one, idle, timeout, e') =
        parked_some token _ (find token cs) (parked token) here in
      let step = dispatched request c s timeout idle e' in
      elim (Outcome-cases (retry now cleared request c s)) [
        | inl p ↦ absurd (rw p at step)
        | inr ((job, c', s'), p) ↦
            let (same', off, cookie, asked, waiting', awaking') = rw p at step in
            let parked' =
              rest_parked token request ws c c' cs s s' parked e one (same' ∙ same) off waiting'
                awaking' in
            let rest = retry_all_lem ws (store token c' cs) s' parked' in
            elim (Outcome-cases (retry_all now cleared ws (store token c' cs) s')) [
              | inl p' ↦ absurd (rw p' at rest)
              | inr ((jobs, cs', s''), p') ↦
                  let ((parked'', cookies, requests, waiting''), awaking'') = rw p' at rest in
                  let cookie' = cookie ∙ ap (λ u. u % 2 ^ 16) same in
                  rw (e, p, p', retry_all, ◌>>=◌)
                    (
                      (
                        parked'',
                        rw (cookie', cookies) refl,
                        rw (asked, requests) refl,
                        waiting'' ∙ waiting',
                      ),
                      awaking'' ∙ awaking',
                    )
            ]
      ]

  -- If every client with a timer has one place, among the waiting clients or those to wake, and no
  -- worker is at its request, and clients without one have none, and `clear_timeout` finds each
  -- timer, then a tick does not panic. It dispatches each client to wake, in order, with its own
  -- request and a cookie of its token's lower 16 bits, leaves none to wake, the waiting clients as
  -- they were, and every client again with such places.
  pub tick_lem :
      (cs : Clients) (s : Server)
      → AreParked cs s []
      → Returns
          (λ r. AreRetried s.awaking_clients s r × (r.2.awaking_clients ≡ []))
          (tick now cleared cs s)
  unfolding tick
  tick_lem cs s parked =
      let taken = record s { awaking_clients = [] } in
      let parked' : AreParked cs taken s.awaking_clients = λ t.
        let moved : places t s + tally t [] ≡ places t taken + tally t s.awaking_clients =
          omega arith in
        subst (λ n. Fits t (find t cs) n) moved (parked t) in
      let loop = retry_all_lem s.awaking_clients cs taken parked' in
      elim (Outcome-cases (retry_all now cleared s.awaking_clients cs taken)) [
        | inl p ↦ absurd (rw p at loop)
        | inr ((jobs, cs', s'), p) ↦
            let ((parked'', cookies, requests, waiting'), awaking') = rw p at loop in
            let rest = record s' { awaking_clients = []; internal_clock_ms = 0 } in
            rw (p, ◌>>=◌)
              (
                (
                  (λ t.
                      subst (λ n. Fits t (find t cs') n)
                        (ap (λ n. n + tally t []) (places_same t rest s' refl awaking'))
                        (parked'' t)),
                  cookies,
                  requests,
                  waiting',
                ),
                refl,
              )
      ]
