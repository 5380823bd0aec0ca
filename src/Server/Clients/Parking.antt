-- ===== src/Server/Clients/Parking.antt =====
-- src/server.rs: the messages and timers of a turn keep every waiting client in one place.
use floki.Prelude.{
  ◌⊎◌, ℕ, ◌+◌, ◌*◌, ◌≡◌, ◌≢◌, refl, sym, ap, subst, ◌∙◌, Bool, Bool-cases, true, false,
  Outcome-cases, inl, inr, none, some, List, [], ◌∷◌, arith, u64, done, ◌>>=◌, Returns, leb, ◌==◌,
  if◌then◌else◌,
}
use floki.Cookie
use floki.Collections.{find}
use floki.Protocol.{nil}
use floki.Queue.{lookup}
use floki.Server.{Waiter, WaitingClients, Server, wait_queue, notify_queue}
use floki.Server.Waiters.{
  tally, places, places-wait_queue, places-notify_queue, places-notify_channel,
  places-notify_queue_deleted, places-notify_queue_created, places-notify_channel_deleted,
  places-notify_channel_created,
}
use floki.Server.Clients.{
  NotifyMessage, response, put_response, messages_available, get_would_block, channel_create,
  channel_delete, queue_create, queue_delete, server_info, server_set_config, Client, Clients,
  send_response, clock_ms, same_cookie, notify, notify_client_gone, store, discard_client,
  remove_client, notify_server, settle, handle_notify,
}
use floki.Server.Clients.Turns.{IsParked, Fits, AreParked, find-store, places_same, clock_ms_lem}

-- What the server is told fits its tables: it knows what is deleted, and not what is created.
abbrev pub IsExpected : NotifyMessage → Server → Type 0
IsExpected (messages_available queue channel available) s = Unit
IsExpected (queue_delete queue) s = (w : WaitingClients) × (lookup queue s.waiting_clients ≡ some w)
IsExpected (queue_create queue) s = lookup queue s.waiting_clients ≡ none
IsExpected (channel_delete queue channel) s =
    (w : WaitingClients) × (ws : List Waiter) × (lookup queue s.waiting_clients ≡ some w)
    × (lookup channel w.channels ≡ some ws)
IsExpected (channel_create queue channel) s =
    (w : WaitingClients) × (lookup queue s.waiting_clients ≡ some w)
    × (lookup channel w.channels ≡ none)
IsExpected (server_info _) s = Unit
IsExpected (server_set_config _ _ _) s = Unit
IsExpected (response _) s = ⊥
IsExpected (put_response _ _ _) s = ⊥
IsExpected (get_would_block _ _ _ _ _) s = ⊥

-- A message that is expected does not panic and leaves every client as many places as it had.
places-notify_server :
    (t : ℕ) (msg : NotifyMessage) (s : Server)
    → IsExpected msg s
    → Returns (λ s'. places t s' ≡ places t s) (notify_server msg s)
unfolding notify_server
places-notify_server t (messages_available queue channel available) s h =
    places-notify_channel t queue channel available s
places-notify_server t (queue_delete queue) s h = places-notify_queue_deleted t queue s h
places-notify_server t (queue_create queue) s h = places-notify_queue_created t queue s h
places-notify_server t (channel_delete queue channel) s (w, ws, e, e') =
    places-notify_channel_deleted t queue channel s w ws e e'
places-notify_server t (channel_create queue channel) s (w, e, e') =
    places-notify_channel_created t queue channel s w e e'
places-notify_server t (server_info _) s h = refl
places-notify_server t (server_set_config _ _ _) s h = refl
places-notify_server t (response _) s h = absurd h
places-notify_server t (put_response _ _ _) s h = absurd h
places-notify_server t (get_would_block _ _ _ _ _) s h = absurd h

pub find-discard_client :
    (t token : ℕ) (cs : Clients)
    → find t (discard_client token cs) ≡ (if token == t then none else find t cs)
find-discard_client t token [] = ground arith
find-discard_client t token ((u, d) ∷ cs) = ground (arith, find-discard_client t token cs)

-- A client is changed, and only its own place.
pub store_parked :
    (token : ℕ) (c c' : Client) (cs : Clients) (s s' : Server)
    → AreParked cs s []
    → find token cs ≡ some c
    → c'.token ≡ token
    → ((t : ℕ) → token ≢ t → places t s' ≡ places t s)
    → IsParked c'.timeout c'.processing (places token s')
    → AreParked (store token c' cs) s' []
store_parked token c c' cs s s' parked e same others own t = elim (Bool-cases (token == t)) [
  | inl b ↦
      let is_t : token ≡ t = ground arith in
      let found : find t (store token c' cs) ≡ some c' = rw b at (find-store t token c c' cs e) in
      let same_places : places token s' ≡ places t s' + tally t [] =
        ap (λ u. places u s') is_t ∙ omega arith in
      rw found (same ∙ is_t, subst (λ n. IsParked c'.timeout c'.processing n) same_places own)
  | inr b ↦
      let not_t : token ≢ t = λ is_t. ground arith in
      let found : find t (store token c' cs) ≡ find t cs = rw b at (find-store t token c c' cs e) in
      let same_places = ap (λ n. n + tally t []) (sym (others t not_t)) in
      subst (λ o. Fits t o (places t s' + tally t [])) (sym found)
        (subst (λ n. Fits t (find t cs) n) same_places (parked t))
]

-- A client goes, and with it its place.
discard_parked :
    (token : ℕ) (cs : Clients) (s s' : Server)
    → AreParked cs s []
    → ((t : ℕ) → token ≢ t → places t s' ≡ places t s)
    → places token s' ≡ 0
    → AreParked (discard_client token cs) s' []
discard_parked token cs s s' parked others own t = elim (Bool-cases (token == t)) [
  | inl b ↦
      let is_t : token ≡ t = ground arith in
      let found : find t (discard_client token cs) ≡ none =
        rw b at (find-discard_client t token cs) in
      let same_places : places token s' ≡ places t s' + tally t [] =
        ap (λ u. places u s') is_t ∙ omega arith in
      rw found (sym same_places ∙ own)
  | inr b ↦
      let not_t : token ≢ t = λ is_t. ground arith in
      let found : find t (discard_client token cs) ≡ find t cs =
        rw b at (find-discard_client t token cs) in
      let same_places = ap (λ n. n + tally t []) (sym (others t not_t)) in
      subst (λ o. Fits t o (places t s' + tally t [])) (sym found)
        (subst (λ n. Fits t (find t cs) n) same_places (parked t))
]

-- What a worker answers a client.
abbrev pub IsAnswer : NotifyMessage → Type 0
IsAnswer (response _) = Unit
IsAnswer (put_response _ _ _) = Unit
IsAnswer (get_would_block _ _ _ _ _) = Unit
IsAnswer (messages_available _ _ _) = ⊥
IsAnswer (queue_delete _) = ⊥
IsAnswer (queue_create _) = ⊥
IsAnswer (channel_delete _ _) = ⊥
IsAnswer (channel_create _ _) = ⊥
IsAnswer (server_info _) = ⊥
IsAnswer (server_set_config _ _ _) = ⊥

-- A client without a timer has no place.
no_place :
    (token : ℕ) (c : Client) (cs : Clients) (s : Server)
    → AreParked cs s []
    → find token cs ≡ some c
    → c.timeout ≡ none
    → (c.token ≡ token) × (places token s ≡ 0)
no_place token c cs s parked e off =
    let (same, fits) : Fits token (some c) (places token s + tally token []) =
      rw e at (parked token) in
    let none_there : places token s + tally token [] ≡ 0 = rw off at fits in (same, omega arith)

places-clock_ms : (t now : ℕ) (s : Server) → places t (clock_ms now s).1 ≡ places t s
places-clock_ms t now s =
    let (same_waiting, same_awaking) = clock_ms_lem now s in
    places_same t s (clock_ms now s).1 same_waiting same_awaking

module _ (now : ℕ) (cleared : ℕ → Bool) (timer cookie : ℕ) where
  -- The client is there, and the message is for its request.
  answered_lem :
      (token : ℕ) (msg : NotifyMessage) (c : Client) (cs : Clients) (s : Server)
      → AreParked cs s []
      → find token cs ≡ some c
      → c.timeout ≡ none
      → same_cookie cookie c.processing ≡ true
      → c.hup ≡ false
      → IsAnswer msg
      → Returns
          (λ (cs', s'). AreParked cs' s' [])
          (notify now timer cookie msg c s >>= settle cleared token cs)
  unfolding notify send_response
  answered_lem token (response value) c cs s parked e off b h answer =
      let (same, none_there) = no_place token c cs s parked e off in
      let c' = send_response value (record c { processing = none }) in
      let answer : notify now timer cookie (response value) c s ≡ done (true, c', s) =
        rw (off, b, h, notify, off) refl in
      rw (answer, ◌>>=◌)
        (store_parked token c c' cs s s parked e same (λ t _. refl) (rw off none_there))
  answered_lem token (put_response value queue head) c cs s parked e off b h answer =
      let (same, none_there) = no_place token c cs s parked e off in
      let c' = send_response value (record c { processing = none }) in
      let answer : notify now timer cookie (put_response value queue head) c s
          ≡ done (true, c', notify_queue queue head s) =
        rw (off, b, h, notify, off) refl in
      rw (answer, ◌>>=◌)
        (store_parked token c c' cs s (notify_queue queue head s) parked e same
          (λ t _. places-notify_queue t queue head s)
          (rw off (places-notify_queue token queue head s ∙ none_there)))
  answered_lem token (get_would_block request queue channel required_head duration) c cs s parked e
        off b h answer =
      let (same, none_there) = no_place token c cs s parked e off in
      let s' = (clock_ms now s).1 in
      elim (Bool-cases (leb (u64 (c.request_clock_ms + duration * 1000)) (clock_ms now s).0)) [
        | inl late ↦
            let c' = send_response nil (record c { processing = none }) in
            let answer : notify now timer cookie
                  (get_would_block request queue channel required_head duration) c s
                ≡ done (true, c', s') =
              rw (off, b, h, late, notify, off) refl in
            rw (answer, ◌>>=◌)
              (store_parked token c c' cs s s' parked e same (λ t _. places-clock_ms t now s)
                (rw off (places-clock_ms token now s ∙ none_there)))
        | inr early ↦
            let c' = record c { processing = none; timeout = some (timer, queue, channel) } in
            let s'' = wait_queue request queue channel c.token required_head s' in
            let answer : notify now timer cookie
                  (get_would_block request queue channel required_head duration) c s
                ≡ done (true, c', s'') =
              rw (off, b, h, early, notify) refl in
            let added =
              λ (t : ℕ). places-wait_queue t request queue channel c.token required_head s' in
            rw (answer, ◌>>=◌)
              (store_parked token c c' cs s s'' parked e same
                (λ t other. ground (arith, added t, places-clock_ms t now s, same))
                (ground (arith, added token, places-clock_ms token now s, same, none_there), refl))
      ]
  answered_lem token (messages_available _ _ _) c cs s parked e off b h answer = absurd answer
  answered_lem token (channel_create _ _) c cs s parked e off b h answer = absurd answer
  answered_lem token (channel_delete _ _) c cs s parked e off b h answer = absurd answer
  answered_lem token (queue_create _) c cs s parked e off b h answer = absurd answer
  answered_lem token (queue_delete _) c cs s parked e off b h answer = absurd answer
  answered_lem token (server_info _) c cs s parked e off b h answer = absurd answer
  answered_lem token (server_set_config _ _ _) c cs s parked e off b h answer = absurd answer

  settled_lem :
      (token : ℕ) (msg : NotifyMessage) (c : Client) (cs : Clients) (s : Server)
      → AreParked cs s []
      → find token cs ≡ some c
      → c.timeout ≡ none
      → IsAnswer msg
      → Returns
          (λ (cs', s'). AreParked cs' s' [])
          (notify now timer cookie msg c s >>= settle cleared token cs)
  unfolding notify send_response remove_client notify_client_gone
  settled_lem token msg c cs s parked e off answer =
      let (same, none_there) = no_place token c cs s parked e off in
      elim (Bool-cases (same_cookie cookie c.processing)) [
        | inr b ↦
            rw (off, b, notify, ◌>>=◌)
              (store_parked token c c cs s s parked e same (λ t _. refl) (rw off none_there))
        | inl b ↦ elim (Bool-cases c.hup) [
          | inl h ↦
              let c' = record c { processing = none } in
              let found : find token (store token c' cs) ≡ some c' =
                ground (arith, find-store token token c c' cs e) in
              let stored =
                store_parked token c c' cs s s parked e same (λ t _. refl) (rw off none_there) in
              let answer : notify now timer cookie msg c s ≡ done (false, c', s) =
                rw (off, b, h, notify, off) refl in
              let gone : notify_client_gone cleared c' s ≡ done s =
                rw (off, notify_client_gone) refl in
              rw (answer, ◌>>=◌)
                (rw (found, remove_client, ◌>>=◌)
                  (rw (gone, ◌>>=◌)
                    (discard_parked token (store token c' cs) s s stored (λ t _. refl) none_there)))
          | inr h ↦ answered_lem token msg c cs s parked e off b h answer
        ]
      ]

-- The message is from a worker or the monitor: for the server, what it expects; for a client, the
-- answer to a request, and not while a timer of the client runs.
abbrev pub IsDeliverable : ℕ → NotifyMessage → Clients → Server → Type 0
IsDeliverable cookie msg cs s =
    ((Cookie.token cookie ≡ 0) × IsExpected msg s)
    ⊎ ((Cookie.token cookie ≢ 0)
        × (c : Client) × (find (Cookie.token cookie) cs ≡ some c)
        × (c.timeout ≡ none)
        × IsAnswer msg)

-- If the clients with a timer are those with one place, then a message does not make the handler
-- panic and keeps this so: one for the server that deletes only what it knows and creates only what
-- it does not, or an answer for a client that is there and has no timer.
pub handle_notify-AreParked :
    (now : ℕ) (cleared : ℕ → Bool) (timer cookie : ℕ) (msg : NotifyMessage) (cs : Clients)
    (s : Server)
    → AreParked cs s []
    → IsDeliverable cookie msg cs s
    → Returns (λ (cs', s'). AreParked cs' s' []) (handle_notify now cleared timer cookie msg cs s)
unfolding handle_notify
handle_notify-AreParked now cleared timer cookie msg cs s parked (inl (server, expected)) =
    let b : (Cookie.token cookie == 0) ≡ true = ground arith in
    let kept = λ (t : ℕ). places-notify_server t msg s expected in
    elim (Outcome-cases (notify_server msg s)) [
      | inl p ↦ absurd (rw p at (kept 0))
      | inr (s', p) ↦
          rw (b, p, ◌>>=◌)
            (λ t.
              let same : places t s' ≡ places t s = rw p at (kept t) in
              subst (λ n. Fits t (find t cs) (n + tally t [])) (sym same) (parked t))
    ]
handle_notify-AreParked now cleared timer cookie msg cs s parked (inr (client, c, e, off, answer)) =
    let b : (Cookie.token cookie == 0) ≡ false = ground arith in
    rw (b, e, ◌>>=◌)
      (settled_lem now cleared timer cookie (Cookie.token cookie) msg c cs s parked e off answer)
