-- ===== src/Tests/Server.antt =====
-- The listed theorems of src/server.rs at one client that waits on one channel.
use floki.Prelude.{
  ℕ, ◌≡◌, refl, Bool, true, none, some, List, [], ◌∷◌, inr, arith, codes, Returns, panic, ◌>>=◌,
}
use floki.Cookie
use floki.Collections.{find}
use floki.Protocol.{nil}
use floki.Queue.{Name}
use floki.Server.{Waiter, Server}
use floki.Server.Clients.{
  get_would_block, Client, new, send_response, tick, handle_notify, handle_timeout,
}
use floki.Server.Clients.Ready.{Events, handle_ready}
use floki.Server.Clients.Turns.{AreParked, AreRetried, tick_lem}
use floki.Server.Clients.Parking.{handle_notify-AreParked}
use floki.Server.Clients.Races.{handle_timeout-AreParked, timeout-tick_panics, hang_up-tick_panics}

abbrev q : Name
q = codes "q"

abbrev c : Name
c = codes "c"

-- The channel has these waiters, and these are to be woken.
abbrev server : List Waiter → List Waiter → Server
server waiters woken = record {
  waiting_clients = (q, record { head = 4; channels = (c, waiters) ∷ [] }) ∷ [];
  awaking_clients = woken;
  nonce = 1;
  internal_clock_ms = 0;
}

-- The client of token 5, with a timer, and at a request.
abbrev waiter : Client
waiter = record (new 5) { timeout = some (7, q, c) }

abbrev busy : Client
busy = record (new 5) { processing = some (Cookie.new 5 1) }

abbrev cleared : ℕ → Bool
cleared _ = true

waiting_parked : AreParked ((5, waiter) ∷ []) (server ((5, nil) ∷ []) []) []
unfolding new
waiting_parked t = ground arith

woken_parked : AreParked ((5, waiter) ∷ []) (server [] ((5, nil) ∷ [])) []
unfolding new
woken_parked t = ground arith

busy_parked : AreParked ((5, busy) ∷ []) (server [] []) []
unfolding new
busy_parked t = ground arith

tick_lem_example :
    Returns
      (λ r. AreRetried ((5, nil) ∷ []) (server [] ((5, nil) ∷ [])) r × (r.2.awaking_clients ≡ []))
      (tick 9000 cleared ((5, waiter) ∷ []) (server [] ((5, nil) ∷ [])))
tick_lem_example =
    tick_lem 9000 cleared (λ _. refl) ((5, waiter) ∷ []) (server [] ((5, nil) ∷ [])) woken_parked

handle_notify-AreParked_example :
    Returns
      (λ (cs', s'). AreParked cs' s' [])
      (handle_notify 9000 cleared 7
        (Cookie.new 5 1)
        (get_would_block nil q c 4 10)
        ((5, busy) ∷ [])
        (server [] []))
unfolding new Cookie.new Cookie.token
handle_notify-AreParked_example =
    handle_notify-AreParked 9000 cleared 7 (Cookie.new 5 1) (get_would_block nil q c 4 10)
      ((5, busy) ∷ []) (server [] []) busy_parked (inr (λ e. ground arith, busy, refl, refl, tt))

handle_timeout-AreParked_example :
    Returns
      (λ (cs', s').
        AreParked cs' s' []
        × (find 5 cs' ≡ some (send_response nil (record waiter { timeout = none }))))
      (handle_timeout cleared 5 q c ((5, waiter) ∷ []) (server ((5, nil) ∷ []) []))
unfolding new
handle_timeout-AreParked_example =
    handle_timeout-AreParked cleared 5 q c waiter ((5, waiter) ∷ []) (server ((5, nil) ∷ []) [])
      waiting_parked (λ e. ground arith) refl 7 refl
      (record { head = 4; channels = (c, (5, nil) ∷ []) ∷ [] }, (5, nil) ∷ [], refl, refl, refl)

timeout-tick_panics_example :
    (handle_timeout cleared 5 q c ((5, waiter) ∷ []) (server [] ((5, nil) ∷ [])) >>= λ (cs', s').
    tick 9000 cleared cs' s')
    ≡ panic
timeout-tick_panics_example =
    timeout-tick_panics 9000 cleared 5 q c waiter nil [] ((5, waiter) ∷ [])
      (server [] ((5, nil) ∷ [])) refl refl

abbrev gone : Events
gone = record { hung_up = true; reads = none; writes = none }

hang_up-tick_panics_example :
    (handle_ready (λ _. true) 4 9000 cleared 5 gone ((5, waiter) ∷ []) (server [] ((5, nil) ∷ []))
      >>= λ (job, cs', s'). tick 9000 cleared cs' s')
    ≡ panic
unfolding new
hang_up-tick_panics_example =
    hang_up-tick_panics (λ _. true) 4 9000 cleared 5 gone waiter nil [] ((5, waiter) ∷ [])
      (server [] ((5, nil) ∷ [])) refl refl refl refl
