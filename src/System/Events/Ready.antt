-- ===== src/System/Events/Ready.antt =====
-- src/server.rs, `Client::ready` and `ServerHandler::ready`: a socket's events leave the queues and
-- channels that the event loop has tables for.
use floki.Prelude.{
  ℕ, ◌≡◌, refl, ◌∙◌, Bool, Bool-cases, true, false, Option-cases, Outcome-cases, inl, inr, none,
  some, List, done, panic, ◌>>=◌,
}
use floki.Collections.{find}
use floki.Protocol.{Value, Parsed, incomplete, invalid, parsed, failed, panicked, exhausted}
use floki.Protocol.Requests.{RequestBuffer, pop_value}
use floki.Server.{Server}
use floki.Server.Clients.{Client, Clients, clock_ms, dispatch, store, remove_client, neither}
use floki.Server.Clients.Ready.{Events, Answer, fill, try_parse_request, ready, handle_ready}
use floki.System.Shape.{shape}
use floki.System.Events.{KeepsShape, clock_ms-shape, remove_client-shape}
use floki.System.Events.Turns.{dispatch-shape}

module _ (is_utf8 : List ℕ → Bool) (max_values : ℕ) where
  -- What comes of the parse of a request.
  Parsed-shape :
      (now : ℕ) (result : Parsed Value) (request : RequestBuffer) (c : Client) (s : Server)
      → KeepsShape {A = Answer}
          (λ r. r.3)
          s
          (elim result [
            | parsed value ↦ do
              let (clock, s') = clock_ms now s
              let c' = record c { request = request; request_clock_ms = clock; interest = neither }
              (job, c'', s'') ← dispatch now value c' s'
              done (true, some job, c'', s'')
            | failed e ↦ elim e [
              | incomplete ↦ done (true, none, record c { request = request }, s)
              | invalid _ ↦ done (false, none, record c { request = request }, s)
            ]
            | panicked ↦ panic
            | exhausted ↦ panic
          ])
  Parsed-shape now (parsed value) request c s =
      let (clock, s') = clock_ms now s in
      let c' = record c { request = request; request_clock_ms = clock; interest = neither } in
      let kept = dispatch-shape now value c' s' in
      elim (Outcome-cases (dispatch now value c' s')) [
        | inl p ↦ rw p tt
        | inr ((job, c'', s''), p) ↦ rw p (rw p at (kept) ∙ clock_ms-shape now s)
      ]
  Parsed-shape now (failed incomplete) request c s = refl
  Parsed-shape now (failed (invalid _)) request c s = refl
  Parsed-shape now panicked request c s = tt
  Parsed-shape now exhausted request c s = tt

  parse-shape :
      (now : ℕ) (c : Client) (s : Server)
      → KeepsShape (λ r. r.3) s (try_parse_request is_utf8 max_values now c s)
  unfolding try_parse_request
  parse-shape now c s =
      let (result, request) = pop_value is_utf8 max_values c.request in
      Parsed-shape now result request c s

  ready-shape :
      (now : ℕ) (events : Events) (c : Client) (s : Server)
      → KeepsShape (λ r. r.3) s (ready is_utf8 max_values now events c s)
  unfolding ready
  ready-shape now events c s = elim (Bool-cases events.hung_up) [
    | inl b ↦ rw (b, ready) refl
    | inr b ↦ elim (Option-cases events.reads) [
      | inl p ↦ rw (b, p, ready) refl
      | inr (rs, p) ↦
          let read = record c { request = fill rs c.request } in
          let kept = parse-shape now read s in
          elim (Outcome-cases (try_parse_request is_utf8 max_values now read s)) [
            | inl o ↦ rw (b, p, o, ready) tt
            | inr ((stays, job, c', s'), o) ↦ elim (Bool-cases stays) [
              | inl h ↦ rw (b, p, o, h, ready) (rw o at (kept))
              | inr h ↦ rw (b, p, o, h, ready) (rw o at (kept))
            ]
          ]
    ]
  ]

  pub handle_ready-shape :
      (now : ℕ) (cleared : ℕ → Bool) (token : ℕ) (events : Events) (cs : Clients) (s : Server)
      → KeepsShape (λ r. r.2) s (handle_ready is_utf8 max_values now cleared token events cs s)
  unfolding handle_ready
  handle_ready-shape now cleared token events cs s = elim (Option-cases (find token cs)) [
    | inl p ↦ rw (p, handle_ready) tt
    | inr (c, p) ↦
        let kept = ready-shape now events c s in
        elim (Outcome-cases (ready is_utf8 max_values now events c s)) [
          | inl o ↦ rw (p, o, handle_ready) tt
          | inr ((stays, job, c', s'), o) ↦
              let kept' : shape s' ≡ shape s = rw o at (kept) in
              elim (Bool-cases stays) [
                | inl h ↦ rw (p, o, h, handle_ready) kept'
                | inr h ↦
                    let gone = remove_client-shape cleared token (store token c' cs) s' in
                    elim (Outcome-cases (remove_client cleared token (store token c' cs) s')) [
                      | inl r ↦ rw (p, o, h, r, handle_ready) tt
                      | inr ((cs', s''), r) ↦ rw (p, o, h, r, handle_ready) (rw r at (gone) ∙ kept')
                    ]
              ]
        ]
  ]
