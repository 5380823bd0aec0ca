-- ===== src/System/Commands/Reads.antt =====
-- src/server.rs, `Dispatch`: `HMGET` and `HMSET` leave which queues and channels there are.
use floki.Prelude.{
  ℕ, zero, suc, ◌+◌, ◌^◌, ◌≡◌, refl, ◌∙◌, Bool, Bool-cases, ◌&&◌, Option-cases, Outcome-cases, inl,
  inr, some, List, [], ◌∷◌, codes, done, ◌==◌, same, ltb,
}
use floki.Collections.{LinkedHashMap}
use floki.Channel.{InFlightState, QueueError, QueueResult, ok, err}
use floki.Queue
use floki.Queue.{Name, InnerQueue, lookup, replace}
use floki.Decimal.{parse_unsigned}
use floki.Protocol.{Value, Values, array, message, one_more}
use floki.Server.Clients.{NotifyMessage, response, get_would_block}
use floki.Server.Commands.{Queues, with_int, from_error}
use floki.Server.Commands.Messages.{
  as_i64, required_head_of, Got, results, would_block, refused, get_loop, timeout_of, hmget, hmset,
  sought,
}
use floki.Server.Commands.Tables.{QueueResult-cases}
use floki.System.Shape.{told_all}
use floki.System.Queues.{
  Keeps, get-Keeps, seek_channel_to_id-names, seek_channel_to_timestamp-KeepsFound,
}
use floki.System.Commands.{queue_names, Leaves, quiet}

module _ (L : LinkedHashMap InFlightState) (debug : QueueError → List ℕ) where
  got_kept :
      (q q'' : InnerQueue L) (v : Value) (got : Got)
      → queue_names L debug q'' ≡ queue_names L debug q
      → Keeps L q (elim got [
        | results vs ↦ done (q'', results (one_more v vs))
        | would_block required_head ↦ done (q'', would_block required_head)
        | refused e ↦ done (q'', refused e)
      ])
  got_kept q q'' v (results vs) h = h
  got_kept q q'' v (would_block n) h = h
  got_kept q q'' v (refused e) h = h

  get_loop-Keeps :
      (clock : ℕ) (channel_name : Name) (tickets : ℕ → ℕ) (blocks : Bool) (n i : ℕ)
      (q : InnerQueue L)
      → Keeps L q (get_loop L debug clock channel_name tickets blocks n i q)
  unfolding get_loop
  get_loop-Keeps clock channel_name tickets blocks zero i q = refl
  get_loop-Keeps clock channel_name tickets blocks (suc n) i q =
      elim (Outcome-cases (Queue.get L q channel_name (tickets i) clock)) [
        | inl p ↦ rw (p, get_loop) tt
        | inr ((q', r), p) ↦
            let kept : queue_names L debug q' ≡ queue_names L debug q =
              rw p at (get-Keeps L q channel_name (tickets i) clock) in
            elim (QueueResult-cases r) [
              | inl (e, p') ↦ elim (Option-cases (required_head_of e)) [
                | inl h ↦ rw (p, p', h, get_loop) kept
                | inr (head, h) ↦ elim (Bool-cases (blocks && (i == 0))) [
                  | inl b ↦ rw (p, p', h, b, get_loop) kept
                  | inr b ↦ rw (p, p', h, b, get_loop) kept
                ]
              ]
              | inr (m, p') ↦
                  elim (Outcome-cases
                    (get_loop L debug clock channel_name tickets blocks n (i + 1) q')) [
                      | inl p'' ↦ rw (p, p', p'', get_loop) tt
                      | inr ((q'', got), p'') ↦
                          let rest : queue_names L debug q'' ≡ queue_names L debug q' =
                            rw p'' at
                              (get_loop-Keeps clock channel_name tickets blocks n (i + 1) q') in
                          rw (p, p', p'', get_loop)
                            (got_kept q q'' (message (as_i64 m.0) m.1) got (rest ∙ kept))
                    ]
            ]
      ]

  got-Leaves :
      (name : Name) (q q' : InnerQueue L) (qs : Queues L debug) (found : Values → NotifyMessage)
      (waits : ℕ → NotifyMessage) (got : Got)
      → lookup name qs ≡ some q
      → queue_names L debug q' ≡ queue_names L debug q
      → Leaves L debug qs (elim got [
        | results vs ↦ done (replace name q' qs, [], found vs)
        | would_block required_head ↦ done (replace name q' qs, [], waits required_head)
        | refused e ↦ done (replace name q' qs, [], from_error L debug e)
      ])
  got-Leaves name q q' qs found waits (results vs) e kept =
      quiet L debug name q q' qs (found vs) e kept
  got-Leaves name q q' qs found waits (would_block n) e kept =
      quiet L debug name q q' qs (waits n) e kept
  got-Leaves name q q' qs found waits (refused x) e kept =
      quiet L debug name q q' qs (from_error L debug x) e kept

  pub hmget-Leaves :
      (max_results clock : ℕ) (tickets : ℕ → ℕ) (request : Value) (args : List (List ℕ))
      (qs : Queues L debug)
      → Leaves L debug qs (hmget L debug max_results clock tickets request args qs)
  unfolding hmget told_all
  hmget-Leaves max_results clock tickets request [] qs = (λ _. refl, refl)
  hmget-Leaves max_results clock tickets request (a ∷ []) qs = (λ _. refl, refl)
  hmget-Leaves max_results clock tickets request (a ∷ b ∷ []) qs = (λ _. refl, refl)
  hmget-Leaves max_results clock tickets request (a ∷ b ∷ c ∷ []) qs = (λ _. refl, refl)
  hmget-Leaves max_results clock tickets request (a ∷ name ∷ channel_name ∷ count_arg ∷ args) qs =
      elim (Option-cases (parse_unsigned (2 ^ 64) count_arg)) [
        | inl p ↦ rw (p, hmget) (λ _. refl, refl)
        | inr (count, p) ↦ elim (Option-cases (timeout_of L debug args)) [
          | inl p' ↦ rw (p, p', hmget) (λ _. refl, refl)
          | inr (timeout, p') ↦ elim (Option-cases (lookup name qs)) [
            | inl e ↦ rw (p, p', e, hmget) (λ _. refl, refl)
            | inr (q, e) ↦ elim (Bool-cases (ltb max_results count)) [
              | inl b ↦ rw (p, p', e, b, hmget) tt
              | inr b ↦
                  elim (Outcome-cases
                    (get_loop L debug clock channel_name tickets (ltb 0 timeout) count 0 q)) [
                      | inl r ↦ rw (p, p', e, b, r, hmget) tt
                      | inr ((q', got), r) ↦
                          let kept : queue_names L debug q' ≡ queue_names L debug q =
                            rw r at (
                              get_loop-Keeps clock channel_name tickets (ltb 0 timeout) count 0
                                q) in
                          rw (p, p', e, b, r, hmget)
                            (got-Leaves name q q' qs (λ vs. response (array vs))
                              (λ n. get_would_block request name channel_name n timeout) got e kept)
                    ]
            ]
          ]
        ]
      ]

  -- The answer of a seek.
  sought-Leaves :
      (name : Name) (q q' : InnerQueue L) (qs : Queues L debug) (r : QueueResult (Unit {0}))
      → lookup name qs ≡ some q
      → queue_names L debug q' ≡ queue_names L debug q
      → Leaves L debug qs (done (sought L debug qs name (q', r)))
  sought-Leaves name q q' qs (ok _) e kept = quiet L debug name q q' qs (with_int 2) e kept
  sought-Leaves name q q' qs (err x) e kept =
      quiet L debug name q q' qs (from_error L debug x) e kept

  pub hmset-Leaves :
      (clock : ℕ) (args : List (List ℕ)) (qs : Queues L debug)
      → Leaves L debug qs (hmset L debug clock args qs)
  unfolding hmset told_all
  hmset-Leaves clock [] qs = (λ _. refl, refl)
  hmset-Leaves clock (a ∷ []) qs = (λ _. refl, refl)
  hmset-Leaves clock (a ∷ b ∷ []) qs = (λ _. refl, refl)
  hmset-Leaves clock (a ∷ b ∷ c ∷ []) qs = (λ _. refl, refl)
  hmset-Leaves clock (a ∷ b ∷ c ∷ d ∷ []) qs = (λ _. refl, refl)
  hmset-Leaves clock (a ∷ name ∷ channel_name ∷ seek_type ∷ value ∷ args) qs =
      elim (Option-cases (lookup name qs)) [
        | inl e ↦ rw (e, hmset) (λ _. refl, refl)
        | inr (q, e) ↦ elim (Bool-cases (same seek_type (codes "TS"))) [
          | inl b ↦ elim (Option-cases (parse_unsigned (2 ^ 32) value)) [
            | inl p ↦ rw (e, b, p, hmset) (λ _. refl, refl)
            | inr (timestamp, p) ↦
                let kept = seek_channel_to_timestamp-KeepsFound L q channel_name timestamp clock in
                elim (Outcome-cases
                  (Queue.seek_channel_to_timestamp L q channel_name timestamp clock)) [
                    | inl o ↦ rw (e, b, p, o, hmset) tt
                    | inr (found, o) ↦ elim (Option-cases found) [
                      | inl f ↦ rw (e, b, p, o, f, hmset) tt
                      | inr ((q', r), f) ↦
                          rw (e, b, p, o, f, hmset)
                            (sought-Leaves name q q' qs r e (rw (o, f) at (kept)))
                    ]
                  ]
          ]
          | inr b ↦ elim (Bool-cases (same seek_type (codes "ID"))) [
            | inr b' ↦ rw (e, b, b', hmset) (λ _. refl, refl)
            | inl b' ↦ elim (Option-cases (parse_unsigned (2 ^ 64) value)) [
              | inl p ↦ rw (e, b, b', p, hmset) (λ _. refl, refl)
              | inr (id, p) ↦
                  let r = Queue.seek_channel_to_id L q channel_name id clock in
                  rw (e, b, b', p, hmset)
                    (sought-Leaves name q r.0 qs r.1 e
                      (seek_channel_to_id-names L q channel_name id clock))
            ]
          ]
        ]
      ]
