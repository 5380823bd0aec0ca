-- ===== src/System/Commands/Writes.antt =====
-- src/server.rs, `Dispatch`: `RPUSH`, `HDEL` and `SREM` leave which queues and channels there are.
use floki.Prelude.{
  ℕ, pos, length, ◌+◌, ◌≡◌, refl, ◌∙◌, Bool-cases, Option-cases, Outcome-cases, inl, inr, List, [],
  ◌∷◌, codes, same,
}
use floki.Collections.{LinkedHashMap}
use floki.Segment.{FileImage, BackendResult}
use floki.Channel.{InFlightState, QueueError}
use floki.Queue
use floki.Queue.{Name, InnerQueue, lookup, replace}
use floki.Decimal.{parse_i64}
use floki.Protocol.{int}
use floki.Server.Clients.{put_response}
use floki.Server.Commands.{Queues, with_error, with_int, from_error}
use floki.Server.Commands.Messages.{as_ticket, ack_loop, hdel, srem, rpush, with_files}
use floki.Server.Commands.Tables.{QueueResult-cases}
use floki.System.Shape.{told_all}
use floki.System.Queues.{ack-names, purge_channel-names, purge-names, push_many-Keeps}
use floki.System.Commands.{queue_names, Leaves, quiet}

module _ (L : LinkedHashMap InFlightState) (debug : QueueError → List ℕ) where
  ack_loop-names :
      (clock : ℕ) (channel_name : Name) (args : List (List ℕ)) (q : InnerQueue L)
      → queue_names L debug (ack_loop L debug clock channel_name args q).0 ≡ queue_names L debug q
  unfolding ack_loop
  ack_loop-names clock channel_name [] q = refl
  ack_loop-names clock channel_name (arg ∷ args) q = elim (Option-cases (parse_i64 arg)) [
    | inl p ↦ rw (p, ack_loop) refl
    | inr (ticket, p) ↦
        let q' = (Queue.ack L q channel_name (as_ticket ticket) clock).0 in
        rw (p, ack_loop)
          (ack_loop-names clock channel_name args q'
            ∙ ack-names L q channel_name (as_ticket ticket) clock)
  ]

  pub hdel-Leaves :
      (clock : ℕ) (args : List (List ℕ)) (qs : Queues L debug)
      → Leaves L debug qs (hdel L debug clock args qs)
  unfolding hdel told_all
  hdel-Leaves clock [] qs = (λ _. refl, refl)
  hdel-Leaves clock (a ∷ []) qs = (λ _. refl, refl)
  hdel-Leaves clock (a ∷ b ∷ []) qs = (λ _. refl, refl)
  hdel-Leaves clock (a ∷ b ∷ c ∷ []) qs = (λ _. refl, refl)
  hdel-Leaves clock (a ∷ name ∷ channel_name ∷ ticket ∷ tickets) qs =
      elim (Option-cases (lookup name qs)) [
        | inl e ↦ rw (e, hdel) (λ _. refl, refl)
        | inr (q, e) ↦
            let loop = ack_loop L debug clock channel_name (ticket ∷ tickets) q in
            let kept = ack_loop-names clock channel_name (ticket ∷ tickets) q in
            elim (Option-cases loop.1) [
              | inl p ↦
                  rw (e, p, hdel)
                    (quiet L debug name q loop.0 qs (with_error (codes "IPA Invalid Ticket")) e
                      kept)
              | inr (n, p) ↦ rw (e, p, hdel) (quiet L debug name q loop.0 qs (with_int n) e kept)
            ]
      ]

  pub rpush-Leaves :
      (xxhash : List ℕ → ℕ) (files : ℕ → BackendResult FileImage) (clock : ℕ) (args : List (List ℕ))
      (qs : Queues L debug)
      → Leaves L debug qs (rpush L debug xxhash files clock args qs)
  unfolding rpush told_all
  rpush-Leaves xxhash files clock [] qs = (λ _. refl, refl)
  rpush-Leaves xxhash files clock (a ∷ []) qs = (λ _. refl, refl)
  rpush-Leaves xxhash files clock (a ∷ b ∷ []) qs = (λ _. refl, refl)
  rpush-Leaves xxhash files clock (a ∷ name ∷ m ∷ ms) qs = elim (Option-cases (lookup name qs)) [
    | inl e ↦ rw (e, rpush) (λ _. refl, refl)
    | inr (q, e) ↦
        let pushed = with_files L debug files 0 (m ∷ ms) in
        elim (Outcome-cases (Queue.push_many L xxhash q pushed clock)) [
          | inl p ↦ rw (e, p, rpush) tt
          | inr ((q', r), p) ↦
              let kept : queue_names L debug q' ≡ queue_names L debug q =
                rw p at (push_many-Keeps L xxhash q pushed clock) in
              elim (QueueResult-cases r) [
                | inl (x, p') ↦
                    rw (e, p, p', rpush) (quiet L debug name q q' qs (from_error L debug x) e kept)
                | inr (n, p') ↦
                    rw (e, p, p', rpush)
                      (quiet L debug name q q' qs
                        (put_response (int (pos (length (m ∷ ms)))) name (n + 1)) e kept)
              ]
        ]
  ]

  pub srem-Leaves :
      (clock : ℕ) (args : List (List ℕ)) (qs : Queues L debug)
      → Leaves L debug qs (srem L debug clock args qs)
  unfolding srem told_all
  srem-Leaves clock [] qs = (λ _. refl, refl)
  srem-Leaves clock (a ∷ []) qs = (λ _. refl, refl)
  srem-Leaves clock (a ∷ b ∷ []) qs = (λ _. refl, refl)
  srem-Leaves clock (a ∷ name ∷ channel_name ∷ args) qs = elim (Option-cases (lookup name qs)) [
    | inl e ↦ rw (e, srem) (λ _. refl, refl)
    | inr (q, e) ↦ elim (Bool-cases (same channel_name (codes "*"))) [
      | inl b ↦
          rw (e, b, srem)
            (quiet L debug name q (Queue.purge L q).0 qs (with_int 1) e (purge-names L q))
      | inr b ↦
          let purged = Queue.purge_channel L q channel_name clock in
          let kept = purge_channel-names L q channel_name clock in
          elim (QueueResult-cases purged.1) [
            | inl (x, p) ↦ rw (e, b, p, srem) (quiet L debug name q purged.0 qs (with_int 0) e kept)
            | inr (x, p) ↦ rw (e, b, p, srem) (quiet L debug name q purged.0 qs (with_int 1) e kept)
          ]
    ]
  ]
