-- ===== src/Server/Commands/Outcomes.antt =====
-- src/server.rs: what the commands answer and leave behind.
use floki.Prelude.{
  ℕ, zero, suc, ◌+◌, ◌^◌, ◌≤◌, ◌<◌, ◌≡◌, refl, Bool, Bool-cases, true, Option-cases, Outcome-cases,
  inl, inr, none, some, List, [], ◌∷◌, arith, codes, Outcome, done, panic, ◌>>=◌, Returns, ◌==◌,
  same, length,
}
use floki.Config.{QueueConfig}
use floki.Backend.{Message}
use floki.Collections.{LinkedHashMap}
use floki.Channel.{InFlightState, QueueError, QueueResult, ok, err}
use floki.Queue
use floki.Queue.{Name, InnerQueue, lookup, replace, discard}
use floki.Decimal.{parse_i64}
use floki.Protocol.{Value, message, one_more, count}
use floki.Server.Commands.{Queues}
use floki.Server.Commands.Messages.{
  as_i64, as_ticket, required_head_of, Got, results, would_block, refused, get_loop, ack_loop,
}
use floki.Server.Commands.Settings.{Json, splitn, config_set, config_set_parts}

-- The ticket that a client is shown is the one that it can acknowledge.
as_ticket-as_i64 : (t : ℕ) → t < 2 ^ 64 → as_ticket (as_i64 t) ≡ t
unfolding as_ticket as_i64
as_ticket-as_i64 t h = ground arith

none-some : {n : ℕ} → none ≡ some n → ⊥
none-some e = ground arith

counted_lem :
    (r : QueueResult (Unit {0})) (m n : ℕ)
    → (elim r [ ok _ ↦ some (suc m) | err _ ↦ some m ]) ≡ some n
    → n ≤ suc m
counted_lem (ok _) m n e = ground arith
counted_lem (err x) m n e = ground arith

module _ (L : LinkedHashMap InFlightState) (debug : QueueError → List ℕ) where
  -- At most `n` messages; a wait only in the first turn, and only if it is wanted.
  abbrev pub IsWithin : Bool → ℕ → ℕ → Outcome (InnerQueue L × Got) → Type 0
  IsWithin blocks n i panic = Unit
  IsWithin blocks n i (done (q, results vs)) = count vs ≤ n
  IsWithin blocks n i (done (q, would_block _)) = (blocks ≡ true) × (i ≡ 0)
  IsWithin blocks n i (done (q, refused _)) = Unit

  -- A message in front of those of the other turns.
  grown :
      (blocks : Bool) (n i : ℕ) (q : InnerQueue L) (v : Value) (got : Got)
      → IsWithin blocks n (i + 1) (done (q, got))
      → IsWithin blocks (suc n) i (elim got [
        | results vs ↦ done (q, results (one_more v vs))
        | would_block required_head ↦ done (q, would_block required_head)
        | refused x ↦ done (q, refused x)
      ])
  grown blocks n i q v (results vs) h = omega arith
  grown blocks n i q v (would_block head) h = absurd (omega (arith, h.1))
  grown blocks n i q v (refused x) h = tt

  -- One turn of the loop, by what `get` gave, with what the other turns do.
  turn_IsWithin :
      (clock : ℕ) (channel_name : Name) (tickets : ℕ → ℕ) (blocks : Bool) (n i : ℕ)
      (q q' : InnerQueue L)
      → IsWithin blocks n (i + 1) (get_loop L debug clock channel_name tickets blocks n (i + 1) q')
      → (r : QueueResult (ℕ × Message))
      → Queue.get L q channel_name (tickets i) clock ≡ done (q', r)
      → IsWithin blocks (suc n) i (get_loop L debug clock channel_name tickets blocks (suc n) i q)
  unfolding get_loop
  turn_IsWithin clock channel_name tickets blocks n i q q' others (ok (t, m)) e =
      elim (Outcome-cases (get_loop L debug clock channel_name tickets blocks n (i + 1) q')) [
        | inl p ↦ rw (e, p, get_loop, ◌>>=◌) tt
        | inr ((q'', got), p) ↦
            rw (e, p, get_loop, ◌>>=◌)
              (grown blocks n i q'' (message (as_i64 t) m) got (rw p at others))
      ]
  turn_IsWithin clock channel_name tickets blocks n i q q' others (err x) e =
      elim (Option-cases (required_head_of x)) [
        | inl p ↦ rw (e, p, get_loop, ◌>>=◌) tt
        | inr (head, p) ↦ elim (Bool-cases blocks) [
          | inl b ↦ elim (Bool-cases (i == 0)) [
            | inl z ↦ rw (e, p, b, z, get_loop, ◌>>=◌) (refl, ground arith)
            | inr z ↦ rw (e, p, b, z, get_loop, ◌>>=◌) (omega arith)
          ]
          | inr b ↦ rw (e, p, b, get_loop, ◌>>=◌) (omega arith)
        ]
      ]

  -- If the loop of `HMGET` ends with messages, they are at most as many as its turns; if it ends
  -- with a wait, then a wait is wanted and it was the first turn, so that no message was taken.
  pub get_loop-IsWithin :
      (clock : ℕ) (channel_name : Name) (tickets : ℕ → ℕ) (blocks : Bool) (n i : ℕ)
      (q : InnerQueue L)
      → IsWithin blocks n i (get_loop L debug clock channel_name tickets blocks n i q)
  unfolding get_loop
  get_loop-IsWithin clock channel_name tickets blocks zero i q = omega arith
  get_loop-IsWithin clock channel_name tickets blocks (suc n) i q =
      elim (Outcome-cases (Queue.get L q channel_name (tickets i) clock)) [
        | inl p ↦ rw (p, get_loop, ◌>>=◌) tt
        | inr ((q', r), p) ↦
            turn_IsWithin clock channel_name tickets blocks n i q q'
              (get_loop-IsWithin clock channel_name tickets blocks n (i + 1) q') r p
      ]

  config_set_parts_lem :
      (to_lowercase : List ℕ → List ℕ) (json : Json) (default_config : QueueConfig) (value : List ℕ)
      (parts : List (List ℕ)) (qs : Queues L debug)
      → Returns
          (λ r. r.0 ≡ qs)
          (config_set_parts L debug to_lowercase json default_config value parts qs)
  unfolding config_set_parts
  config_set_parts_lem to_lowercase json default_config value [] qs = refl
  config_set_parts_lem to_lowercase json default_config value (a ∷ []) qs = refl
  config_set_parts_lem to_lowercase json default_config value (a ∷ config_name ∷ []) qs =
      elim (Bool-cases (same a (codes "server"))) [ inl b ↦ rw b refl | inr b ↦ rw b refl ]
  config_set_parts_lem to_lowercase json default_config value (a ∷ queue_name ∷ config_name ∷ [])
        qs =
      elim (Bool-cases (same a (codes "queues"))) [
        | inl b ↦ elim (Option-cases (lookup queue_name qs)) [
          | inl p ↦ rw (b, p) refl
          | inr (q, p) ↦ rw (b, p) refl
        ]
        | inr b ↦ rw b refl
      ]
  config_set_parts_lem to_lowercase json default_config value (a ∷ b ∷ c ∷ d ∷ parts) qs = refl

  -- `CONFIG SET`, of the server or of a queue and with whatever value, does not panic and leaves
  -- the configuration of every queue, and the rest of it, as it was.
  pub config_set_lem :
      (to_lowercase : List ℕ → List ℕ) (json : Json) (default_config : QueueConfig)
      (path value : List ℕ) (qs : Queues L debug)
      → Returns (λ r. r.0 ≡ qs) (config_set L debug to_lowercase json default_config path value qs)
  unfolding config_set
  config_set_lem to_lowercase json default_config path value qs =
      config_set_parts_lem to_lowercase json default_config value (splitn 3 path) qs

  -- No more tickets are acknowledged than are given.
  ack_loop_lem :
      (clock : ℕ) (channel_name : Name) (args : List (List ℕ)) (q : InnerQueue L) (n : ℕ)
      → (ack_loop L debug clock channel_name args q).1 ≡ some n
      → n ≤ length args
  unfolding ack_loop
  ack_loop_lem clock channel_name [] q n e = ground arith
  ack_loop_lem clock channel_name (arg ∷ args) q n e = elim (Option-cases (parse_i64 arg)) [
    | inl p ↦ absurd (none-some (rw (p, ack_loop) at e))
    | inr (ticket, p) ↦
        let acked = Queue.ack L q channel_name (as_ticket ticket) clock in
        elim (Option-cases (ack_loop L debug clock channel_name args acked.0).1) [
          | inl p' ↦ absurd (none-some (rw (p, p', ack_loop) at e))
          | inr (m, p') ↦
              let others = ack_loop_lem clock channel_name args acked.0 m p' in
              let counted = counted_lem acked.1 m n (rw (p, p', ack_loop) at e) in omega arith
        ]
  ]
