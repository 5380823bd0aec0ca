-- ===== src/System/Commands.antt =====
-- src/server.rs, `Dispatch`: what the commands tell the event loop, and which queues and channels they
-- leave.
pub mod Reads
pub mod Writes
pub mod Meta
pub mod Settings
use floki.Prelude.{
  ℕ, zero, suc, ℤ, pos, length, ◌+◌, ◌^◌, ◌≡◌, refl, ap, sym, ◌∙◌, Bool, Bool-cases, true, false,
  ◌&&◌, Option, Option-cases, Outcome-cases, inl, inr, none, some, List, [], ◌∷◌, codes, Outcome,
  done, panic, ◌>>=◌, ◌==◌, same, ltb,
}
use floki.Collections.{LinkedHashMap}
use floki.Segment.{FileImage, BackendResult}
use floki.Channel.{InFlightState, QueueError, QueueResult, ok, err, queue_not_found}
use floki.Queue
use floki.Queue.{Name, InnerQueue, lookup, replace}
use floki.Decimal.{parse_unsigned, parse_i64}
use floki.Protocol.{Value, int, Values, array, message, one_more}
use floki.Server.Clients.{NotifyMessage, response, put_response, get_would_block}
use floki.Server.Commands.{Queues, Done, with_error, with_int, from_error}
use floki.Server.Commands.Messages.{
  as_i64, as_ticket, required_head_of, Got, results, would_block, refused, get_loop, timeout_of,
  hmget, hmset, ack_loop, hdel, srem, rpush, with_files, sought,
}
use floki.Server.Commands.Tables.{QueueResult-cases}
use floki.System.Maps.{with_values, names}
use floki.System.Shape.{Shape, told, told_all}
use floki.System.Queues.{
  names-replace, Keeps, Keeps-trans, KeepsFound, get-Keeps, ack-names, purge_channel-names,
  purge-names, seek_channel_to_id-names, seek_channel_to_timestamp-KeepsFound, push_many-Keeps,
}
use floki.System.Maps.{lookup-with_values, replace-with_values, replace_same}

module _ (L : LinkedHashMap InFlightState) (debug : QueueError → List ℕ) where
  abbrev pub queue_names : InnerQueue L → List (Name × Unit {0})
  queue_names q = names q.channels

  unfoldable pub queues_shape : Queues L debug → Shape
  queues_shape qs = with_values queue_names qs

  -- The notices tell how the queues changed.
  abbrev pub Tells : Queues L debug → Outcome (Done L debug) → Type 0
  Tells qs panic = Unit
  Tells qs (done (qs', notices, answer)) =
      told_all notices (queues_shape qs) ≡ done (queues_shape qs')

  -- The notices tell of no change, whatever the names are, and there is none.
  abbrev pub Leaves : Queues L debug → Outcome (Done L debug) → Type 0
  Leaves qs panic = Unit
  Leaves qs (done (qs', notices, answer)) =
      ((sh : Shape) → told_all notices sh ≡ done sh) × (queues_shape qs' ≡ queues_shape qs)

  pub Leaves-Tells : (qs : Queues L debug) (o : Outcome (Done L debug)) → Leaves qs o → Tells qs o
  Leaves-Tells qs panic h = tt
  Leaves-Tells qs (done (qs', notices, answer)) (neutral, kept) =
      neutral (queues_shape qs) ∙ ap done (sym kept)

  pub queue_found :
      (name : Name) (q : InnerQueue L) (qs : Queues L debug)
      → lookup name qs ≡ some q
      → lookup name (queues_shape qs) ≡ some (queue_names q)
  unfolding queues_shape
  queue_found name q qs e = rw (lookup-with_values queue_names name qs, e) refl

  pub queue_kept :
      (name : Name) (q q' : InnerQueue L) (qs : Queues L debug)
      → lookup name qs ≡ some q
      → queue_names q' ≡ queue_names q
      → queues_shape (replace name q' qs) ≡ queues_shape qs
  unfolding queues_shape
  queue_kept name q q' qs e kept =
      rw (replace-with_values queue_names name q' qs, kept)
        (replace_same name (queue_names q) (queues_shape qs) (queue_found name q qs e))

  -- A command that says nothing, and leaves the names.
  pub quiet :
      (name : Name) (q q' : InnerQueue L) (qs : Queues L debug) (answer : NotifyMessage)
      → lookup name qs ≡ some q
      → queue_names q' ≡ queue_names q
      → Leaves qs (done (replace name q' qs, [], answer))
  unfolding told_all
  quiet name q q' qs answer e kept = (λ _. refl, queue_kept name q q' qs e kept)
