-- ===== src/Server/Commands.antt =====
-- src/server.rs, `Dispatch`: the commands that a worker runs on the queues. The state is the map of
-- queues; the notices are what the worker sends the event loop, in order. A command here is
-- a run that no other worker interrupts; System.Steps parts the commands that take the meta lock.
pub mod Messages
pub mod Meta
pub mod Settings
pub mod Outcomes
pub mod Tables
pub mod Notices
use floki.Prelude.{
  ℕ, zero, suc, ◌+◌, ◌-◌, ◌^◌, Bool, true, false, ◌&&◌, ◌||◌, Option, none, some, List, [], ◌∷◌,
  ◌++◌, ℤ, pos, negsuc, codes, Outcome, done, panic, ◌>>=◌, leb, ltb, ◌==◌, same, if◌then◌else◌,
  length,
}
use floki.Config.{QueueConfig}
use floki.Segment.{SegmentCheckpoint, FileImage, BackendResult}
use floki.Backend.{Message}
use floki.Backend.Upkeep
use floki.Collections.{LinkedHashMap}
use floki.Channel.{
  InFlightState, QueueError, queue_already_exists, queue_not_found, channel_already_exists,
  channel_not_found, end_of_queue, ticket_not_found, backend_failed, QueueResult, ok, err,
}
use floki.Queue
use floki.Queue.{Name, InnerQueue, lookup, replace, discard}
use floki.Decimal.{parse_unsigned, parse_i64}
use floki.Protocol.{
  Value, Values, nil, int, bytes, array, status, error, message, none_left, one_more, count,
}
use floki.Server.Clients.{
  NotifyMessage, response, put_response, get_would_block, channel_create, channel_delete,
  queue_create, queue_delete,
}

abbrev pub with_ok : NotifyMessage
with_ok = response (status (codes "OK"))

abbrev pub with_error : List ℕ → NotifyMessage
with_error text = response (error text)

abbrev pub with_int : ℕ → NotifyMessage
with_int n = response (int (pos n))

-- The bytes of an array of data, if that is all it has.
unfoldable pub data_only : Values → Option (List (List ℕ))
data_only none_left = some []
data_only (one_more v vs) = elim v [
  | bytes d ↦ elim (data_only vs) [ none ↦ none | some ds ↦ some (d ∷ ds) ]
  | nil ↦ none
  | int _ ↦ none
  | array _ ↦ none
  | status _ ↦ none
  | error _ ↦ none
  | message _ _ ↦ none
]

-- `debug` is the text that `{:?}` gives.
module _ (L : LinkedHashMap InFlightState) (debug : QueueError → List ℕ) where
  abbrev pub Queues : Type 0
  Queues = List (Name × InnerQueue L)

  -- The queues, the notices and the answer.
  abbrev pub Done : Type 0
  Done = Queues × List NotifyMessage × NotifyMessage

  -- `From<QueueError>`.
  unfoldable pub from_error : QueueError → NotifyMessage
  from_error queue_not_found = with_error (codes "QNF Queue Not Found")
  from_error channel_not_found = with_error (codes "CNF Channel Not Found")
  from_error queue_already_exists = with_error (codes "QAE Queue Already Exists")
  from_error channel_already_exists = with_error (codes "CAE Channel Already Exists")
  from_error ticket_not_found = with_error (codes "Unexpected error " ++ debug ticket_not_found)
  from_error (end_of_queue n) = with_error (codes "Unexpected error " ++ debug (end_of_queue n))
  from_error (backend_failed e) = with_error (codes "Unexpected error " ++ debug (backend_failed e))

  abbrev pub refuse : Queues → NotifyMessage → Outcome Done
  refuse qs answer = done (qs, [], answer)
