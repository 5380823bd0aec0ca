-- ===== src/Server/Commands/Messages.antt =====
-- src/server.rs, `Dispatch`: the commands that read and write a queue's messages and move its
-- channels.
use floki.Prelude.{
  ℕ, zero, suc, ◌+◌, ◌-◌, ◌^◌, Bool, true, false, ◌&&◌, Option, none, some, List, [], ◌∷◌, ℤ, pos,
  negsuc, codes, Outcome, done, panic, ◌>>=◌, ltb, ◌==◌, same, if◌then◌else◌, length,
}
use floki.Segment.{FileImage, BackendResult}
use floki.Collections.{LinkedHashMap}
use floki.Channel.{
  InFlightState, QueueError, queue_already_exists, queue_not_found, channel_already_exists,
  channel_not_found, end_of_queue, ticket_not_found, backend_failed, QueueResult, ok, err,
}
use floki.Queue
use floki.Queue.{Name, InnerQueue, lookup, replace, discard}
use floki.Decimal.{parse_unsigned, parse_i64}
use floki.Protocol.{Value, Values, int, array, message, none_left, one_more, count}
use floki.Server.Clients.{response, put_response, get_would_block}
use floki.Server.Commands.{with_error, with_int, Queues, Done, from_error, refuse}

-- A ticket of a channel, which is shown shifted by `2 ^ 63`, as an `i64`, and back.
unfoldable pub as_i64 : ℕ → ℤ
as_i64 ticket = if ltb ticket (2 ^ 63) then negsuc (2 ^ 63 - ticket - 1) else pos (ticket - 2 ^ 63)

unfoldable pub as_ticket : ℤ → ℕ
as_ticket (pos n) = 2 ^ 63 + n
as_ticket (negsuc n) = 2 ^ 63 - n - 1

-- Of `EndOfQueue`.
unfoldable pub required_head_of : QueueError → Option ℕ
required_head_of (end_of_queue n) = some n
required_head_of queue_already_exists = none
required_head_of queue_not_found = none
required_head_of channel_already_exists = none
required_head_of channel_not_found = none
required_head_of ticket_not_found = none
required_head_of (backend_failed _) = none

-- How `hmget`'s loop ends.
pub data Got : Type 0 where
  results : Values → Got
  would_block : ℕ → Got
  refused : QueueError → Got

-- `max_results` is how many values the allocator grants to `Vec::with_capacity`.
module _ (L : LinkedHashMap InFlightState) (debug : QueueError → List ℕ) where
  -- What a seek answers.
  abbrev pub sought : Queues L debug → Name → InnerQueue L × QueueResult (Unit {0}) → Done L debug
  sought qs name (q, ok _) = (replace name q qs, [], with_int 2)
  sought qs name (q, err e) = (replace name q qs, [], from_error L debug e)

  -- The search being out of fuel, which it never is, stands with a panic.
  unfoldable pub hmset : ℕ → List (List ℕ) → Queues L debug → Outcome (Done L debug)
  unfolding from_error
  hmset clock (_ ∷ queue_name ∷ channel_name ∷ seek_type ∷ seek_value ∷ _) qs =
      elim (lookup queue_name qs) [
        | none ↦ refuse L debug qs (from_error L debug queue_not_found)
        | some q ↦
            if same seek_type (codes "TS")
            then elim (parse_unsigned (2 ^ 32) seek_value) [
              | none ↦ refuse L debug qs (with_error (codes "IPA Invalid Timestamp"))
              | some timestamp ↦ do
                found ← Queue.seek_channel_to_timestamp L q channel_name timestamp clock
                elim found [ none ↦ panic | some r ↦ done (sought qs queue_name r) ]
            ]
            else if same seek_type (codes "ID")
            then elim (parse_unsigned (2 ^ 64) seek_value) [
              | none ↦ refuse L debug qs (with_error (codes "IPA Invalid ID"))
              | some id ↦
                  done (sought qs queue_name (Queue.seek_channel_to_id L q channel_name id clock))
            ]
            else refuse L debug qs (with_error (codes "IPA Invalid Seek Type Expected TS or ID"))
      ]
  hmset clock _ qs =
      refuse L debug qs (with_error (codes "MPA Queue or Channel or TS|ID or Value Missing"))

  -- The loop of `hmget`, from turn `i` on; `tickets i` is what `rand::random` gives in that turn.
  unfoldable pub get_loop :
      ℕ → Name → (ℕ → ℕ) → Bool → ℕ → ℕ → InnerQueue L → Outcome (InnerQueue L × Got)
  unfolding as_i64 required_head_of
  get_loop clock channel_name tickets blocks zero i q = done (q, results none_left)
  get_loop clock channel_name tickets blocks (suc n) i q = do
    (q', r) ← Queue.get L q channel_name (tickets i) clock
    elim r [
      | ok (ticket, m) ↦ do
        (q'', rest) ← get_loop clock channel_name tickets blocks n (i + 1) q'
        elim rest [
          | results vs ↦ done (q'', results (one_more (message (as_i64 ticket) m) vs))
          | would_block required_head ↦ done (q'', would_block required_head)
          | refused e ↦ done (q'', refused e)
        ]
      | err e ↦ elim (required_head_of e) [
        | none ↦ done (q', refused e)
        | some required_head ↦
            if blocks && (i == 0)
            then done (q', would_block required_head)
            else done (q', results none_left)
      ]
    ]

  -- The fourth argument, if there is one.
  unfoldable pub timeout_of : List (List ℕ) → Option ℕ
  timeout_of [] = some 0
  timeout_of (arg ∷ args) = parse_unsigned (2 ^ 32) arg

  unfoldable pub hmget :
      ℕ → ℕ → (ℕ → ℕ) → Value → List (List ℕ) → Queues L debug → Outcome (Done L debug)
  unfolding get_loop timeout_of from_error
  hmget max_results clock tickets request (_ ∷ queue_name ∷ channel_name ∷ count_arg ∷ args) qs =
      elim (parse_unsigned (2 ^ 64) count_arg) [
        | none ↦ refuse L debug qs (with_error (codes "IPA Invalid count value"))
        | some count ↦ elim (timeout_of args) [
          | none ↦ refuse L debug qs (with_error (codes "IPA Invalid timeout value"))
          | some timeout ↦ elim (lookup queue_name qs) [
            | none ↦ refuse L debug qs (from_error L debug queue_not_found)
            | some q ↦ elim (ltb max_results count) [
              | true ↦ panic
              | false ↦ do
                (q', got) ← get_loop clock channel_name tickets (ltb 0 timeout) count 0 q
                let qs' = replace queue_name q' qs
                elim got [
                  | results vs ↦ done (qs', [], response (array vs))
                  | would_block required_head ↦ done (
                    qs',
                    [],
                    get_would_block request queue_name channel_name required_head timeout,
                  )
                  | refused e ↦ done (qs', [], from_error L debug e)
                ]
            ]
          ]
        ]
      ]
  hmget max_results clock tickets request _ qs =
      refuse L debug qs (with_error (codes "MPA Queue or Channel or Count Missing"))

  -- Each message with the file for a new segment, should the push open one.
  unfoldable pub with_files :
      (ℕ → BackendResult FileImage) → ℕ → List (List ℕ) → List (List ℕ × BackendResult FileImage)
  with_files files i [] = []
  with_files files i (m ∷ ms) = (m, files i) ∷ with_files files (i + 1) ms

  unfoldable pub rpush :
      (List ℕ → ℕ)
      → (ℕ → BackendResult FileImage)
      → ℕ
      → List (List ℕ)
      → Queues L debug
      → Outcome (Done L debug)
  unfolding with_files from_error
  rpush xxhash files clock (_ ∷ queue_name ∷ m ∷ ms) qs = elim (lookup queue_name qs) [
    | none ↦ refuse L debug qs (from_error L debug queue_not_found)
    | some q ↦ do
      (q', r) ← Queue.push_many L xxhash q (with_files files 0 (m ∷ ms)) clock
      let qs' = replace queue_name q' qs
      elim r [
        | err e ↦ done (qs', [], from_error L debug e)
        | ok last_id ↦
            done (qs', [], put_response (int (pos (length (m ∷ ms)))) queue_name (last_id + 1))
      ]
  ]
  rpush xxhash files clock _ qs =
      refuse L debug qs (with_error (codes "MPA Queue or Value Missing"))

  -- The loop of `hdel`: the queue, and how many tickets were acknowledged, unless one is no number.
  unfoldable pub ack_loop : ℕ → Name → List (List ℕ) → InnerQueue L → InnerQueue L × Option ℕ
  unfolding as_ticket
  ack_loop clock channel_name [] q = (q, some 0)
  ack_loop clock channel_name (arg ∷ args) q = elim (parse_i64 arg) [
    | none ↦ (q, none)
    | some ticket ↦
        let (q', r) = Queue.ack L q channel_name (as_ticket ticket) clock in
        let (q'', rest) = ack_loop clock channel_name args q' in
        (q'', elim rest [ none ↦ none | some n ↦ elim r [ ok _ ↦ some (suc n) | err _ ↦ some n ] ])
  ]

  unfoldable pub hdel : ℕ → List (List ℕ) → Queues L debug → Outcome (Done L debug)
  unfolding ack_loop from_error
  hdel clock (_ ∷ queue_name ∷ channel_name ∷ ticket ∷ tickets) qs = elim (lookup queue_name qs) [
    | none ↦ refuse L debug qs (from_error L debug queue_not_found)
    | some q ↦
        let (q', acknowledged) = ack_loop clock channel_name (ticket ∷ tickets) q in
        let qs' = replace queue_name q' qs in
        elim acknowledged [
          | none ↦ done (qs', [], with_error (codes "IPA Invalid Ticket"))
          | some n ↦ done (qs', [], with_int n)
        ]
  ]
  hdel clock _ qs = refuse L debug qs (with_error (codes "MPA Queue, Channel or Id Missing"))

  unfoldable pub srem : ℕ → List (List ℕ) → Queues L debug → Outcome (Done L debug)
  srem clock (_ ∷ queue_name ∷ channel_name ∷ _) qs = elim (lookup queue_name qs) [
    | none ↦ refuse L debug qs (with_int 0)
    | some q ↦
        if same channel_name (codes "*")
        then done (replace queue_name (Queue.purge L q).0 qs, [], with_int 1)
        else (let (q', r) = Queue.purge_channel L q channel_name clock in
            let qs' = replace queue_name q' qs in
            elim r [ ok _ ↦ done (qs', [], with_int 1) | err _ ↦ done (qs', [], with_int 0) ])
  ]
  srem clock _ qs = refuse L debug qs (with_error (codes "MPA Queue or Channel Missing"))
