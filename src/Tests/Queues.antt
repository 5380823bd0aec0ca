-- ===== src/Tests/Queues.antt =====
-- Queues of src/queue.rs: what their upkeep does to their channels.
use floki.Prelude.{ℕ, List, Returns, codes, ◌+◌, ◌≡◌, refl, [], ◌∷◌, some, done, inl, true}
use floki.Segment
use floki.Segment.{Segment}
use floki.Backend
use floki.Backend.Upkeep.{gc, gc_seg_count, must_keep, first_tail}
use floki.Channel
use floki.Channel.{Channel, real_tail}
use floki.Channel.Tracked.{IsTracked}
use floki.Queue.{InnerQueue, ready, lookup, smallest_tail, checkpoint, recover, purge}
use floki.Queue.Outstanding.{gc-outstanding, recover-checkpoint, purge-stale_tail}
use floki.Channel.{QueueError}
use floki.Server.Commands.Messages.{get_loop}
use floki.Server.Commands.Settings.{Json, config_set}
use floki.Server.{Server}
use floki.Server.Commands.Outcomes.{IsWithin, get_loop-IsWithin, config_set_lem}
use floki.Tests.Data.{
  association, checksum, settings, long_log, long_log-Inv, long_log-IsLive, short_log,
  closed_segment, small_log, one_out, fresh,
}

-- Two channels, named `[1]` and `[2]`, on the long log.
abbrev two_channels : InnerQueue association
two_channels = record {
  config = settings;
  backend = long_log;
  channels = ((1 ∷ []), one_out) ∷ ((2 ∷ []), fresh) ∷ [];
  state = ready;
}

-- A queue that is about to be recovered.
abbrev restarted : InnerQueue association
restarted = record { config = settings; backend = small_log; channels = []; state = ready }

-- A channel that has read both messages, and has message 2 out.
abbrev later : Channel association
later = record {
  last_touched = 0;
  expired_count = 0;
  tail = 3;
  in_flight_map = (9, record { id = 2; expiration = 10 }) ∷ [];
  in_flight_heap = (2, 9) ∷ [];
}

later-IsTracked : IsTracked association later
later-IsTracked = record {
  covers = record { sorted = (tt, tt); held = (inl refl, tt); distinct = (refl, tt) };
}

abbrev one_channel : InnerQueue association
one_channel = record {
  config = settings;
  backend = long_log;
  channels = ((1 ∷ []), later) ∷ [];
  state = ready;
}

-- Message 1 goes with its segment, and message 2 stays.
collected :
    gc long_log (smallest_tail association one_channel.channels) 1000
    ≡ done (short_log, record closed_segment { deleted = true } ∷ [])
unfolding gc gc_seg_count must_keep Backend.delete_all Segment.purge first_tail smallest_tail
    real_tail
collected = refl

gc-outstanding_example : Backend.get short_log 2 ≡ Backend.get long_log 2
gc-outstanding_example =
    gc-outstanding association checksum one_channel (1 ∷ []) later 9 1000
      (record { id = 2; expiration = 10 }) short_log (record closed_segment { deleted = true } ∷ [])
      long_log-Inv long_log-IsLive refl refl refl later-IsTracked refl collected

recover-checkpoint_example :
    lookup
      (1 ∷ [])
      (recover association restarted (some (checkpoint association two_channels true).2)).channels
    ≡ some (Channel.new association 0 (real_tail association one_out))
recover-checkpoint_example =
    recover-checkpoint association two_channels restarted true (1 ∷ []) one_out refl refl refl

-- The channel was to start over at 3, the head of the log.
purge-stale_tail_example :
    lookup (1 ∷ []) (purge association two_channels).2.channels
    ≡ some (record { tail = 1; last_touched = 0 })
purge-stale_tail_example =
    purge-stale_tail association two_channels (1 ∷ []) one_out (1, 9) refl refl refl

abbrev silent : QueueError → List ℕ
silent _ = []

get_loop-IsWithin_example :
    IsWithin association silent true 2 0
      (get_loop association silent 0 (1 ∷ []) (λ i. i + 50) true 2 0 two_channels)
get_loop-IsWithin_example =
    get_loop-IsWithin association silent 0 (1 ∷ []) (λ i. i + 50) true 2 0 two_channels

abbrev no_texts : Json
no_texts = record {
  server_config = [];
  server_info = [];
  queue_configs = λ _. [];
  queue_infos = λ _. [];
}

-- `CONFIG SET queues.q.retention_size 1gb`.
config_set_lem_example :
    Returns
      (λ r. r.0 ≡ (codes "q", two_channels) ∷ [])
      (config_set association silent
        (λ s. s)
        no_texts
        settings
        (codes "queues.q.retention_size")
        (codes "1gb")
        ((codes "q", two_channels) ∷ []))
config_set_lem_example =
    config_set_lem association silent (λ s. s) no_texts settings (codes "queues.q.retention_size")
      (codes "1gb") ((codes "q", two_channels) ∷ [])

abbrev no_tables : Server
no_tables = record { waiting_clients = []; awaking_clients = []; nonce = 0; internal_clock_ms = 0 }

abbrev set_q_c : List (List ℕ)
set_q_c = codes "SET" ∷ codes "q" ∷ codes "c" ∷ []
