-- ===== src/Tests/Log.antt =====
-- The log of src/queue_backend.rs: pushes, reads and collections on one segment with one message.
use floki.Prelude.{
  ℕ, ◌≤◌, ◌≡◌, refl, ◌⊎◌, inl, ◌↔◌, List, [], ◌∷◌, some, arith, All, done, take, drop, true,
}
use floki.Message.{header_at, body_at, hash_segment_message}
use floki.Segment.{Segment, BackendResult, QueueBackendError, ok, err}
use floki.Segment
use floki.Segment.Push.{appended, push_fits}
use floki.Backend.{QueueBackend, Message, message_id, message_timestamp, total_len}
use floki.Backend
use floki.Backend.Upkeep.{gc, gc_seg_count, must_keep, first_tail}
use floki.Backend.Invariant.{Inv, Has}
use floki.Backend.Writes.{push-Inv, Has-push, push-get}
use floki.Backend.Get.{get_found}
use floki.Backend.Retention.{gc-Inv, gc-get}
use floki.Tests.Data.{
  checksum, blank, blank-IsFile, greeting, one_message, one_message-IsValid, second-IsPushable,
  small_log, small_log-Inv, small_log-IsWritable, closed_segment, long_log, short_log, long_log-Inv,
  long_log-IsLive,
}

push-Inv_example :
    (b' : QueueBackend) × (r : BackendResult ℕ) × (Backend.push checksum small_log greeting 60
        (ok blank)
      ≡ done (b', r))
    × Inv checksum b'
    × (((r ≡ ok 2) × (b'.head ≡ 3)) ⊎ ((e : QueueBackendError) × (r ≡ err e) × (b'.head ≡ 2)))
push-Inv_example =
    push-Inv checksum greeting 60 small_log small_log-IsWritable (ok blank) small_log-Inv
      blank-IsFile

-- The log after a second message.
abbrev two : QueueBackend
two = record small_log { segments = appended checksum one_message greeting 60 ∷ []; head = 3 }

two_pushed : Backend.push checksum small_log greeting 60 (ok blank) ≡ done (two, ok 2)
two_pushed =
    unfold Backend.push Backend.push_last Backend.accept in
    rw
      (push_fits checksum one_message one_message-IsValid greeting 60 second-IsPushable
        (omega arith))
      refl

push-get_example :
    (m : Message) × (Backend.get two 2 ≡ done (some m))
    × (message_id m ≡ 2)
    × (message_timestamp m ≡ 60)
    × (body_at m.segment.file_mmap m.offset ≡ greeting)
push-get_example =
    push-get checksum greeting 60 small_log small_log-IsWritable (ok blank) small_log-Inv
      blank-IsFile two 2 two_pushed

Has-push_example :
    Has two.segments 2 ↔ (Has small_log.segments 2 ⊎ (◌≡◌ {A = BackendResult ℕ} (ok 2) (ok 2)))
Has-push_example =
    Has-push checksum greeting 60 small_log small_log-IsWritable (ok blank) small_log-Inv
      blank-IsFile two (ok 2) 2 two_pushed

get_found_example :
    (m : Message) × (Backend.get small_log 0 ≡ done (some m))
    × Has small_log.segments (message_id m)
    × (0 ≤ message_id m)
    × (message_id m ≤ 1)
    × ((header_at m.segment.file_mmap m.offset).hash
        ≡ hash_segment_message checksum m.segment.file_mmap m.offset)
get_found_example =
    get_found checksum small_log 0 1 small_log-Inv (inl (omega arith, omega arith)) (omega arith)

gc-Inv_example :
    (b' : QueueBackend) × (gone : List Segment) × (n : ℕ) × (gc long_log 2 1000 ≡ done (b', gone))
    × Inv checksum b'
    × (b'.head ≡ 3)
    × (b'.segments ≡ drop n long_log.segments)
    × All (λ s. s.closed ≡ true) (take n long_log.segments)
gc-Inv_example = gc-Inv checksum long_log 2 1000 long_log-Inv long_log-IsLive

-- The channels have read message 1, and its segment is old: it goes.
goes : gc long_log 2 1000 ≡ done (short_log, record closed_segment { deleted = true } ∷ [])
unfolding gc gc_seg_count must_keep Backend.delete_all Segment.purge first_tail
goes = refl

gc-get_example : Backend.get short_log 2 ≡ Backend.get long_log 2
gc-get_example =
    gc-get checksum long_log 2 1000 long_log-Inv long_log-IsLive short_log
      (record closed_segment { deleted = true } ∷ []) 2 refl refl (omega arith) goes

-- Message 1 is still to be read, so that its segment stays.
stays : gc long_log 1 1000 ≡ done (long_log, [])
unfolding gc gc_seg_count must_keep
stays = refl
