-- ===== src/Tests/Search.antt =====
-- The listed theorems on the search for a timestamp, at two small logs.
use floki.Prelude.{
  ℕ, zero, suc, ◌≤◌, ◌≡◌, refl, ap, sym, ◌∙◌, true, [], ◌∷◌, some, none, done, arith, All, Outcome,
  Option,
}
use floki.Segment
use floki.Segment.{Segment}
use floki.Backend.{
  QueueBackend, Message, message_timestamp, get, find_segment, find_id_for_timestamp,
}
use floki.Backend.Invariant.{Inv}
use floki.Backend.Get.{get_end}
use floki.Backend.Push.{created-IsValid}
use floki.Segment.Push.{closed-IsValid}
use floki.Message.{header_at, write_message}
use floki.Bytes.{read_word, write_word}
use floki.Backend.Search.{find_id_for_timestamp_skips}
use floki.Backend.Search.Boundary.{IsOrdered, IsTimed, IsFound, find_id_for_timestamp_lem}
use floki.Tests.Data.{
  checksum, long_log, long_log-Inv, closed_segment, next_message, next_segment, settings, blank,
  blank-IsFile, one_message, one_message-IsValid,
}

abbrev time : Outcome (Option Message) → ℕ
time (done (some m)) = message_timestamp m
time (done none) = 0
time Outcome.panic = 0

time-zero : time (get long_log zero) ≡ 50
unfolding get find_segment Segment.get header_at read_word write_message write_word
time-zero = refl

time-one : time (get long_log (suc zero)) ≡ 50
unfolding get find_segment Segment.get header_at read_word write_message write_word
time-one = refl

time-two : time (get long_log (suc (suc zero))) ≡ 60
unfolding get find_segment Segment.get header_at read_word write_message write_word
time-two = refl

time_end : (i : ℕ) → get long_log (suc (suc (suc i))) ≡ done none
time_end i = get_end checksum long_log (suc (suc (suc i))) long_log-Inv (omega arith)

-- The time of what is got.
got_time :
    (i t : ℕ) (m : Message)
    → time (get long_log i) ≡ t
    → get long_log i ≡ done (some m)
    → message_timestamp m ≡ t
got_time i t m e p = sym (ap time p) ∙ e

nothing : (i : ℕ) (m : Message) → get long_log (suc (suc (suc i))) ≡ done (some m) → ⊥
nothing i m p = ground (arith, sym (time_end i) ∙ p)

least_time : (i : ℕ) (m : Message) → get long_log i ≡ done (some m) → 50 ≤ message_timestamp m
least_time zero m p = omega (arith, got_time zero 50 m time-zero p)
least_time (suc zero) m p = omega (arith, got_time (suc zero) 50 m time-one p)
least_time (suc (suc zero)) m p = omega (arith, got_time (suc (suc zero)) 60 m time-two p)
least_time (suc (suc (suc i))) m p = absurd (nothing i m p)

long_log-IsOrdered : IsOrdered long_log
long_log-IsOrdered zero j m n h p q =
    omega (arith, got_time zero 50 m time-zero p, least_time j n q)
long_log-IsOrdered (suc zero) j m n h p q =
    omega (arith, got_time (suc zero) 50 m time-one p, least_time j n q)
long_log-IsOrdered (suc (suc zero)) zero m n h p q = absurd (omega (arith, h))
long_log-IsOrdered (suc (suc zero)) (suc zero) m n h p q = absurd (omega (arith, h))
long_log-IsOrdered (suc (suc zero)) (suc (suc zero)) m n h p q =
    omega
      (arith, got_time (suc (suc zero)) 60 m time-two p, got_time (suc (suc zero)) 60 n time-two q)
long_log-IsOrdered (suc (suc zero)) (suc (suc (suc j))) m n h p q = absurd (nothing j n q)
long_log-IsOrdered (suc (suc (suc i))) j m n h p q = absurd (nothing i m p)

abbrev first : Message
first = record { segment = closed_segment; offset = 4 }

abbrev second : Message
second = record { segment = next_message; offset = 4 }

long_log-IsTimed : All (IsTimed checksum long_log long_log-Inv long_log-IsOrdered) long_log.segments
unfolding get find_segment Segment.get header_at read_word write_message write_word
long_log-IsTimed = (
  (omega arith, (first, refl, refl), (first, refl, refl)),
  ((omega arith, (second, refl, refl), (second, refl, refl)), tt),
)

find_id_for_timestamp_lem_example :
    IsFound checksum long_log long_log-Inv long_log-IsOrdered 55 1
      (find_id_for_timestamp long_log 55)
find_id_for_timestamp_lem_example =
    find_id_for_timestamp_lem checksum long_log long_log-Inv long_log-IsOrdered 55 long_log-IsTimed

-- A segment without messages at the end.
abbrev ends_empty : QueueBackend
ends_empty = record {
  config = settings;
  segments = closed_segment ∷ next_segment ∷ [];
  head = 2;
  tail = 1;
}

ends_empty-Inv : Inv checksum ends_empty
ends_empty-Inv = record {
  linked = (
    omega arith,
    closed-IsValid checksum one_message true one_message-IsValid,
    (omega arith, created-IsValid checksum 2 blank blank-IsFile, tt),
  );
  ends = refl;
}

-- The message 1 is of the time 50.
find_id_for_timestamp_skips_example : find_id_for_timestamp ends_empty 10 ≡ done (some 2)
find_id_for_timestamp_skips_example =
    find_id_for_timestamp_skips checksum ends_empty (closed_segment ∷ []) next_segment 10
      ends_empty-Inv refl refl refl refl (omega arith)
