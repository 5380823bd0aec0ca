-- ===== src/Tests/Data.antt =====
-- A hash, files, segments, logs and channels to run the program on.
use floki.Prelude.{
  ℕ, ◌+◌, ◌*◌, ◌%◌, ◌^◌, ◌≡◌, refl, ap, inl, List, [], ◌∷◌, ◌++◌, none, arith, All, length, true,
}
use floki.Config.{QueueConfig}
use floki.Segment.{Segment, FileImage}
use floki.Segment.Push.{IsValid, IsPushable, appended, appended-IsValid, closed-IsValid}
use floki.Backend.{QueueBackend}
use floki.Backend.Push.{IsFile, created, created-IsValid}
use floki.Backend.Invariant.{Inv}
use floki.Backend.Writes.{IsWritable}
use floki.Backend.Retention.{IsLive}
use floki.Collections.{LinkedHashMap, find, erase, front}
use floki.Channel.{InFlightState, Channel, Entries}
use floki.Channel.Tracked.{IsTracked}
use floki.Channel.Counted.{IsCounted}

-- A stand-in for xxHash.
abbrev pub checksum : List ℕ → ℕ
checksum [] = 7
checksum (b ∷ bs) = (b + 31 * checksum bs) % 2 ^ 32

abbrev pub blank : FileImage
blank = record { bytes = λ _. 0; len = 100 }

pub blank-IsFile : IsFile checksum blank
blank-IsFile = record { long = omega arith; short = omega arith }

abbrev pub greeting : List ℕ
greeting = 7 ∷ 8 ∷ []

-- A new segment, and the one with the greeting as message 1.
abbrev pub empty_segment : Segment
empty_segment = created checksum 1 blank

abbrev pub one_message : Segment
one_message = appended checksum empty_segment greeting 50

pub empty_segment-IsValid : IsValid checksum empty_segment
empty_segment-IsValid = created-IsValid checksum 1 blank blank-IsFile

pub greeting-IsPushable : IsPushable checksum empty_segment greeting 50
greeting-IsPushable = record {
  body_fits = omega arith;
  clock_fits = omega arith;
  head_fits = omega arith;
}

pub one_message-IsValid : IsValid checksum one_message
one_message-IsValid =
    appended-IsValid checksum empty_segment empty_segment-IsValid greeting 50 greeting-IsPushable
      (omega arith)

pub second-IsPushable : IsPushable checksum one_message greeting 60
second-IsPushable = record {
  body_fits = omega arith;
  clock_fits = omega arith;
  head_fits = omega arith;
}

abbrev pub settings : QueueConfig
settings = record {
  name = [];
  data_directory = [];
  segment_size = 100;
  message_timeout = 10;
  retention_period = 5;
  hard_retention_period = 0;
  retention_size = 0;
  hard_retention_size = 0;
}

-- A log with one open segment, and one with a closed and an open segment.
abbrev pub small_log : QueueBackend
small_log = record { config = settings; segments = one_message ∷ []; head = 2; tail = 1 }

abbrev pub closed_segment : Segment
closed_segment = record one_message { closed = true }

abbrev pub next_segment : Segment
next_segment = created checksum 2 blank

pub next-IsPushable : IsPushable checksum next_segment greeting 60
next-IsPushable = record {
  body_fits = omega arith;
  clock_fits = omega arith;
  head_fits = omega arith;
}

abbrev pub next_message : Segment
next_message = appended checksum next_segment greeting 60

pub next_message-IsValid : IsValid checksum next_message
next_message-IsValid =
    appended-IsValid checksum next_segment (created-IsValid checksum 2 blank blank-IsFile) greeting
      60 next-IsPushable (omega arith)

abbrev pub long_log : QueueBackend
long_log = record {
  config = settings;
  segments = closed_segment ∷ next_message ∷ [];
  head = 3;
  tail = 1;
}

-- The log without its first segment.
abbrev pub short_log : QueueBackend
short_log = record { config = settings; segments = next_message ∷ []; head = 3; tail = 2 }

pub small_log-Inv : Inv checksum small_log
small_log-Inv = record { linked = (omega arith, one_message-IsValid, tt); ends = refl }

pub long_log-Inv : Inv checksum long_log
long_log-Inv = record {
  linked = (
    omega arith,
    closed-IsValid checksum one_message true one_message-IsValid,
    (omega arith, next_message-IsValid, tt),
  );
  ends = refl;
}

pub long_log-IsLive : All IsLive long_log.segments
long_log-IsLive = (refl, (refl, tt))

pub small_log-IsWritable : IsWritable small_log greeting 60
small_log-IsWritable = record {
  body_fits = omega arith;
  clock_fits = omega arith;
  head_fits = omega arith;
}

pub erase-absent : (k : ℕ) (m : Entries) → find k m ≡ none → erase k m ≡ m
erase-absent k [] h = refl
erase-absent k ((i, s) ∷ m) h = ground (arith, erase-absent k m)

-- A map that is its list of entries.
abbrev pub association : LinkedHashMap InFlightState
association = record {
  Map = Entries;
  empty = [];
  entries = λ m. m;
  get = find;
  first = front;
  len = length;
  insert = λ k v m. erase k m ++ (k, v) ∷ [];
  remove = erase;
  iter_mut = λ f m. f m;
  entries_empty = refl;
  get_entries = λ k m. refl;
  first_entries = λ m. refl;
  len_entries = λ m. refl;
  entries_insert = λ k v m h. ap (λ r. r ++ (k, v) ∷ []) (erase-absent k m h);
  entries_remove = λ k m. refl;
  entries_iter_mut = λ f m h. refl;
}

-- Message 1 is out under ticket 9, until 10.
abbrev pub one_out : Channel association
one_out = record {
  last_touched = 0;
  expired_count = 0;
  tail = 2;
  in_flight_map = (9, record { id = 1; expiration = 10 }) ∷ [];
  in_flight_heap = (1, 9) ∷ [];
}

pub one_out-IsTracked : IsTracked association one_out
one_out-IsTracked = record {
  covers = record { sorted = (tt, tt); held = (inl refl, tt); distinct = (refl, tt) };
}

pub one_out-IsCounted : IsCounted association one_out
one_out-IsCounted = record { expired_first = ((λ e. omega (arith, e)), tt); few = omega arith }

-- Nothing is out, and message 1 comes next.
abbrev pub fresh : Channel association
fresh = record {
  last_touched = 0;
  expired_count = 0;
  tail = 1;
  in_flight_map = [];
  in_flight_heap = [];
}

pub fresh-IsTracked : IsTracked association fresh
fresh-IsTracked = record { covers = record { sorted = tt; held = tt; distinct = tt } }

pub fresh-IsCounted : IsCounted association fresh
fresh-IsCounted = record { expired_first = tt; few = omega arith }
