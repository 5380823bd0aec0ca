-- ===== src/Tests/Parts.antt =====
-- The smaller parts: src/offset_index.rs, src/cookie.rs, src/config.rs and src/tristate_lock.rs.
use floki.Prelude.{◌+◌, ◌≤◌, ◌≡◌, refl, ◌⊎◌, [], ◌∷◌, true, false}
use floki.OffsetIndex.{OffsetIndex}
use floki.TristateLock.{World, Reachable, at_first, after, read, write, try_read, try_write}
use floki.TristateLock.Exclusion.{Reachable-exclusive}

-- A reader and a writer together.
abbrev both : World
both = record {
  lock = record { w_lock = true; r_lock = record { readers = 1; writer = false } };
  reads = 1;
  writes = 1;
  locking = 0;
  exclusives = 0;
}

both-Reachable : Reachable both
unfolding try_read try_write
both-Reachable = after (after at_first (read _ refl)) (write _ refl)

Reachable-exclusive_example :
    (both.writes + both.exclusives ≤ 1)
    × ((both.exclusives ≡ 0) ⊎ ((both.reads ≡ 0) × (both.writes ≡ 0)))
Reachable-exclusive_example = Reachable-exclusive both both-Reachable

-- An index of two messages from id 7 on.
abbrev two_offsets : OffsetIndex
two_offsets = record { id_offset = 7; index = 4 ∷ 70000 ∷ [] }
