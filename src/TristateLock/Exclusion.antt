-- ===== src/TristateLock/Exclusion.antt =====
-- Who can hold the lock of src/tristate_lock.rs at the same time.
use floki.Prelude.{ℕ, ◌+◌, ◌≤◌, ◌≡◌, refl, ◌⊎◌, inl, Bool, true, false, arith}
use floki.TristateLock.{
  World, Step, Reachable, at_first, after, read, write, lock_begins, lock_ends, lock_at_once,
  read_ends, write_ends, exclusive_ends, try_read, try_write, lock_readers, try_lock,
}

abbrev bit : Bool → ℕ
bit false = 0
bit true = 1

-- The lock's state is what the guards make of it.
record Agrees (w : World) : Type 0 where
  reading : w.lock.r_lock.readers ≡ w.reads
  held : w.writes + w.locking + w.exclusives ≡ bit w.lock.w_lock
  alone : w.exclusives ≡ bit w.lock.r_lock.writer
  apart : (w.exclusives ≡ 0) ⊎ (w.reads ≡ 0)

Step-Agrees : (w v : World) → Agrees w → Step w v → Agrees v
unfolding try_read try_write lock_readers try_lock
Step-Agrees w v a (read l e) = record {
  reading = ground (arith, a);
  held = ground (arith, a);
  alone = ground (arith, a);
  apart = ground (arith, a);
}
Step-Agrees w v a (write l e) = record {
  reading = ground (arith, a);
  held = ground (arith, a);
  alone = ground (arith, a);
  apart = ground (arith, a);
}
Step-Agrees w v a (lock_begins l e) = record {
  reading = ground (arith, a);
  held = ground (arith, a);
  alone = ground (arith, a);
  apart = ground (arith, a);
}
Step-Agrees w v a (lock_ends l n s e) = record {
  reading = ground (arith, a);
  held = ground (arith, a);
  alone = ground (arith, a);
  apart = ground (arith, a);
}
Step-Agrees w v a (lock_at_once l e) = record {
  reading = ground (arith, a);
  held = ground (arith, a);
  alone = ground (arith, a);
  apart = ground (arith, a);
}
Step-Agrees w v a (read_ends n s) = record {
  reading = ground (arith, a);
  held = ground (arith, a);
  alone = ground (arith, a);
  apart = ground (arith, a);
}
Step-Agrees w v a (write_ends n s) = record {
  reading = ground (arith, a);
  held = ground (arith, a);
  alone = ground (arith, a);
  apart = ground (arith, a);
}
Step-Agrees w v a (exclusive_ends n s) = record {
  reading = ground (arith, a);
  held = ground (arith, a);
  alone = ground (arith, a);
  apart = ground (arith, a);
}

Reachable-Agrees : (w : World) → Reachable w → Agrees w
Reachable-Agrees w at_first = record { reading = refl; held = refl; alone = refl; apart = inl refl }
Reachable-Agrees w (after {w = u} r s) = Step-Agrees u w (Reachable-Agrees u r) s

-- Whatever calls and drops lead to a state of the lock and its guards, there is in it at most one
-- guard that writes or is exclusive, and with an exclusive guard there is none that reads or
-- writes.
pub Reachable-exclusive :
    (w : World)
    → Reachable w
    → (w.writes + w.exclusives ≤ 1) × ((w.exclusives ≡ 0) ⊎ ((w.reads ≡ 0) × (w.writes ≡ 0)))
Reachable-exclusive w r = let a = Reachable-Agrees w r in (ground (arith, a), ground (arith, a))
