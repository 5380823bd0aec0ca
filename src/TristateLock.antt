-- ===== src/TristateLock.antt =====
-- src/tristate_lock.rs: a lock for many readers and one writer together, or for one exclusive user. It
-- is made of a `Mutex` and a `RwLock` of the standard library, here the state that each is in; the
-- protected data is left out. A blocking call is a step that can be taken when the lock is free.
pub mod Exclusion
use floki.Prelude.{
  ℕ, zero, suc, ◌+◌, ◌-◌, ◌≡◌, Bool, true, false, ◌||◌, Option, none, some, ltb, if◌then◌else◌,
}

pub record RwLock : Type 0 where
  pub readers : ℕ
  pub writer : Bool

pub record TristateLock : Type 0 where
  pub w_lock : Bool
  pub r_lock : RwLock

unfoldable pub new : TristateLock
new = record { w_lock = false; r_lock = record { readers = 0; writer = false } }

unfoldable pub try_read : TristateLock → Option TristateLock
try_read l =
    if l.r_lock.writer
    then none
    else some (record l { r_lock = record l.r_lock { readers = l.r_lock.readers + 1 } })

unfoldable pub try_write : TristateLock → Option TristateLock
try_write l = if l.w_lock then none else some (record l { w_lock = true })

-- The second half of `lock`.
unfoldable pub lock_readers : TristateLock → Option TristateLock
lock_readers l =
    if l.r_lock.writer || ltb 0 l.r_lock.readers
    then none
    else some (record l { r_lock = record l.r_lock { writer = true } })

-- If only one of the two locks is free, it is given back.
unfoldable pub try_lock : TristateLock → Option TristateLock
unfolding try_write lock_readers
try_lock l = elim (try_write l) [ none ↦ none | some l' ↦ lock_readers l' ]

-- The guards are dropped.
abbrev pub drop_read : TristateLock → TristateLock
drop_read l = record l { r_lock = record l.r_lock { readers = l.r_lock.readers - 1 } }

abbrev pub drop_write : TristateLock → TristateLock
drop_write l = record l { w_lock = false }

abbrev pub drop_exclusive : TristateLock → TristateLock
drop_exclusive l = record l { w_lock = false; r_lock = record l.r_lock { writer = false } }

-- The lock and how many guards of each kind are held. A call of `lock` that has the mutex and waits
-- for the readers is one that is `locking`.
pub record World : Type 0 where
  pub lock : TristateLock
  pub reads : ℕ
  pub writes : ℕ
  pub locking : ℕ
  pub exclusives : ℕ

pub data Step (w : World) : World → Type 0 where
  read :
      (l : TristateLock)
      → try_read w.lock ≡ some l
      → Step w (record w { lock = l; reads = w.reads + 1 })
  write :
      (l : TristateLock)
      → try_write w.lock ≡ some l
      → Step w (record w { lock = l; writes = w.writes + 1 })
  lock_begins :
      (l : TristateLock)
      → try_write w.lock ≡ some l
      → Step w (record w { lock = l; locking = w.locking + 1 })
  lock_ends :
      (l : TristateLock) (n : ℕ)
      → w.locking ≡ suc n
      → lock_readers w.lock ≡ some l
      → Step w (record w { lock = l; locking = n; exclusives = w.exclusives + 1 })
  lock_at_once :
      (l : TristateLock)
      → try_lock w.lock ≡ some l
      → Step w (record w { lock = l; exclusives = w.exclusives + 1 })
  read_ends : (n : ℕ) → w.reads ≡ suc n → Step w (record w { lock = drop_read w.lock; reads = n })
  write_ends :
      (n : ℕ) → w.writes ≡ suc n → Step w (record w { lock = drop_write w.lock; writes = n })
  exclusive_ends :
      (n : ℕ)
      → w.exclusives ≡ suc n
      → Step w (record w { lock = drop_exclusive w.lock; exclusives = n })

abbrev pub initial : World
initial = record {
  lock = record { w_lock = false; r_lock = record { readers = 0; writer = false } };
  reads = 0;
  writes = 0;
  locking = 0;
  exclusives = 0;
}

-- What the calls and drops of any threads, in any order, lead to.
pub data Reachable : World → Type 0 where
  at_first : Reachable initial
  after : {w v : World} → Reachable w → Step w v → Reachable v
