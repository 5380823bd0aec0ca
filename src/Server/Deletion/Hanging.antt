-- ===== src/Server/Deletion/Hanging.antt =====
-- src/server.rs, `Dispatch::delete_queue`: the wait for the other workers, which may wait for it.
use floki.Prelude.{
  ℕ, zero, suc, ◌≤◌, ◌≡◌, refl, ap, sym, subst, ◌∙◌, true, false, Option, none, some, List, [], ◌∷◌,
  get_elem?, ℕ_discrete, arith,
}
use floki.Queue.{Name}
use floki.Server.Commands.Tables.{same_refl}
use floki.Server.Deletion.{
  Task, delete_queue, Stage, idle, uses, has, waits, Registry, contains, put_stage, arcs, all_arcs,
  strong_count, is_free, enter, goes, Step, finds, creates, reads, drops, locks, frees, Steps,
  none_yet, after,
}

put_same :
    (i : ℕ) (r s : Stage) (ss : List Stage)
    → get_elem? ss i ≡ some r
    → get_elem? (put_stage i s ss) i ≡ some s
put_same i r s [] e = ground arith
put_same zero r s (t ∷ ss) e = refl
put_same (suc i) r s (t ∷ ss) e = put_same i r s ss e

put_other :
    (i j : ℕ) (s : Stage) (ss : List Stage)
    → (i ≡ j → ⊥)
    → get_elem? (put_stage i s ss) j ≡ get_elem? ss j
put_other i j s [] h = refl
put_other zero zero s (t ∷ ss) h = absurd (h refl)
put_other zero (suc j) s (t ∷ ss) h = refl
put_other (suc i) zero s (t ∷ ss) h = refl
put_other (suc i) (suc j) s (t ∷ ss) h = put_other i j s ss (λ e. h (ap suc e))

-- The lock is taken while a worker waits.
waits-is_free :
    (i : ℕ) (n : Name) (ss : List Stage) → get_elem? ss i ≡ some (waits n) → is_free ss ≡ false
waits-is_free i n [] e = ground arith
waits-is_free zero n (idle ∷ ss) e = ground arith
waits-is_free zero n (uses m ∷ ss) e = ground arith
waits-is_free zero n (has task m ∷ ss) e = ground arith
waits-is_free zero n (waits m ∷ ss) e = refl
waits-is_free (suc i) n (idle ∷ ss) e = waits-is_free i n ss e
waits-is_free (suc i) n (uses m ∷ ss) e = waits-is_free i n ss e
waits-is_free (suc i) n (has task m ∷ ss) e = waits-is_free i n ss e
waits-is_free (suc i) n (waits m ∷ ss) e = refl

one_arc :
    (i : ℕ) (n : Name) (s : Stage) (ss : List Stage)
    → get_elem? ss i ≡ some s
    → arcs n s ≡ 1
    → 1 ≤ all_arcs n ss
one_arc i n s [] e h = ground arith
one_arc zero n s (t ∷ ss) e h = ground arith
one_arc (suc i) n s (t ∷ ss) e h = omega (arith, one_arc i n s ss e h)

two_arcs :
    (i j : ℕ) (n : Name) (s t : Stage) (ss : List Stage)
    → (i ≡ j → ⊥)
    → get_elem? ss i ≡ some s
    → get_elem? ss j ≡ some t
    → arcs n s ≡ 1
    → arcs n t ≡ 1
    → 2 ≤ all_arcs n ss
two_arcs i j n s t [] h e e' a b = ground arith
two_arcs zero zero n s t (r ∷ ss) h e e' a b = absurd (h refl)
two_arcs zero (suc j) n s t (r ∷ ss) h e e' a b = ground (arith, one_arc j n t ss e' b, e, a)
two_arcs (suc i) zero n s t (r ∷ ss) h e e' a b = ground (arith, one_arc i n s ss e a, e', b)
two_arcs (suc i) (suc j) n s t (r ∷ ss) h e e' a b =
    omega (arith, two_arcs i j n s t ss (λ d. h (ap suc d)) e e' a b)

-- A worker waits for the other to go, which waits for the lock.
abbrev pub IsStuck : ℕ → ℕ → Task → Name → Registry → Type 0
IsStuck i j task n y =
    (get_elem? y.workers i ≡ some (waits n)) × (get_elem? y.workers j ≡ some (has task n))

abbrev IsWaiting : Option Stage → Type 0
IsWaiting (some (waits _)) = Unit
IsWaiting (some (has _ _)) = Unit
IsWaiting (some idle) = ⊥
IsWaiting (some (uses _)) = ⊥
IsWaiting none = Unit

-- A worker that was neither of the two went on.
moved :
    (i j k : ℕ) (task : Task) (n : Name) (r s : Stage) (y : Registry)
    → IsStuck i j task n y
    → get_elem? y.workers k ≡ some r
    → (IsWaiting (some r) → ⊥)
    → (get_elem? (put_stage k s y.workers) i ≡ some (waits n))
      × (get_elem? (put_stage k s y.workers) j ≡ some (has task n))
moved i j k task n r s y stuck e free = (
  put_other k i s y.workers
        (λ d. free (subst IsWaiting (sym stuck.0 ∙ ap (get_elem? y.workers) (sym d) ∙ e) tt))
      ∙ stuck.0,
  put_other k j s y.workers
        (λ d. free (subst IsWaiting (sym stuck.1 ∙ ap (get_elem? y.workers) (sym d) ∙ e) tt))
      ∙ stuck.1,
)

abbrev IsWaitingFor : Option Stage → Type 0
IsWaitingFor (some (has _ _)) = Unit
IsWaitingFor (some (waits _)) = ⊥
IsWaitingFor (some idle) = ⊥
IsWaitingFor (some (uses _)) = ⊥
IsWaitingFor none = ⊥

abbrev queue_of : Option Stage → Name
queue_of (some (waits m)) = m
queue_of (some (has _ m)) = m
queue_of (some (uses m)) = m
queue_of (some idle) = []
queue_of none = []

-- A worker waits with one queue.
waited : (n : Name) (o : Option Stage) (m : Name) → o ≡ some (waits n) → o ≡ some (waits m) → m ≡ n
waited n o m e e' = ap queue_of (sym e' ∙ e)

two_left :
    (i j : ℕ) (task : Task) (n : Name) (y : Registry)
    → (i ≡ j → ⊥)
    → IsStuck i j task n y
    → strong_count n y ≡ 1
    → ⊥
unfolding strong_count
two_left i j task n y different stuck e =
    let own : arcs n (waits n) ≡ 1 = rw (same_refl n) refl in
    let other : arcs n (has task n) ≡ 1 = rw (same_refl n) refl in
    ground (
      arith,
      two_arcs i j n (waits n) (has task n) y.workers different stuck.0 stuck.1 own other,
      e,
    )

Step-IsStuck :
    (i j : ℕ) (task : Task) (n : Name) {y z : Registry}
    → (i ≡ j → ⊥)
    → IsStuck i j task n y
    → Step y z
    → IsStuck i j task n z
unfolding strong_count
Step-IsStuck i j task n {y} different stuck (finds k t m e h) =
    moved i j k task n idle (has t m) y stuck e (λ b. b)
Step-IsStuck i j task n {y} different stuck (creates k m e h) =
    absurd (ground (arith, h, waits-is_free i n y.workers stuck.0))
Step-IsStuck i j task n {y} different stuck (reads k m e h) =
    moved i j k task n idle (uses m) y stuck e (λ b. b)
Step-IsStuck i j task n {y} different stuck (drops k m e) =
    moved i j k task n (uses m) idle y stuck e (λ b. b)
Step-IsStuck i j task n {y} different stuck (locks k t m e h) =
    absurd (ground (arith, h, waits-is_free i n y.workers stuck.0))
Step-IsStuck i j task n {y} different stuck (frees k m e h) = elim (ℕ_discrete k i) [
  | yes d ↦ absurd (
      two_left i j task n y different stuck (
        subst (λ s. strong_count s y ≡ 1)
          (waited n (get_elem? y.workers i) m stuck.0 (ap (get_elem? y.workers) (sym d) ∙ e)) h))
  | no other ↦ (
    put_other k i idle y.workers other ∙ stuck.0,
    put_other k j idle y.workers
          (λ d. subst IsWaitingFor (sym stuck.1 ∙ ap (get_elem? y.workers) (sym d) ∙ e) tt)
        ∙ stuck.1,
  )
]

pub Steps-IsStuck :
    (i j : ℕ) (task : Task) (n : Name) {y z : Registry}
    → (i ≡ j → ⊥)
    → IsStuck i j task n y
    → Steps y z
    → IsStuck i j task n z
Steps-IsStuck i j task n different stuck none_yet = stuck
Steps-IsStuck i j task n different stuck (after step steps) =
    Steps-IsStuck i j task n different (Step-IsStuck i j task n different stuck step) steps

put-is_free :
    (i : ℕ) (task : Task) (n : Name) (ss : List Stage)
    → get_elem? ss i ≡ some idle
    → is_free (put_stage i (has task n) ss) ≡ is_free ss
put-is_free i task n [] e = refl
put-is_free zero task n (idle ∷ ss) e = refl
put-is_free zero task n (uses m ∷ ss) e = refl
put-is_free zero task n (has t m ∷ ss) e = refl
put-is_free zero task n (waits m ∷ ss) e = ground arith
put-is_free (suc i) task n (idle ∷ ss) e = put-is_free i task n ss e
put-is_free (suc i) task n (uses m ∷ ss) e = put-is_free i task n ss e
put-is_free (suc i) task n (has t m ∷ ss) e = put-is_free i task n ss e
put-is_free (suc i) task n (waits m ∷ ss) e = refl

-- If the meta lock is free, a queue is there and two workers are idle, then steps lead to a state
-- from which no step leads on for the two: one waits for good with the meta lock that the other
-- lets the queue go, the other for the lock, and so no worker ever creates or deletes again.
pub delete_twice_hangs :
    (i j : ℕ) (n : Name) (y : Registry)
    → (i ≡ j → ⊥)
    → get_elem? y.workers i ≡ some idle
    → get_elem? y.workers j ≡ some idle
    → contains n y.queues ≡ true
    → is_free y.workers ≡ true
    → (x : Registry) × Steps y x
      × ((z : Registry) → Steps x z → IsStuck i j delete_queue n z × (is_free z.workers ≡ false))
unfolding enter
delete_twice_hangs i j n y different e e' known free =
    let first = goes i (has delete_queue n) y in
    let second = goes j (has delete_queue n) first in
    let other : get_elem? first.workers j ≡ some idle =
      put_other i j (has delete_queue n) y.workers different ∙ e' in
    let own : get_elem? second.workers i ≡ some (has delete_queue n) =
      put_other j i (has delete_queue n) first.workers (λ d. different (sym d))
      ∙ put_same i idle (has delete_queue n) y.workers e in
    let unlocked : is_free second.workers ≡ true =
      put-is_free j delete_queue n first.workers other
      ∙ put-is_free i delete_queue n y.workers e
      ∙ free in
    let third : Registry = record {
      queues = (enter delete_queue n second.queues).0;
      workers = put_stage i (enter delete_queue n second.queues).1 second.workers;
    } in
    let entered : put_stage i (enter delete_queue n second.queues).1 second.workers
        ≡ put_stage i (waits n) second.workers =
      rw (known, enter) refl in
    let stuck : IsStuck i j delete_queue n third = (
      ap (λ ss. get_elem? ss i) entered
          ∙ put_same i (has delete_queue n) (waits n) second.workers own,
      ap (λ ss. get_elem? ss j) entered
          ∙ put_other i j (waits n) second.workers different
          ∙ put_same j idle (has delete_queue n) first.workers other,
    ) in
    (
      third,
      after (finds i delete_queue n e known) (
          after (finds j delete_queue n other known)
            (after (locks i delete_queue n own unlocked) none_yet)),
      λ (z : Registry) (steps : Steps third z).
          let still = Steps-IsStuck i j delete_queue n different stuck steps in
          (still, waits-is_free i n z.workers still.0),
    )
