-- ===== src/Heap.antt =====
-- The `BinaryHeap<(Rev<u64>, i64)>` of src/queue.rs. The heap is of the standard library: here a list
-- with the greatest element first. Its order is that of src/rev.rs on the ids, and then the tickets'.
pub mod Order
use floki.Prelude.{
  ℕ, Option, none, some, List, [], ◌∷◌, Bool, true, false, if◌then◌else◌, compare, Ordering,
}
use floki.Rev.{Rev, partial_cmp}

-- `(Rev<u64>, i64)`: the id, turned round, and the ticket.
abbrev pub Pending : Type 0
Pending = ℕ × ℕ

-- The order of the pairs: `PartialOrd` of tuples, first field first.
unfoldable pub is_above : Pending → Pending → Bool
unfolding partial_cmp
is_above (i, t) (j, u) = elim (partial_cmp (record { value = i }) (record { value = j })) [
  | Ordering.gt ↦ true
  | Ordering.lt ↦ false
  | Ordering.eq ↦ elim (compare t u) [ Ordering.gt ↦ true | _ ↦ false ]
]

unfoldable pub push : Pending → List Pending → List Pending
unfolding is_above
push p [] = p ∷ []
push p (q ∷ h) = if is_above p q then p ∷ q ∷ h else q ∷ push p h

abbrev pub peek : List Pending → Option Pending
peek [] = none
peek (p ∷ h) = some p
