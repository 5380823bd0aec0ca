-- ===== src/Heap/Order.antt =====
-- The heap keeps its elements, the one with the least id on top.
use floki.Prelude.{
  ◌≤◌, ◌≡◌, refl, ◌⊎◌, inl, inr, List, [], ◌∷◌, arith, Bool-cases, All, All-imp, true, false,
}
use native.Mathlib.Nat.{le_trans}
use floki.Heap.{Pending, is_above, push}

abbrev pub In : Pending → List Pending → Type 0
In p [] = ⊥
In p (q ∷ h) = (p ≡ q) ⊎ In p h

abbrev pub IsSorted : List Pending → Type 0
IsSorted [] = Unit
IsSorted (p ∷ h) = All (λ q. p.0 ≤ q.0) h × IsSorted h

is_above-le : (p q : Pending) → is_above p q ≡ true → p.0 ≤ q.0
unfolding is_above
is_above-le (i, t) (j, u) h = ground arith

not_above-le : (p q : Pending) → is_above p q ≡ false → q.0 ≤ p.0
unfolding is_above
not_above-le (i, t) (j, u) h = ground arith

pub In-push_self : (p : Pending) (h : List Pending) → In p (push p h)
unfolding push
In-push_self p [] = inl refl
In-push_self p (q ∷ h) = elim (Bool-cases (is_above p q)) [
  | inl above ↦ rw (above, push) (inl refl)
  | inr below ↦ rw (below, push) (inr (In-push_self p h))
]

pub In-push : (p r : Pending) (h : List Pending) → In r h → In r (push p h)
unfolding push
In-push p r [] i = absurd i
In-push p r (q ∷ h) i = elim (Bool-cases (is_above p q)) [
  | inl above ↦ rw (above, push) (inr i)
  | inr below ↦ rw (below, push) (elim i [ inl e ↦ inl e | inr j ↦ inr (In-push p r h j) ])
]

All-push :
    (P : Pending → Type 0) (p : Pending) (h : List Pending) → P p → All P h → All P (push p h)
unfolding push
All-push P p [] a b = (a, tt)
All-push P p (q ∷ h) a b = elim (Bool-cases (is_above p q)) [
  | inl above ↦ rw (above, push) (a, b)
  | inr below ↦ rw (below, push) (b.0, All-push P p h a b.1)
]

pub push-IsSorted : (p : Pending) (h : List Pending) → IsSorted h → IsSorted (push p h)
unfolding push
push-IsSorted p [] s = (tt, tt)
push-IsSorted p (q ∷ h) s = elim (Bool-cases (is_above p q)) [
  | inl above ↦
      let le = is_above-le p q above in
      rw (above, push) ((le, All-imp (λ r k. le_trans le k) h s.0), s)
  | inr below ↦
      rw (below, push)
        (All-push (λ r. q.0 ≤ r.0) p h (not_above-le p q below) s.0, push-IsSorted p h s.1)
]
