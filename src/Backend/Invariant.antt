-- ===== src/Backend/Invariant.antt =====
-- The invariant of the log: valid segments whose ids go up, and a head that is the last one's.
use floki.Prelude.{
  ℕ, zero, suc, ◌≤◌, ◌<◌, ◌≡◌, refl, ◌⊎◌, inl, inr, List, ◌∷◌, [], ◌++◌, arith, drop,
}
use floki.Segment.{Segment}
use floki.Segment.Push.{IsValid, above}
use floki.Backend.{QueueBackend}
use floki.Backend.Upkeep.{last_head}

-- The log has a message with the id `j`.
abbrev pub Has : List Segment → ℕ → Type 0
Has [] j = ⊥
Has (s ∷ ss) j = ((s.tail ≤ j) × (j < s.head)) ⊎ Has ss j

pub Has-append_left : (ss ts : List Segment) (j : ℕ) → Has ss j → Has (ss ++ ts) j
Has-append_left [] ts j h = absurd h
Has-append_left (s ∷ ss) ts j (inl h) = inl h
Has-append_left (s ∷ ss) ts j (inr h) = inr (Has-append_left ss ts j h)

pub Has-append_right : (ss ts : List Segment) (j : ℕ) → Has ts j → Has (ss ++ ts) j
Has-append_right [] ts j h = h
Has-append_right (s ∷ ss) ts j h = inr (Has-append_right ss ts j h)

pub Has-append_cases : (ss ts : List Segment) (j : ℕ) → Has (ss ++ ts) j → Has ss j ⊎ Has ts j
Has-append_cases [] ts j h = inr h
Has-append_cases (s ∷ ss) ts j (inl h) = inl (inl h)
Has-append_cases (s ∷ ss) ts j (inr h) = elim (Has-append_cases ss ts j h) [
  | inl k ↦ inl (inr k)
  | inr k ↦ inr k
]

pub last_head-snoc :
    (lo : ℕ) (ss : List Segment) (s : Segment) → last_head lo (ss ++ s ∷ []) ≡ s.head
last_head-snoc lo [] s = refl
last_head-snoc lo (t ∷ ss) s = last_head-snoc t.head ss s

module _ (xxhash : List ℕ → ℕ) where
  -- Valid segments from `lo` on; there may be holes between them.
  abbrev pub Linked : ℕ → List Segment → Type 0
  Linked lo [] = Unit
  Linked lo (s ∷ ss) = (lo ≤ s.tail) × IsValid xxhash s × Linked s.head ss

  pub record Inv (b : QueueBackend) : Type 0 where
    pub linked : Linked 0 b.segments
    pub ends : last_head b.head b.segments ≡ b.head

  pub tail-le-head : (s : Segment) → IsValid xxhash s → s.tail ≤ s.head
  tail-le-head s v = (above xxhash s v).head_le

  Linked-weaken : (lo lo' : ℕ) (ss : List Segment) → lo ≤ lo' → Linked lo' ss → Linked lo ss
  Linked-weaken lo lo' [] h l = tt
  Linked-weaken lo lo' (s ∷ ss) h l = (omega arith, l.1, l.2)

  pub le-last_head : (lo : ℕ) (ss : List Segment) → Linked lo ss → lo ≤ last_head lo ss
  le-last_head lo [] l = omega arith
  le-last_head lo (s ∷ ss) l = omega (arith, le-last_head s.head ss l.2, tail-le-head s l.1, l.0)

  pub Has-bounds :
      (lo : ℕ) (ss : List Segment) (j : ℕ)
      → Linked lo ss
      → Has ss j
      → (lo ≤ j) × (j < last_head lo ss)
  Has-bounds lo [] j l h = absurd h
  Has-bounds lo (s ∷ ss) j l (inl h) = (omega arith, omega (arith, le-last_head s.head ss l.2))
  Has-bounds lo (s ∷ ss) j l (inr h) =
      let rest = Has-bounds s.head ss j l.2 h in (omega (arith, tail-le-head s l.1), rest.1)

  pub Linked-snoc :
      (lo : ℕ) (ss : List Segment) (s : Segment)
      → Linked lo ss
      → last_head lo ss ≤ s.tail
      → IsValid xxhash s
      → Linked lo (ss ++ s ∷ [])
  Linked-snoc lo [] s l h v = (h, v, tt)
  Linked-snoc lo (t ∷ ss) s l h v = (l.0, l.1, Linked-snoc t.head ss s l.2 h v)

  pub Linked-drop : (n lo : ℕ) (ss : List Segment) → Linked lo ss → Linked lo (drop n ss)
  Linked-drop zero lo ss l = l
  Linked-drop (suc n) lo [] l = tt
  Linked-drop (suc n) lo (s ∷ ss) l =
      Linked-weaken lo s.head (drop n ss) (omega (arith, tail-le-head s l.1))
        (Linked-drop n s.head ss l.2)
