-- ===== src/Collections/Entries.antt =====
-- Lookups in lists of entries.
use floki.Prelude.{
  ℕ, ◌≡◌, ◌≢◌, refl, inl, inr, none, some, List, [], ◌∷◌, ◌++◌, arith, All, All-imp, Bool-cases,
  ◌==◌, if◌then◌else◌, subst,
}
use floki.Collections.{find, erase}

module _ {V : Type 0} where
  pub find-snoc :
      (k j : ℕ) (v : V) (es : List (ℕ × V))
      → find j es ≡ none
      → find k (es ++ (j, v) ∷ []) ≡ (if j == k then some v else find k es)
  find-snoc k j v [] h = refl
  find-snoc k j v ((i, w) ∷ es) h = ground (arith, find-snoc k j v es)

  pub find-erase_ne : (k j : ℕ) (es : List (ℕ × V)) → k ≢ j → find k (erase j es) ≡ find k es
  find-erase_ne k j [] h = refl
  find-erase_ne k j ((i, w) ∷ es) h = ground (arith, find-erase_ne k j es h)

  pub find-erase-none :
      (k j : ℕ) (es : List (ℕ × V)) → find k es ≡ none → find k (erase j es) ≡ none
  find-erase-none k j [] h = refl
  find-erase-none k j ((i, w) ∷ es) h = ground (arith, find-erase-none k j es)

  pub All-erase : (P : ℕ × V → Type 0) (k : ℕ) (es : List (ℕ × V)) → All P es → All P (erase k es)
  All-erase P k [] h = tt
  All-erase P k ((i, w) ∷ es) h = elim (Bool-cases (i == k)) [
    | inl here ↦ rw here h.1
    | inr there ↦ rw there (h.0, All-erase P k es h.1)
  ]

  pub All-find :
      (P : ℕ × V → Type 0) (k : ℕ) {v : V} (es : List (ℕ × V))
      → All P es
      → find k es ≡ some v
      → P (k, v)
  All-find P k [] a h = cc
  All-find P k {v} ((i, w) ∷ es) a h = elim (Bool-cases (i == k)) [
    | inl here ↦ let same : (i, w) ≡ (k, v) = ground arith in subst P same a.0
    | inr there ↦ All-find P k es a.1 (rw there at h)
  ]

  -- Every key of the list is found.
  pub All-found : (es : List (ℕ × V)) → All (λ e. find e.0 es ≢ none) es
  All-found [] = tt
  All-found ((i, w) ∷ es) = ((λ h. ground arith), All-imp (λ e k h. ground arith) es (All-found es))

  abbrev pub Distinct : List (ℕ × V) → Type 0
  Distinct [] = Unit
  Distinct ((k, v) ∷ es) = (find k es ≡ none) × Distinct es

  pub Distinct-erase : (k : ℕ) (es : List (ℕ × V)) → Distinct es → Distinct (erase k es)
  Distinct-erase k [] d = tt
  Distinct-erase k ((i, w) ∷ es) d = elim (Bool-cases (i == k)) [
    | inl here ↦ rw here d.1
    | inr there ↦ rw there (find-erase-none i k es d.0, Distinct-erase k es d.1)
  ]

  pub find-erase_same : (k : ℕ) (es : List (ℕ × V)) → Distinct es → find k (erase k es) ≡ none
  find-erase_same k [] d = refl
  find-erase_same k ((i, w) ∷ es) d = ground (arith, find-erase_same k es)

  pub Distinct-snoc :
      (k : ℕ) (v : V) (es : List (ℕ × V))
      → find k es ≡ none
      → Distinct es
      → Distinct (es ++ (k, v) ∷ [])
  Distinct-snoc k v [] h d = (refl, tt)
  Distinct-snoc k v ((i, w) ∷ es) h d =
      let new = find-snoc i k v es (ground arith) in
      (ground arith, Distinct-snoc k v es (ground arith) d.1)
