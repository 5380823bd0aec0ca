-- ===== src/Collections.antt =====
-- The collections that the queue keeps its channels' state in. `LinkedHashMap` is a crate outside of
-- the repository, and so a parameter: its operations, with the laws that its documentation gives.
pub mod Entries
use floki.Prelude.{
  ℕ, ◌+◌, ◌≤◌, ◌≡◌, ◌≢◌, Option, none, some, List, [], ◌∷◌, ◌++◌, map, Bool, true, false, ◌==◌,
  if◌then◌else◌, length, compare, Ordering,
}

-- Entries by key, oldest insertion first.
module _ {V : Type 0} where
  abbrev pub find : ℕ → List (ℕ × V) → Option V
  find k [] = none
  find k ((j, v) ∷ es) = if j == k then some v else find k es

  abbrev pub erase : ℕ → List (ℕ × V) → List (ℕ × V)
  erase k [] = []
  erase k ((j, v) ∷ es) = if j == k then es else (j, v) ∷ erase k es

  abbrev pub front : List (ℕ × V) → Option (ℕ × V)
  front [] = none
  front (e ∷ es) = some e

  abbrev pub keys : List (ℕ × V) → List ℕ
  keys [] = []
  keys ((j, v) ∷ es) = j ∷ keys es

-- `entries` is the order of iteration, that of insertion; `iter_mut` rewrites values on the way.
pub record LinkedHashMap (V : Type 0) : Type 1 where
  pub Map : Type 0
  pub empty : Map
  pub entries : Map → List (ℕ × V)
  pub get : ℕ → Map → Option V
  pub first : Map → Option (ℕ × V)
  pub len : Map → ℕ
  pub insert : ℕ → V → Map → Map
  pub remove : ℕ → Map → Map
  pub iter_mut : (List (ℕ × V) → List (ℕ × V)) → Map → Map
  pub entries_empty : entries empty ≡ []
  pub get_entries : (k : ℕ) (m : Map) → get k m ≡ find k (entries m)
  pub first_entries : (m : Map) → first m ≡ front (entries m)
  pub len_entries : (m : Map) → len m ≡ length (entries m)
  pub entries_insert :
      (k : ℕ) (v : V) (m : Map)
      → find k (entries m) ≡ none
      → entries (insert k v m) ≡ entries m ++ (k, v) ∷ []
  pub entries_remove : (k : ℕ) (m : Map) → entries (remove k m) ≡ erase k (entries m)
  pub entries_iter_mut :
      (f : List (ℕ × V) → List (ℕ × V)) (m : Map)
      → keys (f (entries m)) ≡ keys (entries m)
      → entries (iter_mut f m) ≡ f (entries m)
