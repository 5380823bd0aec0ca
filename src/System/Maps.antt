-- ===== src/System/Maps.antt =====
-- The maps of src/server.rs and src/queue.rs, when each value is replaced by an image of it.
use floki.Prelude.{
  ◌⊎◌, ◌≡◌, refl, ap, Bool-cases, inl, inr, Option, Option-cases, none, some, List, [], ◌∷◌, ◌++◌,
  arith, same,
}
use floki.Queue.{Name, lookup, replace, discard}
use floki.Server.{insert}

pub List-cases : {A : Type 0} (es : List A) → (es ≡ []) ⊎ ((e : A) × (fs : List A) × (es ≡ e ∷ fs))
List-cases [] = inl refl
List-cases (e ∷ es) = inr (e, es, refl)

abbrev pub with_values : {V W : Type 0} → (V → W) → List (Name × V) → List (Name × W)
with_values f [] = []
with_values f ((n, v) ∷ es) = (n, f v) ∷ with_values f es

abbrev pub image : {V W : Type 0} → (V → W) → Option V → Option W
image f none = none
image f (some v) = some (f v)

-- The names alone.
abbrev pub names : {V : Type 0} → List (Name × V) → List (Name × Unit {0})
names = with_values (λ _. tt)

module _ {V W : Type 0} (f : V → W) where
  pub lookup-with_values :
      (n : Name) (es : List (Name × V)) → lookup n (with_values f es) ≡ image f (lookup n es)
  lookup-with_values n [] = refl
  lookup-with_values n ((k, v) ∷ es) = elim (Bool-cases (same k n)) [
    | inl b ↦ rw b refl
    | inr b ↦ rw b (lookup-with_values n es)
  ]

  pub replace-with_values :
      (n : Name) (v : V) (es : List (Name × V))
      → with_values f (replace n v es) ≡ replace n (f v) (with_values f es)
  replace-with_values n v [] = refl
  replace-with_values n v ((k, u) ∷ es) = elim (Bool-cases (same k n)) [
    | inl b ↦ rw b refl
    | inr b ↦ rw b (ap (λ r. (k, f u) ∷ r) (replace-with_values n v es))
  ]

  pub discard-with_values :
      (n : Name) (es : List (Name × V))
      → with_values f (discard n es) ≡ discard n (with_values f es)
  discard-with_values n [] = refl
  discard-with_values n ((k, u) ∷ es) = elim (Bool-cases (same k n)) [
    | inl b ↦ rw b refl
    | inr b ↦ rw b (ap (λ r. (k, f u) ∷ r) (discard-with_values n es))
  ]

  pub append-with_values :
      (es fs : List (Name × V)) → with_values f (es ++ fs) ≡ with_values f es ++ with_values f fs
  append-with_values [] fs = refl
  append-with_values ((k, u) ∷ es) fs = ap (λ r. (k, f u) ∷ r) (append-with_values es fs)

  pub insert-with_values :
      (n : Name) (v : V) (es : List (Name × V))
      → with_values f (insert n v es) ≡ insert n (f v) (with_values f es)
  insert-with_values n v es = elim (Option-cases (lookup n es)) [
    | inl p ↦ rw (p, insert, lookup-with_values n es, p) (append-with_values es ((n, v) ∷ []))
    | inr (u, p) ↦ rw (p, insert, lookup-with_values n es, p) (replace-with_values n v es)
  ]

pub replace_same :
    {V : Type 0} (n : Name) (v : V) (es : List (Name × V))
    → lookup n es ≡ some v
    → replace n v es ≡ es
replace_same n v [] e = ground arith
replace_same n v ((k, u) ∷ es) e = ground (arith, replace_same n v es)
