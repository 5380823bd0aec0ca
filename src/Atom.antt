-- ===== src/Atom.antt =====
-- src/atom.rs: the strings that queues and channels go by, which a map of them finds by a text. The
-- `tendril` crate, and how the standard library hashes a text, are parameters.
use floki.Prelude.{ℕ, ◌≡◌, refl, Bool, List, same}

-- A string of the crate is made of a text and read as one, and two are equal when their texts are.
pub record Tendrils : Type 1 where
  pub Tendril : Type 0
  pub from_slice : List ℕ → Tendril
  pub as_str : Tendril → List ℕ
  pub eq : Tendril → Tendril → Bool
  pub as_str-from_slice : (text : List ℕ) → as_str (from_slice text) ≡ text
  pub eq-same : (a b : Tendril) → eq a b ≡ same (as_str a) (as_str b)

module _ (T : Tendrils) where
  pub record Atom : Type 0 where
    pub tendril : T.Tendril

  -- The derived `PartialEq`.
  unfoldable pub eq : Atom → Atom → Bool
  eq a b = T.eq a.tendril b.tendril

  -- `Deref` and `Borrow`.
  unfoldable pub borrow : Atom → List ℕ
  borrow a = T.as_str a.tendril

  -- `hash_str` is `Hash` of a text, with the state of the hasher.
  unfoldable pub hash : {State : Type 0} → (List ℕ → State → State) → Atom → State → State
  hash hash_str a state = hash_str (T.as_str a.tendril) state

  unfoldable pub from : List ℕ → Atom
  from text = record { tendril = T.from_slice text }

  -- What `HashMap::get` by a text asks of the names: the name of a text is the text, is equal to
  -- another name when the texts are, and is hashed as the text.
  from_lem :
      {State : Type 0} (hash_str : List ℕ → State → State) (state : State) (text other : List ℕ)
      → (borrow (from text) ≡ text)
        × (eq (from text) (from other) ≡ same text other)
        × (hash hash_str (from text) state ≡ hash_str text state)
  unfolding borrow from eq hash
  from_lem hash_str state text other = (
    T.as_str-from_slice text,
    rw
        (
          T.eq-same (T.from_slice text) (T.from_slice other),
          T.as_str-from_slice text,
          T.as_str-from_slice other,
        )
        refl,
    rw (T.as_str-from_slice text) refl,
  )
