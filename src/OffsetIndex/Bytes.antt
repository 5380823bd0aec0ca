-- ===== src/OffsetIndex/Bytes.antt =====
-- `from_bytes` and `as_bytes` of src/offset_index.rs: the index as little-endian words of 4 bytes.
use floki.Prelude.{
  ℕ, ◌%◌, ◌^◌, ◌<◌, ◌≡◌, refl, List, [], ◌∷◌, ◌++◌, arith, All, Outcome, true, done, ◌>>◌, assert,
  length, ◌==◌,
}
use floki.Bytes.{le_bytes, of_le, of_le-le_bytes}
use floki.OffsetIndex.{OffsetIndex}

-- The whole words of a slice.
unfoldable pub words : List ℕ → List ℕ
words (a ∷ b ∷ c ∷ d ∷ bs) = of_le (a ∷ b ∷ c ∷ d ∷ []) ∷ words bs
words [] = []
words (a ∷ []) = []
words (a ∷ b ∷ []) = []
words (a ∷ b ∷ c ∷ []) = []

unfoldable pub from_bytes : ℕ → List ℕ → Outcome OffsetIndex
unfolding words
from_bytes id_offset bytes = do
  assert (length bytes % 4 == 0)
  done (record { id_offset = id_offset; index = words bytes })

unfoldable pub word_bytes : List ℕ → List ℕ
word_bytes [] = []
word_bytes (o ∷ os) = le_bytes 4 o ++ word_bytes os

unfoldable pub as_bytes : OffsetIndex → List ℕ
unfolding word_bytes
as_bytes x = word_bytes x.index

length-word_bytes : (os : List ℕ) → length (word_bytes os) % 4 ≡ 0
unfolding word_bytes le_bytes
length-word_bytes [] = refl
length-word_bytes (o ∷ os) = omega (arith, length-word_bytes os)

words-word_bytes : (os : List ℕ) → All (λ o. o < 2 ^ 32) os → words (word_bytes os) ≡ os
unfolding words word_bytes le_bytes
words-word_bytes [] h = refl
words-word_bytes (o ∷ os) h =
    let first : of_le (le_bytes 4 o) ≡ o = of_le-le_bytes 4 o h.0 in
    let rest = words-word_bytes os h.1 in cc

-- An index whose offsets are below 2 ^ 32 is read back from its bytes, with its first id given: the
-- check of the length passes.
pub from_bytes-as_bytes :
    (x : OffsetIndex) → All (λ o. o < 2 ^ 32) x.index → from_bytes x.id_offset (as_bytes x) ≡ done x
unfolding from_bytes as_bytes
from_bytes-as_bytes x h =
    let whole : (length (word_bytes x.index) % 4 == 0) ≡ true =
      ground (arith, length-word_bytes x.index) in
    rw (whole, words-word_bytes x.index h) refl
