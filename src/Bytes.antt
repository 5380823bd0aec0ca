-- ===== src/Bytes.antt =====
-- The bytes of a mapped file: `slice::from_raw_parts`, `copy_nonoverlapping` and the reads and
-- writes through a `&MessageHeader`, which src/queue_backend.rs makes by pointer arithmetic.
-- Words are little-endian, as on every platform that the program is built for.
use native.Mathlib.Nat.{pow-suc}
use floki.Prelude.{
  ℕ, zero, suc, ◌+◌, ◌*◌, ◌/◌, ◌%◌, ◌^◌, ◌≤◌, ◌<◌, ◌≡◌, refl, ap, ◌∙◌, ◌⊎◌, inl, inr, subst, List,
  [], ◌∷◌, arith, ◌==◌, if◌then◌else◌, length,
}

-- The byte at each offset.
abbrev pub Memory : Type 0
Memory = ℕ → ℕ

unfoldable pub read_bytes : Memory → ℕ → ℕ → List ℕ
read_bytes m o zero = []
read_bytes m o (suc n) = m o ∷ read_bytes m (o + 1) n

abbrev pub set_byte : Memory → ℕ → ℕ → Memory
set_byte m o b p = if p == o then b else m p

unfoldable pub write_bytes : Memory → ℕ → List ℕ → Memory
write_bytes m o [] = m
write_bytes m o (b ∷ bs) = set_byte (write_bytes m (o + 1) bs) o b

-- A word of `w` bytes.
unfoldable pub le_bytes : ℕ → ℕ → List ℕ
le_bytes zero n = []
le_bytes (suc w) n = (n % 256) ∷ le_bytes w (n / 256)

unfoldable pub of_le : List ℕ → ℕ
of_le [] = 0
of_le (b ∷ bs) = b + 256 * of_le bs

unfoldable pub read_word : Memory → ℕ → ℕ → ℕ
unfolding read_bytes of_le
read_word m o w = of_le (read_bytes m o w)

unfoldable pub write_word : Memory → ℕ → ℕ → ℕ → Memory
unfolding write_bytes le_bytes
write_word m o w n = write_bytes m o (le_bytes w n)

pub length-le_bytes : (w n : ℕ) → length (le_bytes w n) ≡ w
unfolding le_bytes
length-le_bytes zero n = refl
length-le_bytes (suc w) n = ap suc (length-le_bytes w (n / 256))

length-read_bytes : (m : Memory) (o n : ℕ) → length (read_bytes m o n) ≡ n
unfolding read_bytes
length-read_bytes m o zero = refl
length-read_bytes m o (suc n) = ap suc (length-read_bytes m (o + 1) n)

pub of_le-le_bytes : (w n : ℕ) → n < 256 ^ w → of_le (le_bytes w n) ≡ n
unfolding of_le le_bytes
of_le-le_bytes zero n h = omega arith
of_le-le_bytes (suc w) n h =
    omega (arith, of_le-le_bytes w (n / 256) (omega (arith, pow-suc 256 w)))

-- A write changes nothing outside of its range.
pub write_bytes_before :
    (m : Memory) (o : ℕ) (bs : List ℕ) (p : ℕ) → p < o → write_bytes m o bs p ≡ m p
unfolding write_bytes
write_bytes_before m o [] p h = refl
write_bytes_before m o (b ∷ bs) p h = ground (arith, write_bytes_before m (o + 1) bs p)

pub write_bytes_after :
    (m : Memory) (o : ℕ) (bs : List ℕ) (p : ℕ) → o + length bs ≤ p → write_bytes m o bs p ≡ m p
unfolding write_bytes
write_bytes_after m o [] p h = refl
write_bytes_after m o (b ∷ bs) p h = ground (arith, write_bytes_after m (o + 1) bs p)

-- Two memories that agree on a range read alike there.
pub read_bytes_agree :
    (m k : Memory) (o n : ℕ)
    → ((p : ℕ) → o ≤ p → p < o + n → m p ≡ k p)
    → read_bytes m o n ≡ read_bytes k o n
unfolding read_bytes
read_bytes_agree m k o zero h = refl
read_bytes_agree m k o (suc n) h =
    ground (arith, h o, read_bytes_agree m k (o + 1) n (λ p a b. h p (omega arith) (omega arith)))

pub read_bytes-write_bytes :
    (m : Memory) (o : ℕ) (bs : List ℕ) → read_bytes (write_bytes m o bs) o (length bs) ≡ bs
unfolding read_bytes write_bytes
read_bytes-write_bytes m o [] = refl
read_bytes-write_bytes m o (b ∷ bs) = ground (
  arith,
  read_bytes-write_bytes m (o + 1) bs,
  read_bytes_agree (set_byte (write_bytes m (o + 1) bs) o b) (write_bytes m (o + 1) bs) (o + 1)
      (length bs) (λ p h k. ground arith),
)

-- A write at one place is not seen by a read at another.
read_bytes_other :
    (m : Memory) (o : ℕ) (bs : List ℕ) (q n : ℕ)
    → (q + n ≤ o) ⊎ (o + length bs ≤ q)
    → read_bytes (write_bytes m o bs) q n ≡ read_bytes m q n
read_bytes_other m o bs q n (inl h) =
    read_bytes_agree _ _ q n (λ p a b. write_bytes_before m o bs p (omega arith))
read_bytes_other m o bs q n (inr h) =
    read_bytes_agree _ _ q n (λ p a b. write_bytes_after m o bs p (omega arith))

pub read_word-write_bytes_other :
    (m : Memory) (o : ℕ) (bs : List ℕ) (q w : ℕ)
    → (q + w ≤ o) ⊎ (o + length bs ≤ q)
    → read_word (write_bytes m o bs) q w ≡ read_word m q w
unfolding read_word
read_word-write_bytes_other m o bs q w h = ap of_le (read_bytes_other m o bs q w h)

pub read_word-write_word_other :
    (m : Memory) (o v n q w : ℕ)
    → (q + w ≤ o) ⊎ (o + v ≤ q)
    → read_word (write_word m o v n) q w ≡ read_word m q w
unfolding write_word
read_word-write_word_other m o v n q w h =
    read_word-write_bytes_other m o (le_bytes v n) q w (rw (length-le_bytes v n) h)

pub read_bytes-write_word_other :
    (m : Memory) (o v n q k : ℕ)
    → (q + k ≤ o) ⊎ (o + v ≤ q)
    → read_bytes (write_word m o v n) q k ≡ read_bytes m q k
unfolding write_word
read_bytes-write_word_other m o v n q k h =
    read_bytes_other m o (le_bytes v n) q k (rw (length-le_bytes v n) h)

pub read_word-write_word :
    (m : Memory) (o w n : ℕ) → n < 256 ^ w → read_word (write_word m o w n) o w ≡ n
unfolding read_word write_word
read_word-write_word m o w n h =
    subst (λ k. of_le (read_bytes (write_bytes m o (le_bytes w n)) o k) ≡ n) (length-le_bytes w n)
      (ap of_le (read_bytes-write_bytes m o (le_bytes w n)) ∙ of_le-le_bytes w n h)

pub read_word_agree :
    (m k : Memory) (o w : ℕ)
    → ((p : ℕ) → o ≤ p → p < o + w → m p ≡ k p)
    → read_word m o w ≡ read_word k o w
unfolding read_word
read_word_agree m k o w h = ap of_le (read_bytes_agree m k o w h)
