-- ===== src/Config/Parsing.antt =====
-- Sizes and durations of src/config.rs against the value that their digits write.
use floki.Prelude.{
  ℕ, ◌+◌, ◌-◌, ◌*◌, ◌^◌, ◌≤◌, ◌<◌, ◌≡◌, refl, ap, List, [], ◌∷◌, ◌++◌, some, true, false, arith,
  All,
}
use floki.Config.{
  is_digit, digits_end, parse_digits, split_number_suffix, scaled, size_scale, duration_scale,
  parse_size, parse_duration, ok,
}

-- The number that digits write, behind the ones of `n`.
abbrev pub value : ℕ → List ℕ → ℕ
value n [] = n
value n (c ∷ cs) = value (10 * n + (c - 48)) cs

-- The text is empty or does not begin with a digit.
abbrev pub IsSuffix : List ℕ → Type 0
IsSuffix [] = Unit
IsSuffix (c ∷ cs) = is_digit c ≡ false

digits_end_lem :
    (ds suffix : List ℕ)
    → All (λ c. is_digit c ≡ true) ds
    → IsSuffix suffix
    → digits_end (ds ++ suffix) ≡ (ds, suffix)
unfolding digits_end
digits_end_lem [] [] a s = refl
digits_end_lem [] (c ∷ cs) a s = rw (s, digits_end) refl
digits_end_lem (d ∷ ds) suffix a s = rw (a.0, digits_end) (rw (digits_end_lem ds suffix a.1 s) refl)

pub value-le : (n : ℕ) (cs : List ℕ) → n ≤ value n cs
value-le n [] = omega arith
value-le n (c ∷ cs) = omega (arith, value-le (10 * n + (c - 48)) cs)

parse_digits_lem :
    (n : ℕ) (cs : List ℕ) → value n cs < 2 ^ 64 → parse_digits n cs ≡ some (value n cs)
unfolding parse_digits
parse_digits_lem n [] h = refl
parse_digits_lem n (c ∷ cs) h =
    let next = 10 * n + (c - 48) in ground (arith, parse_digits_lem next cs h, value-le next cs)

split_lem :
    (d : ℕ) (ds suffix : List ℕ)
    → All (λ c. is_digit c ≡ true) (d ∷ ds)
    → IsSuffix suffix
    → value 0 (d ∷ ds) < 2 ^ 64
    → split_number_suffix ((d ∷ ds) ++ suffix) ≡ ok (value 0 (d ∷ ds), suffix)
unfolding split_number_suffix
split_lem d ds suffix a s h =
    let split = digits_end_lem (d ∷ ds) suffix a s in
    rw (split, split_number_suffix)
      (rw (parse_digits_lem 0 (d ∷ ds) h) (ap (λ p. ok (value 0 (d ∷ ds), p.1)) split))

-- For one or more digits whose value is below 2 ^ 64, followed by a suffix that is empty or begins
-- with no digit, `parse_size` and `parse_duration` give the value times the scale of the suffix in
-- small letters, or the error for an unknown suffix or for an overflow of 64 bits.
pub parse_size_lem :
    (to_lowercase : List ℕ → List ℕ) (d : ℕ) (ds suffix : List ℕ)
    → All (λ c. is_digit c ≡ true) (d ∷ ds)
    → IsSuffix suffix
    → value 0 (d ∷ ds) < 2 ^ 64
    → (parse_size to_lowercase ((d ∷ ds) ++ suffix)
        ≡ scaled (value 0 (d ∷ ds)) (size_scale (to_lowercase suffix)))
      × (parse_duration to_lowercase ((d ∷ ds) ++ suffix)
          ≡ scaled (value 0 (d ∷ ds)) (duration_scale (to_lowercase suffix)))
unfolding parse_size parse_duration
parse_size_lem to_lowercase d ds suffix a s h =
    let split = split_lem d ds suffix a s h in
    (rw (split, parse_size) refl, rw (split, parse_duration) refl)
