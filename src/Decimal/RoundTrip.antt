-- ===== src/Decimal/RoundTrip.antt =====
-- A number that was written is read back.
use floki.Prelude.{
  ℕ, zero, suc, ◌+◌, ◌-◌, ◌*◌, ◌/◌, ◌%◌, ◌^◌, ◌<◌, ◌≡◌, ◌≢◌, refl, ap, ◌∙◌, inl, inr, true, false,
  some, List, [], ◌∷◌, ◌++◌, ℤ, pos, negsuc, arith, ltb, ◌==◌, All, All-append, Bool-cases,
}
use native.Mathlib.Nat.{pow-suc}
use native.Mathlib.Numerals.{unary_clauses}
use floki.Config.{is_digit}
use floki.Config.Parsing.{value, value-le}
use floki.Decimal.{
  digits, show_nat, show_int, read_digits, read_number, parse_unsigned, parse_i64, negated,
}

value-snoc : (n : ℕ) (cs : List ℕ) (c : ℕ) → value n (cs ++ c ∷ []) ≡ 10 * value n cs + (c - b'0')
value-snoc n [] c = refl
value-snoc n (d ∷ cs) c = value-snoc (10 * n + (d - b'0')) cs c

abbrev pub AllDigits : List ℕ → Type 0
AllDigits = All (λ c. is_digit c ≡ true)

digit : (n : ℕ) → n < 10 → is_digit (b'0' + n) ≡ true
unfolding is_digit
digit n h = ground arith

digits-AllDigits : (fuel n : ℕ) → AllDigits (digits fuel n)
unfolding digits
digits-AllDigits zero n = tt
digits-AllDigits (suc fuel) n = elim (Bool-cases (ltb n 10)) [
  | inl one ↦ rw one (digit n (ground arith), tt)
  | inr more ↦ rw more (
      All-append (λ c. is_digit c ≡ true) (digits fuel (n / 10)) ((b'0' + n % 10) ∷ [])
        (digits-AllDigits fuel (n / 10)) (digit (n % 10) (omega arith), tt))
]

value-digits : (fuel n : ℕ) → n < 10 ^ fuel → value 0 (digits fuel n) ≡ n
unfolding digits
value-digits zero n h = omega arith
value-digits (suc fuel) n h = ground (
  arith,
  value-digits fuel (n / 10) (omega (arith, pow-suc 10 fuel)),
  value-snoc 0 (digits fuel (n / 10)) (b'0' + n % 10),
)

digits_cons : (fuel n : ℕ) → (d : ℕ) × (ds : List ℕ) × (digits (suc fuel) n ≡ d ∷ ds)
unfolding digits
digits_cons fuel n = elim (Bool-cases (ltb n 10)) [
  | inl one ↦ (b'0' + n, [], rw (one, digits) refl)
  | inr more ↦ rw (more, digits) (snoc_cons (digits fuel (n / 10)) (b'0' + n % 10))
]
  where
    snoc_cons : (cs : List ℕ) (c : ℕ) → (d : ℕ) × (ds : List ℕ) × (cs ++ c ∷ [] ≡ d ∷ ds)
    snoc_cons [] c = (c, [], refl)
    snoc_cons (d ∷ cs) c = (d, cs ++ c ∷ [], refl)

read_digits_lem :
    (bound n : ℕ) (cs : List ℕ)
    → AllDigits cs
    → value n cs < bound
    → read_digits bound n cs ≡ some (value n cs)
unfolding read_digits
read_digits_lem bound n [] a h = refl
read_digits_lem bound n (c ∷ cs) a h =
    let next = 10 * n + (c - b'0') in
    ground (arith, a.0, read_digits_lem bound next cs a.1 h, value-le next cs)

-- What reads one or more digits reads any text that is written so, from a digit on.
read_number-digits :
    (bound fuel n : ℕ)
    → n < 10 ^ suc fuel
    → n < bound
    → read_number bound (digits (suc fuel) n) ≡ some n
unfolding read_number
read_number-digits bound fuel n h k =
    let (d, ds, e) = digits_cons fuel n in
    let all = digits-AllDigits (suc fuel) n in
    let v = value-digits (suc fuel) n h in
    let read = read_digits_lem bound 0 (digits (suc fuel) n) all (rw v k) in
    rw (e, read_number) (rw e at (read ∙ ap some v))

first_digit : (d : ℕ) → is_digit d ≡ true → ((d == b'+') ≡ false) × ((d == b'-') ≡ false)
unfolding is_digit
first_digit d h = (ground arith, ground arith)

parse_unsigned-digits :
    (bound fuel n : ℕ)
    → n < 10 ^ suc fuel
    → n < bound
    → parse_unsigned bound (digits (suc fuel) n) ≡ some n
unfolding parse_unsigned
parse_unsigned-digits bound fuel n h k =
    let (d, ds, e) = digits_cons fuel n in
    let read = read_number-digits bound fuel n h k in
    let first = first_digit d (rw e at (digits-AllDigits (suc fuel) n)).0 in
    rw (e, parse_unsigned) (rw (first.0, parse_unsigned) (rw e at read))

parse_unsigned-show_nat :
    (bound n : ℕ) → n < 2 ^ 64 → n < bound → parse_unsigned bound (show_nat n) ≡ some n
unfolding show_nat
parse_unsigned-show_nat bound n h k = parse_unsigned-digits bound 19 n (omega arith) k

-- The range of an `i64`.
abbrev pub IsI64 : ℤ → Type 0
IsI64 (pos n) = n < 2 ^ 63
IsI64 (negsuc n) = n < 2 ^ 63

negated_lem : (n : ℕ) → some (negated (n + 1)) ≡ some (negsuc n)
unfolding negated
negated_lem n = simp unary_clauses refl

pub parse_i64-show_int : (i : ℤ) → IsI64 i → parse_i64 (show_int i) ≡ some i
unfolding parse_i64 show_int show_nat
parse_i64-show_int (pos n) h =
    let (d, ds, e) = digits_cons 19 n in
    let read = parse_unsigned-digits (2 ^ 63) 19 n (omega arith) h in
    let first = first_digit d (rw e at (digits-AllDigits 20 n)).0 in
    rw (e, parse_i64) (rw (first.1, parse_i64) (rw (rw e at read) refl))
parse_i64-show_int (negsuc n) h =
    let read = read_number-digits (2 ^ 63 + 1) 19 (n + 1) (omega arith) (omega arith) in
    rw read (negated_lem n)

no_cr : (cs : List ℕ) → AllDigits cs → All (λ c. c ≢ b'\r') cs
unfolding is_digit
no_cr [] a = tt
no_cr (c ∷ cs) a = ((λ e. ground (arith, a.0, e)), no_cr cs a.1)

-- No digit or sign is a carriage return.
pub show_int-no_cr : (i : ℤ) → All (λ c. c ≢ b'\r') (show_int i)
unfolding show_int show_nat
show_int-no_cr (pos n) = no_cr (digits 20 n) (digits-AllDigits 20 n)
show_int-no_cr (negsuc n) = ((λ e. cc), no_cr (digits 20 (n + 1)) (digits-AllDigits 20 (n + 1)))
