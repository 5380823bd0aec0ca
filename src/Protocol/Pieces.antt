-- ===== src/Protocol/Pieces.antt =====
-- src/protocol.rs: the pieces of a value that the parser cuts out of the bytes, and the numbers in them.
use floki.Prelude.{
  ℕ, zero, suc, ◌-◌, ◌+◌, ◌*◌, ◌^◌, ◌≤◌, ◌<◌, ◌≡◌, refl, ap, ◌∙◌, Bool-cases, ◌&&◌, inl, inr, none,
  some, Option, List, [], ◌∷◌, ℤ, arith, ltb, Option-cases, length, take, ◌==◌,
}
use floki.Config.{is_digit}
use floki.Decimal.{read_digits, read_number, parse_unsigned, negated, parse_i64}
use floki.Decimal.RoundTrip.{IsI64}
use floki.Protocol.{position}
use floki.Protocol.Lines.{NoCr}

read_digits-lt :
    (bound n : ℕ) (cs : List ℕ) (m : ℕ) → n < bound → read_digits bound n cs ≡ some m → m < bound
unfolding read_digits
read_digits-lt bound n [] m h e = ground (arith, h)
read_digits-lt bound n (c ∷ cs) m h e =
    elim (Bool-cases (is_digit c && ltb (10 * n + (c - b'0')) bound)) [
      | inl b ↦
          read_digits-lt bound (10 * n + (c - b'0')) cs m (ground (arith, b))
            (rw (b, read_digits) at (e))
      | inr b ↦ absurd (ground (arith, rw (b, read_digits) at (e)))
    ]

read_number-lt :
    (bound : ℕ) (cs : List ℕ) (m : ℕ) → 0 < bound → read_number bound cs ≡ some m → m < bound
unfolding read_number
read_number-lt bound [] m h e = absurd (ground arith)
read_number-lt bound (c ∷ cs) m h e = read_digits-lt bound 0 (c ∷ cs) m h e

parse_unsigned-lt :
    (bound : ℕ) (cs : List ℕ) (m : ℕ) → 0 < bound → parse_unsigned bound cs ≡ some m → m < bound
unfolding parse_unsigned
parse_unsigned-lt bound [] m h e = absurd (ground arith)
parse_unsigned-lt bound (c ∷ cs) m h e = elim (Bool-cases (c == b'+')) [
  | inl b ↦ read_number-lt bound cs m h (rw (b, parse_unsigned) at (e))
  | inr b ↦ read_number-lt bound (c ∷ cs) m h (rw (b, parse_unsigned) at (e))
]

negated-IsI64 : (n : ℕ) → n < 2 ^ 63 + 1 → IsI64 (negated n)
unfolding negated
negated-IsI64 zero h = omega arith
negated-IsI64 (suc n) h = omega (arith, h)

abbrev pub IsNumber : Option ℤ → Type 0
IsNumber none = Unit
IsNumber (some i) = IsI64 i

pub parse_i64-IsNumber : (line : List ℕ) → IsNumber (parse_i64 line)
unfolding parse_i64
parse_i64-IsNumber [] = tt
parse_i64-IsNumber (c ∷ cs) = elim (Bool-cases (c == b'-')) [
  | inl b ↦ elim (Option-cases (read_number (2 ^ 63 + 1) cs)) [
    | inl p ↦ rw (b, p, parse_i64) tt
    | inr (n, p) ↦
        rw (b, p, parse_i64) (negated-IsI64 n (read_number-lt (2 ^ 63 + 1) cs n (omega arith) p))
  ]
  | inr b ↦ elim (Option-cases (parse_unsigned (2 ^ 63) (c ∷ cs))) [
    | inl p ↦ rw (b, p, parse_i64) tt
    | inr (n, p) ↦ rw (b, p, parse_i64) (parse_unsigned-lt (2 ^ 63) (c ∷ cs) n (omega arith) p)
  ]
]

pub take-take : {A : Type 0} (p q : ℕ) (xs : List A) → p ≤ q → take p (take q xs) ≡ take p xs
take-take zero q xs h = refl
take-take (suc p) zero xs h = absurd (omega (arith, h))
take-take (suc p) (suc q) [] h = refl
take-take (suc p) (suc q) (x ∷ xs) h = ap (λ r. x ∷ r) (take-take p q xs (omega (arith, h)))

pub NoCr-take : (body : List ℕ) (p : ℕ) → position body ≡ some p → NoCr (take p body)
unfolding position
NoCr-take [] p e = absurd (ground arith)
NoCr-take (b ∷ body) zero e = tt
NoCr-take (b ∷ body) (suc p) e = elim (Bool-cases (b == b'\r')) [
  | inl c ↦ absurd (ground (arith, rw (c, position) at (e)))
  | inr c ↦ elim (Option-cases (position body)) [
    | inl q ↦ absurd (ground (arith, rw (c, q, position) at (e)))
    | inr (p', q) ↦
        let next : some (suc p') ≡ some (suc p) = rw (c, q, position) at (e) in
        let here : p' ≡ p = ground (arith, next) in
        (λ d. ground (arith, c, d), NoCr-take body p (q ∙ ap (λ n. some n) here))
  ]
]

pub length-take_le : (n : ℕ) (xs : List ℕ) → length (take n xs) ≤ n
length-take_le zero xs = omega arith
length-take_le (suc n) [] = omega arith
length-take_le (suc n) (x ∷ xs) = omega (arith, length-take_le n xs)
