-- ===== src/Decimal.antt =====
-- Numbers in decimal as the standard library writes and reads them: `write!` of `{}`, and
-- `parse` of the types that the program names.
pub mod RoundTrip
use floki.Prelude.{
  ℕ, zero, suc, ◌+◌, ◌-◌, ◌*◌, ◌/◌, ◌%◌, ◌^◌, Bool, true, false, ◌&&◌, Option, none, some, List, [],
  ◌∷◌, ◌++◌, ℤ, pos, negsuc, ltb, leb, ◌==◌, if◌then◌else◌,
}
use floki.Config.{is_digit}

-- Each digit takes one unit of fuel.
unfoldable pub digits : ℕ → ℕ → List ℕ
digits zero n = []
digits (suc fuel) n =
    let rest = digits fuel (n / 10) in
    if ltb n 10 then (b'0' + n) ∷ [] else rest ++ (b'0' + n % 10) ∷ []

-- A `u64` has twenty digits at most.
unfoldable pub show_nat : ℕ → List ℕ
unfolding digits
show_nat n = digits 20 n

unfoldable pub show_int : ℤ → List ℕ
unfolding show_nat
show_int (pos n) = show_nat n
show_int (negsuc n) = b'-' ∷ show_nat (n + 1)

-- Behind the digits of `n`; the value has to stay below `bound`.
unfoldable pub read_digits : ℕ → ℕ → List ℕ → Option ℕ
unfolding is_digit
read_digits bound n [] = some n
read_digits bound n (c ∷ cs) =
    let next = 10 * n + (c - b'0') in
    let rest = read_digits bound next cs in if is_digit c && ltb next bound then rest else none

-- One digit at least.
unfoldable pub read_number : ℕ → List ℕ → Option ℕ
unfolding read_digits
read_number bound [] = none
read_number bound (c ∷ cs) = read_digits bound 0 (c ∷ cs)

-- `parse::<u32>` with `2 ^ 32`, `parse::<u64>` and `parse::<usize>` with `2 ^ 64`.
unfoldable pub parse_unsigned : ℕ → List ℕ → Option ℕ
unfolding read_number
parse_unsigned bound [] = none
parse_unsigned bound (c ∷ cs) =
    if c == b'+' then read_number bound cs else read_number bound (c ∷ cs)

unfoldable pub negated : ℕ → ℤ
negated zero = pos 0
negated (suc n) = negsuc n

-- `parse::<i64>`.
unfoldable pub parse_i64 : List ℕ → Option ℤ
unfolding parse_unsigned negated
parse_i64 [] = none
parse_i64 (c ∷ cs) =
    if c == b'-'
    then elim (read_number (2 ^ 63 + 1) cs) [ none ↦ none | some n ↦ some (negated n) ]
    else elim (parse_unsigned (2 ^ 63) (c ∷ cs)) [ none ↦ none | some n ↦ some (pos n) ]
