-- ===== src/Protocol/Failures.antt =====
-- The parser of src/protocol.rs on input that it cannot take.
use floki.Prelude.{
  ℕ, suc, ◌+◌, ◌*◌, ◌^◌, ◌<◌, ◌≡◌, ◌≢◌, refl, Bool, true, none, List, [], ◌∷◌, ◌++◌, append_assoc,
  pos, arith, codes, length, ltb,
}
use floki.Decimal.{show_nat, show_int}
use floki.Protocol.{
  ◌>>=◌, crlf, failed, panicked, invalid, read_byte, position, read_line, read_int_line, parse_int,
  parse_data, read_string_line, parse_status, parse_error, kind, Kind, a_status, an_int, some_data,
  an_array, an_error, unknown, parse_value, parse,
}
use floki.Protocol.Lines.{NoCr, read_int_line-show_int}

ltb-true : (a b : ℕ) → a < b → ltb a b ≡ true
ltb-true a b h = ground arith

position-NoCr : (body : List ℕ) → NoCr body → position body ≡ none
unfolding position
position-NoCr [] h = refl
position-NoCr (b ∷ body) h = ground (arith, h.0, position-NoCr body h.1)

read_line-NoCr :
    (body : List ℕ) → NoCr body → read_line body ≡ failed (invalid (codes "Missing line separator"))
unfolding read_line
read_line-NoCr body h = rw (position-NoCr body h, read_line) refl

module _ (is_utf8 : List ℕ → Bool) (max_values : ℕ) where
  too_many :
      (fuel n : ℕ) (rest : List ℕ)
      → max_values < n
      → n < 2 ^ 63
      → parse_value is_utf8 max_values (suc fuel) (b'*' ∷ (show_nat n ++ (b'\r' ∷ b'\n' ∷ rest)))
        ≡ panicked
  unfolding parse_value read_byte kind show_int
  too_many fuel n rest many small =
      rw (read_int_line-show_int (pos n) rest small, ◌>>=◌)
        (rw (ltb-true max_values n many, ◌>>=◌) refl)

  -- An array whose length fits an `i64` and is above what the allocator grants makes the parser
  -- panic, whatever stands behind its length.
  pub parse-array_panics :
      (n : ℕ) (rest : List ℕ)
      → max_values < n
      → n < 2 ^ 63
      → parse is_utf8 max_values (b'*' ∷ show_nat n ++ crlf ++ rest) ≡ panicked
  unfolding parse
  parse-array_panics n rest many small =
      let body = b'*' ∷ (show_nat n ++ (b'\r' ∷ b'\n' ∷ rest)) in
      let fuel : 2 * length body + 1 ≡ suc (2 * length body) = omega arith in
      simp append_assoc (rw fuel (too_many (2 * length body) n rest many small))

  no_cr :
      (fuel b : ℕ) (body : List ℕ)
      → NoCr body
      → (k : Kind) → kind b ≡ k
      → k ≢ unknown
      → parse_value is_utf8 max_values (suc fuel) (b ∷ body)
        ≡ failed (invalid (codes "Missing line separator"))
  unfolding parse_value read_byte read_int_line parse_int parse_data parse_status parse_error
      read_string_line
  no_cr fuel b body h a_status e known = rw (e, ◌>>=◌) (rw (read_line-NoCr body h, ◌>>=◌) refl)
  no_cr fuel b body h an_int e known = rw (e, ◌>>=◌) (rw (read_line-NoCr body h, ◌>>=◌) refl)
  no_cr fuel b body h some_data e known = rw (e, ◌>>=◌) (rw (read_line-NoCr body h, ◌>>=◌) refl)
  no_cr fuel b body h an_array e known = rw (e, ◌>>=◌) (rw (read_line-NoCr body h, ◌>>=◌) refl)
  no_cr fuel b body h an_error e known = rw (e, ◌>>=◌) (rw (read_line-NoCr body h, ◌>>=◌) refl)
  no_cr fuel b body h unknown e known = absurd (known refl)

  -- If the first byte is one that a value begins with, and no carriage return has arrived behind
  -- it, then the parser gives an invalid value and not an incomplete one.
  pub parse-NoCr :
      (b : ℕ) (body : List ℕ)
      → kind b ≢ unknown
      → NoCr body
      → parse is_utf8 max_values (b ∷ body) ≡ failed (invalid (codes "Missing line separator"))
  unfolding parse
  parse-NoCr b body known h =
      let fuel : 2 * length (b ∷ body) + 1 ≡ suc (2 * length (b ∷ body)) = omega arith in
      rw fuel (no_cr (2 * length (b ∷ body)) b body h (kind b) refl known)
