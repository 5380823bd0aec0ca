-- ===== src/Protocol/Range.antt =====
-- The values that the parser of src/protocol.rs gives: those that `serialize_to` writes back.
use floki.Prelude.{
  ℕ, zero, suc, ◌+◌, ◌*◌, ◌≤◌, ◌≡◌, refl, Bool, Bool-cases, true, false, inl, inr, none, some,
  Option, List, codes, ℤ, pos, negsuc, arith, leb, ltb, Option-cases, same, if◌then◌else◌, length,
  take, drop,
}
use floki.Decimal.{parse_i64}
use floki.Decimal.RoundTrip.{IsI64}
use floki.Protocol.{
  ◌>>=◌, crlf, Parsed, Value, Values, nil, bytes, array, count, invalid, parsed, failed, panicked,
  exhausted, read_byte, split_at, read, position, read_line, read_int_line, parse_int, parse_data,
  read_string_line, parse_status, parse_error, kind, parse_value, parse_items, parse,
}
use floki.Protocol.Lines.{NoCr}
use floki.Protocol.Progress.{
  Ends, Ends-bind, Ends-if, Ends-Kind, HasRead, read_byte-Ends, read_line-Ends, read-Ends,
  read_int_line-Ends, parse_value-Ends,
}
use floki.Protocol.RoundTrip.{IsSendable, AreSendable}
use floki.Protocol.Pieces.{IsNumber, parse_i64-IsNumber, take-take, NoCr-take, length-take_le}

-- Both hold of what a parse gives.
Ends-and :
    {A : Type 0} (P Q : A → Type 0) (r : Parsed A) → Ends P r → Ends Q r → Ends (λ a. P a × Q a) r
Ends-and P Q (parsed a) h k = (h, k)
Ends-and P Q (failed e) h k = tt
Ends-and P Q panicked h k = tt
Ends-and P Q exhausted h k = h

-- What a parse gives, without the bytes behind it.
abbrev pub Of : {A : Type 0} → (A → Type 0) → A × List ℕ → Type 0
Of P r = P r.0

read-IsTaken : (n : ℕ) (body : List ℕ) → Ends (Of (λ piece. piece ≡ take n body)) (read n body)
unfolding read split_at
read-IsTaken n body =
    Ends-if (Of (λ piece. piece ≡ take n body)) (leb n (length body)) _ _ (λ _. refl) tt

read_line-NoCr : (body : List ℕ) → Ends (Of NoCr) (read_line body)
unfolding read_line split_at
read_line-NoCr body = elim (Option-cases (position body)) [
  | inl e ↦ rw (e, read_line) tt
  | inr (p, e) ↦
      rw (e, read_line)
        (Ends-bind (Of (λ piece. piece ≡ take (p + 2) body)) (Of NoCr) (read (p + 2) body) _
          (read-IsTaken (p + 2) body)
          (λ (line, rest) h.
            Ends-if (Of NoCr) (same (drop p line) crlf) _ _
              (λ _. rw (h, take-take p (p + 2) body (omega arith)) (NoCr-take body p e)) tt))
]

read_int_line-IsI64 : (body : List ℕ) → Ends (Of IsI64) (read_int_line body)
unfolding read_int_line
read_int_line-IsI64 body =
    Ends-bind (HasRead 2 body) (Of IsI64) (read_line body) _ (read_line-Ends body)
      (λ (line, rest) _. number_of (parse_i64 line) rest (parse_i64-IsNumber line))
  where
    number_of :
        (o : Option ℤ) (rest : List ℕ)
        → IsNumber o
        → Ends (Of IsI64) (elim o [
          | none ↦ failed (invalid (codes "Expected integer, got garbage"))
          | some value ↦ parsed (value, rest)
        ])
    number_of none rest h = tt
    number_of (some i) rest h = h

read_number_line-Ends :
    (body : List ℕ) → Ends (λ r. HasRead 2 body r × Of IsI64 r) (read_int_line body)
read_number_line-Ends body =
    Ends-and (HasRead 2 body) (Of IsI64) (read_int_line body) (read_int_line-Ends body)
      (read_int_line-IsI64 body)

module _ (is_utf8 : List ℕ → Bool) (max_values : ℕ) where
  abbrev IsLine : List ℕ → Type 0
  IsLine line = NoCr line × (is_utf8 line ≡ true)

  read_string_line-IsLine :
      (body : List ℕ) → Ends (Of IsLine) (read_string_line is_utf8 max_values body)
  unfolding read_string_line
  read_string_line-IsLine body =
      Ends-bind (Of NoCr) (Of IsLine) (read_line body) _ (read_line-NoCr body)
        (λ (line, rest) h. Ends-if (Of IsLine) (is_utf8 line) _ _ (λ b. (h, b)) tt)

  abbrev pub IsGood : Value × List ℕ → Type 0
  IsGood r = IsSendable is_utf8 max_values r.0

  parse_status-IsGood : (body : List ℕ) → Ends IsGood (parse_status is_utf8 max_values body)
  unfolding parse_status IsSendable
  parse_status-IsGood body =
      Ends-bind (Of IsLine) IsGood (read_string_line is_utf8 max_values body) _
        (read_string_line-IsLine body) (λ (line, rest) h. h)

  parse_error-IsGood : (body : List ℕ) → Ends IsGood (parse_error is_utf8 max_values body)
  unfolding parse_error IsSendable
  parse_error-IsGood body =
      Ends-bind (Of IsLine) IsGood (read_string_line is_utf8 max_values body) _
        (read_string_line-IsLine body) (λ (line, rest) h. h)

  parse_int-IsGood : (body : List ℕ) → Ends IsGood (parse_int body)
  unfolding parse_int IsSendable
  parse_int-IsGood body =
      Ends-bind (Of IsI64) IsGood (read_int_line body) _ (read_int_line-IsI64 body)
        (λ (i, rest) h. h)

  data_IsGood :
      (len : ℤ) (rest : List ℕ)
      → IsI64 len
      → Ends IsGood (elim len [
        | negsuc _ ↦ parsed (nil, rest)
        | pos n ↦ read (n + 2) rest >>= λ (both, rest').
            (if same (drop n both) crlf
              then parsed (bytes (take n both), rest')
              else failed (invalid (codes "Invalid line separator")))
      ])
  unfolding IsSendable
  data_IsGood (negsuc _) rest h = tt
  data_IsGood (pos n) rest h =
      Ends-bind (HasRead (n + 2) rest) IsGood (read (n + 2) rest) _ (read-Ends (n + 2) rest)
        (λ (both, rest') _.
          Ends-if IsGood (same (drop n both) crlf) _ _
            (λ _. omega (arith, h, length-take_le n both)) tt)

  parse_data-IsGood : (body : List ℕ) → Ends IsGood (parse_data body)
  unfolding parse_data split_at
  parse_data-IsGood body =
      Ends-bind (Of IsI64) IsGood (read_int_line body) _ (read_int_line-IsI64 body)
        (λ (len, rest) h. data_IsGood len rest h)

  -- As many values as were asked for, each of them good.
  abbrev AreGood : ℕ → Values × List ℕ → Type 0
  AreGood n r = AreSendable is_utf8 max_values r.0 × (count r.0 ≡ n)

  -- The items are those behind the length.
  array_IsGood :
      (fuel : ℕ) (len : ℤ) (rest : List ℕ)
      → IsI64 len
      → ((n : ℕ) → Ends (AreGood n) (parse_items is_utf8 max_values fuel n rest))
      → Ends IsGood (elim len [
        | negsuc _ ↦ parsed (nil, rest)
        | pos n ↦ elim (ltb max_values n) [
          | true ↦ panicked
          | false ↦
              parse_items is_utf8 max_values fuel n rest >>= λ (vs, rest'). parsed (array vs, rest')
        ]
      ])
  unfolding IsSendable
  array_IsGood fuel (negsuc _) rest h items = tt
  array_IsGood fuel (pos n) rest h items = elim (Bool-cases (ltb max_values n)) [
    | inl b ↦ rw b tt
    | inr b ↦ rw b (
        Ends-bind (AreGood n) IsGood (parse_items is_utf8 max_values fuel n rest) _ (items n)
          (λ (vs, rest') (good, counted).
            (omega (arith, h, counted), ground (arith, b, counted), good)))
  ]

  mutual
    unfolding parse_value parse_items IsSendable

    parse_value-IsGood :
        (fuel : ℕ) (body : List ℕ)
        → 2 * length body + 1 ≤ fuel
        → Ends IsGood (parse_value is_utf8 max_values fuel body)
    parse_value-IsGood zero body h = absurd (omega arith)
    parse_value-IsGood (suc fuel) body h =
        Ends-bind (HasRead 1 body) IsGood (read_byte body) _ (read_byte-Ends body) (λ (b, rest) h'.
          Ends-Kind IsGood (kind b) _ _ _ _ _ _ (parse_status-IsGood rest) (parse_int-IsGood rest)
            (parse_data-IsGood rest)
            (Ends-bind (λ r. HasRead 2 rest r × Of IsI64 r) IsGood (read_int_line rest) _
              (read_number_line-Ends rest)
              (λ (len, rest') (read, number).
                array_IsGood fuel len rest' number
                  (λ n. parse_items-AreGood fuel n rest' (omega (arith, h, h', read)))))
            (parse_error-IsGood rest) tt)

    parse_items-AreGood :
        (fuel n : ℕ) (body : List ℕ)
        → 2 * length body + 2 ≤ fuel
        → Ends (AreGood n) (parse_items is_utf8 max_values fuel n body)
    parse_items-AreGood zero n body h = absurd (omega arith)
    parse_items-AreGood (suc fuel) zero body h = (tt, refl)
    parse_items-AreGood (suc fuel) (suc n) body h =
        Ends-bind (λ r. HasRead 1 body r × IsGood r) (AreGood (suc n))
          (parse_value is_utf8 max_values fuel body) _
          (Ends-and (HasRead 1 body) IsGood (parse_value is_utf8 max_values fuel body)
            (parse_value-Ends is_utf8 max_values fuel body (omega arith))
            (parse_value-IsGood fuel body (omega arith)))
          (λ (v, rest) (read, good).
            Ends-bind (AreGood n) (AreGood (suc n)) (parse_items is_utf8 max_values fuel n rest) _
              (parse_items-AreGood fuel n rest (omega (arith, h, read)))
              (λ (vs, rest') (goods, counted). ((good, goods), omega (arith, counted))))

  -- Whatever the bytes are, a parse ends within its fuel, and a value that it gives is one that the
  -- serializer can send, at every depth: its numbers and lengths fit an `i64`, its lines are valid
  -- text without a carriage return, and its arrays are no longer than what is granted.
  pub parse-IsSendable : (body : List ℕ) → Ends IsGood (parse is_utf8 max_values body)
  unfolding parse
  parse-IsSendable body = parse_value-IsGood (2 * length body + 1) body (omega arith)
