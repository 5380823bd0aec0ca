-- ===== src/Protocol/Streaming.antt =====
-- The parser of src/protocol.rs on bytes that arrive in pieces: what it makes of a value does not
-- depend on what arrives behind it.
use floki.Prelude.{
  ℕ, zero, suc, ◌+◌, ◌*◌, ◌≤◌, ◌≡◌, refl, Bool-cases, Bool, true, false, inl, inr, none, some,
  Option, List, [], ◌∷◌, ◌++◌, ℤ, pos, negsuc, arith, leb, ltb, le→leb, leb→le, Option-cases, ◌==◌,
  if◌then◌else◌, length, length-append, take-within, drop-within,
}
use floki.Decimal.{parse_i64}
use floki.Protocol.{
  ◌>>=◌, Value, ProtocolError, Parsed, parsed, failed, panicked, exhausted, read_byte, split_at,
  read, position, read_line, read_int_line, parse_int, parse_data, read_string_line, parse_status,
  parse_error, kind, Kind, a_status, an_int, some_data, an_array, an_error, unknown, parse_value,
  parse_items, parse,
}

-- If the first parse has a result, then so has the second, with `more` behind what is left.
unfoldable pub Extends {ℓ} :
    {A : Type ℓ} → List ℕ → Parsed (A × List ℕ) → Parsed (A × List ℕ) → Type ℓ
Extends more (parsed (a, rest)) r' = r' ≡ parsed (a, rest ++ more)
Extends more (failed e) r' = Unit
Extends more panicked r' = Unit
Extends more exhausted r' = Unit

module _ (more : List ℕ) where
  Extends-bind {ℓ ℓ'} :
      {A : Type ℓ} {B : Type ℓ'} (r r' : Parsed (A × List ℕ))
      (f f' : A × List ℕ → Parsed (B × List ℕ))
      → Extends more r r'
      → ((a : A) (rest : List ℕ) → Extends more (f (a, rest)) (f' (a, rest ++ more)))
      → Extends more (r >>= f) (r' >>= f')
  unfolding Extends
  Extends-bind (parsed (a, rest)) r' f f' h k = rw (h, ◌>>=◌) (k a rest)
  Extends-bind (failed e) r' f f' h k = tt
  Extends-bind panicked r' f f' h k = tt
  Extends-bind exhausted r' f f' h k = tt

  Extends-parsed {ℓ} :
      {A : Type ℓ} (a : A) (rest : List ℕ)
      → Extends more (parsed (a, rest)) (parsed (a, rest ++ more))
  unfolding Extends
  Extends-parsed a rest = refl

  Extends-failed {ℓ} :
      {A : Type ℓ} (e : ProtocolError) (r : Parsed (A × List ℕ)) → Extends more (failed e) r
  unfolding Extends
  Extends-failed e r = tt

  Extends-panicked {ℓ} : {A : Type ℓ} (r : Parsed (A × List ℕ)) → Extends more panicked r
  unfolding Extends
  Extends-panicked r = tt

  Extends-exhausted {ℓ} : {A : Type ℓ} (r : Parsed (A × List ℕ)) → Extends more exhausted r
  unfolding Extends
  Extends-exhausted r = tt

  Extends-if {ℓ} :
      {A : Type ℓ} (b : Bool) (r r' s s' : Parsed (A × List ℕ))
      → Extends more r r'
      → Extends more s s'
      → Extends more (if b then r else s) (if b then r' else s')
  Extends-if true r r' s s' h h' = h
  Extends-if false r r' s s' h h' = h'

  Extends-Bool {ℓ} :
      {A : Type ℓ} (b : Bool) (r r' s s' : Parsed (A × List ℕ))
      → Extends more r r'
      → Extends more s s'
      → Extends more (elim b [ true ↦ r | false ↦ s ]) (elim b [ true ↦ r' | false ↦ s' ])
  Extends-Bool true r r' s s' h h' = h
  Extends-Bool false r r' s s' h h' = h'

  Extends-Option {ℓ ℓ'} :
      {A : Type ℓ} {B : Type ℓ'} (o : Option B) (r r' : Parsed (A × List ℕ))
      (f f' : B → Parsed (A × List ℕ))
      → Extends more r r'
      → ((b : B) → Extends more (f b) (f' b))
      → Extends more (elim o [ none ↦ r | some b ↦ f b ]) (elim o [ none ↦ r' | some b ↦ f' b ])
  Extends-Option none r r' f f' h k = h
  Extends-Option (some b) r r' f f' h k = k b

  Extends-ℤ {ℓ} :
      {A : Type ℓ} (i : ℤ) (r r' : Parsed (A × List ℕ)) (f f' : ℕ → Parsed (A × List ℕ))
      → Extends more r r'
      → ((n : ℕ) → Extends more (f n) (f' n))
      → Extends more
          (elim i [ negsuc _ ↦ r | pos n ↦ f n ])
          (elim i [ negsuc _ ↦ r' | pos n ↦ f' n ])
  Extends-ℤ (pos n) r r' f f' h k = k n
  Extends-ℤ (negsuc n) r r' f f' h k = h

  Extends-Kind {ℓ} :
      {A : Type ℓ} (k : Kind) (r0 s0 r1 s1 r2 s2 r3 s3 r4 s4 r5 s5 : Parsed (A × List ℕ))
      → Extends more r0 s0
      → Extends more r1 s1
      → Extends more r2 s2
      → Extends more r3 s3
      → Extends more r4 s4
      → Extends more r5 s5
      → Extends more
          (elim k [
            | a_status ↦ r0
            | an_int ↦ r1
            | some_data ↦ r2
            | an_array ↦ r3
            | an_error ↦ r4
            | unknown ↦ r5
          ])
          (elim k [
            | a_status ↦ s0
            | an_int ↦ s1
            | some_data ↦ s2
            | an_array ↦ s3
            | an_error ↦ s4
            | unknown ↦ s5
          ])
  Extends-Kind a_status r0 s0 r1 s1 r2 s2 r3 s3 r4 s4 r5 s5 h0 h1 h2 h3 h4 h5 = h0
  Extends-Kind an_int r0 s0 r1 s1 r2 s2 r3 s3 r4 s4 r5 s5 h0 h1 h2 h3 h4 h5 = h1
  Extends-Kind some_data r0 s0 r1 s1 r2 s2 r3 s3 r4 s4 r5 s5 h0 h1 h2 h3 h4 h5 = h2
  Extends-Kind an_array r0 s0 r1 s1 r2 s2 r3 s3 r4 s4 r5 s5 h0 h1 h2 h3 h4 h5 = h3
  Extends-Kind an_error r0 s0 r1 s1 r2 s2 r3 s3 r4 s4 r5 s5 h0 h1 h2 h3 h4 h5 = h4
  Extends-Kind unknown r0 s0 r1 s1 r2 s2 r3 s3 r4 s4 r5 s5 h0 h1 h2 h3 h4 h5 = h5

  read_byte-Extends : (body : List ℕ) → Extends more (read_byte body) (read_byte (body ++ more))
  unfolding read_byte Extends
  read_byte-Extends [] = tt
  read_byte-Extends (b ∷ body) = refl

  read-Extends : (n : ℕ) (body : List ℕ) → Extends more (read n body) (read n (body ++ more))
  unfolding read split_at Extends
  read-Extends n body = elim (Bool-cases (leb n (length body))) [
    | inl e ↦
        let fits = leb→le n (length body) e in
        let fits' = le→leb n (length (body ++ more)) (omega (arith, length-append body more)) in
        rw (e, fits', take-within body more n fits, drop-within body more n fits, read) refl
    | inr e ↦ rw (e, read) tt
  ]

  position-append :
      (body : List ℕ) (p : ℕ) → position body ≡ some p → position (body ++ more) ≡ some p
  unfolding position
  position-append [] p e = ground arith
  position-append (b ∷ body) p e = elim (Bool-cases (b == b'\r')) [
    | inl t ↦ rw (t, position) (rw (t, position) at e)
    | inr f ↦ elim (Option-cases (position body)) [
      | inl n ↦ let none-some = rw (f, n, position) at e in ground arith
      | inr (q, e') ↦ rw (f, position-append body q e', position) (rw (f, e', position) at e)
    ]
  ]

  read_line-Extends : (body : List ℕ) → Extends more (read_line body) (read_line (body ++ more))
  unfolding read_line
  read_line-Extends body = elim (Option-cases (position body)) [
    | inl e ↦ rw (e, read_line) (Extends-failed _ _)
    | inr (p, e) ↦
        rw (e, position-append body p e, read_line)
          (Extends-bind _ _ _ _ (read-Extends (p + 2) body)
            (λ line rest. Extends-if _ _ _ _ _ (Extends-parsed _ _) (Extends-failed _ _)))
  ]

  read_int_line-Extends :
      (body : List ℕ) → Extends more (read_int_line body) (read_int_line (body ++ more))
  unfolding read_int_line
  read_int_line-Extends body = Extends-bind _ _ _ _ (read_line-Extends body) (λ line rest.
      Extends-Option (parse_i64 line) _ _ _ _ (Extends-failed _ _) (λ _. Extends-parsed _ _))

  parse_int-Extends : (body : List ℕ) → Extends more (parse_int body) (parse_int (body ++ more))
  unfolding parse_int
  parse_int-Extends body =
      Extends-bind _ _ _ _ (read_int_line-Extends body) (λ value rest. Extends-parsed _ _)

  parse_data-Extends : (body : List ℕ) → Extends more (parse_data body) (parse_data (body ++ more))
  unfolding parse_data
  parse_data-Extends body = Extends-bind _ _ _ _ (read_int_line-Extends body) (λ len rest.
      Extends-ℤ len _ _ _ _ (Extends-parsed _ _) (λ n.
        Extends-bind _ _ _ _ (read-Extends (n + 2) rest)
          (λ both rest'. Extends-if _ _ _ _ _ (Extends-parsed _ _) (Extends-failed _ _))))

  module _ (is_utf8 : List ℕ → Bool) (max_values : ℕ) where
    read_string_line-Extends :
        (body : List ℕ)
        → Extends more
            (read_string_line is_utf8 max_values body)
            (read_string_line is_utf8 max_values (body ++ more))
    unfolding read_string_line
    read_string_line-Extends body =
        Extends-bind _ _ _ _ (read_line-Extends body)
          (λ line rest. Extends-if _ _ _ _ _ (Extends-parsed _ _) (Extends-failed _ _))

    parse_status-Extends :
        (body : List ℕ)
        → Extends more
            (parse_status is_utf8 max_values body)
            (parse_status is_utf8 max_values (body ++ more))
    unfolding parse_status
    parse_status-Extends body =
        Extends-bind _ _ _ _ (read_string_line-Extends body) (λ line rest. Extends-parsed _ _)

    parse_error-Extends :
        (body : List ℕ)
        → Extends more
            (parse_error is_utf8 max_values body)
            (parse_error is_utf8 max_values (body ++ more))
    unfolding parse_error
    parse_error-Extends body =
        Extends-bind _ _ _ _ (read_string_line-Extends body) (λ line rest. Extends-parsed _ _)

    mutual
      unfolding parse_value parse_items

      parse_value-Extends :
          (fuel fuel' : ℕ) (body : List ℕ)
          → fuel ≤ fuel'
          → Extends more
              (parse_value is_utf8 max_values fuel body)
              (parse_value is_utf8 max_values fuel' (body ++ more))
      parse_value-Extends zero fuel' body h = Extends-exhausted _
      parse_value-Extends (suc fuel) zero body h = absurd (omega arith)
      parse_value-Extends (suc fuel) (suc fuel') body h =
          Extends-bind _ _ _ _ (read_byte-Extends body) (λ b rest.
            Extends-Kind (kind b) _ _ _ _ _ _ _ _ _ _ _ _ (parse_status-Extends rest)
              (parse_int-Extends rest) (parse_data-Extends rest)
              (Extends-bind _ _ _ _ (read_int_line-Extends rest) (λ len rest'.
                Extends-ℤ len _ _ _ _ (Extends-parsed _ _) (λ n.
                  Extends-Bool (ltb max_values n) _ _ _ _ (Extends-panicked _) (
                    Extends-bind _ _ _ _ (parse_items-Extends fuel fuel' n rest' (omega arith))
                      (λ _ _. Extends-parsed _ _)))))
              (parse_error-Extends rest) (Extends-failed _ _))

      parse_items-Extends :
          (fuel fuel' n : ℕ) (body : List ℕ)
          → fuel ≤ fuel'
          → Extends more
              (parse_items is_utf8 max_values fuel n body)
              (parse_items is_utf8 max_values fuel' n (body ++ more))
      parse_items-Extends zero fuel' n body h = Extends-exhausted _
      parse_items-Extends (suc fuel) zero n body h = absurd (omega arith)
      parse_items-Extends (suc fuel) (suc fuel') zero body h = Extends-parsed _ _
      parse_items-Extends (suc fuel) (suc fuel') (suc n) body h =
          Extends-bind _ _ _ _ (parse_value-Extends fuel fuel' body (omega arith)) (λ v rest.
            Extends-bind _ _ _ _ (parse_items-Extends fuel fuel' n rest (omega arith))
              (λ _ _. Extends-parsed _ _))

-- If some bytes are parsed to a value, then the same bytes with more behind them are parsed to the
-- same value, with the further bytes behind what was left.
pub parse-append :
    (is_utf8 : List ℕ → Bool) (max_values : ℕ) (body more : List ℕ) (v : Value) (rest : List ℕ)
    → parse is_utf8 max_values body ≡ parsed (v, rest)
    → parse is_utf8 max_values (body ++ more) ≡ parsed (v, rest ++ more)
unfolding parse Extends
parse-append is_utf8 max_values body more v rest e =
    let extends =
      parse_value-Extends more is_utf8 max_values (2 * length body + 1)
        (2 * length (body ++ more) + 1) body (omega (arith, length-append body more)) in
    rw e at extends
