-- ===== src/Protocol/Progress.antt =====
-- The parser of src/protocol.rs comes to an end: what it leaves of the input is a proper part of it,
-- so that the fuel of the model is enough.
use floki.Prelude.{
  ℕ, zero, suc, ◌+◌, ◌*◌, ◌≤◌, ◌≡◌, refl, Bool, true, false, inl, inr, none, some, Option, List, [],
  ◌∷◌, ℤ, pos, negsuc, arith, leb, ltb, leb→le, Option-cases, same, if◌then◌else◌, length, drop,
  length-drop,
}
use floki.Decimal.{parse_i64}
use floki.Protocol.{
  ◌>>=◌, crlf, Parsed, parsed, failed, panicked, exhausted, read_byte, split_at, read, position,
  read_line, read_int_line, parse_int, parse_data, read_string_line, parse_status, parse_error,
  kind, Kind, a_status, an_int, some_data, an_array, an_error, unknown, parse_value, parse_items,
  parse,
}

-- A parse that ends, and of which a success has the property.
abbrev pub Ends {ℓ} : {A : Type ℓ} → (A → Type 0) → Parsed A → Type 0
Ends P (parsed a) = P a
Ends P (failed e) = Unit
Ends P panicked = Unit
Ends P exhausted = ⊥

pub Ends-bind {ℓ ℓ'} :
    {A : Type ℓ} {B : Type ℓ'} (P : A → Type 0) (Q : B → Type 0) (r : Parsed A) (f : A → Parsed B)
    → Ends P r
    → ((a : A) → P a → Ends Q (f a))
    → Ends Q (r >>= f)
Ends-bind P Q (parsed a) f h k = k a h
Ends-bind P Q (failed e) f h k = tt
Ends-bind P Q panicked f h k = tt
Ends-bind P Q exhausted f h k = absurd h

pub Ends-if {ℓ} :
    {A : Type ℓ} (P : A → Type 0) (b : Bool) (r r' : Parsed A)
    → ((b ≡ true) → Ends P r)
    → Ends P r'
    → Ends P (if b then r else r')
Ends-if P true r r' h h' = h refl
Ends-if P false r r' h h' = h'

pub Ends-Option {ℓ ℓ'} :
    {A : Type ℓ} {B : Type ℓ'} (P : A → Type 0) (o : Option B) (r : Parsed A) (f : B → Parsed A)
    → Ends P r
    → ((b : B) → Ends P (f b))
    → Ends P (elim o [ none ↦ r | some b ↦ f b ])
Ends-Option P none r f h k = h
Ends-Option P (some b) r f h k = k b

-- A negative length, and one that is not.
pub Ends-ℤ {ℓ} :
    {A : Type ℓ} (P : A → Type 0) (i : ℤ) (r : Parsed A) (f : ℕ → Parsed A)
    → Ends P r
    → ((n : ℕ) → Ends P (f n))
    → Ends P (elim i [ negsuc _ ↦ r | pos n ↦ f n ])
Ends-ℤ P (pos n) r f h k = k n
Ends-ℤ P (negsuc n) r f h k = h

Ends-Bool {ℓ} :
    {A : Type ℓ} (P : A → Type 0) (b : Bool) (r r' : Parsed A)
    → Ends P r
    → Ends P r'
    → Ends P (elim b [ true ↦ r | false ↦ r' ])
Ends-Bool P true r r' h h' = h
Ends-Bool P false r r' h h' = h'

pub Ends-Kind {ℓ} :
    {A : Type ℓ} (P : A → Type 0) (k : Kind) (r0 r1 r2 r3 r4 r5 : Parsed A)
    → Ends P r0
    → Ends P r1
    → Ends P r2
    → Ends P r3
    → Ends P r4
    → Ends P r5
    → Ends P (elim k [
      | a_status ↦ r0
      | an_int ↦ r1
      | some_data ↦ r2
      | an_array ↦ r3
      | an_error ↦ r4
      | unknown ↦ r5
    ])
Ends-Kind P a_status r0 r1 r2 r3 r4 r5 h0 h1 h2 h3 h4 h5 = h0
Ends-Kind P an_int r0 r1 r2 r3 r4 r5 h0 h1 h2 h3 h4 h5 = h1
Ends-Kind P some_data r0 r1 r2 r3 r4 r5 h0 h1 h2 h3 h4 h5 = h2
Ends-Kind P an_array r0 r1 r2 r3 r4 r5 h0 h1 h2 h3 h4 h5 = h3
Ends-Kind P an_error r0 r1 r2 r3 r4 r5 h0 h1 h2 h3 h4 h5 = h4
Ends-Kind P unknown r0 r1 r2 r3 r4 r5 h0 h1 h2 h3 h4 h5 = h5

-- `n` bytes at least of the body were read.
abbrev pub HasRead {ℓ} : {A : Type ℓ} → ℕ → List ℕ → A × List ℕ → Type 0
HasRead n body r = n + length r.1 ≤ length body

pub read_byte-Ends : (body : List ℕ) → Ends (HasRead 1 body) (read_byte body)
unfolding read_byte
read_byte-Ends [] = tt
read_byte-Ends (b ∷ body) = omega arith

pub read-Ends : (n : ℕ) (body : List ℕ) → Ends (HasRead n body) (read n body)
unfolding read split_at
read-Ends n body =
    Ends-if (HasRead n body) (leb n (length body)) _ _
      (λ e. omega (arith, leb→le n (length body) e, length-drop n body)) tt

pub read_line-Ends : (body : List ℕ) → Ends (HasRead 2 body) (read_line body)
unfolding read_line split_at
read_line-Ends body = elim (Option-cases (position body)) [
  | inl e ↦ rw (e, read_line) tt
  | inr (p, e) ↦
      rw (e, read_line)
        (Ends-bind (HasRead (p + 2) body) (HasRead 2 body) (read (p + 2) body) _
          (read-Ends (p + 2) body)
          (λ (line, rest) h.
            Ends-if (HasRead 2 body) (same (drop p line) crlf) _ _ (λ _. omega arith) tt))
]

Ends-weaken {ℓ} :
    {A : Type ℓ} (P Q : A → Type 0) (r : Parsed A) → Ends P r → ((a : A) → P a → Q a) → Ends Q r
Ends-weaken P Q (parsed a) h k = k a h
Ends-weaken P Q (failed e) h k = tt
Ends-weaken P Q panicked h k = tt
Ends-weaken P Q exhausted h k = absurd h

HasRead-weaken {ℓ} :
    {A : Type ℓ} (body : List ℕ) (r : Parsed (A × List ℕ))
    → Ends (HasRead 2 body) r
    → Ends (HasRead 0 body) r
HasRead-weaken body r h =
    Ends-weaken (HasRead 2 body) (HasRead 0 body) r h (λ (a, rest) h'. omega arith)

-- Of what a first step leaves, a second one reads.
HasRead-bind {ℓ ℓ'} :
    {A : Type ℓ} {B : Type ℓ'} (n k m : ℕ) (body : List ℕ) (r : Parsed (A × List ℕ))
    (f : A × List ℕ → Parsed (B × List ℕ))
    → m ≤ n + k
    → Ends (HasRead n body) r
    → ((a : A) (rest : List ℕ)
        → n + length rest ≤ length body
        → Ends (HasRead k rest) (f (a, rest)))
    → Ends (HasRead m body) (r >>= f)
HasRead-bind n k m body r f enough h step =
    Ends-bind (HasRead n body) (HasRead m body) r f h (λ (a, rest) h'.
      Ends-weaken (HasRead k rest) (HasRead m body) (f (a, rest)) (step a rest h')
        (λ (b, rest') h''. omega arith))

pub read_int_line-Ends : (body : List ℕ) → Ends (HasRead 2 body) (read_int_line body)
unfolding read_int_line
read_int_line-Ends body =
    HasRead-bind 2 0 2 body (read_line body) _ (omega arith) (read_line-Ends body)
      (λ line rest h. Ends-Option (HasRead 0 rest) (parse_i64 line) _ _ tt (λ _. omega arith))

parse_int-Ends : (body : List ℕ) → Ends (HasRead 2 body) (parse_int body)
unfolding parse_int
parse_int-Ends body =
    HasRead-bind 2 0 2 body (read_int_line body) _ (omega arith) (read_int_line-Ends body)
      (λ value rest h. omega arith)

parse_data-Ends : (body : List ℕ) → Ends (HasRead 2 body) (parse_data body)
unfolding parse_data split_at
parse_data-Ends body =
    HasRead-bind 2 0 2 body (read_int_line body) _ (omega arith) (read_int_line-Ends body)
      (λ len rest h. Ends-ℤ (HasRead 0 rest) len _ _ (omega arith) (λ n.
        HasRead-bind (n + 2) 0 0 rest (read (n + 2) rest) _ (omega arith) (read-Ends (n + 2) rest)
          (λ both rest' h'.
            Ends-if (HasRead 0 rest') (same (drop n both) crlf) _ _ (λ _. omega arith) tt)))

module _ (is_utf8 : List ℕ → Bool) (max_values : ℕ) where
  read_string_line-Ends :
      (body : List ℕ) → Ends (HasRead 2 body) (read_string_line is_utf8 max_values body)
  unfolding read_string_line
  read_string_line-Ends body =
      HasRead-bind 2 0 2 body (read_line body) _ (omega arith) (read_line-Ends body)
        (λ line rest h. Ends-if (HasRead 0 rest) (is_utf8 line) _ _ (λ _. omega arith) tt)

  parse_status-Ends : (body : List ℕ) → Ends (HasRead 2 body) (parse_status is_utf8 max_values body)
  unfolding parse_status
  parse_status-Ends body =
      HasRead-bind 2 0 2 body (read_string_line is_utf8 max_values body) _ (omega arith)
        (read_string_line-Ends body) (λ line rest h. omega arith)

  parse_error-Ends : (body : List ℕ) → Ends (HasRead 2 body) (parse_error is_utf8 max_values body)
  unfolding parse_error
  parse_error-Ends body =
      HasRead-bind 2 0 2 body (read_string_line is_utf8 max_values body) _ (omega arith)
        (read_string_line-Ends body) (λ line rest h. omega arith)

  mutual
    unfolding parse_value parse_items

    pub parse_value-Ends :
        (fuel : ℕ) (body : List ℕ)
        → 2 * length body + 1 ≤ fuel
        → Ends (HasRead 1 body) (parse_value is_utf8 max_values fuel body)
    parse_value-Ends zero body h = absurd (omega arith)
    parse_value-Ends (suc fuel) body h =
        HasRead-bind 1 0 1 body (read_byte body) _ (omega arith) (read_byte-Ends body) (λ b rest h'.
          Ends-Kind (HasRead 0 rest) (kind b) _ _ _ _ _ _
            (HasRead-weaken rest _ (parse_status-Ends rest))
            (HasRead-weaken rest _ (parse_int-Ends rest))
            (HasRead-weaken rest _ (parse_data-Ends rest))
            (HasRead-bind 2 0 0 rest (read_int_line rest) _ (omega arith) (read_int_line-Ends rest)
              (λ len rest' h''. Ends-ℤ (HasRead 0 rest') len _ _ (omega arith) (λ n.
                Ends-Bool (HasRead 0 rest') (ltb max_values n) _ _ tt (
                  HasRead-bind 0 0 0 rest' (parse_items is_utf8 max_values fuel n rest') _
                    (omega arith) (parse_items-Ends fuel n rest' (omega arith))
                    (λ _ _ _. omega arith)))))
            (HasRead-weaken rest _ (parse_error-Ends rest)) tt)

    pub parse_items-Ends :
        (fuel n : ℕ) (body : List ℕ)
        → 2 * length body + 2 ≤ fuel
        → Ends (HasRead 0 body) (parse_items is_utf8 max_values fuel n body)
    parse_items-Ends zero n body h = absurd (omega arith)
    parse_items-Ends (suc fuel) zero body h = omega arith
    parse_items-Ends (suc fuel) (suc n) body h =
        HasRead-bind 1 0 0 body (parse_value is_utf8 max_values fuel body) _ (omega arith)
          (parse_value-Ends fuel body (omega arith))
          (λ v rest h'.
            HasRead-bind 0 0 0 rest (parse_items is_utf8 max_values fuel n rest) _ (omega arith)
              (parse_items-Ends fuel n rest (omega arith)) (λ _ _ _. omega arith))

  -- On any bytes a parse comes to an end within the fuel that it is given, and if it gives a value,
  -- at least one byte was read.
  pub parse-Ends : (body : List ℕ) → Ends (HasRead 1 body) (parse is_utf8 max_values body)
  unfolding parse
  parse-Ends body = parse_value-Ends (2 * length body + 1) body (omega arith)
