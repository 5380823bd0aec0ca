-- ===== src/Protocol.antt =====
-- src/protocol.rs: the values that clients and server exchange, their serializer and their parser, in
-- the protocol of Redis. A tendril is the list of its bytes.
pub mod Lines
pub mod RoundTrip
pub mod Pieces
pub mod Range
pub mod Progress
pub mod Streaming
pub mod Failures
pub mod Requests
pub mod Responses
use floki.Prelude.{
  ℕ, zero, suc, ◌+◌, ◌-◌, ◌*◌, Bool, true, false, Option, none, some, List, [], ◌∷◌, ◌++◌, ℤ, pos,
  negsuc, codes, leb, ltb, ◌==◌, same, if◌then◌else◌, length, take, drop,
}
use floki.Decimal.{show_nat, show_int, parse_i64}
use floki.Message.{body_at}
use floki.Backend.{Message, message_id}

-- `Invalid` has the text of the error.
pub data ProtocolError : Type 0 where
  incomplete : ProtocolError
  invalid : List ℕ → ProtocolError

-- `bytes` is `Data`, and `Values` is the vector inside an array. A message has its ticket.
mutual
  pub data Value : Type 0 where
    nil : Value
    int : ℤ → Value
    bytes : List ℕ → Value
    array : Values → Value
    status : List ℕ → Value
    error : List ℕ → Value
    message : ℤ → Message → Value

  pub data Values : Type 0 where
    none_left : Values
    one_more : Value → Values → Values

-- `Vec::len`.
abbrev pub count : Values → ℕ
count none_left = 0
count (one_more v vs) = suc (count vs)

abbrev pub crlf : List ℕ
crlf = b'\r' ∷ b'\n' ∷ []

-- `body` of a message.
abbrev pub message_body : Message → List ℕ
message_body m = body_at m.segment.file_mmap m.offset

unfoldable mutual
  pub serialize : Value → List ℕ
  serialize nil = codes "$-1" ++ crlf
  serialize (int i) = b':' ∷ show_int i ++ crlf
  serialize (bytes v) = b'$' ∷ show_nat (length v) ++ crlf ++ v ++ crlf
  serialize (array vs) = b'*' ∷ show_nat (count vs) ++ crlf ++ serialize_all vs
  serialize (status v) = b'+' ∷ v ++ crlf
  serialize (error v) = b'-' ∷ v ++ crlf
  serialize (message ticket m) =
      codes "*3"
      ++ crlf
      ++ b':' ∷ show_nat (message_id m)
      ++ crlf
      ++ b':' ∷ show_int ticket
      ++ crlf
      ++ b'$' ∷ show_nat (length (message_body m))
      ++ crlf
      ++ message_body m
      ++ crlf

  pub serialize_all : Values → List ℕ
  serialize_all none_left = []
  serialize_all (one_more v vs) = serialize v ++ serialize_all vs

-- What a parse ends with. `panicked` is a vector that cannot be allocated; `exhausted`, which is out
-- of fuel, has no counterpart in the program.
pub data Parsed {ℓ} (A : Type ℓ) : Type ℓ where
  parsed : A → Parsed A
  failed : ProtocolError → Parsed A
  panicked exhausted : Parsed A

infixl 5 ◌>>=◌
abbrev pub ◌>>=◌ {ℓ κ} : {A : Type ℓ} {B : Type κ} → Parsed A → (A → Parsed B) → Parsed B
parsed a >>= f = f a
failed e >>= f = failed e
panicked >>= f = panicked
exhausted >>= f = exhausted

unfoldable pub read_byte : List ℕ → Parsed (ℕ × List ℕ)
read_byte [] = failed incomplete
read_byte (b ∷ body) = parsed (b, body)

unfoldable pub split_at : List ℕ → ℕ → List ℕ × List ℕ
split_at s n = (take n s, drop n s)

unfoldable pub read : ℕ → List ℕ → Parsed (List ℕ × List ℕ)
unfolding split_at
read n body = if leb n (length body) then parsed (split_at body n) else failed incomplete

-- `iter().position`, of a carriage return.
unfoldable pub position : List ℕ → Option ℕ
position [] = none
position (b ∷ body) = elim (b == b'\r') [
  | true ↦ some 0
  | false ↦ elim (position body) [ none ↦ none | some p ↦ some (suc p) ]
]

unfoldable pub read_line : List ℕ → Parsed (List ℕ × List ℕ)
unfolding read position split_at
read_line body = elim (position body) [
  | none ↦ failed (invalid (codes "Missing line separator"))
  | some nl_pos ↦ do
    (line, rest) ← read (nl_pos + 2) body
    let (first_part, second_part) = split_at line nl_pos
    (if same second_part crlf
        then parsed (first_part, rest)
        else failed (invalid (codes "Invalid line separator")))
]

unfoldable pub read_int_line : List ℕ → Parsed (ℤ × List ℕ)
unfolding read_line
read_int_line body = do
  (line, rest) ← read_line body
  elim (parse_i64 line) [
    | none ↦ failed (invalid (codes "Expected integer, got garbage"))
    | some value ↦ parsed (value, rest)
  ]

unfoldable pub parse_int : List ℕ → Parsed (Value × List ℕ)
unfolding read_int_line
parse_int body = do (value, rest) ← read_int_line body; parsed (int value, rest)

unfoldable pub parse_data : List ℕ → Parsed (Value × List ℕ)
unfolding read_int_line read split_at
parse_data body = do
  (len, rest) ← read_int_line body
  elim len [
    | negsuc _ ↦ parsed (nil, rest)
    | pos n ↦ do
      (both, rest') ← read (n + 2) rest
      let (data_part, line_sep) = split_at both n
      (if same line_sep crlf
          then parsed (bytes data_part, rest')
          else failed (invalid (codes "Invalid line separator")))
  ]

-- The byte that a value begins with.
pub data Kind : Type 0 where
  a_status an_int some_data an_array an_error unknown : Kind

unfoldable pub kind : ℕ → Kind
kind b =
    if b == b'+'
    then a_status
    else if b == b':'
    then an_int
    else if b == b'$'
    then some_data
    else if b == b'*'
    then an_array
    else if b == b'-'
    then an_error
    else unknown

-- `is_utf8` is `str::from_utf8(..).is_ok()`, and `max_values` is how many values the allocator
-- grants to `Vec::with_capacity`.
module _ (is_utf8 : List ℕ → Bool) (max_values : ℕ) where
  unfoldable pub read_string_line : List ℕ → Parsed (List ℕ × List ℕ)
  unfolding read_line
  read_string_line body = do
    (line, rest) ← read_line body
    (if is_utf8 line
        then parsed (line, rest)
        else failed (invalid (codes "Expected valid string, got garbage")))

  unfoldable pub parse_status : List ℕ → Parsed (Value × List ℕ)
  unfolding read_string_line
  parse_status body = do (line, rest) ← read_string_line body; parsed (status line, rest)

  unfoldable pub parse_error : List ℕ → Parsed (Value × List ℕ)
  unfolding read_string_line
  parse_error body = do (line, rest) ← read_string_line body; parsed (error line, rest)

  -- A value takes one unit of fuel, and so does each turn of the loop over an array's values.
  unfoldable mutual
    unfolding read_byte kind parse_status parse_int parse_data read_int_line parse_error

    pub parse_value : ℕ → List ℕ → Parsed (Value × List ℕ)
    parse_value zero body = exhausted
    parse_value (suc fuel) body = do
      (b, rest) ← read_byte body
      elim (kind b) [
        | a_status ↦ parse_status rest
        | an_int ↦ parse_int rest
        | some_data ↦ parse_data rest
        | an_array ↦ do
          (len, rest') ← read_int_line rest
          elim len [
            | negsuc _ ↦ parsed (nil, rest')
            | pos n ↦ elim (ltb max_values n) [
              | true ↦ panicked
              | false ↦ do (vs, rest'') ← parse_items fuel n rest'; parsed (array vs, rest'')
            ]
          ]
        | an_error ↦ parse_error rest
        | unknown ↦ failed (invalid (codes "Invalid response when parsing value"))
      ]

    pub parse_items : ℕ → ℕ → List ℕ → Parsed (Values × List ℕ)
    parse_items zero n body = exhausted
    parse_items (suc fuel) zero body = parsed (none_left, body)
    parse_items (suc fuel) (suc n) body = do
      (v, rest) ← parse_value fuel body
      (vs, rest') ← parse_items fuel n rest
      parsed (one_more v vs, rest')

  -- `Parser::parse`.
  unfoldable pub parse : List ℕ → Parsed (Value × List ℕ)
  unfolding parse_value
  parse body = parse_value (2 * length body + 1) body
