-- ===== src/Protocol/RoundTrip.antt =====
-- A value that `serialize_to` of src/protocol.rs wrote is what the parser reads.
use floki.Prelude.{
  ℕ, zero, suc, ◌+◌, ◌-◌, ◌*◌, ◌^◌, ◌≤◌, ◌<◌, ◌≡◌, refl, subst, Bool, true, false, List, ◌∷◌, ◌++◌,
  append_assoc, ℤ, pos, negsuc, arith, ltb, ltb-false, length, length-append,
}
use floki.Decimal.{digits, show_nat, show_int}
use floki.Decimal.RoundTrip.{IsI64}
use floki.Backend.{Message, message_id}
use floki.Protocol.{
  ◌>>=◌, Value, Values, nil, int, bytes, array, status, error, message, none_left, one_more, count,
  crlf, message_body, serialize, serialize_all, parsed, read_byte, read_int_line, parse_int,
  parse_data, read_string_line, parse_status, parse_error, kind, parse_value, parse_items, parse,
}
use floki.Protocol.Lines.{NoCr, read_line-crlf, read_int_line-show_int, parse_data-bytes}

serialize_pos : (v : Value) → 1 ≤ length (serialize v)
unfolding serialize
serialize_pos nil = omega arith
serialize_pos (int i) = omega arith
serialize_pos (bytes v) = omega arith
serialize_pos (array vs) = omega arith
serialize_pos (status v) = omega arith
serialize_pos (error v) = omega arith
serialize_pos (message ticket m) = omega arith

length-message : (ticket : ℤ) (m : Message) → 4 ≤ length (serialize (message ticket m))
unfolding serialize
length-message ticket m = omega arith

-- What a client reads of a value: a message is an array of its id, its ticket and its body.
unfoldable mutual
  pub received : Value → Value
  received (array vs) = array (received_all vs)
  received (message ticket m) = array (
      one_more (int (pos (message_id m)))
        (one_more (int ticket) (one_more (bytes (message_body m)) none_left)))
  received nil = nil
  received (int i) = int i
  received (bytes v) = bytes v
  received (status v) = status v
  received (error v) = error v

  pub received_all : Values → Values
  received_all none_left = none_left
  received_all (one_more v vs) = one_more (received v) (received_all vs)

module _ (is_utf8 : List ℕ → Bool) (max_values : ℕ) where
  -- Numbers and lengths of 63 bits, lines that are text without a carriage return, and arrays that can
  -- be allocated.
  unfoldable mutual
    pub IsSendable : Value → Type 0
    IsSendable nil = Unit
    IsSendable (int i) = IsI64 i
    IsSendable (bytes v) = length v < 2 ^ 63
    IsSendable (array vs) = (count vs < 2 ^ 63) × (count vs ≤ max_values) × AreSendable vs
    IsSendable (status v) = NoCr v × (is_utf8 v ≡ true)
    IsSendable (error v) = NoCr v × (is_utf8 v ≡ true)
    IsSendable (message ticket m) =
        (message_id m < 2 ^ 63)
        × IsI64 ticket
        × (length (message_body m) < 2 ^ 63)
        × (3 ≤ max_values)

    pub AreSendable : Values → Type 0
    AreSendable none_left = Unit
    AreSendable (one_more v vs) = IsSendable v × AreSendable vs

  read_string_line-crlf :
      (line rest : List ℕ)
      → NoCr line
      → is_utf8 line ≡ true
      → read_string_line is_utf8 max_values (line ++ b'\r' ∷ b'\n' ∷ rest) ≡ parsed (line, rest)
  unfolding read_string_line
  read_string_line-crlf line rest h text = rw (read_line-crlf line rest h) (rw (text, ◌>>=◌) refl)

  module _ (fuel : ℕ) where
    int_reads :
        (i : ℤ) (rest : List ℕ)
        → IsI64 i
        → parse_value is_utf8 max_values (suc fuel) (b':' ∷ show_int i ++ b'\r' ∷ b'\n' ∷ rest)
          ≡ parsed (int i, rest)
    unfolding parse_value read_byte kind parse_int
    int_reads i rest s = rw (read_int_line-show_int i rest s) refl

    bytes_reads :
        (v rest : List ℕ)
        → length v < 2 ^ 63
        → parse_value is_utf8 max_values
            (suc fuel)
            (b'$' ∷ show_nat (length v) ++ b'\r' ∷ b'\n' ∷ (v ++ b'\r' ∷ b'\n' ∷ rest))
          ≡ parsed (bytes v, rest)
    unfolding parse_value read_byte kind
    bytes_reads v rest s = parse_data-bytes v rest s

    array_reads :
        (n : ℕ) (vs : Values) (body rest : List ℕ)
        → n < 2 ^ 63
        → n ≤ max_values
        → parse_items is_utf8 max_values fuel n body ≡ parsed (vs, rest)
        → parse_value is_utf8 max_values (suc fuel) (b'*' ∷ show_nat n ++ b'\r' ∷ b'\n' ∷ body)
          ≡ parsed (array vs, rest)
    unfolding parse_value read_byte kind show_int
    array_reads n vs body rest small granted e =
        let fits : ltb max_values n ≡ false = ltb-false max_values n granted in
        let len = read_int_line-show_int (pos n) body small in
        rw (len, ◌>>=◌) (rw (fits, ◌>>=◌) (rw (e, ◌>>=◌) refl))

    item_reads :
        (n : ℕ) (v : Value) (vs : Values) (body middle rest : List ℕ)
        → parse_value is_utf8 max_values fuel body ≡ parsed (v, middle)
        → parse_items is_utf8 max_values fuel n middle ≡ parsed (vs, rest)
        → parse_items is_utf8 max_values (suc fuel) (suc n) body ≡ parsed (one_more v vs, rest)
    unfolding parse_items
    item_reads n v vs body middle rest e es = rw (e, ◌>>=◌) (rw (es, ◌>>=◌) refl)

  message_reads :
      (fuel : ℕ) (ticket : ℤ) (m : Message) (rest : List ℕ)
      → IsSendable (message ticket m)
      → parse_value is_utf8 max_values
          (suc (suc (suc (suc (suc fuel)))))
          (serialize (message ticket m) ++ rest)
        ≡ parsed (received (message ticket m), rest)
  unfolding serialize received parse_items IsSendable show_nat show_int
  message_reads fuel ticket m rest s =
      let body = message_body m in
      let after_int =
        b'$' ∷ show_nat (length body) ++ b'\r' ∷ b'\n' ∷ (body ++ b'\r' ∷ b'\n' ∷ rest) in
      let after_id = b':' ∷ show_int ticket ++ b'\r' ∷ b'\n' ∷ after_int in
      let all = b':' ∷ show_int (pos (message_id m)) ++ b'\r' ∷ b'\n' ∷ after_id in
      let third =
        item_reads (suc fuel) 0 (bytes body) none_left after_int rest rest
          (bytes_reads fuel body rest s.2) refl in
      let second =
        item_reads (suc (suc fuel)) 1 (int ticket) (one_more (bytes body) none_left) after_id
          after_int rest (int_reads (suc fuel) ticket after_int s.1) third in
      let first =
        item_reads (suc (suc (suc fuel))) 2 (int (pos (message_id m)))
          (one_more (int ticket) (one_more (bytes body) none_left)) all after_id rest
          (int_reads (suc (suc fuel)) (pos (message_id m)) after_id s.0) second in
      simp append_assoc (
        array_reads (suc (suc (suc (suc fuel)))) 3
          (one_more (int (pos (message_id m)))
            (one_more (int ticket) (one_more (bytes body) none_left)))
          all rest (omega arith) s.3 first)

  read_nil : (rest : List ℕ) → parse_data (b'-' ∷ b'1' ∷ b'\r' ∷ b'\n' ∷ rest) ≡ parsed (nil, rest)
  unfolding parse_data show_int show_nat digits
  read_nil rest =
      let len : read_int_line (b'-' ∷ b'1' ∷ b'\r' ∷ b'\n' ∷ rest) ≡ parsed (negsuc 0, rest) =
        read_int_line-show_int (negsuc 0) rest (omega arith) in
      rw (len, ◌>>=◌) refl

  mutual
    unfolding serialize received parse_value read_byte kind parse_int parse_status parse_error
        IsSendable

    parse_value-serialize :
        (v : Value)
        → IsSendable v
        → (fuel : ℕ) (rest : List ℕ) → 2 * length (serialize v) < fuel
        → parse_value is_utf8 max_values fuel (serialize v ++ rest) ≡ parsed (received v, rest)
    parse_value-serialize v s zero rest h = absurd (omega arith)
    parse_value-serialize nil s (suc fuel) rest h = read_nil rest
    parse_value-serialize (int i) s (suc fuel) rest h =
        rw (append_assoc (show_int i) crlf rest) (int_reads fuel i rest s)
    parse_value-serialize (bytes v) s (suc fuel) rest h =
        simp append_assoc (bytes_reads fuel v rest s)
    parse_value-serialize (array vs) s (suc fuel) rest h = simp append_assoc (
        array_reads fuel (count vs) (received_all vs) (serialize_all vs ++ rest) rest s.0 s.1 (
          parse_items-serialize_all vs s.2 fuel rest (
            omega (
              arith,
              length-append (b'*' ∷ show_nat (count vs) ++ crlf) (serialize_all vs),
              length-append (show_nat (count vs)) crlf,
            ))))
    parse_value-serialize (status v) s (suc fuel) rest h =
        rw (append_assoc v crlf rest) (rw (read_string_line-crlf v rest s.0 s.1) refl)
    parse_value-serialize (error v) s (suc fuel) rest h =
        rw (append_assoc v crlf rest) (rw (read_string_line-crlf v rest s.0 s.1) refl)
    parse_value-serialize (message ticket m) s (suc fuel) rest h =
        let enough : suc (suc (suc (suc (suc (fuel - 4))))) ≡ suc fuel =
          omega (arith, length-message ticket m) in
        subst
          (λ f.
            parse_value is_utf8 max_values f (serialize (message ticket m) ++ rest)
            ≡ parsed (received (message ticket m), rest))
          enough (message_reads (fuel - 4) ticket m rest s)

    parse_items-serialize_all :
        (vs : Values)
        → AreSendable vs
        → (fuel : ℕ) (rest : List ℕ) → 2 * length (serialize_all vs) + 1 < fuel
        → parse_items is_utf8 max_values fuel (count vs) (serialize_all vs ++ rest)
          ≡ parsed (received_all vs, rest)
    parse_items-serialize_all vs s zero rest h = absurd (omega arith)
    parse_items-serialize_all none_left s (suc fuel) rest h = refl
    parse_items-serialize_all (one_more v vs) s (suc fuel) rest h = simp append_assoc (
        item_reads fuel (count vs) (received v) (received_all vs)
          (serialize v ++ (serialize_all vs ++ rest)) (serialize_all vs ++ rest) rest
          (parse_value-serialize v s.0 fuel (serialize_all vs ++ rest)
            (omega (arith, length-append (serialize v) (serialize_all vs))))
          (parse_items-serialize_all vs s.1 fuel rest
            (omega (arith, length-append (serialize v) (serialize_all vs), serialize_pos v))))

  -- A value whose numbers and lengths fit an `i64`, whose lines are text without a carriage return
  -- and whose arrays can be allocated, once serialized and with any bytes behind it, is parsed
  -- back, a message as an array of its id, its ticket and its body; the bytes behind it are what is
  -- left.
  pub parse-serialize :
      (v : Value) (rest : List ℕ)
      → IsSendable v
      → parse is_utf8 max_values (serialize v ++ rest) ≡ parsed (received v, rest)
  unfolding parse
  parse-serialize v rest s =
      parse_value-serialize v s (2 * length (serialize v ++ rest) + 1) rest
        (omega (arith, length-append (serialize v) rest))
