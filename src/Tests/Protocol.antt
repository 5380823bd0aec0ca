-- ===== src/Tests/Protocol.antt =====
-- The listed theorems of src/protocol.rs at small inputs.
use floki.Prelude.{ℕ, ◌≡◌, ◌≢◌, refl, Bool, true, List, [], ◌∷◌, ◌++◌, pos, negsuc, arith, codes}
use floki.Decimal.{show_nat, parse_i64, show_int}
use floki.Protocol.{
  Value, nil, int, bytes, array, status, none_left, one_more, crlf, serialize, parsed, panicked,
  parse, kind, unknown,
}
use floki.Protocol.Lines.{NoCr}
use floki.Protocol.RoundTrip.{received, IsSendable, parse-serialize}
use floki.Protocol.Progress.{Ends, HasRead, parse-Ends}
use floki.Protocol.Range.{IsGood, parse-IsSendable}
use floki.Protocol.Streaming.{parse-append}
use floki.Protocol.Failures.{parse-array_panics}
use floki.Protocol.Requests.{
  serve, parse_stream, new-serve, arrived, popped, receive, mut_bytes, write, pop_value,
}
use floki.Protocol.Requests
use floki.Protocol.Responses.{
  sends, serialized, pending, new-sends, pushed, taken, push_value, remaining,
}
use floki.Protocol.Responses

abbrev text : List ℕ → Bool
text _ = true

-- An array of a block of bytes, a negative number, an empty array and nothing.
abbrev sent : Value
sent = array (
    one_more (bytes (codes "a" ++ crlf))
      (one_more (int (negsuc 41)) (one_more (array none_left) (one_more nil none_left))))

parse-serialize_example :
    parse text 4 (serialize sent ++ codes ":1") ≡ parsed (received sent, codes ":1")
unfolding IsSendable
parse-serialize_example = parse-serialize text 4 sent (codes ":1") (
  omega arith,
  omega arith,
  (omega arith, (omega arith, ((omega arith, omega arith, tt), (tt, tt)))),
)

-- The sixteen bytes that a small allocator would add.
abbrev spare : List ℕ
spare = codes "................"

abbrev two_requests : List Requests.Event
two_requests =
    arrived spare (codes "+OK" ++ b'\r' ∷ [])
    ∷ popped
    ∷ arrived spare (b'\n' ∷ codes ":100" ++ crlf)
    ∷ popped
    ∷ popped
    ∷ []

new-serve_example : serve text 4 two_requests Requests.new ≡ parse_stream text 4 two_requests []
unfolding Requests.new receive mut_bytes write Requests.advance pop_value parse
new-serve_example =
    new-serve text 4 two_requests (omega arith, omega arith, (omega arith, omega arith, tt))

abbrev two_answers : List Responses.Event
two_answers = pushed (status (codes "OK")) ∷ taken 2 ∷ pushed (int (pos 7)) ∷ taken 5 ∷ taken 1 ∷ []

new-sends_example :
    (sends two_answers Responses.new).0 ++ pending (sends two_answers Responses.new).1
    ≡ serialized two_answers
unfolding Responses.new push_value Responses.advance remaining serialize show_int
new-sends_example = new-sends two_answers (omega arith, (omega arith, (omega arith, tt)))

parse-Ends_example : Ends (HasRead 1 (codes ":7" ++ crlf)) (parse text 4 (codes ":7" ++ crlf))
parse-Ends_example = parse-Ends text 4 (codes ":7" ++ crlf)

parse-append_example :
    parse text 4 ((codes "$2" ++ crlf ++ codes "ab" ++ crlf) ++ codes "*")
    ≡ parsed (bytes (codes "ab"), [] ++ codes "*")
unfolding parse parse_i64
parse-append_example =
    parse-append text 4 (codes "$2" ++ crlf ++ codes "ab" ++ crlf) (codes "*") (bytes (codes "ab"))
      [] refl

parse-array_panics_example : parse text 4 (b'*' ∷ show_nat 5 ++ crlf ++ []) ≡ panicked
parse-array_panics_example = parse-array_panics text 4 5 [] (omega arith) (omega arith)

-- The byte `*` begins an array, and `1` is no carriage return.
array_known : kind b'*' ≢ unknown
unfolding kind
array_known e = ground arith

one_cr : NoCr (codes "1")
one_cr = ((λ e. ground arith), tt)

-- An array of a line and a number.
abbrev line_and_number : List ℕ
line_and_number = codes "*2" ++ crlf ++ codes "+ok" ++ crlf ++ codes ":7" ++ crlf

parse-IsSendable_example : Ends (IsGood text 4) (parse text 4 line_and_number)
parse-IsSendable_example = parse-IsSendable text 4 line_and_number
