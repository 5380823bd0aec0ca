-- ===== src/Protocol/Lines.antt =====
-- What the parser's pieces of src/protocol.rs read of a line, of a number's line and of a block of
-- bytes that stand in front of the input.
use floki.Prelude.{
  take-append, drop-append, ℕ, ◌+◌, ◌^◌, ◌<◌, ◌≡◌, ◌≢◌, refl, ◌∙◌, true, some, List, [], ◌∷◌, ◌++◌,
  append-nil, ℤ, pos, arith, leb, le→leb, length, length-append, take, drop, All,
}
use floki.Decimal.{show_nat, show_int}
use floki.Decimal.RoundTrip.{IsI64, parse_i64-show_int, show_int-no_cr}
use floki.Protocol.{
  ◌>>=◌, bytes, crlf, parsed, split_at, read, position, read_line, read_int_line, parse_data,
}

abbrev pub NoCr : List ℕ → Type 0
NoCr = All (λ c. c ≢ b'\r')

position-cr :
    (line rest : List ℕ) → NoCr line → position (line ++ b'\r' ∷ rest) ≡ some (length line)
unfolding position
position-cr [] rest h = refl
position-cr (c ∷ line) rest h = ground (arith, h.0, position-cr line rest h.1)

-- A piece and two bytes behind it.
read-piece :
    (piece rest : List ℕ) (a b : ℕ)
    → read (length piece + 2) (piece ++ a ∷ b ∷ rest) ≡ parsed (piece ++ a ∷ b ∷ [], rest)
unfolding read split_at
read-piece piece rest a b =
    let room : leb (length piece + 2) (length (piece ++ a ∷ b ∷ rest)) ≡ true =
      le→leb _ _ (omega (arith, length-append piece (a ∷ b ∷ rest))) in
    rw (room, read)
      (rw
        (
          take-append piece (a ∷ b ∷ rest) (length piece + 2) 2 refl,
          drop-append piece (a ∷ b ∷ rest) (length piece + 2) 2 refl,
        )
        refl)

take_piece : (piece rest : List ℕ) → take (length piece) (piece ++ rest) ≡ piece
take_piece piece rest = take-append piece rest (length piece) 0 (omega arith) ∙ append-nil piece

drop_piece : (piece rest : List ℕ) → drop (length piece) (piece ++ rest) ≡ rest
drop_piece piece rest = drop-append piece rest (length piece) 0 (omega arith)

-- A line is read up to its separator.
pub read_line-crlf :
    (line rest : List ℕ)
    → NoCr line
    → read_line (line ++ b'\r' ∷ b'\n' ∷ rest) ≡ parsed (line, rest)
unfolding read_line
read_line-crlf line rest h =
    rw (position-cr line (b'\n' ∷ rest) h, read_line)
      (rw (read-piece line rest b'\r' b'\n')
        (rw (take_piece line crlf, drop_piece line crlf, ◌>>=◌, split_at) refl))

pub read_int_line-show_int :
    (i : ℤ) (rest : List ℕ)
    → IsI64 i
    → read_int_line (show_int i ++ b'\r' ∷ b'\n' ∷ rest) ≡ parsed (i, rest)
unfolding read_int_line
read_int_line-show_int i rest h =
    rw (read_line-crlf (show_int i) rest (show_int-no_cr i))
      (rw (parse_i64-show_int i h, ◌>>=◌) refl)

pub parse_data-bytes :
    (v rest : List ℕ)
    → length v < 2 ^ 63
    → parse_data (show_nat (length v) ++ b'\r' ∷ b'\n' ∷ (v ++ b'\r' ∷ b'\n' ∷ rest))
      ≡ parsed (bytes v, rest)
unfolding parse_data show_int
parse_data-bytes v rest h =
    rw (read_int_line-show_int (pos (length v)) (v ++ b'\r' ∷ b'\n' ∷ rest) h) (
      rw (read-piece v rest b'\r' b'\n', ◌>>=◌)
        (rw (take_piece v crlf, drop_piece v crlf, split_at) refl))
