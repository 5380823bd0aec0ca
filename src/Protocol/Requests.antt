-- ===== src/Protocol/Requests.antt =====
-- src/protocol.rs, `RequestBuffer`: what a client sent. The socket writes into the spare bytes of the
-- buffer, whose contents `reserve` and `set_len` leave unspecified: they are an argument, as is how
-- much the socket wrote.
use floki.Prelude.{
  Bool-cases, inl, inr, take-within, take-append, append-nil, length-take, take_all, ℕ, ◌+◌, ◌-◌,
  ◌*◌, ◌%◌, ◌^◌, ◌≤◌, ◌<◌, ◌≡◌, refl, ap, ◌∙◌, Bool, List, [], ◌∷◌, ◌++◌, arith, ltb, if◌then◌else◌,
  length, length-append, take, drop,
}
use floki.Protocol.{Value, Parsed, parsed, failed, panicked, exhausted, parse}

-- The first `bytes_read` of `body` were received.
pub record RequestBuffer : Type 0 where
  body : List ℕ
  bytes_read : ℕ

abbrev pub min_requestbuffer_size : ℕ
min_requestbuffer_size = 4 * 1024

unfoldable pub new : RequestBuffer
new = record { body = []; bytes_read = 0 }

unfoldable pub remaining : RequestBuffer → ℕ
remaining b =
    let spare = length b.body - b.bytes_read in
    if ltb spare min_requestbuffer_size then min_requestbuffer_size else spare

-- `reserved` is what `reserve` adds and `set_len` shows of it, up to the capacity.
unfoldable pub mut_bytes : List ℕ → RequestBuffer → RequestBuffer
mut_bytes reserved b =
    if ltb (length b.body - b.bytes_read) min_requestbuffer_size
    then record b { body = b.body ++ reserved }
    else b

-- The socket writes `received` into the slice that `mut_bytes` gave.
unfoldable pub write : List ℕ → RequestBuffer → RequestBuffer
write received b = record b {
  body = take b.bytes_read b.body ++ received ++ drop (b.bytes_read + length received) b.body;
}

unfoldable pub advance : ℕ → RequestBuffer → RequestBuffer
advance cnt b = record b { bytes_read = (b.bytes_read + cnt % 2 ^ 32) % 2 ^ 32 }

-- `stream.read(request.mut_bytes())` and `request.advance(bytes_read)`.
unfoldable pub receive : List ℕ → List ℕ → RequestBuffer → RequestBuffer
unfolding mut_bytes write advance
receive reserved received b = advance (length received) (write received (mut_bytes reserved b))

-- Of an arrival, what `reserve` added and the bytes.
pub data Event : Type 0 where
  arrived : List ℕ → List ℕ → Event
  popped : Event

abbrev pub IsValid : RequestBuffer → Type 0
IsValid b = b.bytes_read ≤ length b.body

-- The bytes that arrived and were not parsed yet.
abbrev pub held : RequestBuffer → List ℕ
held b = take b.bytes_read b.body

-- The bytes that were received are as they were when the buffer grows.
mut_bytes_lem :
    (reserved : List ℕ) (b : RequestBuffer)
    → IsValid b
    → IsValid (mut_bytes reserved b)
      × ((mut_bytes reserved b).bytes_read ≡ b.bytes_read)
      × (held (mut_bytes reserved b) ≡ held b)
unfolding mut_bytes
mut_bytes_lem reserved b valid =
    elim (Bool-cases (ltb (length b.body - b.bytes_read) min_requestbuffer_size)) [
      | inl e ↦ rw e (
          let valid' : b.bytes_read ≤ length (b.body ++ reserved) =
            omega (arith, length-append b.body reserved) in
          (valid', refl, take-within b.body reserved b.bytes_read valid))
      | inr e ↦ rw e (valid, refl, refl)
    ]

write-advance :
    (received : List ℕ) (b : RequestBuffer)
    → b.bytes_read + length received ≤ length b.body
    → b.bytes_read + length received < 2 ^ 32
    → IsValid (advance (length received) (write received b))
      × (held (advance (length received) (write received b)) ≡ held b ++ received)
unfolding write advance
write-advance received b room small =
    let front = take b.bytes_read b.body ++ received in
    let rest = drop (b.bytes_read + length received) b.body in
    let read : (b.bytes_read + length received % 2 ^ 32) % 2 ^ 32 ≡ length front = omega (
      arith,
      length-append (take b.bytes_read b.body) received,
      length-take b.bytes_read b.body (omega arith),
    ) in
    let valid : length front ≤ length (front ++ rest) = omega (arith, length-append front rest) in
    rw read (valid, take-append front rest (length front) 0 (omega arith) ∙ append-nil front)

receive_lem :
    (reserved received : List ℕ) (b : RequestBuffer)
    → IsValid b
    → b.bytes_read + length received ≤ length (mut_bytes reserved b).body
    → b.bytes_read + length received < 2 ^ 32
    → IsValid (receive reserved received b)
      × (held (receive reserved received b) ≡ held b ++ received)
unfolding receive
receive_lem reserved received b valid room small =
    let (_, same_read, same_held) = mut_bytes_lem reserved b valid in
    let (valid', e) =
      write-advance received (mut_bytes reserved b) (rw same_read room) (rw same_read small) in
    (valid', e ∙ ap (λ r. r ++ received) same_held)

module _ (is_utf8 : List ℕ → Bool) (max_values : ℕ) where
  unfoldable pub pop_value : RequestBuffer → Parsed Value × RequestBuffer
  pop_value b = elim (parse is_utf8 max_values (take b.bytes_read b.body)) [
    | parsed (value, rest) ↦ (parsed value, record { body = rest; bytes_read = length rest })
    | failed e ↦ (failed e, b)
    | panicked ↦ (panicked, b)
    | exhausted ↦ (exhausted, b)
  ]

  -- What happens to the buffer of a client: bytes arrive, or a value is asked for.
  unfoldable pub serve : List Event → RequestBuffer → List (Parsed Value)
  unfolding pop_value receive
  serve [] b = []
  serve (arrived reserved received ∷ es) b = serve es (receive reserved received b)
  serve (popped ∷ es) b = let (r, b') = pop_value b in r ∷ serve es b'

  -- The same of the plain sequence of the bytes that arrived and were not parsed yet.
  unfoldable pub parse_stream : List Event → List ℕ → List (Parsed Value)
  parse_stream [] bytes = []
  parse_stream (arrived reserved received ∷ es) bytes = parse_stream es (bytes ++ received)
  parse_stream (popped ∷ es) bytes = elim (parse is_utf8 max_values bytes) [
    | parsed (value, rest) ↦ parsed value ∷ parse_stream es rest
    | failed e ↦ failed e ∷ parse_stream es bytes
    | panicked ↦ panicked ∷ parse_stream es bytes
    | exhausted ↦ exhausted ∷ parse_stream es bytes
  ]

  -- The socket writes within the slice, and the buffer's length stays a `u32`.
  abbrev pub AreReceived : List Event → RequestBuffer → Type 0
  AreReceived [] b = Unit
  AreReceived (arrived reserved received ∷ es) b =
      (b.bytes_read + length received ≤ length (mut_bytes reserved b).body)
      × (b.bytes_read + length received < 2 ^ 32)
      × AreReceived es (receive reserved received b)
  AreReceived (popped ∷ es) b = AreReceived es (pop_value b).1

  -- `r` is what the parse ends with.
  serve-popped :
      (es : List Event)
      → ((b : RequestBuffer) (bytes : List ℕ)
          → IsValid b
          → held b ≡ bytes
          → AreReceived es b
          → serve es b ≡ parse_stream es bytes)
      → (b : RequestBuffer) (bytes : List ℕ) → IsValid b
      → held b ≡ bytes
      → AreReceived (popped ∷ es) b
      → (r : Parsed (Value × List ℕ)) → parse is_utf8 max_values bytes ≡ r
      → serve (popped ∷ es) b ≡ parse_stream (popped ∷ es) bytes
  unfolding serve parse_stream pop_value
  serve-popped es again b bytes valid same fit (parsed (value, rest)) e =
      let e' = ap (parse is_utf8 max_values) same ∙ e in
      rw (e, e', serve, parse_stream, pop_value)
        (ap (λ rs. parsed value ∷ rs)
          (again (record { body = rest; bytes_read = length rest }) rest (omega arith)
            (take_all rest) (rw (e', pop_value) at fit)))
  serve-popped es again b bytes valid same fit (failed x) e =
      let e' = ap (parse is_utf8 max_values) same ∙ e in
      rw (e, e', serve, parse_stream, pop_value)
        (ap (λ rs. failed x ∷ rs) (again b bytes valid same (rw (e', pop_value) at fit)))
  serve-popped es again b bytes valid same fit panicked e =
      let e' = ap (parse is_utf8 max_values) same ∙ e in
      rw (e, e', serve, parse_stream, pop_value)
        (ap (λ rs. panicked ∷ rs) (again b bytes valid same (rw (e', pop_value) at fit)))
  serve-popped es again b bytes valid same fit exhausted e =
      let e' = ap (parse is_utf8 max_values) same ∙ e in
      rw (e, e', serve, parse_stream, pop_value)
        (ap (λ rs. exhausted ∷ rs) (again b bytes valid same (rw (e', pop_value) at fit)))

  serve-parse_stream :
      (es : List Event) (b : RequestBuffer) (bytes : List ℕ)
      → IsValid b
      → held b ≡ bytes
      → AreReceived es b
      → serve es b ≡ parse_stream es bytes
  unfolding serve parse_stream pop_value
  serve-parse_stream [] b bytes valid same fit = refl
  serve-parse_stream (arrived reserved received ∷ es) b bytes valid same fit =
      let (valid', e) = receive_lem reserved received b valid fit.0 fit.1 in
      serve-parse_stream es (receive reserved received b) (bytes ++ received) valid'
        (e ∙ ap (λ r. r ++ received) same) fit.2
  serve-parse_stream (popped ∷ es) b bytes valid same fit =
      serve-popped es (serve-parse_stream es) b bytes valid same fit
        (parse is_utf8 max_values bytes) refl

  -- Whatever reads and parses a new request buffer goes through, the parses give what they would
  -- give on the plain sequence of the bytes that were received and not parsed yet, if each read
  -- wrote within the slice and the count of bytes stays a `u32`.
  pub new-serve : (es : List Event) → AreReceived es new → serve es new ≡ parse_stream es []
  unfolding new
  new-serve es fit = serve-parse_stream es new [] (omega arith) refl fit
