-- ===== src/Protocol/Responses.antt =====
-- src/protocol.rs, `ResponseBuffer`: what a client is sent. The socket takes what it can, and the
-- rest waits.
use floki.Prelude.{
  ℕ, ◌+◌, ◌-◌, ◌≤◌, ◌≡◌, ap, sym, ◌∙◌, List, [], ◌∷◌, ◌++◌, append-nil, arith, ◌==◌, if◌then◌else◌,
  length, length-append, take, drop, drop-drop, append_assoc, drop_all, drop-within,
  take-append-drop,
}
use floki.Protocol.{Value, serialize}

-- `body` from `bytes_written` on is still to be written.
pub record ResponseBuffer : Type 0 where
  body : List ℕ
  bytes_written : ℕ

unfoldable pub new : ResponseBuffer
new = record { body = []; bytes_written = 0 }

unfoldable pub push_value : Value → ResponseBuffer → ResponseBuffer
push_value value b = record b { body = b.body ++ serialize value }

unfoldable pub remaining : ResponseBuffer → ℕ
remaining b = length b.body - b.bytes_written

unfoldable pub advance : ℕ → ResponseBuffer → ResponseBuffer
advance cnt b =
    if b.bytes_written + cnt == length b.body
    then record { body = []; bytes_written = 0 }
    else record b { bytes_written = b.bytes_written + cnt }

-- `bytes`.
unfoldable pub pending : ResponseBuffer → List ℕ
pending b = drop b.bytes_written b.body

-- What happens to the buffer of a client: a value is to be sent, or the socket took so many bytes of
-- the pending ones.
pub data Event : Type 0 where
  pushed : Value → Event
  taken : ℕ → Event

-- The bytes that the socket took, and the buffer that is left.
unfoldable pub sends : List Event → ResponseBuffer → List ℕ × ResponseBuffer
unfolding push_value advance pending
sends [] b = ([], b)
sends (pushed v ∷ es) b = sends es (push_value v b)
sends (taken n ∷ es) b = let (out, b') = sends es (advance n b) in (take n (pending b) ++ out, b')

-- What the values of the events are in bytes.
unfoldable pub serialized : List Event → List ℕ
serialized [] = []
serialized (pushed v ∷ es) = serialize v ++ serialized es
serialized (taken n ∷ es) = serialized es

abbrev pub IsValid : ResponseBuffer → Type 0
IsValid b = b.bytes_written ≤ length b.body

-- The socket takes no more than there is.
abbrev pub AreWritten : List Event → ResponseBuffer → Type 0
AreWritten [] b = Unit
AreWritten (pushed v ∷ es) b = AreWritten es (push_value v b)
AreWritten (taken n ∷ es) b = (n ≤ remaining b) × AreWritten es (advance n b)

push_value-IsValid : (v : Value) (b : ResponseBuffer) → IsValid b → IsValid (push_value v b)
unfolding push_value
push_value-IsValid v b valid = omega (arith, length-append b.body (serialize v))

pending-push_value :
    (v : Value) (b : ResponseBuffer)
    → IsValid b
    → pending (push_value v b) ≡ pending b ++ serialize v
unfolding push_value pending
pending-push_value v b valid = drop-within b.body (serialize v) b.bytes_written valid

advance-IsValid : (n : ℕ) (b : ResponseBuffer) → IsValid b → n ≤ remaining b → IsValid (advance n b)
unfolding advance remaining
advance-IsValid n b valid h = ground arith

pending-advance : (n : ℕ) (b : ResponseBuffer) → pending (advance n b) ≡ drop n (pending b)
unfolding advance pending
pending-advance n b = ground (arith, drop-drop b.bytes_written n b.body, drop_all b.body)

sends-serialized :
    (es : List Event) (b : ResponseBuffer)
    → IsValid b
    → AreWritten es b
    → (sends es b).0 ++ pending (sends es b).1 ≡ pending b ++ serialized es
unfolding sends serialized
sends-serialized [] b valid fit = sym (append-nil (pending b))
sends-serialized (pushed v ∷ es) b valid fit =
    sends-serialized es (push_value v b) (push_value-IsValid v b valid) fit
    ∙ rw (pending-push_value v b valid) (append_assoc (pending b) (serialize v) (serialized es))
sends-serialized (taken n ∷ es) b valid fit =
    append_assoc (take n (pending b)) (sends es (advance n b)).0
      (pending (sends es (advance n b)).1)
    ∙ ap (λ r. take n (pending b) ++ r)
        (sends-serialized es (advance n b) (advance-IsValid n b valid fit.0) fit.1)
    ∙ rw (pending-advance n b) (
        sym (append_assoc (take n (pending b)) (drop n (pending b)) (serialized es))
        ∙ ap (λ r. r ++ serialized es) (take-append-drop n (pending b)))

-- Whatever values are pushed to a new response buffer and however many of the pending bytes the
-- socket takes each time, what it took and what is still pending together are the serialized
-- values, in order.
pub new-sends :
    (es : List Event)
    → AreWritten es new
    → (sends es new).0 ++ pending (sends es new).1 ≡ serialized es
unfolding new serialized pending
new-sends es fit = sends-serialized es new (omega arith) fit
