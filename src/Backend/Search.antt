-- ===== src/Backend/Search.antt =====
-- `QueueBackend::find_id_for_timestamp`: the window of the search, and the search in it.
pub mod Boundary
use floki.Prelude.{
  ℕ, zero, suc, ◌+◌, ◌-◌, ◌/◌, ◌≤◌, ◌<◌, ◌≡◌, refl, ap, sym, subst, ◌∙◌, Bool, Bool-cases, true,
  false, inl, inr, Option, Option-cases, Outcome-cases, none, some, List, [], ◌∷◌, ◌++◌, Outcome,
  done, panic, Returns, arith, leb, ltb, if◌then◌else◌,
}
use floki.Segment.{Segment}
use floki.Segment.Push.{IsValid}
use floki.Backend.{
  QueueBackend, Message, message_id, message_timestamp, get, narrow, search_timestamp,
  find_id_for_timestamp,
}
use floki.Backend.Invariant.{Inv, Linked, tail-le-head, last_head-snoc}
use floki.Backend.Upkeep.{last_head}

narrow-snoc :
    (ss : List Segment) (s : Segment) (timestamp tail head : ℕ)
    → narrow (ss ++ s ∷ []) timestamp tail head
      ≡ (let r = narrow ss timestamp tail head in narrow (s ∷ []) timestamp r.0 r.1)
unfolding narrow
narrow-snoc [] s timestamp tail head = refl
narrow-snoc (t ∷ ss) s timestamp tail head = narrow-snoc ss s timestamp _ _

one_turn :
    (timestamp tail head tail' head' : ℕ)
    → 0 < timestamp
    → ◌≡◌ {A = ℕ × ℕ}
        (if ltb 0 timestamp then tail else tail', if ltb timestamp 0 then head else head')
        (tail, head')
one_turn timestamp tail head tail' head' h =
    let yes : ltb 0 timestamp ≡ true = ground arith in
    let no : ltb timestamp 0 ≡ false = ground arith in rw (yes, no) refl

pub closed_window :
    (b : QueueBackend) (timestamp tail head : ℕ)
    → head ≤ tail
    → search_timestamp (suc (head - tail)) b timestamp tail head ≡ done (some tail)
unfolding search_timestamp
closed_window b timestamp tail head h =
    let no : ltb tail head ≡ false = ground arith in rw (no, search_timestamp) refl

module _ (xxhash : List ℕ → ℕ) where
  low-le-tail :
      (lo : ℕ) (ss : List Segment) (s : Segment) → Linked xxhash lo (ss ++ s ∷ []) → lo ≤ s.tail
  low-le-tail lo [] s l = l.0
  low-le-tail lo (t ∷ ss) s l =
      omega (arith, low-le-tail t.head ss s l.2, tail-le-head xxhash t l.1, l.0)

  narrow-le-tail :
      (lo : ℕ) (ss : List Segment) (s : Segment) (timestamp tail head : ℕ)
      → Linked xxhash lo (ss ++ s ∷ [])
      → head ≤ s.tail
      → (narrow ss timestamp tail head).1 ≤ s.tail
  unfolding narrow
  narrow-le-tail lo [] s timestamp tail head l h = h
  narrow-le-tail lo (t ∷ ss) s timestamp tail head l h =
      narrow-le-tail t.head ss s timestamp _ _ l.2 (ground (arith, low-le-tail t.head ss s l.2, h))

  -- On a valid log that ends with a segment without messages, whose timestamps are 0, the search
  -- for any timestamp above 0 gives the head of the log, whatever messages are before it.
  pub find_id_for_timestamp_skips :
      (b : QueueBackend) (ss : List Segment) (s : Segment) (timestamp : ℕ)
      → Inv xxhash b
      → b.segments ≡ ss ++ s ∷ []
      → s.tail ≡ s.head
      → s.first_timestamp ≡ 0
      → s.last_timestamp ≡ 0
      → 0 < timestamp
      → find_id_for_timestamp b timestamp ≡ done (some b.head)
  unfolding find_id_for_timestamp search_timestamp narrow
  find_id_for_timestamp_skips b ss s timestamp v e empty first last h =
      let r = narrow ss timestamp b.tail b.head in
      let at_head : s.head ≡ b.head =
        sym (last_head-snoc b.head ss s) ∙ ap (last_head b.head) (sym e) ∙ v.ends in
      let linked : Linked xxhash 0 (ss ++ s ∷ []) = subst (Linked xxhash 0) e v.linked in
      let below : r.1 ≤ s.tail =
        narrow-le-tail 0 ss s timestamp b.tail b.head linked (omega (arith, at_head, empty)) in
      let window : narrow b.segments timestamp b.tail b.head ≡ (s.tail, r.1) =
        rw (e, narrow-snoc ss s timestamp b.tail b.head)
          (rw (first, last) (one_turn timestamp s.tail s.head r.0 r.1 h)) in
      rw (window, find_id_for_timestamp)
        (closed_window b timestamp s.tail r.1 below ∙ ap (λ i. done (some i)) (empty ∙ at_head))
