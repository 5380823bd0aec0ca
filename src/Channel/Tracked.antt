-- ===== src/Channel/Tracked.antt =====
-- A channel's heap covers its map: each message that is out has its id and ticket in the heap. So the
-- real tail of the channel (`Channel::real_tail` of src/queue.rs) never passes such a message.
use floki.Prelude.{
  ℕ, zero, suc, ◌≤◌, ◌≡◌, ◌≢◌, refl, sym, ap, subst, inl, inr, none, some, Option-cases, Bool-cases,
  List, [], ◌∷◌, ◌++◌, arith, All, All-imp, All-append, ◌∙◌, ltb,
}
use floki.Collections.{LinkedHashMap, find, erase, keys}
use floki.Collections.Entries.{
  find-erase_same, All-erase, All-find, All-found, Distinct, Distinct-erase, Distinct-snoc,
}
use floki.Heap
use floki.Heap.{Pending}
use floki.Heap.Order.{In, IsSorted, In-push, In-push_self, push-IsSorted}
use floki.Channel.{
  InFlightState, Entries, expire, expire_after, Channel, new, real_tail, update_state, hand_out,
  advance, ack, purge,
}

-- Ticket and message id of each entry.
abbrev pub ids : Entries → List (ℕ × ℕ)
ids [] = []
ids ((t, s) ∷ es) = (t, s.id) ∷ ids es

find-ids :
    (t : ℕ) (es : Entries) → find t (ids es) ≡ elim (find t es) [ none ↦ none | some s ↦ some s.id ]
find-ids t [] = refl
find-ids t ((i, s) ∷ es) = ground (arith, find-ids t es)

find-ids-some :
    (t : ℕ) (es : Entries) {s : InFlightState} → find t es ≡ some s → find t (ids es) ≡ some s.id
find-ids-some t es h = rw (find-ids t es, h) refl

find-ids-none : (t : ℕ) (es : Entries) → find t es ≡ none → find t (ids es) ≡ none
find-ids-none t es h = rw (find-ids t es, h) refl

ids-erase : (t : ℕ) (es : Entries) → ids (erase t es) ≡ erase t (ids es)
ids-erase t [] = refl
ids-erase t ((i, s) ∷ es) = ground (arith, ids-erase t es)

pub find-ids_erased : (t : ℕ) (es : Entries) → Distinct (ids es) → find t (erase t es) ≡ none
find-ids_erased t es d =
    let gone = find-erase_same t (ids es) d in
    let same = ids-erase t es in
    let look = find-ids t (erase t es) in
    elim (Option-cases (find t (erase t es))) [ inl e ↦ e | inr (s, e) ↦ absurd (ground arith) ]

ids-snoc :
    (t : ℕ) (s : InFlightState) (es : Entries) → ids (es ++ (t, s) ∷ []) ≡ ids es ++ (t, s.id) ∷ []
ids-snoc t s [] = refl
ids-snoc t s (e ∷ es) = ap (λ r. (e.0, e.1.id) ∷ r) (ids-snoc t s es)

ids-expire : (clock : ℕ) (es : Entries) → ids (expire clock es).0 ≡ ids es
unfolding expire
ids-expire clock [] = refl
ids-expire clock ((t, s) ∷ es) = ground (arith, ids-expire clock es)

ids-expire_after : (k clock : ℕ) (es : Entries) → ids (expire_after k clock es).0 ≡ ids es
unfolding expire_after
ids-expire_after zero clock es = ids-expire clock es
ids-expire_after (suc k) clock [] = refl
ids-expire_after (suc k) clock (e ∷ es) = ap (λ r. (e.0, e.1.id) ∷ r) (ids-expire_after k clock es)

keys-ids : (es fs : Entries) → ids es ≡ ids fs → keys es ≡ keys fs
keys-ids [] [] h = refl
keys-ids [] (f ∷ fs) h = cc
keys-ids (e ∷ es) [] h = cc
keys-ids ((t, s) ∷ es) ((u, r) ∷ fs) h = let rest = keys-ids es fs in ground arith

-- What the heap has to hold for the entries.
pub record Covers (h : List Pending) (es : List (ℕ × ℕ)) : Type 0 where
  pub sorted : IsSorted h
  pub held : All (λ e. In (e.1, e.0) h) es
  pub distinct : Distinct es

Covers-erase : (t : ℕ) {h : List Pending} {es : List (ℕ × ℕ)} → Covers h es → Covers h (erase t es)
Covers-erase t {h} {es} c = record {
  sorted = c.sorted;
  held = All-erase (λ e. In (e.1, e.0) h) t es c.held;
  distinct = Distinct-erase t es c.distinct;
}

Covers-snoc :
    (t i : ℕ) {h : List Pending} {es : List (ℕ × ℕ)}
    → find t es ≡ none
    → Covers h es
    → Covers (Heap.push (i, t) h) (es ++ (t, i) ∷ [])
Covers-snoc t i {h} {es} fresh c = record {
  sorted = push-IsSorted (i, t) h c.sorted;
  held =
      All-append (λ e. In (e.1, e.0) (Heap.push (i, t) h)) es ((t, i) ∷ [])
        (All-imp (λ e k. In-push (i, t) (e.1, e.0) h k) es c.held) (In-push_self (i, t) h, tt);
  distinct = Distinct-snoc t i es fresh c.distinct;
}

-- The top of the heap is below all that it covers.
top-le :
    (i t : ℕ) (h : List Pending)
    → IsSorted h
    → In (i, t) h
    → (q : Pending) → Heap.peek h ≡ some q
    → q.0 ≤ i
top-le i t [] s k q e = absurd k
top-le i t (p ∷ h) s k q e = elim k [
  | inl same ↦ ground arith
  | inr later ↦ let below = In-All i t h s.0 later in ground arith
]
  where
    In-All : {n : ℕ} (i t : ℕ) (h : List Pending) → All (λ q. n ≤ q.0) h → In (i, t) h → n ≤ i
    In-All i t [] a k = absurd k
    In-All i t (p ∷ h) a k = elim k [ inl same ↦ ground arith | inr later ↦ In-All i t h a.1 later ]

nothing-In : (p : Pending) (h : List Pending) → In p h → Heap.peek h ≢ none
nothing-In p [] k e = k
nothing-In p (q ∷ h) k e = cc

All-both :
    (P Q : ℕ × ℕ → Type 0) (es : List (ℕ × ℕ)) → All P es → All Q es → All (λ e. P e × Q e) es
All-both P Q [] p q = tt
All-both P Q (e ∷ es) p q = ((p.0, q.0), All-both P Q es p.1 q.1)

module _ (L : LinkedHashMap InFlightState) where
  pub record IsTracked (c : Channel L) : Type 0 where
    pub covers : Covers c.in_flight_heap (ids (L.entries c.in_flight_map))

  In-advance :
      (i t : ℕ) (m : L.Map) (h : List Pending)
      → L.get t m ≢ none
      → In (i, t) h
      → In (i, t) (advance L m h)
  unfolding advance
  In-advance i t m [] out k = absurd k
  In-advance i t m ((j, u) ∷ h) out k = elim (Option-cases (L.get u m)) [
    | inl gone ↦
        rw (gone, advance)
          (elim k [ inl same ↦ absurd (ground arith) | inr later ↦ In-advance i t m h out later ])
    | inr (s, there) ↦ rw (there, advance) k
  ]

  advance-IsSorted : (m : L.Map) (h : List Pending) → IsSorted h → IsSorted (advance L m h)
  unfolding advance
  advance-IsSorted m [] s = tt
  advance-IsSorted m ((j, u) ∷ h) s = elim (Option-cases (L.get u m)) [
    | inl gone ↦ rw (gone, advance) (advance-IsSorted m h s.1)
    | inr (_, there) ↦ rw (there, advance) s
  ]

  -- On a channel whose heap covers its map, the real tail is at most the id of each message in
  -- flight.
  pub real_tail-le :
      (c : Channel L) (t : ℕ) (s : InFlightState)
      → IsTracked c
      → L.get t c.in_flight_map ≡ some s
      → real_tail L c ≤ s.id
  unfolding real_tail
  real_tail-le c t s k e =
      let h = c.in_flight_heap in
      let there =
        find-ids-some t (L.entries c.in_flight_map) (sym (L.get_entries t c.in_flight_map) ∙ e) in
      let held =
        All-find (λ x. In (x.1, x.0) h) t (ids (L.entries c.in_flight_map)) k.covers.held there in
      elim (Option-cases (Heap.peek h)) [
        | inl empty ↦ absurd (nothing-In (s.id, t) h held empty)
        | inr (q, top) ↦ rw (top, real_tail) (top-le s.id t h k.covers.sorted held q top)
      ]

  new-IsTracked : (last_touched tail : ℕ) → IsTracked (new L last_touched tail)
  unfolding new
  new-IsTracked last_touched tail = record {
    covers = rw L.entries_empty (record { sorted = tt; held = tt; distinct = tt });
  }

  purge-IsTracked : (c : Channel L) (tail : ℕ) → IsTracked (purge L c tail)
  unfolding purge
  purge-IsTracked c tail = record {
    covers = rw L.entries_empty (record { sorted = tt; held = tt; distinct = tt });
  }

  pub update_state-entries :
      (c : Channel L) (clock : ℕ)
      → L.entries (update_state L c clock).in_flight_map
        ≡ (expire_after c.expired_count clock (L.entries c.in_flight_map)).0
  unfolding update_state
  update_state-entries c clock =
      let es = L.entries c.in_flight_map in
      let f : Entries → Entries = λ old. (expire_after c.expired_count clock old).0 in
      L.entries_iter_mut f c.in_flight_map
        (keys-ids (f es) es (ids-expire_after c.expired_count clock es))

  -- Marking expired entries keeps the heap covering the map.
  update_state-IsTracked :
      (c : Channel L) (clock : ℕ) → IsTracked c → IsTracked (update_state L c clock)
  unfolding update_state
  update_state-IsTracked c clock k = record {
    covers =
        rw
          (
            update_state-entries c clock,
            ids-expire_after c.expired_count clock (L.entries c.in_flight_map),
          )
          k.covers;
  }

  -- Handing out under a ticket that no entry has.
  pub hand_out-IsTracked :
      (c : Channel L) (id ticket expiration : ℕ)
      → find ticket (L.entries c.in_flight_map) ≡ none
      → IsTracked c
      → IsTracked (hand_out L c id ticket expiration)
  unfolding hand_out
  hand_out-IsTracked c id ticket expiration fresh k =
      let es = L.entries c.in_flight_map in
      let s : InFlightState = record { id = id; expiration = expiration } in
      record {
        covers =
            rw (L.entries_insert ticket s c.in_flight_map fresh, ids-snoc ticket s es)
              (Covers-snoc ticket id (find-ids-none ticket es fresh) k.covers);
      }

  pub remove-Covers :
      (t : ℕ) (m : L.Map) {h : List Pending}
      → Covers h (ids (L.entries m))
      → Covers h (ids (L.entries (L.remove t m)))
  remove-Covers t m {h} k =
      subst (Covers h) (sym (ap ids (L.entries_remove t m) ∙ ids-erase t (L.entries m)))
        (Covers-erase t k)

  acknowledged :
      (ticket : ℕ) (m : L.Map) (h : List Pending)
      → Covers h (ids (L.entries m))
      → Covers (advance L (L.remove ticket m) h) (ids (L.entries (L.remove ticket m)))
  acknowledged ticket m h k =
      let m' = L.remove ticket m in
      let left = remove-Covers ticket m k in
      let es = ids (L.entries m') in
      record {
        sorted = advance-IsSorted m' h k.sorted;
        held =
            All-imp
              (λ e both.
                In-advance e.1 e.0 m' h
                  (λ gone.
                    both.1 (find-ids-none e.0 (L.entries m') (sym (L.get_entries e.0 m') ∙ gone)))
                  both.0)
              es (All-both _ _ es left.held (All-found es));
        distinct = left.distinct;
      }

  -- An acknowledgement, accepted or refused, keeps the heap covering the map, though it drops
  -- entries from the top of the heap.
  ack-IsTracked :
      (c : Channel L) (ticket clock : ℕ) → IsTracked c → IsTracked (ack L c ticket clock).0
  unfolding ack
  ack-IsTracked c ticket clock k = elim (Option-cases (L.get ticket c.in_flight_map)) [
    | inl gone ↦ rw (gone, ack) (record { covers = k.covers })
    | inr (s, there) ↦ elim (Bool-cases (ltb clock s.expiration)) [
      | inl live ↦
          rw (there, live, ack)
            (record { covers = acknowledged ticket c.in_flight_map c.in_flight_heap k.covers })
      | inr late ↦ rw (there, late, ack) (record { covers = k.covers })
    ]
  ]
