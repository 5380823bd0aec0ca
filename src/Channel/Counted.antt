-- ===== src/Channel/Counted.antt =====
-- `expired_count` of src/queue.rs counts the entries at the front of the map that have expired: the
-- ones that `update_state` skips, and that `get` counts down from.
use floki.Prelude.{
  ℕ, zero, suc, ◌+◌, ◌-◌, ◌^◌, ◌≤◌, ◌<◌, ◌≡◌, ◌≢◌, refl, sym, ap, subst, true, inl, inr, none, some,
  Option-cases, Bool-cases, [], ◌∷◌, ◌++◌, arith, done, ltb, leb, ◌==◌, if◌then◌else◌, u32, ◌∙◌,
  length, length-append,
}
use floki.Segment.{sub_u32}
use floki.Backend.{QueueBackend, Message, message_id}
use floki.Collections.{LinkedHashMap, find, erase, front}
use floki.Channel.{
  InFlightState, Entries, QueueResult, expire, expire_after, expired, Channel, update_state,
  in_flight_count, hand_out, get, ack,
}
use floki.Channel.Tracked.{update_state-entries}
use floki.Channel.Delivery.{got, again, next, nothing, fresh_entries, fresh_after, taken_back}

-- The first `n` entries have expired, and no other.
abbrev pub IsPrefix : ℕ → Entries → Type 0
IsPrefix zero [] = Unit
IsPrefix zero ((t, s) ∷ es) = (s.expiration ≢ expired) × IsPrefix zero es
IsPrefix (suc n) [] = ⊥
IsPrefix (suc n) ((t, s) ∷ es) = (s.expiration ≡ expired) × IsPrefix n es

IsPrefix-le : (n : ℕ) (es : Entries) → IsPrefix n es → n ≤ length es
IsPrefix-le zero es p = ground arith
IsPrefix-le (suc n) [] p = absurd p
IsPrefix-le (suc n) (e ∷ es) p = let rest = IsPrefix-le n es p.1 in ground arith

expire-IsPrefix :
    (clock : ℕ) (es : Entries) → IsPrefix 0 es → IsPrefix (expire clock es).1 (expire clock es).0
unfolding expire
expire-IsPrefix clock [] p = tt
expire-IsPrefix clock ((t, s) ∷ es) p = elim (Bool-cases (leb s.expiration clock)) [
  | inl over ↦ rw (over, expire) (refl, expire-IsPrefix clock es p.1)
  | inr early ↦ rw (early, expire) p
]

expire_after-IsPrefix :
    (n clock : ℕ) (es : Entries)
    → IsPrefix n es
    → IsPrefix (n + (expire_after n clock es).1) (expire_after n clock es).0
unfolding expire_after
expire_after-IsPrefix zero clock es p =
    subst (λ m. IsPrefix m (expire clock es).0) (omega arith) (expire-IsPrefix clock es p)
expire_after-IsPrefix (suc n) clock [] p = absurd p
expire_after-IsPrefix (suc n) clock ((t, s) ∷ es) p =
    let (fs, k) = expire_after n clock es in
    let next : suc (n + k) ≡ suc n + k = omega arith in
    subst (λ m. IsPrefix m ((t, s) ∷ fs)) next (p.0, expire_after-IsPrefix n clock es p.1)

length-expire : (clock : ℕ) (es : Entries) → length (expire clock es).0 ≡ length es
unfolding expire
length-expire clock [] = refl
length-expire clock ((t, s) ∷ es) = ground (arith, length-expire clock es)

length-expire_after : (n clock : ℕ) (es : Entries) → length (expire_after n clock es).0 ≡ length es
unfolding expire_after
length-expire_after zero clock es = length-expire clock es
length-expire_after (suc n) clock [] = refl
length-expire_after (suc n) clock (e ∷ es) = ap suc (length-expire_after n clock es)

IsPrefix-snoc :
    (n t : ℕ) (s : InFlightState) (es : Entries)
    → s.expiration ≢ expired
    → IsPrefix n es
    → IsPrefix n (es ++ (t, s) ∷ [])
IsPrefix-snoc zero t s [] live p = (live, tt)
IsPrefix-snoc zero t s (e ∷ es) live p = (p.0, IsPrefix-snoc zero t s es live p.1)
IsPrefix-snoc (suc n) t s [] live p = absurd p
IsPrefix-snoc (suc n) t s (e ∷ es) live p = (p.0, IsPrefix-snoc n t s es live p.1)

-- Taking out an entry that has not expired leaves the count.
IsPrefix-erase :
    (n t : ℕ) (s : InFlightState) (es : Entries)
    → find t es ≡ some s
    → s.expiration ≢ expired
    → IsPrefix n es
    → IsPrefix n (erase t es)
IsPrefix-erase n t s [] e live p = cc
IsPrefix-erase zero t s ((i, r) ∷ es) e live p = elim (Bool-cases (i == t)) [
  | inl here ↦ rw here p.1
  | inr there ↦ rw there (p.0, IsPrefix-erase zero t s es (rw there at e) live p.1)
]
IsPrefix-erase (suc n) t s ((i, r) ∷ es) e live p = elim (Bool-cases (i == t)) [
  | inl here ↦ absurd (let same : r ≡ s = ground arith in live (rw same at p.0))
  | inr there ↦ rw there (p.0, IsPrefix-erase n t s es (rw there at e) live p.1)
]

-- Taking out the first entry.
IsPrefix-front :
    (n t : ℕ) (s : InFlightState) (es : Entries)
    → front es ≡ some (t, s)
    → IsPrefix n es
    → IsPrefix (if s.expiration == expired then n - 1 else n) (erase t es)
IsPrefix-front n t s [] f p = cc
IsPrefix-front zero t s ((i, r) ∷ es) f p =
    let here : (i == t) ≡ true = ground arith in
    elim (Bool-cases (s.expiration == expired)) [
      | inl is ↦ rw (is, here) p.1
      | inr not ↦ rw (not, here) p.1
    ]
IsPrefix-front (suc n) t s ((i, r) ∷ es) f p =
    let here : (i == t) ≡ true = ground arith in
    let same : r ≡ s = ground arith in
    let is : (s.expiration == expired) ≡ true = ground arith in
    let less : n ≡ suc n - 1 = omega arith in rw (is, here) (subst (λ m. IsPrefix m es) less p.1)

sub-add : (a b : ℕ) → b ≤ a → a < 2 ^ 32 → sub_u32 (u32 a) b + b ≡ a
sub-add a b le few = omega arith

length-erase : (t : ℕ) (es : Entries) → length (erase t es) ≤ length es
length-erase t [] = ground arith
length-erase t ((i, s) ∷ es) = ground (arith, length-erase t es)

-- The decrement of `get` is never of zero.
count-down :
    (n t : ℕ) (s : InFlightState) (es : Entries)
    → front es ≡ some (t, s)
    → IsPrefix n es
    → n < 2 ^ 32
    → (if s.expiration == expired then sub_u32 n 1 else n)
      ≡ (if s.expiration == expired then n - 1 else n)
count-down n t s [] f p few = cc
count-down zero t s ((i, r) ∷ es) f p few = ground (arith, p.0)
count-down (suc n) t s ((i, r) ∷ es) f p few = ground arith

module _ (L : LinkedHashMap InFlightState) where
  -- The count is that of the expired entries, and there are fewer than `2 ^ 32` entries.
  pub record IsCounted (c : Channel L) : Type 0 where
    pub expired_first : IsPrefix c.expired_count (L.entries c.in_flight_map)
    pub few : length (L.entries c.in_flight_map) < 2 ^ 32

  -- Marking expired entries keeps the count of expired entries equal to that of the marked entries,
  -- all at the front of the map, if there are fewer than 2 ^ 32 entries.
  update_state-IsCounted :
      (c : Channel L) (clock : ℕ) → IsCounted c → IsCounted (update_state L c clock)
  unfolding update_state
  update_state-IsCounted c clock k =
      let es = L.entries c.in_flight_map in
      let now = update_state-entries L c clock in
      let prefix = expire_after-IsPrefix c.expired_count clock es k.expired_first in
      let same = length-expire_after c.expired_count clock es in
      let fits = IsPrefix-le _ _ prefix in
      let few = k.few in
      record {
        expired_first = rw now (
            subst (λ n. IsPrefix n (expire_after c.expired_count clock es).0) (omega arith) prefix);
        few = rw (now, same) k.few;
      }

  -- If the count of expired entries is that of the marked entries at the front of the map, of fewer
  -- than 2 ^ 32, then the number in flight that is reported and the count after it make up the
  -- number of entries: the subtraction does not wrap.
  in_flight_count_lem :
      (c : Channel L) (clock : ℕ)
      → IsCounted c
      → (in_flight_count L c clock).1 + (in_flight_count L c clock).0.expired_count
        ≡ length (L.entries (in_flight_count L c clock).0.in_flight_map)
  unfolding in_flight_count
  in_flight_count_lem c clock k =
      let now = update_state-IsCounted c clock k in
      let fits = IsPrefix-le _ _ now.expired_first in
      let few = now.few in
      rw (L.len_entries (update_state L c clock).in_flight_map) (
        sub-add (length (L.entries (update_state L c clock).in_flight_map))
          (update_state L c clock).expired_count fits few)

  hand_out-IsCounted :
      (c : Channel L) (id ticket expiration : ℕ)
      → length (L.entries c.in_flight_map) + 1 < 2 ^ 32
      → find ticket (L.entries c.in_flight_map) ≡ none
      → expiration ≢ expired
      → IsCounted c
      → IsCounted (hand_out L c id ticket expiration)
  unfolding hand_out
  hand_out-IsCounted c id ticket expiration room fresh live k =
      let es = L.entries c.in_flight_map in
      let s : InFlightState = record { id = id; expiration = expiration } in
      let now = L.entries_insert ticket s c.in_flight_map fresh in
      let longer = length-append es ((ticket, s) ∷ []) in
      record {
        expired_first = rw now (IsPrefix-snoc c.expired_count ticket s es live k.expired_first);
        few = rw (now, longer) room;
      }

  taken_back-IsCounted :
      (c : Channel L) (clock old : ℕ) (s : InFlightState)
      → L.first c.in_flight_map ≡ some (old, s)
      → IsCounted c
      → IsCounted (taken_back L c clock old s)
  taken_back-IsCounted c clock old s f k =
      let es = L.entries c.in_flight_map in
      let front_is = sym (L.first_entries c.in_flight_map) ∙ f in
      let shorter = length-erase old es in
      let few = k.few in
      let fits = IsPrefix-le c.expired_count es k.expired_first in
      let counted = IsPrefix-front c.expired_count old s es front_is k.expired_first in
      let down = count-down c.expired_count old s es front_is k.expired_first (ground arith) in
      record {
        expired_first = rw (L.entries_remove old c.in_flight_map) (rw down counted);
        few = rw (L.entries_remove old c.in_flight_map) (ground arith);
      }

  -- If the count of expired entries is that of the marked entries, all at the front of the map, and
  -- there is room for one more of fewer than 2 ^ 32 entries, then a `get` that returns, whose
  -- ticket was not in use and whose expiration is not the mark 0, keeps this.
  pub get-IsCounted :
      (c c' : Channel L) (backend : QueueBackend) (message_timeout ticket clock : ℕ)
      (q : QueueResult (ℕ × Message))
      → IsCounted c
      → length (L.entries c.in_flight_map) + 1 < 2 ^ 32
      → L.get ticket c.in_flight_map ≡ none
      → u32 (clock + message_timeout) ≢ expired
      → get L c backend message_timeout ticket clock ≡ done (c', q)
      → IsCounted c'
  unfolding hand_out
  get-IsCounted c c' backend message_timeout ticket clock q k room fresh live h =
      let expiration = u32 (clock + message_timeout) in
      elim (got L c backend message_timeout ticket clock h) [
        | again old s m f over _ now _ ↦ subst IsCounted (sym now) (
            hand_out-IsCounted (taken_back L c clock old s) s.id ticket expiration
              (let shorter = length-erase old (L.entries c.in_flight_map) in
                rw (L.entries_remove old c.in_flight_map) (ground arith))
              (fresh_after L c ticket old fresh) live (taken_back-IsCounted c clock old s f k))
        | next m _ now _ ↦
            let base : Channel L = record c { last_touched = clock } in
            let given =
              hand_out-IsCounted base (message_id m) ticket expiration room
                (fresh_entries L c ticket fresh) live
                (record { expired_first = k.expired_first; few = k.few }) in
            subst IsCounted (sym now)
              (record { expired_first = given.expired_first; few = given.few })
        | nothing _ now _ ↦
            subst IsCounted (sym now) (record { expired_first = k.expired_first; few = k.few })
      ]

  -- An acknowledgement, accepted or refused, keeps the count of expired entries equal to that of
  -- the marked entries at the front of the map, though it never changes the count.
  ack-IsCounted :
      (c : Channel L) (ticket clock : ℕ) → IsCounted c → IsCounted (ack L c ticket clock).0
  unfolding ack
  ack-IsCounted c ticket clock k = elim (Option-cases (L.get ticket c.in_flight_map)) [
    | inl gone ↦ rw (gone, ack) (record { expired_first = k.expired_first; few = k.few })
    | inr (s, there) ↦ elim (Bool-cases (ltb clock s.expiration)) [
      | inl live ↦
          rw (there, live, ack)
            (let es = L.entries c.in_flight_map in
              let found = sym (L.get_entries ticket c.in_flight_map) ∙ there in
              let shorter = length-erase ticket es in
              let few = k.few in
              record {
                expired_first = rw (L.entries_remove ticket c.in_flight_map) (
                    IsPrefix-erase c.expired_count ticket s es found (λ e. ground arith)
                      k.expired_first);
                few = rw (L.entries_remove ticket c.in_flight_map) (ground arith);
              })
      | inr late ↦ rw (there, late, ack) (record { expired_first = k.expired_first; few = k.few })
    ]
  ]
