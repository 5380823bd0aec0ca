-- ===== src/Server/Commands/Tables.antt =====
-- The map of queues of src/server.rs and the event loop's tables of waiting clients, with the same
-- queues and channels.
use floki.Prelude.{
  ℕ, ◌≡◌, refl, ap, subst, ◌∙◌, Bool-cases, true, false, Option-cases, inl, inr, Option, none, some,
  List, [], ◌∷◌, ◌++◌, arith, same, ◌⊎◌, if◌then◌else◌,
}
use floki.Collections.{LinkedHashMap}
use floki.Channel.{InFlightState, QueueError, QueueResult, ok, err}
use floki.Queue.{Name, InnerQueue, lookup, replace}
use floki.Server.{WaitingClients, Server}
use floki.Server.Commands.{Queues}

pub QueueResult-cases :
    {A : Type 0} (r : QueueResult A) → ((e : QueueError) × (r ≡ err e)) ⊎ ((a : A) × (r ≡ ok a))
QueueResult-cases (ok a) = inr (a, refl)
QueueResult-cases (err e) = inl (e, refl)

same_sound : (a b : List ℕ) → same a b ≡ true → a ≡ b
same_sound [] [] e = refl
same_sound [] (d ∷ ds) e = ground arith
same_sound (c ∷ cs) [] e = ground arith
same_sound (c ∷ cs) (d ∷ ds) e = ground (arith, same_sound cs ds)

pub same_refl : (a : List ℕ) → same a a ≡ true
same_refl [] = refl
same_refl (c ∷ cs) = ground (arith, same_refl cs)

module _ {V : Type 0} where
  pub lookup-snoc :
      (m n : Name) (v : V) (es : List (Name × V))
      → lookup m (es ++ (n, v) ∷ [])
        ≡ elim (lookup m es) [ some u ↦ some u | none ↦ if same n m then some v else none ]
  lookup-snoc m n v [] = refl
  lookup-snoc m n v ((k, u) ∷ es) = ground (arith, lookup-snoc m n v es)

  pub lookup-replace_same :
      (n : Name) (w v : V) (es : List (Name × V))
      → lookup n es ≡ some v
      → lookup n (replace n w es) ≡ some w
  lookup-replace_same n w v [] e = ground arith
  lookup-replace_same n w v ((k, u) ∷ es) e = ground (arith, lookup-replace_same n w v es)

  pub lookup-replace_other :
      (m n : Name) (w : V) (es : List (Name × V))
      → same n m ≡ false
      → lookup m (replace n w es) ≡ lookup m es
  lookup-replace_other m n w [] e = refl
  lookup-replace_other m n w ((k, u) ∷ es) e = elim (Bool-cases (same k n)) [
    | inl b ↦
        let not_m : same k m ≡ false = ap (λ j. same j m) (same_sound k n b) ∙ e in
        rw (b, not_m) refl
    | inr b ↦ ground (arith, b, lookup-replace_other m n w es e)
  ]

abbrev pub AreBoth : {A B : Type 0} → Option A → Option B → Type 0
AreBoth none none = Unit
AreBoth (some _) (some _) = Unit
AreBoth none (some _) = ⊥
AreBoth (some _) none = ⊥

module _ (L : LinkedHashMap InFlightState) (debug : QueueError → List ℕ) where
  -- A queue and its table have the same channels.
  abbrev pub HasSameChannels : Option (InnerQueue L) → Option WaitingClients → Type 0
  HasSameChannels none none = Unit
  HasSameChannels (some q) (some w) =
      (ch : Name) → AreBoth (lookup ch q.channels) (lookup ch w.channels)
  HasSameChannels none (some w) = ⊥
  HasSameChannels (some q) none = ⊥

  -- The event loop has a table for each queue, and for nothing else.
  abbrev pub Mirrors : Queues L debug → Server → Type 0
  Mirrors qs s = (n : Name) → HasSameChannels (lookup n qs) (lookup n s.waiting_clients)

  -- What is found of a queue that is mirrored.
  pub table_of :
      (name : Name) (q : InnerQueue L) (qs : Queues L debug) (s : Server)
      → Mirrors qs s
      → lookup name qs ≡ some q
      → (w : WaitingClients) × (lookup name s.waiting_clients ≡ some w)
        × HasSameChannels (some q) (some w)
  table_of name q qs s mirrors e = elim (Option-cases (lookup name s.waiting_clients)) [
    | inl p ↦ absurd (rw (e, p) at (mirrors name))
    | inr (w, p) ↦ (w, p, (rw (e, p) at (mirrors name)))
  ]

  -- The queue is exchanged for one with the channels of the table, in which that of the queue may have
  -- been exchanged too.
  pub replace-Mirrors :
      (name : Name) (q q' : InnerQueue L) (w' : WaitingClients) (qs : Queues L debug)
      (s s' : Server)
      → Mirrors qs s
      → lookup name qs ≡ some q
      → lookup name s'.waiting_clients ≡ some w'
      → ((m : Name)
          → same name m ≡ false
          → lookup m s'.waiting_clients ≡ lookup m s.waiting_clients)
      → HasSameChannels (some q') (some w')
      → Mirrors (replace name q' qs) s'
  replace-Mirrors name q q' w' qs s s' mirrors e e' others here m =
      elim (Bool-cases (same name m)) [
        | inl b ↦
            let at_name : HasSameChannels (lookup name (replace name q' qs))
                (lookup name s'.waiting_clients) =
              rw (lookup-replace_same name q' q qs e, e') here in
            subst
              (λ n. HasSameChannels (lookup n (replace name q' qs)) (lookup n s'.waiting_clients))
              (same_sound name m b) at_name
        | inr b ↦ rw (lookup-replace_other m name q' qs b, others m b) (mirrors m)
      ]

  -- A channel at the end of both lists.
  pub channel_added :
      {A B : Type 0} (ch : Name) (a : A) (b : B) (es : List (Name × A)) (fs : List (Name × B))
      → ((n : Name) → AreBoth (lookup n es) (lookup n fs))
      → (n : Name) → AreBoth (lookup n (es ++ (ch, a) ∷ [])) (lookup n (fs ++ (ch, b) ∷ []))
  channel_added ch a b es fs both n = elim (Option-cases (lookup n es)) [
    | inl p ↦ elim (Option-cases (lookup n fs)) [
      | inl p' ↦ elim (Bool-cases (same ch n)) [
        | inl c ↦ rw (lookup-snoc n ch a es, lookup-snoc n ch b fs) (rw (p, p') (rw c tt))
        | inr c ↦ rw (lookup-snoc n ch a es, lookup-snoc n ch b fs) (rw (p, p') (rw c tt))
      ]
      | inr (v, p') ↦ absurd (rw (p, p') at (both n))
    ]
    | inr (u, p) ↦ elim (Option-cases (lookup n fs)) [
      | inl p' ↦ absurd (rw (p, p') at (both n))
      | inr (v, p') ↦ rw (lookup-snoc n ch a es, lookup-snoc n ch b fs) (rw (p, p') tt)
    ]
  ]

  pub no_table :
      (ch : Name) (q : InnerQueue L) (w : WaitingClients)
      → HasSameChannels (some q) (some w)
      → lookup ch q.channels ≡ none
      → lookup ch w.channels ≡ none
  no_table ch q w both e = elim (Option-cases (lookup ch w.channels)) [
    | inl p ↦ p
    | inr (ws, p) ↦ absurd (rw (e, p) at (both ch))
  ]

  pub unknown_queue :
      (name : Name) (qs : Queues L debug) (s : Server)
      → Mirrors qs s
      → lookup name qs ≡ none
      → lookup name s.waiting_clients ≡ none
  unknown_queue name qs s mirrors e = elim (Option-cases (lookup name s.waiting_clients)) [
    | inl p ↦ p
    | inr (w, p) ↦ absurd (rw (e, p) at (mirrors name))
  ]

  pub queue_added :
      (name : Name) (q : InnerQueue L) (w : WaitingClients) (qs : Queues L debug) (s : Server)
      → Mirrors qs s
      → HasSameChannels (some q) (some w)
      → Mirrors
          (qs ++ (name, q) ∷ [])
          (record s { waiting_clients = s.waiting_clients ++ (name, w) ∷ [] })
  queue_added name q w qs s mirrors both n = elim (Option-cases (lookup n qs)) [
    | inl p ↦
        let p' = unknown_queue n qs s mirrors p in
        elim (Bool-cases (same name n)) [
          | inl c ↦
              rw (lookup-snoc n name q qs, lookup-snoc n name w s.waiting_clients)
                (rw (p, p') (rw c both))
          | inr c ↦
              rw (lookup-snoc n name q qs, lookup-snoc n name w s.waiting_clients)
                (rw (p, p') (rw c tt))
        ]
    | inr (u, p) ↦
        let (v, p', both') = table_of n u qs s mirrors p in
        rw (lookup-snoc n name q qs, lookup-snoc n name w s.waiting_clients) (rw (p, p') both')
  ]
