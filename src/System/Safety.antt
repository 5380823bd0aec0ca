-- ===== src/System/Safety.antt =====
-- src/server.rs: the event loop takes what the workers tell it without a panic.
use floki.Prelude.{
  ℕ, ◌≡◌, refl, ap, sym, subst, ◌∙◌, Outcome-cases, inl, inr, Option, none, some, List, [], ◌∷◌,
  Outcome, done, panic, ◌>>=◌, Returns,
}
use floki.Config.{QueueConfig}
use floki.Collections.{LinkedHashMap}
use floki.Channel.{InFlightState, QueueError}
use floki.Queue.{Name, InnerQueue, lookup}
use floki.Server.{WaitingClients, Server}
use floki.Server.Clients.{NotifyMessage, notify_server}
use floki.Server.Commands.{Queues}
use floki.Server.Commands.Notices.{deliver}
use floki.Server.Commands.Settings.{Json}
use floki.Server.Commands.Tables.{AreBoth, HasSameChannels, Mirrors}
use floki.Server.Start.{Disk}
use floki.System.Maps.{image, lookup-with_values}
use floki.System.Shape.{Shape, shape, shape_of, table_names, told_all, notify_server-told}
use floki.System.Commands.{queue_names, queues_shape}
use floki.System.Starting.{AreDifferent}
use floki.System.Steps.{System, Reachable}
use floki.System.Agreement.{Agreed, Reachable-Agrees}
use floki.System.Locking.{Held, free, storing, telling, yet_to_tell, with_stored}

-- The notices of a list, one after the other.
deliver-told :
    (msgs : List NotifyMessage) (s : Server) → shape_of (deliver msgs s) ≡ told_all msgs (shape s)
unfolding deliver told_all
deliver-told [] s = refl
deliver-told (msg ∷ msgs) s =
    let one = notify_server-told msg s in
    elim (Outcome-cases (notify_server msg s)) [
      | inl p ↦ rw (p, ◌>>=◌) (rw (sym (rw p at (one)), ◌>>=◌) refl)
      | inr (s', p) ↦ rw (p, ◌>>=◌) (rw (sym (rw p at (one)), ◌>>=◌) (deliver-told msgs s'))
    ]

abbrev got : {A : Type 0} → A → Option A → A
got a none = a
got a (some b) = b

abbrev outcome : {A : Type 0} → A → Outcome A → A
outcome a panic = a
outcome a (done b) = b

abbrev IsPanic : {A : Type 0} → Outcome A → Type 0
IsPanic panic = Unit
IsPanic (done _) = ⊥

images_both :
    {A B C : Type 0} (f : A → C) (g : B → C) (a : Option A) (b : Option B)
    → image f a ≡ image g b
    → AreBoth a b
images_both f g none none e = tt
images_both f g (some a) (some b) e = tt
images_both {A} {B} {C} f g none (some b) e = subst (λ o. AreBoth {A = C} none o) e tt
images_both {A} {B} {C} f g (some a) none e = subst (λ o. AreBoth {A = C} none o) (sym e) tt

module _ (L : LinkedHashMap InFlightState) (debug : QueueError → List ℕ) where
  same_channels :
      (q : Option (InnerQueue L)) (w : Option WaitingClients)
      → image (queue_names L debug) q ≡ image table_names w
      → HasSameChannels L debug q w
  same_channels none none e = tt
  same_channels (some q) (some w) e =
      let equal : queue_names L debug q ≡ table_names w = ap (got []) e in
      λ (ch : Name).
        images_both (λ _. tt) (λ _. tt) (lookup ch q.channels) (lookup ch w.channels)
          (sym (lookup-with_values (λ _. tt) ch q.channels)
            ∙ ap (lookup ch) equal
            ∙ lookup-with_values (λ _. tt) ch w.channels)
  same_channels none (some w) e = images_both (queue_names L debug) table_names none (some w) e
  same_channels (some q) none e = images_both (queue_names L debug) table_names (some q) none e

  pub shape-Mirrors :
      (qs : Queues L debug) (s : Server) → queues_shape L debug qs ≡ shape s → Mirrors L debug qs s
  unfolding shape queues_shape
  shape-Mirrors qs s e n = same_channels (lookup n qs) (lookup n s.waiting_clients) (
      sym (lookup-with_values (queue_names L debug) n qs)
      ∙ ap (lookup n) e
      ∙ lookup-with_values table_names n s.waiting_clients)

  shaped :
      (qs : Queues L debug) (o : Outcome Server)
      → shape_of o ≡ done (queues_shape L debug qs)
      → Returns (λ s. Mirrors L debug qs s) o
  shaped qs (done s) e = shape-Mirrors qs s (sym (ap (outcome []) e))
  shaped qs panic e = subst IsPanic e tt

  pub told_all-Returns :
      (qs : Queues L debug) (msgs : List NotifyMessage) (s : Server)
      → told_all msgs (shape s) ≡ done (queues_shape L debug qs)
      → Returns (λ s'. Mirrors L debug qs s') (deliver msgs s)
  told_all-Returns qs msgs s e = shaped qs (deliver msgs s) (deliver-told msgs s ∙ e)

  -- Notices that are on their way, and others behind them.
  told_all-later :
      (qs : Queues L debug) (pending ms : List NotifyMessage) (s : Server)
      → (told_all pending (shape s) >>= told_all ms) ≡ done (queues_shape L debug qs)
      → Returns (λ s'. Returns (λ s''. Mirrors L debug qs s'') (deliver ms s')) (deliver pending s)
  told_all-later qs pending ms s e = elim (Outcome-cases (deliver pending s)) [
    | inl p ↦
        let lost : panic ≡ told_all pending (shape s) = rw p at (deliver-told pending s) in
        absurd (subst IsPanic (rw (sym lost) at (e)) tt)
    | inr (s', p) ↦
        let there : done (shape s') ≡ told_all pending (shape s) =
          rw p at (deliver-told pending s) in
        rw p (told_all-Returns qs ms s' (rw (sym there) at (e)))
  ]

module _ (L : LinkedHashMap InFlightState) (debug : QueueError → List ℕ)
    (to_lowercase : List ℕ → List ℕ) (json : Json) where
  Agreed-told :
      (h : Held L) (qs : Queues L debug) (o : Outcome Shape)
      → Agreed L debug to_lowercase json h qs o
      → (o >>= told_all (yet_to_tell L h)) ≡ done (queues_shape L debug (with_stored L debug qs h))
  unfolding told_all
  Agreed-told free qs o agreed = rw agreed refl
  Agreed-told (storing name q) qs o agreed = rw agreed refl
  Agreed-told (telling ms) qs o agreed = agreed

  -- From the start on whatever the disk has, if no checkpoint of a queue names a channel twice, and
  -- after whatever steps of the workers, of the threads of maintenance and monitoring and of the
  -- event loop, those in the middle of a creation or a deletion too, the event loop takes all
  -- notices that are on their way, in order, without a panic. If nobody has the meta lock, or its
  -- holder has nothing left to tell or to store, the event loop then has a table for each queue
  -- with the same channels, and for nothing else. Otherwise this is so once what the holder has
  -- still to tell was told, which is taken without a panic too, and with the queue that it has
  -- still to store.
  pub Reachable-Mirrors :
      (disk : Disk L debug) (y : System L debug to_lowercase json)
      → ((c : QueueConfig) → AreDifferent L debug (disk.queue_checkpoint c))
      → Reachable L debug to_lowercase json disk y
      → Returns
          (λ s.
            Returns
              (λ s'. Mirrors L debug (with_stored L debug y.queues y.held) s')
              (deliver (yet_to_tell L y.held) s))
          (deliver y.pending y.server)
  Reachable-Mirrors disk y distinct reached =
      told_all-later L debug (with_stored L debug y.queues y.held) y.pending (yet_to_tell L y.held)
        y.server
        (Agreed-told y.held y.queues (told_all y.pending (shape y.server))
          (Reachable-Agrees L debug to_lowercase json distinct reached))
