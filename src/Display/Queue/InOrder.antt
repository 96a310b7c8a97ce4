-- ===== src/Display/Queue/InOrder.antt =====
-- queueBuffer of BufferQueueProducer.cpp: in every run of the threads the callbacks come in the
-- order in which the buffers were queued, and none waits for ever.
use osdi_artifact.Prelude.{
  ℕ, suc, ◌+◌, ◌≤◌, ◌<◌, ◌==◌, ℤ, true, some, List, [], ◌∷◌, ◌++◌, length, get_elem?, take, ◌≡◌,
  refl, sym, ap, ◌∙◌, subst, length-append, arith, Bool-cases, inl, inr,
}
use osdi_artifact.Display.Queue.State.{Queue, Core}
use osdi_artifact.Display.Queue.Enqueue.{Input, Sent, sends, queue_buffer}
use osdi_artifact.Display.Queue.Found.{All}
use osdi_artifact.Display.Queue.Tickets.{
  Threads, Step, queues, calls, changes, Reach, here, next, IsInitial, call_back,
}
use osdi_artifact.Display.Queue.Tickets.Order.{
  IsOrdered, Placed, has_ticket, queue_buffer-Takes, Placed-append, All-append, All-split,
  has_ticket-append, has_ticket-without,
}
use osdi_artifact.Prelude.{get_elem?-length, get_elem?-lt, take-suc, take-append}

module _ (core : Core) where
  open core use {BufferState}

  queues-IsOrdered :
      (t : Threads core) (slot : ℤ) (i : Input) (s : Sent core) (q : Queue BufferState)
      → queue_buffer core slot i t.queue ≡ sends s q
      → IsOrdered core t
      → IsOrdered core
          (record t { queue = q; waiting = t.waiting ++ s ∷ []; queued = t.queued ++ s ∷ [] })
  queues-IsOrdered t slot i s q e o =
      let (ticket, counter) = queue_buffer-Takes core slot i s t.queue q e in
      let last = get_elem?-length t.queued s in
      let place : s.ticket ≡ length t.queued = omega (arith, ticket, o.counted) in
      record {
        counted = omega (arith, length-append t.queued (s ∷ []), o.counted, counter);
        placed =
            All-append core (t.queued ++ s ∷ []) t.waiting (s ∷ [])
              (Placed-append core t.queued t.waiting s o.placed)
              (subst (λ k. get_elem? (t.queued ++ s ∷ []) k ≡ some s) (sym place) last, tt);
        prefix =
            o.prefix
            ∙ sym (
                take-append t.queued (s ∷ []) t.callbacks.current_callback_ticket
                  (omega (arith, o.behind, o.counted)));
        behind = omega (arith, o.behind, counter);
        present = λ k low high.
            ground (arith, has_ticket-append core k t.waiting s, o.present k low, ticket, counter);
      }

  calls-IsOrdered :
      (t : Threads core) (before after : List (Sent core)) (s : Sent core)
      → t.waiting ≡ before ++ s ∷ after
      → s.ticket ≡ t.callbacks.current_callback_ticket
      → IsOrdered core t
      → IsOrdered core (record t {
        waiting = before ++ after;
        callbacks = call_back core s t.callbacks;
        called = t.called ++ s ∷ [];
      })
  unfolding call_back
  calls-IsOrdered t before after s w e o =
      let now = t.callbacks.current_callback_ticket in
      let (rest, placed) =
        All-split core t.queued before after s (subst (All (Placed core t.queued)) w o.placed) in
      let there : get_elem? t.queued now ≡ some s =
        subst (λ k. get_elem? t.queued k ≡ some s) e placed in
      let further : suc now ≡ now + 1 = omega arith in
      let called : t.called ++ s ∷ [] ≡ take (suc now) t.queued =
        ap (λ l. l ++ s ∷ []) o.prefix ∙ sym (take-suc t.queued now s there) in
      record {
        counted = o.counted;
        placed = rest;
        prefix = subst (λ k. t.called ++ s ∷ [] ≡ take k t.queued) further called;
        behind = omega (arith, get_elem?-lt t.queued now s there, o.counted);
        present = λ k low high. ground (
          arith,
          o.present k,
          has_ticket-without core k before after s,
          ap (has_ticket core k) w,
          e,
        );
      }

  Step-IsOrdered : {t u : Threads core} → Step core t u → IsOrdered core t → IsOrdered core u
  Step-IsOrdered {t} (queues slot i s q e f) o =
      subst (IsOrdered core) (sym f) (queues-IsOrdered t slot i s q e o)
  Step-IsOrdered {t} (calls before after s w e f) o =
      subst (IsOrdered core) (sym f) (calls-IsOrdered t before after s w e o)
  Step-IsOrdered {t} (changes q e f) o = subst (IsOrdered core) (sym f) (record {
    counted = o.counted ∙ sym e;
    placed = o.placed;
    prefix = o.prefix;
    behind = rw e o.behind;
    present = λ k low high. o.present k low (omega (arith, high, e));
  })

  initial-IsOrdered : (t : Threads core) → IsInitial core t → IsOrdered core t
  initial-IsOrdered t i = record {
    counted = ground (arith, i.none_queued, i.no_ticket);
    placed = rw i.none_waiting tt;
    prefix = rw (i.none_called, i.no_callback) refl;
    behind = omega (arith, i.no_ticket, i.no_callback);
    present = λ k low high. absurd (omega (arith, high, i.no_ticket));
  }

  Reach-IsOrdered : {t u : Threads core} → IsOrdered core t → Reach core t u → IsOrdered core u
  Reach-IsOrdered o here = o
  Reach-IsOrdered o (next r s) = Step-IsOrdered s (Reach-IsOrdered o r)

  -- In every run of the threads from a state in which nothing has been queued, whatever else changes
  -- the queue: the callbacks that have been made are those of the first buffers that were queued, as
  -- many as the current ticket says, in their order.
  pub Reach-called :
      (t u : Threads core)
      → IsInitial core t
      → Reach core t u
      → (u.called ≡ take u.callbacks.current_callback_ticket u.queued)
        × (u.callbacks.current_callback_ticket ≤ length u.queued)
  Reach-called t u i r =
      let o = Reach-IsOrdered (initial-IsOrdered t i) r in
      (o.prefix, omega (arith, o.behind, o.counted))

  find_ticket :
      (k : ℕ) (ss : List (Sent core))
      → has_ticket core k ss ≡ true
      → (before : List (Sent core)) × (s : Sent core) × (after : List (Sent core)) × (ss
          ≡ before ++ s ∷ after)
        × (s.ticket ≡ k)
  find_ticket k [] h = absurd (ground arith)
  find_ticket k (s ∷ ss) h = elim (Bool-cases (s.ticket == k)) [
    | inl e ↦ ([], s, ss, refl, ground (arith, e))
    | inr e ↦
        let (before, s', after, w, f) = find_ticket k ss (ground (arith, h, e)) in
        (s ∷ before, s', after, ap (λ l. s ∷ l) w, f)
  ]

  -- In every such run, while a buffer that was queued has not been told of, a thread waits whose turn
  -- it is: it can make its callback, which moves the current ticket on.
  pub Reach-moves_on :
      (t u : Threads core)
      → IsInitial core t
      → Reach core t u
      → u.callbacks.current_callback_ticket < length u.queued
      → (v : Threads core) × Step core u v
        × (v.callbacks.current_callback_ticket ≡ u.callbacks.current_callback_ticket + 1)
        × (length v.called ≡ length u.called + 1)
  unfolding call_back
  Reach-moves_on t u i r h =
      let o = Reach-IsOrdered (initial-IsOrdered t i) r in
      let now = u.callbacks.current_callback_ticket in
      let waits = o.present now (omega arith) (omega (arith, h, o.counted)) in
      let (before, s, after, w, e) = find_ticket now u.waiting waits in
      (
        record u {
          waiting = before ++ after;
          callbacks = call_back core s u.callbacks;
          called = u.called ++ s ∷ [];
        },
        calls before after s w e refl,
        refl,
        omega (arith, length-append u.called (s ∷ [])),
      )
