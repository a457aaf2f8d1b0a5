-- ===== src/Analytics/Ending.antt =====
-- internal/analytics/elastic.go: that the worker comes to its end once `Close` was called, for which
-- `Close` waits.
use snipr.Analytics.{Doc, BulkItem, Answer, send}
use snipr.Analytics.Delivery.{flush_batch-Same, flat, accepted, Extends, Reach-Extends}
use snipr.Analytics.Shutdown.{queue-flush_rest, phase-flush_rest, Step-returned, return-flushes_all}
use snipr.Analytics.Worker.{
  tick, close, stop, looping, draining, returned, Phase, System, flush, take_item, flush_rest, Step,
  arrive, queue_item, receive, return, Reach, here, next,
}
use snipr.Base.{
  ℕ, ◌+◌, ◌*◌, ◌≤◌, ◌≡◌, ◌≢◌, ◌⊎◌, inl, inr, refl, ◌∙◌, ap, sym, Bool, true, false, false≢true,
  Option, List, [], ◌∷◌, ◌++◌, length, length-append, arith,
}
use snipr.Text.{Text}

-- How many turns of its two loops the worker still has to leave.
abbrev pub loops_left : Phase → ℕ
loops_left looping = 2
loops_left draining = 1
loops_left returned = 0

Phase-cases : (p : Phase) → (p ≡ returned) ⊎ (p ≢ returned)
Phase-cases looping = inr (λ h. ground arith)
Phase-cases draining = inr (λ h. ground arith)
Phase-cases returned = inl refl

-- A bound on the steps, ticks aside, that can still be taken in a closed indexer: a caller has its
-- `select` in front of it, and its document a receive behind that.
abbrev pub work_left : {F : Type 0} → System F → ℕ
work_left s = 2 * length s.callers + length s.indexer.queue + loops_left s.phase

module _ {F : Type 0} (marshal : Doc F → Option Text) where
  -- A tick counts for nothing, any other step for one.
  abbrev pub turn : {s t : System F} → Step marshal s t → ℕ
  turn (tick s result h) = 0
  turn _ = 1

  abbrev pub turns : {s t : System F} → Reach marshal s t → ℕ
  turns here = 0
  turns (next r st) = turns r + turn st

  -- The steps of the worker, but for ticks.
  abbrev pub by_worker : {s t : System F} → Step marshal s t → Bool
  by_worker (receive s result item queue h k) = true
  by_worker (stop s h k) = true
  by_worker (return s result h k) = true
  by_worker _ = false

  record Shrinks (s t : System F) (n : ℕ) : Type 0 where
    still_closed : t.indexer.closed ≡ true
    work : n + work_left t ≤ work_left s

  send-Shrinks :
      (s : System F) (before after : List (BulkItem F)) (item : BulkItem F)
      → s.callers ≡ before ++ item ∷ after
      → s.indexer.closed ≡ true
      → Shrinks s (record s { indexer = send item s.indexer; callers = before ++ after }) 1
  unfolding send
  send-Shrinks s before after item h k =
      let before_send = ap (length {A = BulkItem F}) h ∙ length-append before (item ∷ after) in
      ground
        (arith, before_send, length-append before after, length-append s.indexer.queue (item ∷ []))

  take_item-Shrinks :
      (s : System F) (result : Answer) (item : BulkItem F) (queue : List (BulkItem F))
      → s.indexer.queue ≡ item ∷ queue
      → s.indexer.closed ≡ true
      → Shrinks s (take_item marshal result item queue s) 1
  unfolding take_item flush
  take_item-Shrinks s result item queue h k =
      let taken = record s.indexer { queue = queue } in
      let same = flush_batch-Same marshal result (s.batch ++ item ∷ []) taken in
      ground (arith, same.queue, same.closed, ap (length {A = BulkItem F}) h)

  closed-flush_rest :
      (result : Answer) (s : System F)
      → (flush_rest marshal result s).indexer.closed ≡ s.indexer.closed
  unfolding flush_rest flush
  closed-flush_rest result s =
      ground (arith, (flush_batch-Same marshal result s.batch s.indexer).closed)

  callers-flush_rest :
      (result : Answer) (s : System F) → (flush_rest marshal result s).callers ≡ s.callers
  unfolding flush_rest flush
  callers-flush_rest result s = ground arith

  Step-Shrinks :
      {s t : System F} (st : Step marshal s t) → s.indexer.closed ≡ true → Shrinks s t (turn st)
  Step-Shrinks (arrive s item h) k = absurd (false≢true (sym h ∙ k))
  Step-Shrinks (queue_item s before after item h) k = send-Shrinks s before after item h k
  Step-Shrinks (receive s result item queue h e) k = take_item-Shrinks s result item queue e k
  Step-Shrinks (tick s result h) k = record {
    still_closed = closed-flush_rest result s ∙ k;
    work = omega (
      arith,
      ap (length {A = BulkItem F}) (callers-flush_rest result s),
      ap (length {A = BulkItem F}) (queue-flush_rest marshal result s),
      ap loops_left (phase-flush_rest marshal result s),
    );
  }
  Step-Shrinks (close s h) k = absurd (false≢true (sym h ∙ k))
  Step-Shrinks (stop s h e) k = record { still_closed = k; work = omega (arith, ap loops_left h) }
  Step-Shrinks (return s result h e) k = record {
    still_closed = closed-flush_rest result s ∙ k;
    work = omega (
      arith,
      ap (length {A = BulkItem F}) (callers-flush_rest result s),
      ap (length {A = BulkItem F}) (queue-flush_rest marshal result s),
      ap loops_left h,
    );
  }

  Reach-Shrinks :
      {s t : System F} (r : Reach marshal s t) → s.indexer.closed ≡ true → Shrinks s t (turns r)
  Reach-Shrinks here k = record { still_closed = k; work = omega arith }
  Reach-Shrinks (next r st) k =
      let before = Reach-Shrinks r k in
      let after = Step-Shrinks st before.still_closed in
      record { still_closed = after.still_closed; work = omega (arith, before.work, after.work) }

  -- A step of the worker that is ready.
  abbrev pub CanGoOn : System F → Answer → Type 0
  CanGoOn t result = (u : System F) × (st : Step marshal t u) × (by_worker st ≡ true)

  drain-CanGoOn :
      (t : System F) (result : Answer) (queue : List (BulkItem F))
      → t.indexer.queue ≡ queue
      → t.phase ≡ draining
      → CanGoOn t result
  drain-CanGoOn t result [] e h =
      (record (flush_rest marshal result t) { phase = returned }, return t result h e, refl)
  drain-CanGoOn t result (item ∷ queue) e h = (
    take_item marshal result item queue t,
    receive t result item queue (λ k. ground arith) e,
    refl,
  )

  closed-CanGoOn :
      (t : System F) (result : Answer) (p : Phase)
      → t.phase ≡ p
      → t.phase ≢ returned
      → t.indexer.closed ≡ true
      → CanGoOn t result
  closed-CanGoOn t result looping h k c = (record t { phase = draining }, stop t h c, refl)
  closed-CanGoOn t result draining h k c = drain-CanGoOn t result t.indexer.queue refl h
  closed-CanGoOn t result returned h k c = absurd (k h)

  -- What the worker flushed when it has returned holds all that was accepted at first.
  phase-flushes :
      {s t : System F}
      → Reach marshal s t
      → s.phase ≢ returned
      → t.phase ≡ returned
      → Extends (accepted s) (flat t.flushed)
  phase-flushes here h k = absurd (h k)
  phase-flushes {s} {t} (next {t = u} r st) h k = elim (Phase-cases u.phase) [
    | inl done ↦
        let (more, e) = phase-flushes r h done in
        (more, ap flat (Step-returned marshal st done).1 ∙ e)
    | inr not_done ↦
        let (more, e) = Reach-Extends marshal r in
        (more, return-flushes_all marshal st not_done k ∙ e)
  ]

  returned_or-CanGoOn :
      {s t : System F} (r : Reach marshal s t) (p : Phase)
      → t.phase ≡ p
      → s.phase ≢ returned
      → t.indexer.closed ≡ true
      → ((t.phase ≡ returned) × Extends (accepted s) (flat t.flushed))
        ⊎ ((result : Answer) → CanGoOn t result)
  returned_or-CanGoOn {t = t} r returned e h c = inl (e, phase-flushes r h e)
  returned_or-CanGoOn {t = t} r p e h c =
      inr (λ result. closed-CanGoOn t result p e (λ k. ground (arith, e, k)) c)

  -- What holds of a state that was reached by `r` from a closed indexer.
  pub record Ends (s t : System F) (r : Reach marshal s t) : Type 0 where
    pub bounded : turns r + work_left t ≤ work_left s
    pub goes_on :
        ((t.phase ≡ returned) × Extends (accepted s) (flat t.flushed))
        ⊎ ((result : Answer) → CanGoOn t result)

  -- From every state in which the indexer is closed and its worker has not returned, however the
  -- goroutines take turns: the steps other than ticks are at most twice the callers that are left,
  -- and the documents in the queue, and two; and either the worker, for which `Close` waits, has
  -- returned, and all the documents that were accepted at first have been handed to `flushBatch`, in
  -- order, or one of these steps is ready for it, whatever a request would be answered.
  pub Reach-Ends :
      {s t : System F} (r : Reach marshal s t)
      → s.indexer.closed ≡ true
      → s.phase ≢ returned
      → Ends s t r
  Reach-Ends {s} {t} r closed h =
      let shrinks = Reach-Shrinks r closed in
      record {
        bounded = shrinks.work;
        goes_on = returned_or-CanGoOn r t.phase refl h shrinks.still_closed;
      }
