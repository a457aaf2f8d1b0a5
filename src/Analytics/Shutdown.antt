-- ===== src/Analytics/Shutdown.antt =====
-- What the worker leaves behind when it returns.
use snipr.Analytics.{no_answer, ElasticIndexer, Doc, BulkItem, Answer, send}
use snipr.Analytics.Delivery.{flush_batch-Same, flat, accepted, accepted-flush_rest}
use snipr.Analytics.Worker.{
  tick, close, stop, draining, here, started, returned, System, flush, take_item, flush_rest, Step,
  arrive, queue_item, receive, return, Reach, next,
}
use mathlib.Core.Path.{ap₂}
use snipr.Base.{
  lt→ltb, ◌≡◌, ◌≢◌, ◌<◌, refl, Option, List, [], ◌∷◌, ◌++◌, length, arith, append-nil, ◌∙◌, ap, sym,
  true, false,
}
use snipr.Text.{Text}

module _ {F : Type 0} (marshal : Doc F → Option Text) where
  batch-flush_rest : (result : Answer) (s : System F) → (flush_rest marshal result s).batch ≡ []
  unfolding flush_rest flush
  batch-flush_rest result s = ground arith

  pub queue-flush_rest :
      (result : Answer) (s : System F)
      → (flush_rest marshal result s).indexer.queue ≡ s.indexer.queue
  unfolding flush_rest flush
  queue-flush_rest result s =
      ground (arith, (flush_batch-Same marshal result s.batch s.indexer).queue)

  pub phase-flush_rest :
      (result : Answer) (s : System F) → (flush_rest marshal result s).phase ≡ s.phase
  unfolding flush_rest flush
  phase-flush_rest result s = ground arith

  phase-take_item :
      (result : Answer) (item : BulkItem F) (queue : List (BulkItem F)) (s : System F)
      → (take_item marshal result item queue s).phase ≡ s.phase
  unfolding take_item flush
  phase-take_item result item queue s = ground arith

  flat-flush_rest :
      (result : Answer) (s : System F)
      → s.indexer.queue ≡ []
      → flat (flush_rest marshal result s).flushed ≡ accepted s
  flat-flush_rest result s empty =
      let t = flush_rest marshal result s in
      sym (append-nil (flat t.flushed))
      ∙ ap (λ q. flat t.flushed ++ q)
          (sym
            (ap₂ (λ b q. b ++ q) (batch-flush_rest result s) (queue-flush_rest result s ∙ empty)))
      ∙ accepted-flush_rest marshal result s

  -- Worker states once it has returned: no batch is left, and the requests do not change.
  pub Step-returned :
      {s t : System F}
      → Step marshal s t
      → s.phase ≡ returned
      → (t.phase ≡ returned) × (t.flushed ≡ s.flushed)
  Step-returned (arrive s item _) h = (h, refl)
  Step-returned (queue_item s before after item _) h = (h, refl)
  Step-returned (receive s result item queue k _) h = absurd (k h)
  Step-returned (tick s result k) h = absurd (ground arith)
  Step-returned (close s _) h = (h, refl)
  Step-returned (stop s k _) h = absurd (ground arith)
  Step-returned (return s result k _) h = absurd (ground arith)

  Reach-returned :
      {s t : System F}
      → Reach marshal s t
      → s.phase ≡ returned
      → (t.phase ≡ returned) × (t.flushed ≡ s.flushed)
  Reach-returned here h = (h, refl)
  Reach-returned (next r st) h =
      let before = Reach-returned r h in
      let after = Step-returned st before.0 in (after.0, after.1 ∙ before.1)

  -- The step in which the worker returns leaves nothing behind: every document accepted until then
  -- has been handed to `flushBatch`, in order.
  pub return-flushes_all :
      {s t : System F}
      → Step marshal s t
      → s.phase ≢ returned
      → t.phase ≡ returned
      → flat t.flushed ≡ accepted s
  return-flushes_all (arrive s item _) h k = absurd (h k)
  return-flushes_all (queue_item s before after item _) h k = absurd (h k)
  return-flushes_all (receive s result item queue _ _) h k =
      absurd (h (sym (phase-take_item result item queue s) ∙ k))
  return-flushes_all (tick s result _) h k = absurd (h (sym (phase-flush_rest result s) ∙ k))
  return-flushes_all (close s _) h k = absurd (h k)
  return-flushes_all (stop s _ _) h k = absurd (ground arith)
  return-flushes_all (return s result _ empty) h k = flat-flush_rest result s empty

  -- A call that passed the test of `closed` before the indexer was closed, and comes to its `select`
  -- after the worker returned, puts its document into the queue, and it is never sent.
  late_item_lost :
      (s : System F) (item : BulkItem F) (callers : List (BulkItem F))
      → s.phase ≡ returned
      → s.callers ≡ item ∷ callers
      → length s.indexer.queue < s.indexer.cfg.queue_capacity
      → (t : System F) × Step marshal s t
        × (t.phase ≡ returned)
        × (t.indexer.queue ≡ s.indexer.queue ++ item ∷ [])
        × ((u : System F) → Reach marshal t u → u.flushed ≡ s.flushed)
  unfolding send
  late_item_lost s item callers done waiting room = (
    record s { indexer = send item s.indexer; callers = [] ++ callers },
    queue_item s [] callers item waiting,
    done,
    rw (lt→ltb _ _ room),
    λ u r. (Reach-returned r done).1,
  )

  -- From the start of an open indexer with room for a document in its queue: a call that queues one
  -- can pass the test of `closed`, then `Close` and the worker can run to their ends, and then the
  -- call puts its document into the queue, after which no step hands anything to `flushBatch`.
  pub close-loses_item :
      (e : ElasticIndexer F) (item : BulkItem F)
      → e.closed ≡ false
      → e.queue ≡ []
      → 0 < e.cfg.queue_capacity
      → (t : System F) × Reach marshal (started e) t
        × (t.phase ≡ returned)
        × (t.indexer.queue ≡ item ∷ [])
        × ((u : System F) → Reach marshal t u → u.flushed ≡ [])
  unfolding flush_rest send
  close-loses_item e item opened empty room =
      let s1 = record (started e) { callers = item ∷ [] } in
      let s2 = record s1 { indexer = record e { closed = true } } in
      let s3 = record s2 { phase = draining } in
      let s4 = record s3 { phase = returned } in
      let reached =
        next
          (next (next (next here (arrive (started e) item opened)) (close s1 opened))
            (stop s2 refl refl))
          (return s3 no_answer refl empty) in
      let fits : length e.queue < e.cfg.queue_capacity = rw empty room in
      let late = late_item_lost s4 item [] refl refl fits in
      (late.0, next reached late.1, late.2, late.3 ∙ ap (λ q. q ++ item ∷ []) empty, late.4)
