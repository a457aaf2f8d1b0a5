-- ===== src/Analytics/Delivery.antt =====
-- What the worker does with the documents that were accepted into the queue.
use snipr.Analytics.{Doc, BulkItem, ElasticIndexer, Answer, send, settle, flush_batch}
use snipr.Analytics.Worker.{
  tick, close, stop, System, flush, take_item, flush_rest, Step, arrive, queue_item, receive,
  return, Reach, here, next,
}
use snipr.Base.{
  inr, inl, Bool-cases, ◌≡◌, refl, Option, List, [], ◌∷◌, ◌++◌, ltb, length, arith, append_assoc,
  append-nil, ◌∙◌, ap, sym,
}
use snipr.Text.{Text}

abbrev pub flat {ℓ} : {A : Type ℓ} → List (List A) → List A
flat [] = []
flat (x ∷ xs) = x ++ flat xs

flat-append {ℓ} : {A : Type ℓ} (xs ys : List (List A)) → flat (xs ++ ys) ≡ flat xs ++ flat ys
flat-append [] ys = refl
flat-append (x ∷ xs) ys = rw (flat-append xs ys, append_assoc)

-- All the documents that ever came into the queue, in order: those handed to `flushBatch`, those of
-- the batch, and those still in the queue.
abbrev pub accepted : {F : Type 0} → System F → List (BulkItem F)
accepted s = flat s.flushed ++ (s.batch ++ s.indexer.queue)

-- The second list is the first with more behind it.
abbrev pub Extends {ℓ} : {A : Type ℓ} → List A → List A → Type ℓ
Extends {A} a b = (more : List A) × (b ≡ a ++ more)

Extends-same {ℓ} : {A : Type ℓ} (a b : List A) → b ≡ a → Extends a b
Extends-same a b h = ([], h ∙ sym (append-nil a))

module _ {F : Type 0} (marshal : Doc F → Option Text) where
  pub record Same (e f : ElasticIndexer F) : Type 0 where
    pub cfg : f.cfg ≡ e.cfg
    pub queue : f.queue ≡ e.queue
    pub closed : f.closed ≡ e.closed

  pub flush_batch-Same :
      (result : Answer) (batch : List (BulkItem F)) (e : ElasticIndexer F)
      → Same e (flush_batch marshal result batch e)
  unfolding flush_batch settle
  flush_batch-Same result [] e = record { cfg = refl; queue = refl; closed = refl }
  flush_batch-Same result (item ∷ items) e = ground arith

  accepted-flush : (result : Answer) (s : System F) → accepted (flush marshal result s) ≡ accepted s
  unfolding flush
  accepted-flush result s =
      rw
        (
          (flush_batch-Same result s.batch s.indexer).queue,
          flat-append s.flushed (s.batch ∷ []),
          append_assoc,
        )
        (rw (append-nil s.batch))

  pub accepted-flush_rest :
      (result : Answer) (s : System F) → accepted (flush_rest marshal result s) ≡ accepted s
  unfolding flush_rest
  accepted-flush_rest result s = ground (arith, accepted-flush result s)

  accepted-take_item :
      (result : Answer) (item : BulkItem F) (queue : List (BulkItem F)) (s : System F)
      → s.indexer.queue ≡ item ∷ queue
      → accepted (take_item marshal result item queue s) ≡ accepted s
  unfolding take_item
  accepted-take_item result item queue s h =
      let s' = record s {
        indexer = record s.indexer { queue = queue };
        batch = s.batch ++ item ∷ [];
      } in
      ground (arith, accepted-flush result s', append_assoc s.batch (item ∷ []) queue)

  send-accepted :
      (item : BulkItem F) (s : System F) (callers : List (BulkItem F))
      → Extends
          (accepted s)
          (accepted (record s { indexer = send item s.indexer; callers = callers }))
  unfolding send
  send-accepted item s callers =
      elim (Bool-cases (ltb (length s.indexer.queue) s.indexer.cfg.queue_capacity)) [
        | inl room ↦ (
          item ∷ [],
          rw room (
              ap (λ q. flat s.flushed ++ q) (sym (append_assoc s.batch s.indexer.queue (item ∷ [])))
              ∙ sym (append_assoc (flat s.flushed) (s.batch ++ s.indexer.queue) (item ∷ []))),
        )
        | inr full ↦ ([], rw full (sym (append-nil (accepted s))))
      ]

  Step-Extends : {s t : System F} → Step marshal s t → Extends (accepted s) (accepted t)
  Step-Extends (arrive s item h) = Extends-same (accepted s) _ refl
  Step-Extends (queue_item s before after item h) = send-accepted item s (before ++ after)
  Step-Extends (receive s result item queue h k) =
      Extends-same (accepted s) _ (accepted-take_item result item queue s k)
  Step-Extends (tick s result h) = Extends-same (accepted s) _ (accepted-flush_rest result s)
  Step-Extends (close s h) = Extends-same (accepted s) _ refl
  Step-Extends (stop s h k) = Extends-same (accepted s) _ refl
  Step-Extends (return s result h k) = Extends-same (accepted s) _ (accepted-flush_rest result s)

  -- However the callers, the ticker, `Close` and the worker take turns, no document that was
  -- accepted is lost, doubled or overtaken: those handed to `flushBatch`, then those of the batch,
  -- then those of the queue, are the earlier ones in the same order, and newer ones behind them.
  pub Reach-Extends : {s t : System F} → Reach marshal s t → Extends (accepted s) (accepted t)
  Reach-Extends {s} here = Extends-same (accepted s) (accepted s) refl
  Reach-Extends {s} (next {t = u} r st) =
      let (more, e) = Reach-Extends r in
      let (more', e') = Step-Extends st in
      (more ++ more', e' ∙ ap (λ l. l ++ more') e ∙ append_assoc (accepted s) more more')
