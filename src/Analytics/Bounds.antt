-- ===== src/Analytics/Bounds.antt =====
-- The sizes of the queue, of the batch and of the bulk requests.
use snipr.Analytics.{or_size, new_elastic_indexer, Doc, BulkItem, ElasticIndexer, Answer, send}
use snipr.Analytics.Delivery.{flush_batch-Same}
use snipr.Analytics.Worker.{
  tick, close, stop, System, flush, take_item, flush_rest, Step, arrive, queue_item, receive,
  return, Reach, here, next, started,
}
use snipr.Base.Int.{ℤ, pos, negsuc}
use snipr.Base.{
  ℕ, zero, suc, refl, ltb→lt, inr, inl, Bool-cases, ◌≡◌, ◌<◌, ◌≤◌, Option, List, [], ◌∷◌, ◌++◌, ltb,
  leb, length, length-append, All, All-append, arith, ap,
}
use snipr.Text.{Text}

-- The queue keeps within its capacity, the batch stays below the batch size between two steps, and
-- every request has one document or more, up to the batch size.
pub record IsBounded {F : Type 0} (s : System F) : Type 0 where
  pub positive : 0 < s.indexer.cfg.batch_size
  pub queue_fits : length s.indexer.queue ≤ s.indexer.cfg.queue_capacity
  pub batch_fits : length s.batch < s.indexer.cfg.batch_size
  pub requests_fit : All (λ b. (0 < length b) × (length b ≤ s.indexer.cfg.batch_size)) s.flushed

module _ {F : Type 0} (marshal : Doc F → Option Text) where
  flush-IsBounded :
      (result : Answer) (s : System F)
      → 0 < length s.batch
      → length s.batch ≤ s.indexer.cfg.batch_size
      → length s.indexer.queue ≤ s.indexer.cfg.queue_capacity
      → All (λ b. (0 < length b) × (length b ≤ s.indexer.cfg.batch_size)) s.flushed
      → IsBounded (flush marshal result s)
  unfolding flush
  flush-IsBounded result s some_item fits queue_fits requests =
      let same = flush_batch-Same marshal result s.batch s.indexer in
      record {
        positive = rw same.cfg (omega arith);
        queue_fits = rw (same.cfg, same.queue) queue_fits;
        batch_fits = rw same.cfg (omega arith);
        requests_fit =
            rw same.cfg (All-append _ s.flushed (s.batch ∷ []) requests ((some_item, fits), tt));
      }

  flush_rest-IsBounded :
      (result : Answer) (s : System F) → IsBounded s → IsBounded (flush_rest marshal result s)
  unfolding flush_rest
  flush_rest-IsBounded result s h = elim (Bool-cases (ltb 0 (length s.batch))) [
    | inl some_item ↦ rw some_item (
        flush-IsBounded result s (ltb→lt 0 (length s.batch) some_item) (omega (arith, h))
          h.queue_fits h.requests_fit)
    | inr empty ↦ rw empty h
  ]

  take_item-IsBounded :
      (result : Answer) (item : BulkItem F) (queue : List (BulkItem F)) (s : System F)
      → s.indexer.queue ≡ item ∷ queue
      → IsBounded s
      → IsBounded (take_item marshal result item queue s)
  unfolding take_item
  take_item-IsBounded result item queue s e h =
      let s' = record s {
        indexer = record s.indexer { queue = queue };
        batch = s.batch ++ item ∷ [];
      } in
      let grown = length-append s.batch (item ∷ []) in
      let shorter = ap length e in
      elim (Bool-cases (leb s.indexer.cfg.batch_size (length (s.batch ++ item ∷ [])))) [
        | inl full ↦ rw full (
            flush-IsBounded result s' (omega (arith, grown)) (omega (arith, grown, h))
              (omega (arith, shorter, h)) h.requests_fit)
        | inr room ↦ rw room (record {
          positive = h.positive;
          queue_fits = omega (arith, shorter, h);
          batch_fits = ground arith;
          requests_fit = h.requests_fit;
        })
      ]

  queue_item-IsBounded :
      (item : BulkItem F) (callers : List (BulkItem F)) (s : System F)
      → IsBounded s
      → IsBounded (record s { indexer = send item s.indexer; callers = callers })
  unfolding send
  queue_item-IsBounded item callers s h =
      elim (Bool-cases (ltb (length s.indexer.queue) s.indexer.cfg.queue_capacity)) [
        | inl room ↦ rw room (record {
          positive = h.positive;
          queue_fits = omega (arith, length-append s.indexer.queue (item ∷ []), ltb→lt _ _ room);
          batch_fits = h.batch_fits;
          requests_fit = h.requests_fit;
        })
        | inr full ↦ rw full (record {
          positive = h.positive;
          queue_fits = h.queue_fits;
          batch_fits = h.batch_fits;
          requests_fit = h.requests_fit;
        })
      ]

  Step-IsBounded : {s t : System F} → Step marshal s t → IsBounded s → IsBounded t
  Step-IsBounded (arrive s item _) h = record {
    positive = h.positive;
    queue_fits = h.queue_fits;
    batch_fits = h.batch_fits;
    requests_fit = h.requests_fit;
  }
  Step-IsBounded (queue_item s before after item _) h =
      queue_item-IsBounded item (before ++ after) s h
  Step-IsBounded (receive s result item queue _ k) h = take_item-IsBounded result item queue s k h
  Step-IsBounded (tick s result _) h = flush_rest-IsBounded result s h
  Step-IsBounded (close s _) h = record {
    positive = h.positive;
    queue_fits = h.queue_fits;
    batch_fits = h.batch_fits;
    requests_fit = h.requests_fit;
  }
  Step-IsBounded (stop s _ _) h = record {
    positive = h.positive;
    queue_fits = h.queue_fits;
    batch_fits = h.batch_fits;
    requests_fit = h.requests_fit;
  }
  Step-IsBounded (return s result _ _) h =
      let r = flush_rest-IsBounded result s h in
      record {
        positive = r.positive;
        queue_fits = r.queue_fits;
        batch_fits = r.batch_fits;
        requests_fit = r.requests_fit;
      }

  Reach-IsBounded_from : {s t : System F} → Reach marshal s t → IsBounded s → IsBounded t
  Reach-IsBounded_from here h = h
  Reach-IsBounded_from (next r st) h = Step-IsBounded st (Reach-IsBounded_from r h)

  pub Reach-IsBounded :
      (e : ElasticIndexer F) {t : System F}
      → 0 < e.cfg.batch_size
      → e.queue ≡ []
      → Reach marshal (started e) t
      → IsBounded t
  Reach-IsBounded e h empty r = Reach-IsBounded_from r (record {
    positive = h;
    queue_fits = rw empty (omega arith);
    batch_fits = h;
    requests_fit = tt;
  })

  or_size-positive : (n : ℤ) (d : ℕ) → 0 < d → 0 < or_size n d
  or_size-positive (pos zero) d h = h
  or_size-positive (pos (suc n)) d h = omega arith
  or_size-positive (negsuc n) d h = h

  -- From the start of an indexer with any configuration, in every state that can be reached: the
  -- queue is within its capacity, the batch is shorter than the batch size, and every bulk request
  -- has between one document and the batch size.
  pub new_elastic_indexer-IsBounded :
      (url chat_index clips_index : Text) (batch_size flush_interval queue_capacity : ℤ)
      {t : System F}
      → Reach marshal
          (started (
            new_elastic_indexer url chat_index clips_index batch_size flush_interval
              queue_capacity))
          t
      → IsBounded t
  unfolding new_elastic_indexer
  new_elastic_indexer-IsBounded url chat_index clips_index batch_size flush_interval queue_capacity
        r =
      Reach-IsBounded
        (new_elastic_indexer url chat_index clips_index batch_size flush_interval queue_capacity)
        (or_size-positive batch_size 100 (omega arith)) refl r
