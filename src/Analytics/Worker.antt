-- ===== src/Analytics/Worker.antt =====
-- internal/analytics/elastic.go: the worker, the callers that queue documents, and `Close`, as
-- steps that may come in any order.
use snipr.Analytics.{Doc, BulkItem, ElasticIndexer, Answer, send, flush_batch}
use snipr.Base.{◌≢◌, ◌≡◌, true, false, Option, List, [], ◌∷◌, ◌++◌, ltb, leb, if◌then◌else◌, length}
use snipr.Text.{Text}

-- Where the worker stands: in its loop, emptying the queue after `stopCh` was closed, or returned.
pub data Phase : Type 0 where
  looping draining returned : Phase

-- `callers` are calls of `IndexChat` and `IndexClip` that have passed the test of `closed` and have
-- not come to the `select`. `flushed` lists the batches handed to `flushBatch`, oldest first.
pub record System (F : Type 0) : Type 0 where
  pub indexer : ElasticIndexer F
  pub callers : List (BulkItem F)
  pub batch : List (BulkItem F)
  pub phase : Phase
  pub flushed : List (List (BulkItem F))

module _ {F : Type 0} (marshal : Doc F → Option Text) where
  -- `e.flushBatch(batch)`, and `batch = batch[:0]`
  unfoldable pub flush : Answer → System F → System F
  unfolding flush_batch
  flush result s = record s {
    indexer = flush_batch marshal result s.batch s.indexer;
    batch = [];
    flushed = s.flushed ++ s.batch ∷ [];
  }

  -- `case item := <-e.queue`, in either loop, on a queue with `item` at its head.
  unfoldable pub take_item : Answer → BulkItem F → List (BulkItem F) → System F → System F
  unfolding flush
  take_item result item queue s =
      let s' = record s {
        indexer = record s.indexer { queue = queue };
        batch = s.batch ++ item ∷ [];
      } in
      if leb s.indexer.cfg.batch_size (length s'.batch) then flush result s' else s'

  -- `case <-ticker.C`, and the `default` of the draining loop.
  unfoldable pub flush_rest : Answer → System F → System F
  unfolding flush
  flush_rest result s = if ltb 0 (length s.batch) then flush result s else s

  -- One step of one goroutine.
  pub data Step : System F → System F → Type 0 where
    -- a call of `IndexChat` or `IndexClip` finds the indexer open
    arrive :
        (s : System F) (item : BulkItem F)
        → s.indexer.closed ≡ false
        → Step s (record s { callers = s.callers ++ item ∷ [] })
    -- one of these calls comes to its `select`
    queue_item :
        (s : System F) (before after : List (BulkItem F)) (item : BulkItem F)
        → s.callers ≡ before ++ item ∷ after
        → Step s (record s { indexer = send item s.indexer; callers = before ++ after })
    -- the worker receives
    receive :
        (s : System F) (result : Answer) (item : BulkItem F) (queue : List (BulkItem F))
        → s.phase ≢ returned
        → s.indexer.queue ≡ item ∷ queue
        → Step s (take_item result item queue s)
    -- the ticker fires
    tick : (s : System F) (result : Answer) → s.phase ≡ looping → Step s (flush_rest result s)
    -- `Close` swaps the flag and closes `stopCh`
    close :
        (s : System F)
        → s.indexer.closed ≡ false
        → Step s (record s { indexer = record s.indexer { closed = true } })
    -- the worker sees `stopCh` closed
    stop :
        (s : System F)
        → s.phase ≡ looping
        → s.indexer.closed ≡ true
        → Step s (record s { phase = draining })
    -- the worker finds the queue empty, and returns
    return :
        (s : System F) (result : Answer)
        → s.phase ≡ draining
        → s.indexer.queue ≡ []
        → Step s (record (flush_rest result s) { phase = returned })

  pub data Reach (s : System F) : System F → Type 0 where
    here : Reach s s
    next : {t u : System F} → Reach s t → Step t u → Reach s u

-- `NewElasticIndexer`
abbrev pub started : {F : Type 0} → ElasticIndexer F → System F
started e = record { indexer = e; callers = []; batch = []; phase = looping; flushed = [] }
