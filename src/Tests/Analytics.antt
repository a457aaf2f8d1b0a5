-- ===== src/Tests/Analytics.antt =====
-- internal/analytics/elastic.go: an indexer for two documents a request, and runs of it.
use snipr.Base.{
  ◌++◌, ℕ, ◌+◌, ◌≡◌, ◌≢◌, refl, true, false, Option, none, some, List, [], ◌∷◌, if◌then◌else◌,
  length, arith,
}
use snipr.Analytics.{
  new_elastic_indexer, send, Config, ElasticIndexer, BulkItem, Doc, chat_doc, clip_doc, status,
  is_success, flush_batch, payload, no_payload,
}
use snipr.Analytics.Worker.{
  System, looping, draining, returned, Reach, here, next, arrive, queue_item, return, started,
  flush_rest,
}
use snipr.Analytics.Delivery.{flat, Extends, accepted, Reach-Extends}
use snipr.Analytics.Ending.{Ends, Reach-Ends}
use snipr.Analytics.Shutdown.{return-flushes_all, close-loses_item}
use snipr.Analytics.Bounds.{IsBounded, new_elastic_indexer-IsBounded}
use snipr.Analytics.Accounting.{total, refused, flush_batch_accounts}
use snipr.Analytics.Pairs.{left_over, pairs, payload-pairs, sent}
use snipr.Analytics.Setup.{Exchange, Mappings, create, init_indices, probe}
use snipr.Text.{Text, codes}
use snipr.Base.Int.{pos}

abbrev config : Config
config = record {
  url = codes "http://localhost:9200";
  chat_index = codes "snipr-chat";
  clips_index = codes "snipr-clips";
  batch_size = 2;
  flush_interval = pos 1000000000;
  queue_capacity = 3;
}

abbrev indexer : ElasticIndexer ℕ
indexer = record {
  cfg = config;
  queue = [];
  stats = record { chat_indexed = 0; clips_indexed = 0; failed_docs = 0; bulk_requests = 0 };
  closed = false;
}

abbrev chat_document : Text → Doc ℕ
chat_document content = chat_doc (record {
  timestamp = pos 1;
  event_type = codes "chat";
  channel = codes "fun";
  user_id = codes "1";
  user_name = codes "amy";
  content = content;
  emotes = [];
  bits = pos 0;
  is_hype = false;
})

abbrev item : Text → BulkItem ℕ
item content = record { index = codes "snipr-chat"; doc = chat_document content }

-- An encoder that refuses empty messages and clips.
abbrev marshal : Doc ℕ → Option Text
marshal (chat_doc d) = elim d.content [ [] ↦ none | c ∷ s ↦ some (c ∷ s) ]
marshal (clip_doc d) = none

abbrev batch : List (BulkItem ℕ)
batch = item (codes "gg") ∷ item [] ∷ []

abbrev one_called : System ℕ
one_called = record (started indexer) { callers = item (codes "gg") ∷ [] }

abbrev one_queued : System ℕ
one_queued = record {
  indexer = record indexer { queue = item (codes "gg") ∷ [] };
  callers = [];
  batch = [];
  phase = looping;
  flushed = [];
}

run_to_queue : Reach marshal (started indexer) one_queued
unfolding send
run_to_queue =
    next (next here (arrive (started indexer) (item (codes "gg")) refl))
      (queue_item one_called [] [] (item (codes "gg")) refl)

Reach-Extends_example : Extends (accepted (started indexer)) (accepted one_queued)
Reach-Extends_example = Reach-Extends marshal run_to_queue

abbrev by_default : ElasticIndexer ℕ
by_default = new_elastic_indexer [] [] [] (pos 0) (pos 0) (pos 0)

run_by_default :
    Reach marshal
      (started by_default)
      (record (started by_default) { callers = item (codes "gg") ∷ [] })
unfolding new_elastic_indexer
run_by_default = next here (arrive (started by_default) (item (codes "gg")) refl)

new_elastic_indexer-IsBounded_example :
    IsBounded (record (started by_default) { callers = item (codes "gg") ∷ [] })
new_elastic_indexer-IsBounded_example =
    new_elastic_indexer-IsBounded marshal [] [] [] (pos 0) (pos 0) (pos 0) run_by_default

-- The worker, about to return with one document in its batch.
abbrev about_to_return : System ℕ
about_to_return = record {
  indexer = record indexer { closed = true };
  callers = item (codes "late") ∷ [];
  batch = item (codes "gg") ∷ [];
  phase = draining;
  flushed = [];
}

abbrev has_returned : System ℕ
has_returned = record (flush_rest marshal (status 200) about_to_return) { phase = returned }

draining≢returned : draining ≢ returned
draining≢returned h = absurd (ground (arith, h))

return-flushes_all_example : flat has_returned.flushed ≡ accepted about_to_return
return-flushes_all_example =
    return-flushes_all marshal (return about_to_return (status 200) refl refl) draining≢returned
      refl

-- From there it returns.
run_to_return : Reach marshal about_to_return has_returned
run_to_return = next here (return about_to_return (status 200) refl refl)

Reach-Ends_example : Ends marshal about_to_return has_returned run_to_return
Reach-Ends_example = Reach-Ends marshal run_to_return refl draining≢returned

close-loses_item_example :
    (t : System ℕ) × Reach marshal (started indexer) t
    × (t.phase ≡ returned)
    × (t.indexer.queue ≡ item (codes "late") ∷ [])
    × ((u : System ℕ) → Reach marshal t u → u.flushed ≡ [])
close-loses_item_example =
    close-loses_item marshal indexer (item (codes "late")) refl refl (omega arith)

flush_batch_accounts_example :
    total (flush_batch marshal (status 503) batch indexer).stats
    ≡ total indexer.stats
      + length batch
      + (if is_success (status 503) then 0 else refused marshal batch)
flush_batch_accounts_example = flush_batch_accounts marshal (status 503) batch indexer (omega arith)

payload-pairs_example :
    pairs (payload marshal (codes "snipr-chat") no_payload batch).lines
    ≡ sent marshal batch ++ pairs (left_over marshal batch)
payload-pairs_example = payload-pairs marshal (codes "snipr-chat") batch

double_count_test : (flush_batch marshal (status 503) batch indexer).stats.failed_docs ≡ 3
unfolding flush_batch
double_count_test = refl

abbrev pub texts : Mappings
texts = record { chat_mapping = codes "chat"; clips_mapping = codes "clips" }

-- The index of chat is there, and that of clips is made.
abbrev pub found : Exchange
found = record { head = status 200; put = status 500 }

abbrev pub made : Exchange
made = record { head = status 404; put = status 200 }

init_indices_test : init_indices indexer.cfg texts found made ≡ (
  probe (codes "snipr-chat")
      ∷ probe (codes "snipr-clips")
      ∷ create (codes "snipr-clips") (codes "clips")
      ∷ [],
  none,
)
unfolding init_indices
init_indices_test = refl
