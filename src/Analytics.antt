-- ===== src/Analytics.antt =====
-- internal/analytics/elastic.go and models.go: documents are queued, and sent in bulk.
pub mod Worker
pub mod Accounting
pub mod Pairs
pub mod Delivery
pub mod Bounds
pub mod Shutdown
pub mod Ending
pub mod Setup
use snipr.Base.{
  ◌==◌, ℕ, zero, suc, ◌+◌, ◌*◌, ◌%◌, ◌^◌, Bool, true, false, ◌&&◌, ◌||◌, not, Option, none, some,
  List, [], ◌∷◌, ◌++◌, ltb, leb, if◌then◌else◌, length, String,
}
use snipr.Base.Int.{ℤ, pos, negsuc, ltb_ℤ}
use snipr.Models.{ChatMessage}
use snipr.Text.{Text, codes, eq_text, is_empty, trim_right}
use snipr.Time.{is_zero, second}

-- models.go
pub record ChatMessageDoc : Type 0 where
  pub timestamp : ℤ
  pub event_type : Text
  pub channel : Text
  pub user_id : Text
  pub user_name : Text
  pub content : Text
  pub emotes : List Text
  pub bits : ℤ
  pub is_hype : Bool

-- models.go; `F` is `float64`
pub record ClipEventDoc (F : Type 0) : Type 0 where
  pub timestamp : ℤ
  pub event_type : Text
  pub channel : Text
  pub clip_id : Text
  pub url : Text
  pub edit_url : Text
  pub title : Text
  pub prob : F
  pub prediction : ℤ
  pub msg_count : F
  pub hype_score : F
  pub unique_users : ℤ
  pub reason : Text

-- `any` of `bulkItem.doc`: one of the two documents.
pub data Doc (F : Type 0) : Type 0 where
  chat_doc : ChatMessageDoc → Doc F
  clip_doc : ClipEventDoc F → Doc F

pub record BulkItem (F : Type 0) : Type 0 where
  pub index : Text
  pub doc : Doc F

pub record Config : Type 0 where
  pub url : Text
  pub chat_index : Text
  pub clips_index : Text
  pub batch_size : ℕ
  pub flush_interval : ℤ
  pub queue_capacity : ℕ

abbrev pub or_text : Text → Text → Text
or_text [] d = d
or_text (c ∷ s) d = c ∷ s

-- A size that is not positive gives way to the default one.
abbrev pub or_size : ℤ → ℕ → ℕ
or_size (pos (suc n)) d = suc n
or_size _ d = d

-- The configuration that `NewElasticIndexer` settles on.
unfoldable pub with_defaults : Text → Text → Text → ℤ → ℤ → ℤ → Config
unfolding trim_right
with_defaults url chat_index clips_index batch_size flush_interval queue_capacity = record {
  url = trim_right (λ c. c == b'/') (or_text url (codes "http://localhost:9200"));
  chat_index = or_text chat_index (codes "snipr-chat");
  clips_index = or_text clips_index (codes "snipr-clips");
  batch_size = or_size batch_size 100;
  flush_interval = (if ltb_ℤ (pos 0) flush_interval then flush_interval else pos second);
  queue_capacity = or_size queue_capacity 10000;
}

-- `DefaultConfig`
abbrev pub default_config : Config
default_config = record {
  url = codes "http://localhost:9200";
  chat_index = codes "snipr-chat";
  clips_index = codes "snipr-clips";
  batch_size = 100;
  flush_interval = pos second;
  queue_capacity = 10000;
}

-- A counter is a `uint64`.
abbrev pub add_u64 : ℕ → ℕ → ℕ
add_u64 a b = (a + b) % 2 ^ 64

pub record Stats : Type 0 where
  pub chat_indexed : ℕ
  pub clips_indexed : ℕ
  pub failed_docs : ℕ
  pub bulk_requests : ℕ

-- The indexer; the batch of its worker is in `Worker`.
pub record ElasticIndexer (F : Type 0) : Type 0 where
  pub cfg : Config
  pub queue : List (BulkItem F)
  pub stats : Stats
  pub closed : Bool

-- `NewElasticIndexer`, without the start of its worker.
unfoldable pub new_elastic_indexer :
    {F : Type 0} → Text → Text → Text → ℤ → ℤ → ℤ → ElasticIndexer F
unfolding with_defaults
new_elastic_indexer url chat_index clips_index batch_size flush_interval queue_capacity = record {
  cfg = with_defaults url chat_index clips_index batch_size flush_interval queue_capacity;
  queue = [];
  stats = record { chat_indexed = 0; clips_indexed = 0; failed_docs = 0; bulk_requests = 0 };
  closed = false;
}

module _ {F : Type 0} where
  abbrev pub fail_docs : ℕ → ElasticIndexer F → ElasticIndexer F
  fail_docs n e = record e {
    stats = record e.stats { failed_docs = add_u64 e.stats.failed_docs n };
  }

  -- `select { case e.queue <- item: default: … }`
  unfoldable pub send : BulkItem F → ElasticIndexer F → ElasticIndexer F
  send item e =
      if ltb (length e.queue) e.cfg.queue_capacity
      then record e { queue = e.queue ++ item ∷ [] }
      else fail_docs 1 e

  -- The document of a message; `clock` is what `time.Now()` gives.
  unfoldable pub chat_item : ℤ → ChatMessage → ElasticIndexer F → BulkItem F
  chat_item clock msg e = record {
    index = e.cfg.chat_index;
    doc = chat_doc (record {
      timestamp = (if is_zero msg.timestamp then clock else msg.timestamp);
      event_type = codes "chat";
      channel = msg.channel;
      user_id = msg.user_id;
      user_name = msg.user_name;
      content = msg.content;
      emotes = msg.emotes;
      bits = msg.bits;
      is_hype = ltb 0 (length msg.emotes) || ltb_ℤ (pos 0) msg.bits;
    });
  }

  -- `IndexChat`
  unfoldable pub index_chat : ℤ → ChatMessage → ElasticIndexer F → ElasticIndexer F
  unfolding send chat_item
  index_chat clock msg e = if e.closed then e else send (chat_item clock msg e) e

  unfoldable pub clip_item : ℤ → ClipEventDoc F → ElasticIndexer F → BulkItem F
  clip_item clock doc e = record {
    index = e.cfg.clips_index;
    doc = clip_doc (record doc {
      timestamp = (if is_zero doc.timestamp then clock else doc.timestamp);
      event_type = codes "clip";
    });
  }

  -- `IndexClip`
  unfoldable pub index_clip : ℤ → ClipEventDoc F → ElasticIndexer F → ElasticIndexer F
  unfolding send clip_item
  index_clip clock doc e = if e.closed then e else send (clip_item clock doc e) e

-- `GetStats`
abbrev pub get_stats : {F : Type 0} → ElasticIndexer F → Stats
get_stats e = e.stats

-- What comes back from a bulk request: no request could be made, no answer came, or a status did.
pub data Answer : Type 0 where
  no_request no_answer : Answer
  status : ℕ → Answer

abbrev pub is_success : Answer → Bool
is_success (status n) = leb 200 n && ltb n 300
is_success _ = false

-- The variables of the loop of `flushBatch`: the lines of the body and the counts.
pub record Payload : Type 0 where
  pub lines : List Text
  pub chat_count : ℕ
  pub clip_count : ℕ
  pub unmarshalled : ℕ

abbrev pub no_payload : Payload
no_payload = record { lines = []; chat_count = 0; clip_count = 0; unmarshalled = 0 }

abbrev pub action_header : Text → Text
action_header index = codes "{\"index\":{\"_index\":\"" ++ (index ++ codes "\"}}")

module _ {F : Type 0} where
  abbrev pub count_doc : Text → BulkItem F → Payload → Payload
  count_doc chat_index item p =
      if eq_text item.index chat_index
      then record p { chat_count = p.chat_count + 1 }
      else record p { clip_count = p.clip_count + 1 }

  -- The body of the loop: the header is written before the document is known to be writable.
  abbrev pub add_item : Text → Payload → BulkItem F → Option Text → Payload
  add_item chat_index p item none = record p {
    lines = p.lines ++ action_header item.index ∷ [];
    unmarshalled = p.unmarshalled + 1;
  }
  add_item chat_index p item (some json) =
      count_doc chat_index item
        (record p { lines = p.lines ++ action_header item.index ∷ json ∷ [] })

  abbrev pub record_success : Payload → ElasticIndexer F → ElasticIndexer F
  record_success p e = record e {
    stats = record e.stats {
      chat_indexed = add_u64 e.stats.chat_indexed p.chat_count;
      clips_indexed = add_u64 e.stats.clips_indexed p.clip_count;
      bulk_requests = add_u64 e.stats.bulk_requests 1;
    };
  }

  -- The part of `flushBatch` behind the loop, over a batch of `n` documents; `failedDocs` has been
  -- increased for the documents that were not marshalled.
  unfoldable pub settle : Answer → ℕ → Payload → ElasticIndexer F → ElasticIndexer F
  settle result n p e =
      if is_empty p.lines
      then e
      else if is_success result
      then record_success p e
      else fail_docs n e

-- `marshal` is `json.Marshal`.
module _ {F : Type 0} (marshal : Doc F → Option Text) where
  unfoldable pub payload : Text → Payload → List (BulkItem F) → Payload
  unfolding eq_text
  payload chat_index p [] = p
  payload chat_index p (item ∷ items) =
      payload chat_index (add_item chat_index p item (marshal item.doc)) items

  -- `flushBatch`
  unfoldable pub flush_batch : Answer → List (BulkItem F) → ElasticIndexer F → ElasticIndexer F
  unfolding payload settle
  flush_batch result [] e = e
  flush_batch result (item ∷ items) e =
      let p = payload e.cfg.chat_index no_payload (item ∷ items) in
      settle result (length (item ∷ items)) p (fail_docs p.unmarshalled e)
