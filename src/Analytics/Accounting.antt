-- ===== src/Analytics/Accounting.antt =====
-- What the counters of the indexer and the body of a bulk request say of a batch.
use snipr.Base.{
  ◌≤◌, ◌∙◌, ℕ, ◌+◌, ◌*◌, ◌^◌, ◌<◌, ◌≡◌, refl, Option, none, some, List, [], ◌∷◌, if◌then◌else◌,
  length, arith, length-append,
}
use snipr.Analytics.{
  fail_docs, settle, Doc, BulkItem, ElasticIndexer, Stats, Answer, Payload, no_payload, add_item,
  payload, flush_batch, is_success, action_header, add_u64,
}
use snipr.Text.{Text}

add_u64-small : (a b : ℕ) → a + b < 2 ^ 64 → add_u64 a b ≡ a + b
add_u64-small a b h = omega arith

module _ {F : Type 0} (marshal : Doc F → Option Text) where
  abbrev is_none : Option Text → ℕ
  is_none none = 1
  is_none (some _) = 0

  -- How many documents of a batch `json.Marshal` refuses.
  abbrev pub refused : List (BulkItem F) → ℕ
  refused [] = 0
  refused (item ∷ items) = is_none (marshal item.doc) + refused items

  refused-le : (items : List (BulkItem F)) → refused items ≤ length items
  refused-le [] = omega arith
  refused-le (item ∷ items) = ground (arith, refused-le items)

  record Counts (p q : Payload) (items : List (BulkItem F)) : Type 0 where
    each_once :
        q.chat_count + q.clip_count + q.unmarshalled
        ≡ p.chat_count + p.clip_count + p.unmarshalled + length items
    refused_ones : q.unmarshalled ≡ p.unmarshalled + refused items
    line_count : length q.lines + refused items ≡ length p.lines + 2 * length items

  add_item-Counts :
      (chat_index : Text) (p : Payload) (item : BulkItem F) (o : Option Text)
      → marshal item.doc ≡ o
      → Counts p (add_item chat_index p item o) (item ∷ [])
  add_item-Counts chat_index p item none h =
      ground (arith, length-append p.lines (action_header item.index ∷ []))
  add_item-Counts chat_index p item (some json) h =
      ground (arith, length-append p.lines (action_header item.index ∷ json ∷ []))

  payload-Counts :
      (chat_index : Text) (p : Payload) (items : List (BulkItem F))
      → Counts p (payload marshal chat_index p items) items
  unfolding payload
  payload-Counts chat_index p [] = omega arith
  payload-Counts chat_index p (item ∷ items) = omega (
    arith,
    add_item-Counts chat_index p item (marshal item.doc) refl,
    payload-Counts chat_index (add_item chat_index p item (marshal item.doc)) items,
  )

abbrev pub total : Stats → ℕ
total s = s.chat_indexed + s.clips_indexed + s.failed_docs

module _ {F : Type 0} (marshal : Doc F → Option Text) where
  settle-total :
      (result : Answer) (n : ℕ) (p : Payload) (e : ElasticIndexer F)
      → 0 < length p.lines
      → p.chat_count + p.clip_count + p.unmarshalled ≡ n
      → total e.stats + 2 * n < 2 ^ 64
      → total (settle result n p (fail_docs p.unmarshalled e)).stats
        ≡ total e.stats + n + (if is_success result then 0 else p.unmarshalled)
  unfolding settle
  settle-total result n p e h k s = ground arith

  -- A flush counts each document of the batch once, as indexed or as failed; but where the request
  -- fails, the documents that could not be marshalled are counted a second time. The premise says
  -- that no counter overflows.
  pub flush_batch_accounts :
      (result : Answer) (batch : List (BulkItem F)) (e : ElasticIndexer F)
      → total e.stats + 2 * length batch < 2 ^ 64
      → total (flush_batch marshal result batch e).stats
        ≡ total e.stats + length batch + (if is_success result then 0 else refused marshal batch)
  unfolding flush_batch
  flush_batch_accounts result [] e h = ground arith
  flush_batch_accounts result (item ∷ items) e h =
      let counts = payload-Counts marshal e.cfg.chat_index no_payload (item ∷ items) in
      let p = payload marshal e.cfg.chat_index no_payload (item ∷ items) in
      settle-total result (length (item ∷ items)) p e
        (omega (arith, counts, refused-le marshal (item ∷ items))) (omega (arith, counts)) h
      ∙ ground (arith, counts)
