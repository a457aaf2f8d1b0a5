-- ===== src/Analytics/Pairs.antt =====
-- The body of a bulk request in internal/analytics/elastic.go, as the bulk API reads it: lines in pairs, a header
-- and its document.
use snipr.Base.{
  arith, ◌≡◌, refl, ap, ◌∙◌, sym, Option, none, some, List, [], ◌∷◌, ◌++◌, append-nil, append_assoc,
}
use snipr.Analytics.{Doc, BulkItem, Payload, action_header, add_item, no_payload, payload}
use snipr.Text.{Text}

-- How the bulk API reads lines.
abbrev pub pairs : List Text → List (Text × Text)
pairs (header ∷ document ∷ lines) = (header, document) ∷ pairs lines
pairs _ = []

module _ {F : Type 0} (marshal : Doc F → Option Text) where
  abbrev lines_of : BulkItem F → Option Text → List Text
  lines_of item none = action_header item.index ∷ []
  lines_of item (some json) = action_header item.index ∷ json ∷ []

  -- The lines of some documents, one document behind the other.
  abbrev pub body : List (BulkItem F) → List Text
  body [] = []
  body (item ∷ items) = lines_of item (marshal item.doc) ++ body items

  abbrev then_sent : BulkItem F → Option Text → List (Text × Text) → List (Text × Text)
  then_sent item none later = []
  then_sent item (some json) later = (action_header item.index, json) ∷ later

  -- The documents in front of the first one that `json.Marshal` refuses, each with the header of its
  -- own index.
  abbrev pub sent : List (BulkItem F) → List (Text × Text)
  sent [] = []
  sent (item ∷ items) = then_sent item (marshal item.doc) (sent items)

  abbrev then_left : BulkItem F → Option Text → List Text → List Text → List Text
  then_left item none later left = action_header item.index ∷ later
  then_left item (some json) later left = left

  -- The lines from the header of the first one refused on.
  abbrev pub left_over : List (BulkItem F) → List Text
  left_over [] = []
  left_over (item ∷ items) = then_left item (marshal item.doc) (body items) (left_over items)

  add_item-lines :
      (chat_index : Text) (p : Payload) (item : BulkItem F) (o : Option Text)
      → (add_item chat_index p item o).lines ≡ p.lines ++ lines_of item o
  add_item-lines chat_index p item none = refl
  add_item-lines chat_index p item (some json) = ground arith

  payload-lines :
      (chat_index : Text) (p : Payload) (items : List (BulkItem F))
      → (payload marshal chat_index p items).lines ≡ p.lines ++ body items
  unfolding payload
  payload-lines chat_index p [] = sym (append-nil p.lines)
  payload-lines chat_index p (item ∷ items) =
      payload-lines chat_index (add_item chat_index p item (marshal item.doc)) items
      ∙ ap (λ l. l ++ body items) (add_item-lines chat_index p item (marshal item.doc))
      ∙ append_assoc p.lines (lines_of item (marshal item.doc)) (body items)

  pairs-item :
      (item : BulkItem F) (o : Option Text) (items : List (BulkItem F))
      → pairs (body items) ≡ sent items ++ pairs (left_over items)
      → pairs (lines_of item o ++ body items)
        ≡ then_sent item o (sent items) ++ pairs (then_left item o (body items) (left_over items))
  pairs-item item none items h = refl
  pairs-item item (some json) items h = ap (◌∷◌ (action_header item.index, json)) h

  pairs-body :
      (items : List (BulkItem F)) → pairs (body items) ≡ sent items ++ pairs (left_over items)
  pairs-body [] = refl
  pairs-body (item ∷ items) = pairs-item item (marshal item.doc) items (pairs-body items)

  -- Read in pairs of lines, the body of a bulk request begins with the documents of the batch in
  -- front of the first one that cannot be marshalled, in order, each behind the header of its own
  -- index. What follows are the pairs of the lines from the header of that one on, so this header
  -- takes the next header, if there is one, for its document; where all can be marshalled, nothing
  -- follows.
  pub payload-pairs :
      (chat_index : Text) (batch : List (BulkItem F))
      → pairs (payload marshal chat_index no_payload batch).lines
        ≡ sent batch ++ pairs (left_over batch)
  payload-pairs chat_index batch =
      ap pairs (payload-lines chat_index no_payload batch) ∙ pairs-body batch
