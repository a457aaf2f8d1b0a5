-- ===== src/Pipeline/Start/Chat.antt =====
-- From the frames of Twitch's chat over the bus to the table: the client of internal/ingest, the chat stream of
-- internal/bus, and the SQLite group of internal/pipeline.
use snipr.Base.{
  ℕ, ◌+◌, ◌≡◌, refl, ap, ◌∙◌, Bool, true, false, Option, none, some, List, [], ◌∷◌, ◌++◌, map, All,
  subst, if◌then◌else◌, arith,
}
use snipr.Base.Int.{ℤ}
use snipr.Bus.{Effect, call, ack, Msg, on_msg, publish_chat}
use snipr.Float.{Float64}
use snipr.Ingest.Client.{Client, start}
use snipr.Ingest.Client.Frames.{AllRead, Frame, IsLive, IsPiece, read_of}
use snipr.Ingest.Client.Frames.Taken.{start-TakesAll}
use snipr.Models.{ChatMessage}
use snipr.Pipeline.Clip.{Helix, normalize_ts}
use snipr.Pipeline.Start.{
  Delivery, Parts, to_sqlite, to_features, to_elastic, to_predict, poll, run,
}
use snipr.Pipeline.Start.Routing.{run-stores, store_calls}
use snipr.Store.Refinement.{enqueued, insert_all, view}
use snipr.Text.{Text}

abbrev with_msg : Option Msg → List Msg → List Msg
with_msg none ms = ms
with_msg (some m) ms = m ∷ ms

-- The stream behind publications, the i-th of which the library accepts or not.
abbrev pub stream : (ChatMessage → Option Text) → (ℕ → Bool) → ℕ → List ChatMessage → List Msg
stream marshal accepts i [] = []
stream marshal accepts i (m ∷ ms) =
    with_msg (publish_chat marshal (accepts i) m).0 (stream marshal accepts (i + 1) ms)

abbrev calls_of : List (Effect ChatMessage) → List ChatMessage
calls_of [] = []
calls_of (call m ∷ es) = m ∷ calls_of es
calls_of (ack ∷ es) = calls_of es

-- The calls that the handler of a subscription makes, of each message once and in order.
abbrev pub received_of : (Text → Option ChatMessage) → List Msg → List ChatMessage
received_of unmarshal [] = []
received_of unmarshal (m ∷ ms) = calls_of (on_msg unmarshal m) ++ received_of unmarshal ms

abbrev has_json : Option Text → Bool → Bool
has_json none accepts = false
has_json (some _) accepts = accepts

-- The messages that have a JSON form and are accepted.
abbrev pub taken :
    (ChatMessage → Option Text) → (ℕ → Bool) → ℕ → List ChatMessage → List ChatMessage
taken marshal accepts i [] = []
taken marshal accepts i (m ∷ ms) =
    let rest = taken marshal accepts (i + 1) ms in
    if has_json (marshal m) (accepts i) then m ∷ rest else rest

-- The messages for the SQLite group, as they come from the bus.
abbrev pub for_sqlite : {F : Type 0} → List (Delivery F) → List ChatMessage
for_sqlite [] = []
for_sqlite (to_sqlite now d msg ∷ ds) = msg ∷ for_sqlite ds
for_sqlite (to_features now clock msg ∷ ds) = for_sqlite ds
for_sqlite (to_elastic now clock msg ∷ ds) = for_sqlite ds
for_sqlite (to_predict clock fv ∷ ds) = for_sqlite ds
for_sqlite (poll now channels ∷ ds) = for_sqlite ds

-- The same messages one by one, but for their timestamps.
abbrev pub SameButTime : List ChatMessage → List ChatMessage → Type 0
SameButTime [] [] = Unit
SameButTime (s ∷ ss) (m ∷ ms) = (s ≡ record m { timestamp = s.timestamp }) × SameButTime ss ms
SameButTime _ _ = ⊥

module _ (marshal : ChatMessage → Option Text) (unmarshal : Text → Option ChatMessage)
    (reads : (m : ChatMessage) (body : Text)
      → marshal m ≡ some body
      → unmarshal body ≡ some m) where
  received_published :
      (accepts : Bool) (m : ChatMessage) (o : Option Text) (later : List Msg)
      → marshal m ≡ o
      → received_of unmarshal (with_msg (publish_chat marshal accepts m).0 later) ≡ (
          if has_json o accepts
          then m ∷ received_of unmarshal later
          else received_of unmarshal later)
  unfolding publish_chat on_msg
  received_published accepts m none later e = rw e refl
  received_published false m (some body) later e = rw e refl
  received_published true m (some body) later e = rw (e, reads m body e) refl

  received_stream :
      (accepts : ℕ → Bool) (i : ℕ) (ms : List ChatMessage)
      → received_of unmarshal (stream marshal accepts i ms) ≡ taken marshal accepts i ms
  received_stream accepts i [] = refl
  received_stream accepts i (m ∷ ms) =
      received_published (accepts i) m (marshal m) (stream marshal accepts (i + 1) ms) refl
      ∙ ap (λ rest. if has_json (marshal m) (accepts i) then m ∷ rest else rest)
          (received_stream accepts (i + 1) ms)

normalize_ts-SameButTime :
    (now : ℤ) (m : ChatMessage)
    → normalize_ts now m ≡ record m { timestamp = (normalize_ts now m).timestamp }
unfolding normalize_ts
normalize_ts-SameButTime now m = ground arith

enqueued-SameButTime :
    {F : Type 0} (ds : List (Delivery F)) → SameButTime (enqueued (store_calls ds)) (for_sqlite ds)
enqueued-SameButTime [] = tt
enqueued-SameButTime (to_sqlite now d msg ∷ ds) =
    (normalize_ts-SameButTime now msg, enqueued-SameButTime ds)
enqueued-SameButTime (to_features now clock msg ∷ ds) = enqueued-SameButTime ds
enqueued-SameButTime (to_elastic now clock msg ∷ ds) = enqueued-SameButTime ds
enqueued-SameButTime (to_predict clock fv ∷ ds) = enqueued-SameButTime ds
enqueued-SameButTime (poll now channels ∷ ds) = enqueued-SameButTime ds

-- What the table is to hold of the frames: their messages, but for those that the bus did not take, each with
-- its timestamp set right, behind what was there.
pub record Stores {F S : Type 0} (lower : ℕ → ℕ) (marshal : ChatMessage → Option Text)
    (accepts : ℕ → Bool) (fs : List Frame) (p p' : Parts F S) : Type 0 where
  pub messages : List ChatMessage
  pub stored : List ChatMessage
  pub all_read : AllRead lower fs messages
  pub same_but_time : SameButTime stored (taken marshal accepts 0 messages)
  pub table_is : view p'.store ≡ insert_all (view p.store) stored

module _ (fl : Float64) {S : Type 0} (api : Helix S) (unix : ℤ → Text) (lower : ℕ → ℕ) where
  open fl use {F}

  -- From the frames that a connected client with a bus gets, with nothing published yet and no line
  -- end inside a line, to the table: where `unmarshal` reads what `marshal` wrote, and the SQLite
  -- group gets what the handler calls for each message of the stream, once and in order, however
  -- these deliveries are mixed with others and whatever the driver refuses, the table with the
  -- buffer written has, behind what was there, the message of each chat line of the frames that has
  -- a JSON form and was accepted by the bus, in order, with no change but to its timestamp, the
  -- first of an id counting.
  pub run-Stores :
      (marshal : ChatMessage → Option Text) (unmarshal : Text → Option ChatMessage)
      (accepts : ℕ → Bool) (fs : List Frame) (c : Client) (ds : List (Delivery F)) (p : Parts F S)
      → ((m : ChatMessage) (body : Text) → marshal m ≡ some body → unmarshal body ≡ some m)
      → All (λ f. All IsPiece f.pieces) fs
      → IsLive c
      → c.published ≡ []
      → for_sqlite ds
        ≡ received_of unmarshal
            (stream marshal accepts 0 (start lower (map read_of fs) c).published)
      → Stores lower marshal accepts fs p (run fl api unix lower ds p)
  run-Stores marshal unmarshal accepts fs c ds p reads pieces live none_yet delivered =
      let t = start-TakesAll lower fs c pieces live in
      let published_is : (start lower (map read_of fs) c).published ≡ t.messages =
        t.published_is ∙ ap (λ l. l ++ t.messages) none_yet in
      let taken_is : for_sqlite ds ≡ taken marshal accepts 0 t.messages =
        delivered
        ∙ received_stream marshal unmarshal reads accepts 0
            (start lower (map read_of fs) c).published
        ∙ ap (taken marshal accepts 0) published_is in
      record {
        messages = t.messages;
        stored = enqueued (store_calls ds);
        all_read = t.all_read;
        same_but_time =
            subst (SameButTime (enqueued (store_calls ds))) taken_is (enqueued-SameButTime ds);
        table_is = run-stores fl api unix lower ds p;
      }
