-- ===== src/Pipeline/Start.antt =====
-- internal/pipeline/consumers.go: the four subscriptions and what each does with a delivery.
pub mod Routing
pub mod Recent
pub mod Chat
pub mod Clips
use snipr.Analytics.{ElasticIndexer, add_u64, index_chat}
use snipr.Base.{
  ℕ, Bool, true, false, Option, none, some, List, [], ◌∷◌, ◌++◌, if◌then◌else◌, Result, ok, err,
}
use snipr.Base.Int.{ℤ}
use snipr.Features.Monitor.{Monitor, Window, on_chat, flush_ready}
use snipr.Float.{Float64}
use snipr.Models.{ChatMessage, FeatureVector}
use snipr.Pipeline.Clip.{Clock, Consumers, Helix, normalize_ts, on_features}
use snipr.Store.{Driver, SqliteStore, enqueue}
use snipr.Text.{Text}

-- The durable groups of the subscriptions.
pub data Group : Type 0 where
  sqlite_group features_group elastic_group predict_group : Group

-- `c.subs`, and whether `StartPollLoop` runs.
pub record Subscriptions : Type 0 where
  pub subs : List Group
  pub polling : Bool

abbrev pub no_subscriptions : Subscriptions
no_subscriptions = record { subs = []; polling = false }

-- `Stop`
abbrev pub stop : Subscriptions → Subscriptions
stop s = record s { subs = [] }

abbrev pub add_sub : Group → Subscriptions → Subscriptions
add_sub g s = record s { subs = s.subs ++ g ∷ [] }

-- `Start`; `refuses` says which subscriptions the bus refuses. The group of the error is the one
-- that its text names.
unfoldable pub start : (Group → Bool) → Subscriptions × Option Group
start refuses =
    let s1 = add_sub sqlite_group no_subscriptions in
    let s2 = record (add_sub features_group s1) { polling = true } in
    let s3 = add_sub elastic_group s2 in
    if refuses sqlite_group
    then (no_subscriptions, some sqlite_group)
    else if refuses features_group
    then (stop s1, some features_group)
    else if refuses elastic_group
    then (stop s2, some elastic_group)
    else if refuses predict_group
    then (stop s3, some predict_group)
    else (add_sub predict_group s3, none)

-- The parts that the handlers change. `published` lists the windows handed to the bus.
pub record Parts (F : Type 0) (S : Type 0) : Type 0 where
  pub store : SqliteStore
  pub monitor : Monitor
  pub published : List Window
  pub consumers : Consumers F S
  pub message_count : Option ℕ

abbrev pub count_message : Option ℕ → Option ℕ
count_message none = none
count_message (some n) = some (add_u64 n 1)

-- What the bus or the ticker brings: a message for one of the three chat groups, a feature vector,
-- or a tick. `now` is the clock in `normalizeTS`, `clock` the one in the call behind it.
pub data Delivery (F : Type 0) : Type 0 where
  to_sqlite : ℤ → Driver → ChatMessage → Delivery F
  to_features : ℤ → ℤ → ChatMessage → Delivery F
  to_elastic : ℤ → ℤ → ChatMessage → Delivery F
  to_predict : Clock → FeatureVector F → Delivery F
  poll : ℤ → List Text → Delivery F

module _ (fl : Float64) {S : Type 0} (api : Helix S) (unix : ℤ → Text) (lower : ℕ → ℕ) where
  open fl use {F}

  abbrev pub index_chat_with :
      ℤ → ChatMessage → Bool → Option (ElasticIndexer F) → Option (ElasticIndexer F)
  index_chat_with clock msg online none = none
  index_chat_with clock msg online (some e) = some (if online then index_chat clock msg e else e)

  abbrev pub polled : Parts F S → Monitor × List Window → Parts F S
  polled p (m, ws) = record p { monitor = m; published = p.published ++ ws }

  -- The handlers of `Start`.
  unfoldable pub deliver : Delivery F → Parts F S → Parts F S
  unfolding normalize_ts enqueue on_chat flush_ready index_chat on_features
  deliver (to_sqlite now d msg) p = record p {
    store = (enqueue d (normalize_ts now msg) p.store).0;
  }
  deliver (to_features now clock msg) p = record p {
    monitor = on_chat lower clock (normalize_ts now msg) p.monitor;
  }
  deliver (to_elastic now clock msg) p = record p {
    message_count = count_message p.message_count;
    consumers = record p.consumers {
      elastic =
          index_chat_with clock (normalize_ts now msg) p.consumers.elastic_online
            p.consumers.elastic;
    };
  }
  deliver (to_predict clock fv) p = record p {
    consumers = (on_features fl api unix clock fv p.consumers).0;
  }
  deliver (poll now channels) p = polled p (flush_ready now channels p.monitor)

  unfoldable pub run : List (Delivery F) → Parts F S → Parts F S
  unfolding deliver
  run [] p = p
  run (d ∷ ds) p = run ds (deliver d p)
