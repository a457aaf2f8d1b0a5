-- ===== src/Features/Monitor.antt =====
-- internal/features/monitor.go: the windows of each channel.
pub mod Windows
pub mod Spacing
use snipr.Base.{
  ℕ, ◌*◌, ◌+◌, Bool, true, false, Option, none, some, List, [], ◌∷◌, ◌++◌, map, if◌then◌else◌,
}
use snipr.Base.Int.{ℤ, pos, ltb_ℤ}
use snipr.Features.Compute.{BufferedMessage, compute_window_features}
use snipr.Features.Normalize.{simple_normalize}
use snipr.Float.{Float64}
use snipr.Models.{ChatMessage, FeatureVector}
use snipr.Text.{Text, byte_len}
use snipr.Text.Map.{Map, lookup, insert, get_or}
use snipr.Time.{second, is_zero, sub}

-- `BatchInterval`
abbrev pub batch_interval : ℕ
batch_interval = 24 * second

pub record Monitor : Type 0 where
  pub buffers : Map (List BufferedMessage)
  pub batch_start : Map ℤ

-- `NewMonitor`
abbrev pub new_monitor : Monitor
new_monitor = record { buffers = []; batch_start = [] }

-- What the monitor keeps of a message; `lower` is `unicode.ToLower`.
unfoldable pub buffered : (ℕ → ℕ) → ChatMessage → BufferedMessage
unfolding simple_normalize byte_len
buffered lower msg =
    let norm = simple_normalize lower msg.content in
    record { user_name = msg.user_name; norm_text = norm; raw_len = byte_len norm }

abbrev pub start_unless : Option ℤ → Text → ℤ → Map ℤ → Map ℤ
start_unless none channel now starts = insert channel now starts
start_unless (some _) channel now starts = starts

-- `OnChat`; `clock` is what `time.Now()` gives.
unfoldable pub on_chat : (ℕ → ℕ) → ℤ → ChatMessage → Monitor → Monitor
unfolding buffered lookup insert get_or
on_chat lower clock msg m =
    let now = if is_zero msg.timestamp then clock else msg.timestamp in
    record {
      buffers =
          insert msg.channel (get_or msg.channel [] m.buffers ++ buffered lower msg ∷ []) m.buffers;
      batch_start = start_unless (lookup msg.channel m.batch_start) msg.channel now m.batch_start;
    }

-- The arguments of a call of `ComputeWindowFeatures`.
pub record Window : Type 0 where
  pub channel : Text
  pub start : ℤ
  pub end : ℤ
  pub msgs : List BufferedMessage

abbrev pub window_of : Text → ℤ → ℤ → List BufferedMessage → List Window
window_of channel start now [] = []
window_of channel start now (b ∷ buf) =
    record { channel = channel; start = start; end = now; msgs = b ∷ buf } ∷ []

-- The body of the loop of `flushReady`, from the test on: the windows that it publishes, one or
-- none.
unfoldable pub flush_channel : ℤ → Text → Option ℤ → Monitor → Monitor × List Window
unfolding insert get_or sub
flush_channel now channel none m = (m, [])
flush_channel now channel (some start) m =
    if ltb_ℤ (sub now start) (pos batch_interval) then (m, []) else (
      record {
        buffers = insert channel [] m.buffers;
        batch_start = insert channel now m.batch_start;
      },
      window_of channel start now (get_or channel [] m.buffers),
    )

-- `flushReady`: the loop goes over the channels of `batchStart` in the order that Go happens to
-- choose.
unfoldable pub flush_ready : ℤ → List Text → Monitor → Monitor × List Window
unfolding flush_channel lookup
flush_ready now [] m = (m, [])
flush_ready now (channel ∷ channels) m =
    let (m', ws) = flush_channel now channel (lookup channel m.batch_start) m in
    let (m'', ws') = flush_ready now channels m' in (m'', ws ++ ws')

module _ (fl : Float64) where
  -- The vectors that `flushReady` hands to the bus.
  unfoldable pub vectors : (List ℕ → List ℕ) → (ℕ → ℕ) → List Window → List (FeatureVector fl.F)
  unfolding compute_window_features
  vectors order lower [] = []
  vectors order lower (w ∷ ws) =
      compute_window_features fl order lower w.channel w.start w.end w.msgs ∷ vectors order lower ws

-- What reaches the monitor: a message with the clock's value, or a tick of `StartPollLoop` with the
-- order of the channels.
pub data Event : Type 0 where
  chat : ℤ → ChatMessage → Event
  tick : ℤ → List Text → Event

unfoldable pub step : (ℕ → ℕ) → Event → Monitor → Monitor × List Window
unfolding on_chat flush_ready
step lower (chat clock msg) m = (on_chat lower clock msg m, [])
step lower (tick now channels) m = flush_ready now channels m

unfoldable pub run : (ℕ → ℕ) → List Event → Monitor → Monitor × List Window
unfolding step
run lower [] m = (m, [])
run lower (e ∷ es) m =
    let (m', ws) = step lower e m in let (m'', ws') = run lower es m' in (m'', ws ++ ws')
