-- ===== src/Tests/Bus.antt =====
-- internal/bus/nats.go: a start that fails, and the ids of windows.
use snipr.Base.{◌+◌, ◌*◌, ℕ, ◌≡◌, ◌≢◌, refl, true, false, List, [], ◌∷◌, map, arith, All}
use snipr.Base.Int.{◌+ℤ◌, ◌-ℤ◌, ℤ, pos}
use snipr.Bus.{show_int, show_digits, Config, Nats, new_nats_bus, features_id}
use snipr.Bus.Startup.{Answers, new_nats_bus-Answers}
use snipr.Bus.Delivery.{Pairwise, run-Distinct}
use snipr.Features.Monitor.{Event, chat, tick, new_monitor, run, vectors}
use snipr.Models.{FeatureVector}
use snipr.Tests.Features.{whole, keep, said}
use snipr.Text.{eq_text, Text, codes}
use snipr.Time.{unix_nano, IsUnixNano}

abbrev cfg : Config
cfg = record {
  port = pos 0;
  chat_stream_name = [];
  features_stream_name = [];
  max_age = pos 0;
  max_bytes = pos 0;
}

-- The server never becomes ready.
abbrev slow : Nats
slow = record {
  creates = true;
  gets_ready = false;
  connects = true;
  has_jetstream = true;
  adds = λ s. true;
}

new_nats_bus-Answers_example : Answers slow cfg (new_nats_bus slow cfg)
new_nats_bus-Answers_example = new_nats_bus-Answers slow cfg

abbrev vector_of : Text → ℤ → ℤ → FeatureVector Unit
vector_of channel start end = record {
  channel = channel;
  window_start = start;
  window_end = end;
  msg_count = tt;
  unique_users = tt;
  avg_msg_len = tt;
  max_repeat_count = tt;
  unique_norm_msgs = tt;
  entropy_raw = tt;
  hype_score = tt;
  repeat_ratio = tt;
}

abbrev vector : FeatureVector Unit
vector = vector_of (codes "fun") (pos 5) (pos 63839577600000000000)

features_id_test : features_id vector ≡ codes "fun_1703980800000000000"
unfolding features_id unix_nano show_int show_digits ◌-ℤ◌
features_id_test = refl

-- A message on the last day of 2023, and the ticks behind it.
abbrev at : ℕ → ℤ
at seconds = pos (63839577600 * 1000000000 + seconds * 1000000000)

abbrev events : List Event
events =
    chat (at 0) (record (said (codes "gg") 0) { timestamp = at 0 })
    ∷ tick (at 24) (codes "fun" ∷ [])
    ∷ chat (at 25) (record (said (codes "wp") 0) { timestamp = at 25 })
    ∷ tick (at 48) (codes "fun" ∷ [])
    ∷ []

ends : All (λ w. IsUnixNano w.end) (run keep events new_monitor).1
unfolding run eq_text ◌-ℤ◌ ◌+ℤ◌
ends = ((omega arith, omega arith), ((omega arith, omega arith), tt))

run-Distinct_example :
    Pairwise ◌≢◌ (map features_id (vectors whole (λ l. l) keep (run keep events new_monitor).1))
run-Distinct_example = run-Distinct whole (λ l. l) keep events ends
