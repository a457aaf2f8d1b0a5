-- ===== src/Tests/Pipeline.antt =====
-- internal/pipeline/consumers.go: windows of one channel, with a predictor that is always sure.
use snipr.Base.{
  ℕ, ◌+◌, ◌*◌, ◌≡◌, refl, true, false, not, Option, none, some, List, [], ◌∷◌, ◌++◌, ◌&&◌,
  if◌then◌else◌, ltb, leb, ◌-◌, ok,
}
use snipr.Float.{Float64}
use snipr.Models.{FeatureVector}
use snipr.Pipeline.Cooldown.{try_cooldown, is_in_cooldown, active, after}
use snipr.Pipeline.Cooldown.Spacing.{Spaced, passes, ends, try_cooldown_iff}
use snipr.Pipeline.Clip.{created, Predictor, Helix, Consumers, Clock, on_features}
use snipr.Pipeline.Clip.Decision.{IsScored, Settles, on_features-Settles}
use snipr.Models.{ChatMessage}
use snipr.Store.{Driver}
use snipr.Store.Refinement.{view, insert_all, enqueued}
use snipr.Features.Monitor.{new_monitor}
use snipr.Features.Monitor.Windows.{published, buffer, received}
use snipr.Pipeline.Clip.{normalize_ts}
use snipr.Pipeline.Start.{
  Parts, Delivery, to_sqlite, to_features, to_elastic, to_predict, poll, deliver, run,
}
use snipr.Pipeline.Start.Routing.{store_calls, monitor_events, run-stores, run-windows}
use snipr.Pipeline.Start.Clips.{clip_times, run-Spaced}
use snipr.Pipeline.Start.Recent.{is_recent, normalize_ts-recent}
use snipr.Text.{eq_text, Text, codes}
use snipr.Text.Map.{lookup}
use snipr.Time.{is_zero}
use snipr.Base.Int.{ℤ, pos}

abbrev pub tenths : Float64
tenths = record {
  F = ℕ;
  of_ℕ = λ n. n;
  decimal = λ m k. m;
  add = λ a b. a + b;
  sub = λ a b. a - b;
  mul = λ a b. a * b;
  div = λ a b. a;
  neg = λ a. a;
  log = λ a. a;
  log2 = λ a. a;
  exp = λ a. a;
  ltb = ltb;
  leb = leb;
  to_float32 = λ a. a;
  trunc = pos;
}

-- A client that finds every user and makes every clip.
abbrev pub client : Helix ℕ
client = record {
  is_configured = λ s. true;
  get_user_id = λ login s. (s + 1, ok login);
  create_clip = λ user s. (s + 1, ok (record { id = user; edit_url = [] }));
}

abbrev pub second_text : ℤ → Text
second_text t = codes "0"

abbrev pub window : FeatureVector ℕ
window = record {
  channel = codes "fun";
  window_start = pos 0;
  window_end = pos 24;
  msg_count = 9;
  unique_users = 5;
  avg_msg_len = 4;
  max_repeat_count = 3;
  unique_norm_msgs = 6;
  entropy_raw = 2;
  hype_score = 1;
  repeat_ratio = 0;
}

abbrev pub sure : Predictor ℕ
sure = record { ready = true; predict_proba = λ xs. ok 8 }

abbrev consumers : Option (Predictor ℕ) → Consumers ℕ ℕ
consumers p = record {
  predictor = p;
  helix = some 0;
  elastic = none;
  elastic_online = false;
  cooldowns = [];
  last_prob = [];
}

abbrev pub clock : Clock
clock = record { at_cooldown = pos 50; at_url = pos 51; at_index = pos 52 }

abbrev attempts : List (Text × ℤ)
attempts =
    (codes "fun", pos 0)
    ∷ (codes "fun", pos 29000000000)
    ∷ (codes "art", pos 29000000000)
    ∷ (codes "fun", pos 30000000000)
    ∷ []

passes_test : passes (codes "fun") attempts [] ≡ pos 0 ∷ pos 30000000000 ∷ []
unfolding try_cooldown eq_text
passes_test = refl

try_cooldown_iff_example :
    let m = after attempts [] in
    ((try_cooldown (codes "fun") (pos 31000000000) m).1
      ≡ not (active (ends none (passes (codes "fun") attempts [])) (pos 31000000000)))
    × ((is_in_cooldown (codes "fun") (pos 31000000000) m).0
        ≡ not (try_cooldown (codes "fun") (pos 31000000000) m).1)
try_cooldown_iff_example = try_cooldown_iff (codes "fun") (pos 31000000000) attempts

consumers-IsScored : IsScored tenths client second_text clock window (consumers (some sure)) 8
consumers-IsScored = record { predictor = sure; loaded = refl; ready = refl; predicted = refl }

on_features-Settles_example :
    Settles tenths client second_text clock window
      (consumers (some sure))
      8
      (codes "fun")
      (on_features tenths client second_text clock window (consumers (some sure)))
on_features-Settles_example =
    on_features-Settles tenths client second_text clock window (consumers (some sure)) 8
      (codes "fun") consumers-IsScored

clip_test :
    (on_features tenths client second_text clock window (consumers (some sure))).1
    ≡ created (codes "fun")
unfolding on_features
clip_test = refl

-- Deliveries to the groups.
abbrev message : Text → ℕ → ChatMessage
message id seconds = record {
  id = id;
  channel = codes "fun";
  user_id = codes "1";
  user_name = codes "amy";
  content = codes "gg";
  emotes = [];
  bits = pos 0;
  timestamp = pos (seconds * 1000000000);
}

abbrev pub works : Driver
works = record {
  begin_fails = false;
  prepare_fails = false;
  exec_fails = λ i. false;
  commit_fails = false;
}

abbrev keep : ℕ → ℕ
keep c = c

abbrev deliveries : List (Delivery ℕ)
deliveries =
    to_sqlite (pos 1000000000) works (message (codes "a") 1)
    ∷ to_features (pos 1000000000) (pos 0) (message (codes "a") 1)
    ∷ poll (pos 26000000000) (codes "fun" ∷ [])
    ∷ to_predict clock window
    ∷ to_elastic (pos 1000000000) (pos 0) (message (codes "a") 1)
    ∷ to_sqlite (pos 27000000000) works (message (codes "b") 1)
    ∷ []

abbrev pub parts : Parts ℕ ℕ
parts = record {
  store = record { rows = []; batch_size = 2; buf = [] };
  monitor = new_monitor;
  published = [];
  consumers = consumers (some sure);
  message_count = some 0;
}

run-stores_example :
    view (run tenths client second_text keep deliveries parts).store
    ≡ insert_all (view parts.store) (enqueued (store_calls deliveries))
run-stores_example = run-stores tenths client second_text keep deliveries parts

run-windows_example :
    published (codes "fun") (run tenths client second_text keep deliveries parts).published
      ++ buffer (codes "fun") (run tenths client second_text keep deliveries parts).monitor
    ≡ received keep (codes "fun") (monitor_events deliveries)
run-windows_example =
    run-windows tenths client second_text keep deliveries parts (codes "fun") refl refl

-- A second window 20 seconds later, and a third one 30 seconds later.
abbrev later_clock : ℕ → Clock
later_clock seconds =
    let at = pos (50 + seconds * 1000000000) in
    record { at_cooldown = at; at_url = at; at_index = at }

abbrev more_deliveries : List (Delivery ℕ)
more_deliveries =
    deliveries
    ++ to_predict (later_clock 20) window
      ∷ to_sqlite (pos 48000000000) works (message (codes "c") 20)
      ∷ to_predict (later_clock 30) window
      ∷ []

run-Spaced_example :
    Spaced none (clip_times tenths client second_text keep (codes "fun") more_deliveries parts)
unfolding lookup
run-Spaced_example =
    run-Spaced tenths client second_text keep (codes "fun") more_deliveries parts refl

clip_times_test :
    clip_times tenths client second_text keep (codes "fun") more_deliveries parts
    ≡ pos 50 ∷ pos 30000000050 ∷ []
unfolding on_features deliver try_cooldown eq_text
clip_times_test = refl

-- A message of 26 seconds ago, whose timestamp is set right.
abbrev late : ChatMessage
late = normalize_ts (pos 27000000000) (message [] 1)

normalize_ts-recent_example :
    (late.timestamp ≡ (
      if not (is_zero (message [] 1).timestamp)
        && is_recent (pos 27000000000) (message [] 1).timestamp
      then (message [] 1).timestamp
      else pos 27000000000))
    × (late ≡ record (message [] 1) { timestamp = late.timestamp })
    × (is_recent (pos 27000000000) late.timestamp ≡ true)
    × (normalize_ts (pos 27000000000) late ≡ late)
normalize_ts-recent_example = normalize_ts-recent (pos 27000000000) (message [] 1) refl
