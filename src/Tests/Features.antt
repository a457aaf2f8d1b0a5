-- ===== src/Tests/Features.antt =====
-- internal/features: two messages, a window, and what follows it.
use snipr.Base.{
  true, ◌≤◌, All, map, ℕ, ◌+◌, ◌*◌, ◌≡◌, ◌↔◌, arith, refl, List, [], ◌∷◌, ◌++◌, ltb, leb, ◌-◌,
  length,
}
use snipr.Float.{Float64}
use snipr.Models.{ChatMessage}
use snipr.Features.Compute.{BufferedMessage, compute_window_features}
use snipr.Features.Monitor.{Event, chat, tick, run, new_monitor}
use snipr.Features.Monitor.Windows.{published, buffer, received, run_conserves}
use snipr.Features.Monitor.Spacing.{Chain, windows_of, run-Chain}
use mathlib.Core.List.Perm
use snipr.Features.Normalize.{simple_normalize}
use snipr.Features.Normalize.Runs.{triple_free, simple_normalize-triple_free}
use snipr.Features.Hype.{hype_words, hype_hits, hype_score, member, match_candidates}
use snipr.Features.Hype.Chosen.{Chosen, IsOrdered}
use snipr.Features.Hype.Sets.{distinct}
use snipr.Features.Hype.Votes.{hype_score-counts}
use snipr.Text.{eq_text, Text, codes}
use snipr.Base.Int.{◌-ℤ◌, ℤ, pos}

-- Natural numbers in the place of `float64`.
abbrev pub whole : Float64
whole = record {
  F = ℕ;
  of_ℕ = λ n. n;
  decimal = λ m k. m;
  add = λ a b. a + b;
  sub = λ a b. a - b;
  mul = λ a b. a * b;
  div = λ a b. a;
  neg = λ a. a;
  log = λ a. a;
  log2 = λ a. a;
  exp = λ a. a;
  ltb = ltb;
  leb = leb;
  to_float32 = λ a. a;
  trunc = pos;
}

abbrev pub keep : ℕ → ℕ
keep c = c

abbrev pub said : Text → ℕ → ChatMessage
said content seconds = record {
  id = [];
  channel = codes "fun";
  user_id = codes "1";
  user_name = codes "amy";
  content = content;
  emotes = [];
  bits = pos 0;
  timestamp = pos (seconds * 1000000000);
}

abbrev pub events : List Event
events =
    chat (pos 1) (said (codes "gg") 10)
    ∷ tick (pos (20 * 1000000000)) (codes "fun" ∷ [])
    ∷ chat (pos 1) (said (codes "wp") 30)
    ∷ tick (pos (34 * 1000000000)) (codes "fun" ∷ [])
    ∷ chat (pos 1) (said (codes "ez") 35)
    ∷ []

run_conserves_example :
    published (codes "fun") (run keep events new_monitor).1
      ++ buffer (codes "fun") (run keep events new_monitor).0
    ≡ received keep (codes "fun") events
run_conserves_example = run_conserves keep events (codes "fun")

run-Chain_example : (s t : ℤ) × Chain s (windows_of (codes "fun") (run keep events new_monitor).1) t
run-Chain_example = run-Chain keep events (codes "fun")

published_test : length (published (codes "fun") (run keep events new_monitor).1) ≡ 2
unfolding run eq_text ◌-ℤ◌
published_test = refl

abbrev messages : List BufferedMessage
messages =
    record { user_name = codes "amy"; norm_text = codes "gg"; raw_len = 2 }
    ∷ record { user_name = codes "bob"; norm_text = codes "gg"; raw_len = 2 }
    ∷ record { user_name = codes "amy"; norm_text = codes "wp"; raw_len = 2 }
    ∷ []

counts_test :
    (compute_window_features whole
      (λ l. l)
      keep
      (codes "fun")
      (pos 0)
      (pos 1)
      messages).max_repeat_count
    ≡ 2
unfolding compute_window_features
counts_test = refl

simple_normalize-triple_free_example :
    triple_free (simple_normalize keep (codes " loool  nooo ")) ≡ true
simple_normalize-triple_free_example = simple_normalize-triple_free keep (codes " loool  nooo ")

normalize_test : simple_normalize keep (codes " loool  nooo ") ≡ codes "lool noo"
unfolding simple_normalize
normalize_test = refl

whole-IsOrdered : IsOrdered whole
whole-IsOrdered = record {
  irreflexive = λ a. ground arith;
  rises = λ a b c h k. ground (arith, h, k);
  falls = λ a b c t reaches h k. ground (arith, h, k);
  above_zero = λ a h. ground (arith, h);
}

hype_score-counts_example :
    let hits = hype_hits whole keep (codes "omg gg") in
    let words = map (simple_normalize keep) hype_words in
    (hype_score whole keep (codes "omg gg") ≡ whole.of_ℕ (length hits))
    × (distinct hits ≡ true)
    × All (λ w. member w words ≡ true) hits
    × (length hits ≤ length (match_candidates (codes "omg gg")))
    × ((w : Text)
        → (member w hits ≡ true) ↔ (
            (c : Text) × (member c (match_candidates (codes "omg gg")) ≡ true)
            × Chosen whole words c w))
hype_score-counts_example = hype_score-counts whole whole-IsOrdered keep (codes "omg gg")
