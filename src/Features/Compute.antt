-- ===== src/Features/Compute.antt =====
-- internal/features/compute.go: the eight features of a window.
pub mod Counts
use snipr.Base.{
  ℕ, zero, suc, ◌+◌, Bool, true, false, List, [], ◌∷◌, ◌++◌, map, ltb, if◌then◌else◌, length,
}
use snipr.Base.Int.{ℤ, pos, negsuc}
use snipr.Features.Hype.{add, hype_score}
use snipr.Float.{Float64}
use snipr.Models.{FeatureVector}
use snipr.Text.{Text}
use snipr.Text.Map.{Map, insert, get_or}

pub record BufferedMessage : Type 0 where
  pub user_name : Text
  pub norm_text : Text
  pub raw_len : ℕ

-- The variables of the loop over the messages.
pub record Tally : Type 0 where
  pub users : List Text
  pub freq : Map ℕ
  pub total_len : ℕ
  pub joined : Text

abbrev pub no_tally : Tally
no_tally = record { users = []; freq = []; total_len = 0; joined = [] }

-- The body of the loop.
unfoldable pub count_message : Tally → BufferedMessage → Tally
unfolding add insert get_or
count_message t m = record {
  users = add m.user_name t.users;
  freq = insert m.norm_text (get_or m.norm_text 0 t.freq + 1) t.freq;
  total_len = t.total_len + m.raw_len;
  joined = t.joined ++ (m.norm_text ++ b' ' ∷ []);
}

unfoldable pub tally : Tally → List BufferedMessage → Tally
unfolding count_message
tally t [] = t
tally t (m ∷ ms) = tally (count_message t m) ms

-- The values of a map, in the order of its entries.
unfoldable pub map_values : Map ℕ → List ℕ
map_values [] = []
map_values ((k, v) ∷ m) = v ∷ map_values m

-- The loop for `maxRepeat`.
unfoldable pub max_from : ℕ → List ℕ → ℕ
max_from best [] = best
max_from best (c ∷ cs) = max_from (if ltb best c then c else best) cs

module _ (fl : Float64) where
  open fl use {F, of_ℕ, sub, mul, div, log2, ltb as ltb_F, trunc}

  entropy_from : F → F → List ℕ → F
  entropy_from n h [] = h
  entropy_from n h (c ∷ cs) =
      let p = div (of_ℕ c) n in
      entropy_from n (if ltb_F (of_ℕ 0) p then sub h (mul p (log2 p)) else h) cs

  -- `shannonEntropy`; the counts come in the order in which the map is iterated.
  unfoldable pub shannon_entropy : List ℕ → ℤ → F
  unfolding entropy_from
  shannon_entropy counts (pos zero) = of_ℕ 0
  shannon_entropy counts (pos (suc n)) = entropy_from (of_ℕ (suc n)) (of_ℕ 0) counts
  shannon_entropy counts (negsuc n) = of_ℕ 0

  -- `ComputeWindowFeatures`; `order` is the order in which Go iterates over a map, which no program
  -- may rely on, and `lower` is `unicode.ToLower`.
  unfoldable pub compute_window_features :
      (List ℕ → List ℕ) → (ℕ → ℕ) → Text → ℤ → ℤ → List BufferedMessage → FeatureVector F
  unfolding tally map_values max_from shannon_entropy hype_score
  compute_window_features order lower channel start end msgs =
      let t = tally no_tally msgs in
      let counts = order (map_values t.freq) in
      let msg_count = of_ℕ (length msgs) in
      let unique_norm = of_ℕ (length t.freq) in
      record {
        channel = channel;
        window_start = start;
        window_end = end;
        msg_count = msg_count;
        unique_users = of_ℕ (length t.users);
        avg_msg_len =
            (if ltb_F (of_ℕ 0) msg_count then div (of_ℕ t.total_len) msg_count else of_ℕ 0);
        max_repeat_count = of_ℕ (max_from 0 counts);
        unique_norm_msgs = unique_norm;
        entropy_raw = shannon_entropy counts (trunc msg_count);
        hype_score = hype_score fl lower t.joined;
        repeat_ratio =
            (if ltb_F (of_ℕ 0) msg_count
              then div (sub msg_count unique_norm) msg_count
              else of_ℕ 0);
      }
