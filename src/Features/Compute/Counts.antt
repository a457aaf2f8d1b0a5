-- ===== src/Features/Compute/Counts.antt =====
-- What the counts of a window say of its messages.
use snipr.Base.{ℕ, ◌+◌, ◌≤◌, ◌≡◌, List, [], ◌∷◌, if◌then◌else◌, length}
use snipr.Features.Compute.{BufferedMessage}
use snipr.Text.{Text, eq_text}
use snipr.Text.Map.{Map}
use snipr.Models.{FeatureVector}

-- How often a normalized line was said.
abbrev pub occurrences : Text → List BufferedMessage → ℕ
occurrences k [] = 0
occurrences k (m ∷ ms) = (if eq_text m.norm_text k then 1 else 0) + occurrences k ms

abbrev pub sum : List ℕ → ℕ
sum [] = 0
sum (c ∷ cs) = c + sum cs

-- The three counts of a window: how many chatters and lines there are at most, and how far the
-- repetitions of a line go.
pub record HasCounts {F : Type 0} (of_ℕ : ℕ → F) (msgs : List BufferedMessage)
    (fv : FeatureVector F) : Type 0 where
  pub users : ℕ
  pub lines : ℕ
  pub repeats : ℕ
  pub users_is : fv.unique_users ≡ of_ℕ users
  pub lines_is : fv.unique_norm_msgs ≡ of_ℕ lines
  pub repeats_is : fv.max_repeat_count ≡ of_ℕ repeats
  pub msgs_is : fv.msg_count ≡ of_ℕ (length msgs)
  pub users_le : users ≤ length msgs
  pub lines_le : lines ≤ length msgs
  pub repeats_le : repeats ≤ length msgs
  pub repeats_ge : (k : Text) → occurrences k msgs ≤ repeats
