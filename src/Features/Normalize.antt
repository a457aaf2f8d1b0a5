-- ===== src/Features/Normalize.antt =====
-- internal/features/normalize.go, `SimpleNormalize`.
pub mod Runs
use snipr.Base.{ℕ, ◌+◌, true, false, [], ◌∷◌, map, ltb, ◌==◌, if◌then◌else◌}
use snipr.Text.{Text, codes, is_space, fields, join, trim_space, is_empty}

-- The loop over the runes: `prev` and `run` are the last rune and how often it came in a row.
unfoldable pub cap_runs : ℕ → ℕ → Text → Text
unfolding is_space
cap_runs prev run [] = []
cap_runs prev run (r ∷ s) = elim (is_space r) [
  | true ↦ b' ' ∷ cap_runs 0 0 s
  | false ↦ elim (r == prev) [
    | true ↦ elim (ltb 2 (run + 1)) [
      | true ↦ cap_runs prev (run + 1) s
      | false ↦ r ∷ cap_runs prev (run + 1) s
    ]
    | false ↦ r ∷ cap_runs r 1 s
  ]
]

-- `lower` is `unicode.ToLower`.
module _ (lower : ℕ → ℕ) where
  -- The three assignments to `s` above the loop.
  unfoldable pub collapse : Text → Text
  unfolding fields join trim_space
  collapse s = trim_space (join (codes " ") (fields (map lower s)))

  -- `SimpleNormalize`
  unfoldable pub simple_normalize : Text → Text
  unfolding collapse cap_runs
  simple_normalize s = let t = collapse s in if is_empty t then t else cap_runs 0 0 t
