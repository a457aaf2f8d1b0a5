-- ===== src/Auth/Env.antt =====
-- internal/auth/env.go: the environment file.
pub mod Precedence
use snipr.Base.{
  ℕ, ◌==◌, Bool, true, false, ◌||◌, not, Option, none, some, List, [], ◌∷◌, ◌++◌, if◌then◌else◌,
}
use snipr.Text.{Text, codes, cut, has_prefix, is_empty, trim_left, trim_right, trim_space}
use snipr.Text.Map.{Map, get_or, insert}

-- The environment of the process: `os.Getenv` gives the empty text for a name that is not there.
abbrev pub Environment : Type 0
Environment = Map Text

abbrev pub getenv : Text → Environment → Text
getenv k env = get_or k [] env

unfoldable pub has_nul : Text → Bool
has_nul [] = false
has_nul (c ∷ s) = let rest = has_nul s in if c == 0 then true else rest

unfoldable pub has_equals : Text → Bool
has_equals [] = false
has_equals (c ∷ s) = let rest = has_equals s in if c == b'=' then true else rest

-- `os.Setenv`, which refuses some names and values of a Unix system.
abbrev pub is_settable : Text → Text → Bool
is_settable k v = not (is_empty k || has_equals k || has_nul k || has_nul v)

unfoldable pub setenv : Text → Text → Environment → Environment
unfolding insert has_nul has_equals
setenv k v env = if is_settable k v then insert k v env else env

-- `strings.Trim(val, "\"'")`
unfoldable pub trim_quotes : Text → Text
unfolding trim_left trim_right
trim_quotes s =
    trim_right (λ c. c == b'"' || c == b'\'') (trim_left (λ c. c == b'"' || c == b'\'') s)

-- The name and the value that a line gives, if it gives any.
unfoldable pub assignment : Text → Option (Text × Text)
unfolding trim_space cut has_prefix trim_quotes
assignment raw =
    let line = trim_space raw in
    if is_empty line || has_prefix line (codes "#") then none else elim (cut (codes "=") line) [
      | none ↦ none
      | some (k, v) ↦ some (trim_space k, trim_quotes (trim_space v))
    ]

abbrev pub assign : Option (Text × Text) → Environment → Environment
assign none env = env
assign (some (k, v)) env = if is_empty (getenv k env) then setenv k v env else env

-- The loop over the lines of the scanner.
unfoldable pub load_lines : List Text → Environment → Environment
unfolding assignment setenv get_or
load_lines [] env = env
load_lines (line ∷ lines) env = load_lines lines (assign (assignment line) env)

-- `LoadEnv` of a file with these lines, up to the first one that the scanner refuses; `none` is a
-- file that cannot be opened. `complete` says that the scanner came to the end.
unfoldable pub load_env : Option (List Text) → Bool → Environment → Environment × Bool
unfolding load_lines
load_env none complete env = (env, false)
load_env (some lines) complete env = (load_lines lines env, complete)
