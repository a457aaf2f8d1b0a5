-- ===== src/Auth/Env/Precedence.antt =====
-- Which value a name has behind the environment file.
use snipr.Base.{
  sym, ◌≡◌, refl, Bool, true, false, ◌&&◌, Option, none, some, List, [], ◌∷◌, if◌then◌else◌, arith,
  ◌∙◌, ap, Bool-cases, inl, inr,
}
use snipr.Auth.Env.{
  Environment, getenv, is_settable, setenv, assignment, assign, load_lines, load_env,
}
use snipr.Text.{Text, eq_text, eq_text_iff, is_empty}
use snipr.Text.Map.{get_or-insert}

-- The value that a line gives to a name.
abbrev pub given : Text → Option (Text × Text) → Text
given k none = []
given k (some (j, v)) = if eq_text j k && is_settable j v then v else []

-- The first of some values that is not empty.
abbrev pub or_given : Text → Text → Text
or_given [] v = v
or_given (c ∷ s) v = c ∷ s

unfoldable pub first_given : Text → List Text → Text
unfolding assignment
first_given k [] = []
first_given k (line ∷ lines) = or_given (given k (assignment line)) (first_given k lines)

or_given_assoc : (a b c : Text) → or_given (or_given a b) c ≡ or_given a (or_given b c)
or_given_assoc [] b c = refl
or_given_assoc (x ∷ a) b c = refl

or_given-nil : (a : Text) → or_given a [] ≡ a
or_given-nil [] = refl
or_given-nil (x ∷ a) = refl

getenv-setenv :
    (k j v : Text) (env : Environment)
    → is_empty (getenv j env) ≡ true
    → getenv k (setenv j v env) ≡ or_given (getenv k env) (given k (some (j, v)))
unfolding setenv
getenv-setenv k j v env h =
    ground (arith, h, get_or-insert j k [] v env, eq_text_iff j k, or_given-nil (getenv k env))

getenv-assign :
    (k : Text) (o : Option (Text × Text)) (env : Environment)
    → getenv k (assign o env) ≡ or_given (getenv k env) (given k o)
getenv-assign k none env = sym (or_given-nil (getenv k env))
getenv-assign k (some (j, v)) env = elim (Bool-cases (is_empty (getenv j env))) [
  | inl unset ↦ rw unset (getenv-setenv k j v env unset)
  | inr set ↦ rw set (held set)
]
  where
    held :
        is_empty (getenv j env) ≡ false
        → getenv k env ≡ or_given (getenv k env) (if eq_text j k && is_settable j v then v else [])
    held h = ground (arith, h, eq_text_iff j k, or_given-nil (getenv k env))

-- A name keeps its value if it has one that is not empty; otherwise it takes the first value that
-- the lines give it and that is neither empty nor refused by the system.
pub load_env-first_given :
    (k : Text) (lines : List Text) (complete : Bool) (env : Environment)
    → getenv k (load_env (some lines) complete env).0
      ≡ or_given (getenv k env) (first_given k lines)
unfolding load_env load_lines first_given
load_env-first_given k [] complete env = sym (or_given-nil (getenv k env))
load_env-first_given k (line ∷ lines) complete env =
    load_env-first_given k lines complete (assign (assignment line) env)
    ∙ ap (λ v. or_given v (first_given k lines)) (getenv-assign k (assignment line) env)
    ∙ or_given_assoc (getenv k env) (given k (assignment line)) (first_given k lines)
