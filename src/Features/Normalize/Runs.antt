-- ===== src/Features/Normalize/Runs.antt =====
-- The runs of a character in a normalized text.
use snipr.Base.{
  lt→ltb, subst, sym, ==_iff, ℕ, zero, suc, ◌≡◌, refl, Bool, true, false, ◌&&◌, not, [], ◌∷◌, ◌++◌,
  arith, ◌==◌, if◌then◌else◌, Bool-cases, inl, inr, ltb, ◌+◌,
}
use snipr.Features.Normalize.{cap_runs, collapse, simple_normalize}
use snipr.Text.{Text, is_space, is_empty}

abbrev pub triple : ℕ → ℕ → ℕ → Bool
triple a b c = a == b && b == c && not (is_space a)

-- No character but white space stands three times in a row.
pub triple_free : Text → Bool
triple_free [] = true
triple_free (a ∷ []) = true
triple_free (a ∷ b ∷ []) = true
triple_free (a ∷ b ∷ c ∷ s) = not (triple a b c) && triple_free (b ∷ c ∷ s)

-- What the loop has written of the run that it is in.
abbrev front : ℕ → ℕ → Text
front prev zero = []
front prev (suc zero) = prev ∷ []
front prev (suc (suc n)) = prev ∷ prev ∷ []

space_ahead : (s : Text) → triple_free s ≡ true → triple_free (b' ' ∷ s) ≡ true
unfolding triple_free
space_ahead [] h = refl
space_ahead (a ∷ []) h = refl
space_ahead (a ∷ b ∷ s) h = unfold is_space in ground arith

other_ahead :
    (c d : ℕ) (s : Text)
    → (c == d) ≡ false
    → triple_free (d ∷ s) ≡ true
    → triple_free (c ∷ d ∷ s) ≡ true
unfolding triple_free
other_ahead c d [] e h = refl
other_ahead c d (a ∷ s) e h = ground arith

pair_ahead :
    (p d : ℕ) (s : Text)
    → (d == p) ≡ false
    → triple_free (p ∷ d ∷ s) ≡ true
    → triple_free (p ∷ p ∷ d ∷ s) ≡ true
unfolding triple_free
pair_ahead p d s e h = ground arith

front_ahead :
    (p run d : ℕ) (s : Text)
    → (d == p) ≡ false
    → triple_free (d ∷ s) ≡ true
    → triple_free (front p run ++ d ∷ s) ≡ true
front_ahead p zero d s e h = h
front_ahead p (suc zero) d s e h = other_ahead p d s (ground arith) h
front_ahead p (suc (suc n)) d s e h = pair_ahead p d s e (other_ahead p d s (ground arith) h)

front_spaces :
    (run : ℕ) (s : Text) → triple_free s ≡ true → triple_free (front b' ' run ++ b' ' ∷ s) ≡ true
front_spaces zero s h = space_ahead s h
front_spaces (suc zero) s h = space_ahead _ (space_ahead s h)
front_spaces (suc (suc n)) s h = space_ahead _ (space_ahead _ (space_ahead s h))

front_space :
    (p run : ℕ) (s : Text) → triple_free s ≡ true → triple_free (front p run ++ b' ' ∷ s) ≡ true
front_space p run s h = elim (Bool-cases (b' ' == p)) [
  | inl same ↦
      subst (λ q. triple_free (front q run ++ b' ' ∷ s) ≡ true) ((==_iff b' ' p).0 same)
        (front_spaces run s h)
  | inr other ↦ front_ahead p run b' ' s other (space_ahead s h)
]

module _ (prev run r : ℕ) (s : Text) where
  cap_runs_space : is_space r ≡ true → cap_runs prev run (r ∷ s) ≡ b' ' ∷ cap_runs 0 0 s
  unfolding cap_runs
  cap_runs_space h = ground (arith, h)

  cap_runs_other :
      is_space r ≡ false → (r == prev) ≡ false → cap_runs prev run (r ∷ s) ≡ r ∷ cap_runs r 1 s
  unfolding cap_runs
  cap_runs_other h e = ground (arith, h, e)

  cap_runs_same :
      is_space r ≡ false
      → (r == prev) ≡ true
      → cap_runs prev run (r ∷ s)
        ≡ (if ltb 2 (run + 1) then cap_runs prev (run + 1) s else prev ∷ cap_runs prev (run + 1) s)
  unfolding cap_runs
  cap_runs_same h e = ground (arith, h, e)

IsCapped : ℕ → ℕ → Text → Type 0
IsCapped prev run s = triple_free (front prev run ++ s) ≡ true

same_ahead :
    (prev run : ℕ) (s : Text)
    → IsCapped prev (run + 1) s
    → IsCapped prev run (if ltb 2 (run + 1) then s else prev ∷ s)
unfolding IsCapped
same_ahead prev zero s h = h
same_ahead prev (suc zero) s h = h
same_ahead prev (suc (suc n)) s h =
    let next : suc (suc n) + 1 ≡ suc (suc (suc n)) = omega arith in
    rw (lt→ltb 2 (suc (suc n) + 1) (omega arith)) (subst (λ m. IsCapped prev m s) next h)

cap_runs-IsCapped : (prev run : ℕ) (s : Text) → IsCapped prev run (cap_runs prev run s)
unfolding cap_runs triple_free IsCapped
cap_runs-IsCapped prev zero [] = refl
cap_runs-IsCapped prev (suc zero) [] = refl
cap_runs-IsCapped prev (suc (suc n)) [] = refl
cap_runs-IsCapped prev run (r ∷ s) = elim (Bool-cases (is_space r)) [
  | inl space ↦
      subst (IsCapped prev run) (sym (cap_runs_space prev run r s space))
        (front_space prev run (cap_runs 0 0 s) (cap_runs-IsCapped 0 0 s))
  | inr letter ↦ elim (Bool-cases (r == prev)) [
    | inl same ↦
        subst (IsCapped prev run) (sym (cap_runs_same prev run r s letter same))
          (same_ahead prev run (cap_runs prev (run + 1) s) (cap_runs-IsCapped prev (run + 1) s))
    | inr other ↦
        subst (IsCapped prev run) (sym (cap_runs_other prev run r s letter other))
          (front_ahead prev run r (cap_runs r 1 s) other (cap_runs-IsCapped r 1 s))
  ]
]

capped_text : (t : Text) → triple_free (if is_empty t then t else cap_runs 0 0 t) ≡ true
capped_text [] = unfold triple_free in refl
capped_text (c ∷ t) = unfold IsCapped in cap_runs-IsCapped 0 0 (c ∷ t)

-- A normalized text has no character, white space aside, three times in a row.
pub simple_normalize-triple_free :
    (lower : ℕ → ℕ) (s : Text) → triple_free (simple_normalize lower s) ≡ true
unfolding simple_normalize
simple_normalize-triple_free lower s = capped_text (collapse lower s)
