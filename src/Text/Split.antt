-- ===== src/Text/Split.antt =====
-- What `Cut`, `Split` and `Join` do to one another, for a separator of one byte.
use snipr.Base.{ℕ, ◌≡◌, ◌≢◌, refl, List, [], ◌∷◌, ◌++◌, some, arith, All, ap, ◌∙◌}
use snipr.Text.{Text, cut, split_from, split, join}

-- No byte of the text is `c`.
abbrev pub Lacks : ℕ → Text → Type 0
Lacks c = All (λ x. x ≢ c)

pub cut-append : (c : ℕ) (a b : Text) → Lacks c a → cut (c ∷ []) (a ++ c ∷ b) ≡ some (a, b)
unfolding cut
cut-append c [] b h = ground arith
cut-append c (x ∷ a) b h = ground (arith, cut-append c a b h.1)

split-append :
    (c : ℕ) (a b : Text)
    → Lacks c a
    → split_from (c ∷ []) 0 (a ++ c ∷ b) ≡ a ∷ split_from (c ∷ []) 0 b
unfolding split_from
split-append c [] b h = ground arith
split-append c (x ∷ a) b h = ground (arith, split-append c a b h.1)

split_last : (c : ℕ) (a : Text) → Lacks c a → split_from (c ∷ []) 0 a ≡ a ∷ []
unfolding split_from
split_last c [] h = refl
split_last c (x ∷ a) h = ground (arith, split_last c a h.1)

-- Splitting a join gives the parts back.
pub split-join :
    (c : ℕ) (p : Text) (ps : List Text)
    → All (Lacks c) (p ∷ ps)
    → split (join (c ∷ []) (p ∷ ps)) (c ∷ []) ≡ p ∷ ps
unfolding join
split-join c p [] h = split_last c p h.0
split-join c p (q ∷ ps) h =
    split-append c p (join (c ∷ []) (q ∷ ps)) h.0 ∙ ap (◌∷◌ p) (split-join c q ps h.1)
