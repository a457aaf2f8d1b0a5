-- ===== src/Features/Hype/Chosen.antt =====
-- The hype word that a candidate of a text votes for: the most similar one.
use snipr.Base.{
  ℕ, ◌≡◌, refl, sym, ap, ◌∙◌, ◌⊎◌, inl, inr, Bool, true, false, not, ◌&&◌, Option, none, some, List,
  [], ◌∷◌, ◌++◌, arith, length, length-append, append_assoc, append-nil, get_elem?, All, All-append,
  if◌then◌else◌, Bool-cases, subst,
}
use snipr.Features.Hype.{Best, no_best, best_from, improve, jaccard_threshold, score}
use snipr.Float.{Float64}
use snipr.Text.{Text, is_empty}

-- What the choice relies on of the comparisons of `float64`, where a comparison with a NaN is false.
pub record IsOrdered (fl : Float64) : Type 0 where
  pub irreflexive : (a : fl.F) → fl.ltb a a ≡ false
  pub rises : (a b c : fl.F) → fl.ltb a b ≡ true → fl.ltb a c ≡ false → fl.ltb b c ≡ false
  pub falls :
      (a b c t : fl.F)
      → fl.leb t c ≡ true
      → fl.ltb a b ≡ true
      → fl.ltb a c ≡ false
      → fl.ltb c b ≡ true
  pub above_zero : (a : fl.F) → fl.leb (jaccard_threshold fl) a ≡ true → fl.ltb (fl.of_ℕ 0) a ≡ true

All-map :
    {A : Type 0} (P Q : A → Type 0) (xs : List A) → ((x : A) → P x → Q x) → All P xs → All Q xs
All-map P Q [] f h = tt
All-map P Q (x ∷ xs) f h = (f x h.0, All-map P Q xs f h.1)

pub All-middle :
    {A : Type 0} (P : A → Type 0) (before : List A) (x : A) (after : List A)
    → All P (before ++ x ∷ after)
    → P x
All-middle P [] x after h = h.0
All-middle P (y ∷ before) x after h = All-middle P before x after h.1

pub get_elem?-middle :
    (before : List Text) (w : Text) (after : List Text)
    → get_elem? (before ++ w ∷ after) (length before) ≡ some w
get_elem?-middle [] w after = refl
get_elem?-middle (x ∷ before) w after = ground (arith, get_elem?-middle before w after)

-- Of two places in a list: they are one, or one stands in front of the other.
two_places :
    (P Q : Text → Type 0) (b b' : List Text) (w w' : Text) (a a' : List Text)
    → b ++ w ∷ a ≡ b' ++ w' ∷ a'
    → All Q b
    → All P b'
    → (w ≡ w') ⊎ (P w ⊎ Q w')
two_places P Q [] [] w w' a a' e q p = inl cc
two_places P Q [] (x ∷ b') w w' a a' e q p = let same : x ≡ w = cc in inr (inl (subst P same p.0))
two_places P Q (x ∷ b) [] w w' a a' e q p = let same : x ≡ w' = cc in inr (inr (subst Q same q.0))
two_places P Q (x ∷ b) (y ∷ b') w w' a a' e q p =
    let tails : b ++ w ∷ a ≡ b' ++ w' ∷ a' = cc in two_places P Q b b' w w' a a' tails q.1 p.1

module _ (fl : Float64) where
  open fl use {F, of_ℕ, leb as leb_F, ltb as ltb_F}

  -- A word that a candidate may vote for.
  abbrev pub passes : Text → Text → Bool
  passes c w = not (is_empty w) && leb_F (jaccard_threshold fl) (score fl c w)

  -- The word `w` reaches the threshold, none that reaches it is more similar to the candidate, and
  -- those in front of it are less similar.
  pub record Chosen (words : List Text) (c w : Text) : Type 0 where
    pub before : List Text
    pub after : List Text
    pub stands : words ≡ before ++ w ∷ after
    pub reaches : passes c w ≡ true
    pub greatest : All (λ v. (passes c v && ltb_F (score fl c w) (score fl c v)) ≡ false) words
    pub first : All (λ v. (passes c v && not (ltb_F (score fl c v) (score fl c w))) ≡ false) before

  pub none-Chosen :
      (words : List Text) (c w : Text) → All (λ v. passes c v ≡ false) words → ¬ Chosen words c w
  none-Chosen words c w h k = absurd (
      cc (
        All-middle (λ v. passes c v ≡ false) k.before w k.after
            (subst (All (λ v. passes c v ≡ false)) k.stands h),
        k.reaches,
      ))

  pub Chosen-one :
      (words : List Text) (c w w' : Text) → Chosen words c w → Chosen words c w' → w ≡ w'
  Chosen-one words c w w' k k' =
      let Over = λ (u v : Text). (passes c v && ltb_F (score fl c u) (score fl c v)) ≡ false in
      let w_over : Over w w' =
        All-middle (Over w) k'.before w' k'.after (subst (All (Over w)) k'.stands k.greatest) in
      let w'_over : Over w' w =
        All-middle (Over w') k.before w k.after (subst (All (Over w')) k.stands k'.greatest) in
      elim (two_places _ _ k.before k'.before w w' k.after k'.after (sym k.stands ∙ k'.stands)
        k.first k'.first) [
          | inl same ↦ same
          | inr (inl front) ↦ absurd (ground (arith, front, k.reaches, k'.reaches, w_over))
          | inr (inr front) ↦ absurd (ground (arith, front, k.reaches, k'.reaches, w'_over))
        ]

  -- `best` and `bestIdx` behind some words.
  abbrev pub Holds : Text → List Text → F → Option ℕ → Type 0
  Holds c words best none = (best ≡ of_ℕ 0) × All (λ v. passes c v ≡ false) words
  Holds c words best (some i) =
      (w : Text) × (k : Chosen words c w) × (length k.before ≡ i) × (best ≡ score fl c w)

module _ (fl : Float64) (laws : IsOrdered fl) where
  open fl use {F, of_ℕ, leb as leb_F, ltb as ltb_F}

  -- A word that is no better leaves what was chosen.
  kept-Holds :
      (c : Text) (words : List Text) (hw : Text) (best : F) (o : Option ℕ)
      → (passes fl c hw && ltb_F best (score fl c hw)) ≡ false
      → Holds fl c words best o
      → Holds fl c (words ++ hw ∷ []) best o
  kept-Holds c words hw best none calm (zero_, fails) =
      let low : passes fl c hw ≡ false =
        ground (arith, calm, laws.above_zero (score fl c hw), zero_) in
      (zero_, All-append _ words (hw ∷ []) fails (low, tt))
  kept-Holds c words hw best (some i) calm (w, k, here, is_best) = (
    w,
    record {
      before = k.before;
      after = k.after ++ hw ∷ [];
      stands = ap (λ l. l ++ hw ∷ []) k.stands ∙ append_assoc k.before (w ∷ k.after) (hw ∷ []);
      reaches = k.reaches;
      greatest = All-append _ words (hw ∷ []) k.greatest (rw is_best at calm, tt);
      first = k.first;
    },
    here,
    is_best,
  )

  chosen-Holds :
      (c : Text) (words : List Text) (hw : Text)
      → passes fl c hw ≡ true
      → All (λ v. (passes fl c v && ltb_F (score fl c hw) (score fl c v)) ≡ false) words
      → All (λ v. (passes fl c v && not (ltb_F (score fl c v) (score fl c hw))) ≡ false) words
      → Holds fl c (words ++ hw ∷ []) (score fl c hw) (some (length words))
  chosen-Holds c words hw reaches greatest first = (
    hw,
    record {
      before = words;
      after = [];
      stands = refl;
      reaches = reaches;
      greatest =
          All-append _ words (hw ∷ []) greatest
            (ground (arith, laws.irreflexive (score fl c hw)), tt);
      first = first;
    },
    refl,
    refl,
  )

  -- A better word is chosen.
  new-Holds :
      (c : Text) (words : List Text) (hw : Text) (best : F) (o : Option ℕ)
      → passes fl c hw ≡ true
      → ltb_F best (score fl c hw) ≡ true
      → Holds fl c words best o
      → Holds fl c (words ++ hw ∷ []) (score fl c hw) (some (length words))
  new-Holds c words hw best none reaches better (_, fails) =
      chosen-Holds c words hw reaches (All-map _ _ words (λ v low. ground (arith, low)) fails)
        (All-map _ _ words (λ v low. ground (arith, low)) fails)
  new-Holds c words hw best (some i) reaches better (w, k, _, is_best) =
      let above = rw is_best at better in
      chosen-Holds c words hw reaches
        (All-map _ _ words
          (λ v over.
            ground (arith, over, laws.rises (score fl c w) (score fl c hw) (score fl c v) above))
          k.greatest)
        (All-map _ _ words
          (λ v over. ground (
            arith,
            over,
            above,
            laws.falls (score fl c w) (score fl c hw) (score fl c v) (jaccard_threshold fl),
          ))
          k.greatest)

  improve-passes :
      (c : Text) (i : ℕ) (hw : Text) (b : Best fl)
      → improve fl c i hw b ≡ (
          if passes fl c hw && ltb_F b.best (score fl c hw)
          then record { best = score fl c hw; index = some i }
          else b)
  unfolding improve
  improve-passes c i hw b = elim (Bool-cases (is_empty hw)) [
    | inl none_ ↦ rw none_ refl
    | inr full ↦ rw full refl
  ]

  improve-Holds :
      (c : Text) (words : List Text) (hw : Text) (b : Best fl)
      → Holds fl c words b.best b.index
      → let b' = improve fl c (length words) hw b in Holds fl c (words ++ hw ∷ []) b'.best b'.index
  improve-Holds c words hw b h =
      elim (Bool-cases (passes fl c hw && ltb_F b.best (score fl c hw))) [
        | inl better ↦
            rw (improve-passes c (length words) hw b, better)
              (new-Holds c words hw b.best b.index (ground (arith, better)) (ground (arith, better))
                h)
        | inr calm ↦
            rw (improve-passes c (length words) hw b, calm)
              (kept-Holds c words hw b.best b.index calm h)
      ]

  best_from-Holds :
      (c : Text) (seen words : List Text) (b : Best fl)
      → Holds fl c seen b.best b.index
      → let b' = best_from fl c (length seen) words b in Holds fl c (seen ++ words) b'.best b'.index
  unfolding best_from
  best_from-Holds c seen [] b h = rw (append-nil seen) h
  best_from-Holds c seen (hw ∷ words) b h =
      let rest =
        best_from-Holds c (seen ++ hw ∷ []) words (improve fl c (length seen) hw b)
          (improve-Holds c seen hw b h) in
      rw (append_assoc seen (hw ∷ []) words, length-append seen (hw ∷ [])) at rest

  -- What a candidate votes for, among all words.
  pub best_from-votes :
      (c : Text) (words : List Text)
      → let b = best_from fl c 0 words (no_best fl) in Holds fl c words b.best b.index
  best_from-votes c words = best_from-Holds c [] words (no_best fl) (refl, tt)
