-- ===== src/Features/Hype/Votes.antt =====
-- The hype words that the candidates of a text vote for.
use snipr.Base.{
  ℕ, zero, suc, ◌+◌, ◌≤◌, ◌≡◌, ◌↔◌, ◌⊎◌, ◌∙◌, sym, ap, subst, refl, true, ◌||◌, Option, none, some,
  List, [], ◌∷◌, ◌++◌, map, arith, length, get_elem?, All, All-append, if◌then◌else◌, Bool-cases,
  inl, inr, Option-cases,
}
use snipr.Features.Hype.{
  hype_words, member, add, match_candidates, no_best, best_from, add_hit, hits_from, hype_hits,
  hype_score,
}
use snipr.Features.Hype.Chosen.{
  Chosen, Chosen-one, Holds, IsOrdered, best_from-votes, get_elem?-middle, none-Chosen,
}
use snipr.Features.Normalize.{simple_normalize}
use snipr.Float.{Float64}
use snipr.Text.{Text, eq_text, eq_text_iff, is_empty}
use snipr.Features.Hype.Sets.{
  member-nil, member-here, member-later, member-cons, member-add, distinct-add, length-add,
  distinct,
}

abbrev Within : List Text → List Text → Type 0
Within words = All (λ w. member w words ≡ true)

Within-add :
    (words : List Text) (k : Text) (s : List Text)
    → member k words ≡ true
    → Within words s
    → Within words (add k s)
unfolding add
Within-add words k s h w = elim (Bool-cases (member k s)) [
  | inl there ↦ rw there w
  | inr new ↦ rw new (All-append (λ w. member w words ≡ true) s (k ∷ []) w (h, tt))
]

member-get_elem? :
    (words : List Text) (i : ℕ) (w : Text) → get_elem? words i ≡ some w → member w words ≡ true
unfolding member
member-get_elem? [] i w h = absurd (ground arith)
member-get_elem? (x ∷ words) zero w h = ground (arith, eq_text_iff x w)
member-get_elem? (x ∷ words) (suc i) w h = ground (arith, member-get_elem? words i w h)

module _ (fl : Float64) where
  -- Some distinct words of a list, no more than there were votes.
  record IsTally (words : List Text) (votes : ℕ) (hits : List Text) : Type 0 where
    apart : distinct hits ≡ true
    within : Within words hits
    fits : length hits ≤ votes

  add-IsTally :
      (words : List Text) (votes : ℕ) (w : Text) (hits : List Text)
      → member w words ≡ true
      → IsTally words votes hits
      → IsTally words (votes + 1) (add w hits)
  add-IsTally words votes w hits h t = record {
    apart = distinct-add w hits t.apart;
    within = Within-add words w hits h t.within;
    fits = omega (arith, length-add w hits, t.fits);
  }

  later-IsTally :
      (words : List Text) (votes : ℕ) (hits : List Text)
      → IsTally words votes hits
      → IsTally words (votes + 1) hits
  later-IsTally words votes hits t = record {
    apart = t.apart;
    within = t.within;
    fits = omega (arith, t.fits);
  }

  add_hit-IsTally :
      (words : List Text) (votes : ℕ) (o : Option ℕ) (hits : List Text)
      → IsTally words votes hits
      → IsTally words (votes + 1) (add_hit fl words o hits)
  add_hit-IsTally words votes none hits t = later-IsTally words votes hits t
  add_hit-IsTally words votes (some i) hits t = elim (Option-cases (get_elem? words i)) [
    | inl missing ↦ rw (add_hit, missing) (later-IsTally words votes hits t)
    | inr (w, found) ↦
        rw (add_hit, found) (add-IsTally words votes w hits (member-get_elem? words i w found) t)
  ]

  hits_from-IsTally :
      (words cs : List Text) (votes : ℕ) (hits : List Text)
      → IsTally words votes hits
      → IsTally words (votes + length cs) (hits_from fl words cs hits)
  unfolding hits_from
  hits_from-IsTally words [] votes hits t = record {
    apart = t.apart;
    within = t.within;
    fits = omega (arith, t.fits);
  }
  hits_from-IsTally words (c ∷ cs) votes hits t =
      let o = (best_from fl c 0 words (no_best fl)).index in
      let rest =
        hits_from-IsTally words cs (votes + 1) (add_hit fl words o hits)
          (add_hit-IsTally words votes o hits t) in
      record { apart = rest.apart; within = rest.within; fits = omega (arith, rest.fits) }

  score_of_hits :
      (words cs : List Text)
      → (if is_empty cs then fl.of_ℕ 0 else fl.of_ℕ (length (hits_from fl words cs [])))
        ≡ fl.of_ℕ (length (hits_from fl words cs []))
  unfolding hits_from
  score_of_hits words [] = refl
  score_of_hits words (c ∷ cs) = refl

  -- The word of a vote is added.
  add_hit-votes :
      (laws : IsOrdered fl) (words : List Text) (c w : Text) (hits : List Text)
      → (member w (add_hit fl words (best_from fl c 0 words (no_best fl)).index hits) ≡ true)
        ↔ ((member w hits ≡ true) ⊎ Chosen fl words c w)
  add_hit-votes laws words c w hits =
      let b = best_from fl c 0 words (no_best fl) in
      votes b.best b.index (best_from-votes fl laws c words)
    where
      votes :
          (best : fl.F) (o : Option ℕ)
          → Holds fl c words best o
          → (member w (add_hit fl words o hits) ≡ true)
            ↔ ((member w hits ≡ true) ⊎ Chosen fl words c w)
      votes best none (_, fails) = (
        λ h. inl h,
        λ h. elim h [ inl there ↦ there | inr k ↦ absurd (none-Chosen fl words c w fails k) ],
      )
      votes best (some i) (v, k, here, _) =
          let found : get_elem? words i ≡ some v =
            ap (λ l. get_elem? l i) k.stands
            ∙ ap (get_elem? (k.before ++ v ∷ k.after)) (sym here)
            ∙ get_elem?-middle k.before v k.after in
          let added : member w (add_hit fl words (some i) hits) ≡ (member w hits || eq_text v w) =
            rw (add_hit, found) (member-add w v hits) in
          (
            λ h. elim (Bool-cases (eq_text v w)) [
              | inl same ↦ inr (subst (Chosen fl words c) ((eq_text_iff v w).0 same) k)
              | inr other ↦ inl (ground (arith, added, h, other))
            ],
            λ h. elim h [
              | inl there ↦ added ∙ ground (arith, there)
              | inr k' ↦
                  added ∙ ground (arith, (eq_text_iff v w).1 (Chosen-one fl words c v w k k'))
            ],
          )

  hits_from-votes :
      (laws : IsOrdered fl) (words cs : List Text) (w : Text) (hits : List Text)
      → (member w (hits_from fl words cs hits) ≡ true)
        ↔ ((member w hits ≡ true) ⊎ ((c : Text) × (member c cs ≡ true) × Chosen fl words c w))
  unfolding hits_from
  hits_from-votes laws words [] w hits = (
    λ h. inl h,
    λ h. elim h [ inl there ↦ there | inr (c, said, _) ↦ absurd (member-nil c said) ],
  )
  hits_from-votes laws words (c ∷ cs) w hits =
      let first = add_hit-votes laws words c w hits in
      let rest =
        hits_from-votes laws words cs w
          (add_hit fl words (best_from fl c 0 words (no_best fl)).index hits) in
      (
        λ h. elim (rest.0 h) [
          | inl front ↦ elim (first.0 front) [
            | inl there ↦ inl there
            | inr k ↦ inr (c, member-here c cs, k)
          ]
          | inr (d, later, k) ↦ inr (d, member-later d c cs later, k)
        ],
        λ h. elim h [
          | inl there ↦ rest.1 (inl (first.1 (inl there)))
          | inr (d, said, k) ↦ elim (member-cons d c cs said) [
            | inl same ↦ rest.1 (inl (first.1 (inr (subst (λ x. Chosen fl words x w) same k))))
            | inr later ↦ rest.1 (inr (d, later, k))
          ]
        ],
      )

  -- The hype score of a text is the number of its hits, which are different hype words, at most one
  -- for each candidate. With comparisons as those of `float64`, a word is a hit exactly when some
  -- candidate of the text chooses it: it reaches the threshold, no word that reaches it is more
  -- similar to the candidate, and those in front of it that reach it are less similar.
  pub hype_score-counts :
      (laws : IsOrdered fl) (lower : ℕ → ℕ) (text : Text)
      → let hits = hype_hits fl lower text in
        let words = map (simple_normalize lower) hype_words in
        (hype_score fl lower text ≡ fl.of_ℕ (length hits))
        × (distinct hits ≡ true)
        × All (λ w. member w words ≡ true) hits
        × (length hits ≤ length (match_candidates text))
        × ((w : Text)
            → (member w hits ≡ true)
              ↔ ((c : Text) × (member c (match_candidates text) ≡ true) × Chosen fl words c w))
  unfolding hype_hits hype_score
  hype_score-counts laws lower text =
      let words = map (simple_normalize lower) hype_words in
      let t =
        hits_from-IsTally words (match_candidates text) 0 []
          (record { apart = refl; within = tt; fits = omega arith }) in
      (
        score_of_hits words (match_candidates text),
        t.apart,
        t.within,
        omega (arith, t.fits),
        λ w.
            let votes = hits_from-votes laws words (match_candidates text) w [] in
            (
              λ h. elim (votes.0 h) [ inl no_hit ↦ absurd (member-nil w no_hit) | inr k ↦ k ],
              λ k. votes.1 (inr k),
            ),
      )
