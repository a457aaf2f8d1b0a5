-- ===== src/Features/Hype.antt =====
-- internal/features/normalize.go: fuzzy matching of hype words.
pub mod Chosen
pub mod Sets
pub mod Votes
use snipr.Base.{
  ℕ, ◌+◌, ◌-◌, Bool, true, false, ◌&&◌, Option, none, some, List, [], ◌∷◌, ◌++◌, map, leb, ◌==◌,
  if◌then◌else◌, length, take, get_elem?,
}
use snipr.Features.Normalize.{simple_normalize}
use snipr.Float.{Float64}
use snipr.Text.{Text, codes, eq_text, is_empty, fields, join}

abbrev pub hype_words : List Text
hype_words = map codes (
    "omg" ∷ "wtf" ∷ "holy" ∷ "wow" ∷ "www" ∷ "nooooo" ∷ "omgg" ∷ "omfg" ∷ "let's go" ∷ "damn"
    ∷ "insane" ∷ "sato" ∷ "shy" ∷ "woow" ∷ "no way" ∷ "looooooooool" ∷ "ggwp" ∷ "wtffff"
    ∷ "holllyyy" ∷ "ooo" ∷ "clean" ∷ "cinema" ∷ "lol" ∷ "wtff" ∷ "oo" ∷ "kekw" ∷ "lmao" ∷ [])

-- A Go set, `map[string]struct{}`, as the list of its members in the order they came in.
unfoldable pub member : Text → List Text → Bool
unfolding eq_text
member k [] = false
member k (j ∷ s) = if eq_text j k then true else member k s

unfoldable pub add : Text → List Text → List Text
unfolding member
add k s = if member k s then s else s ++ k ∷ []

-- The loop of `charBigrams` from one rune to the next.
unfoldable pub bigrams_from : List Text → Text → List Text
unfolding add
bigrams_from out [] = out
bigrams_from out (a ∷ []) = out
bigrams_from out (a ∷ b ∷ s) = bigrams_from (add (a ∷ b ∷ []) out) (b ∷ s)

-- `charBigrams`
unfoldable pub char_bigrams : Text → List Text
unfolding bigrams_from
char_bigrams [] = []
char_bigrams (a ∷ []) = (a ∷ []) ∷ []
char_bigrams (a ∷ b ∷ s) = bigrams_from [] (a ∷ b ∷ s)

-- The members of one set that the other has.
unfoldable pub inter : List Text → List Text → ℕ
unfolding member
inter [] b = 0
inter (g ∷ a) b = (if member g b then 1 else 0) + inter a b

-- `len(A) + len(B) - inter`
abbrev pub union : List Text → List Text → ℕ
union a b = length a + length b - inter a b

-- The windows of `n` tokens, joined: the inner loop of `matchCandidates`.
unfoldable pub phrases : ℕ → List Text → List Text
unfolding join
phrases n [] = []
phrases n (t ∷ ts) =
    if leb n (length (t ∷ ts))
    then join (codes " ") (take n (t ∷ ts)) ∷ phrases n ts
    else phrases n ts

-- `matchCandidates`
unfoldable pub match_candidates : Text → List Text
unfolding fields phrases
match_candidates text = let tokens = fields text in tokens ++ (phrases 2 tokens ++ phrases 3 tokens)

module _ (fl : Float64) where
  open fl use {F, of_ℕ, decimal, div, ltb as ltb_F, leb as leb_F}

  abbrev pub jaccard_threshold : F
  jaccard_threshold = decimal 65 2

  -- `bigramJaccard`
  unfoldable pub bigram_jaccard : Text → Text → F
  unfolding char_bigrams inter
  bigram_jaccard a b =
      let as_ = char_bigrams a in
      let bs = char_bigrams b in
      if is_empty as_
      then of_ℕ 0
      else if is_empty bs
      then of_ℕ 0
      else if union as_ bs == 0
      then of_ℕ 0
      else div (of_ℕ (inter as_ bs)) (of_ℕ (union as_ bs))

  -- The score of a candidate against a word.
  unfoldable pub score : Text → Text → F
  unfolding bigram_jaccard eq_text
  score c hw = if eq_text c hw then of_ℕ 1 else bigram_jaccard hw c

  -- `best` and `bestIdx`, which is -1 for `none`
  pub record Best : Type 0 where
    pub best : F
    pub index : Option ℕ

  abbrev pub no_best : Best
  no_best = record { best = of_ℕ 0; index = none }

  -- The body of the loop over the words.
  unfoldable pub improve : Text → ℕ → Text → Best → Best
  unfolding score
  improve c i hw b =
      if is_empty hw
      then b
      else if leb_F jaccard_threshold (score c hw) && ltb_F b.best (score c hw)
      then record { best = score c hw; index = some i }
      else b

  unfoldable pub best_from : Text → ℕ → List Text → Best → Best
  unfolding improve
  best_from c i [] b = b
  best_from c i (hw ∷ words) b = best_from c (i + 1) words (improve c i hw b)

  abbrev pub add_hit : List Text → Option ℕ → List Text → List Text
  add_hit words none hits = hits
  add_hit words (some i) hits = elim (get_elem? words i) [ none ↦ hits | some w ↦ add w hits ]

  -- The loop over the candidates.
  unfoldable pub hits_from : List Text → List Text → List Text → List Text
  unfolding best_from add
  hits_from words [] hits = hits
  hits_from words (c ∷ cs) hits =
      hits_from words cs (add_hit words (best_from c 0 words no_best).index hits)

  -- The hype words of a text; `lower` is `unicode.ToLower`.
  unfoldable pub hype_hits : (ℕ → ℕ) → Text → List Text
  unfolding hits_from match_candidates simple_normalize
  hype_hits lower text =
      hits_from (map (simple_normalize lower) hype_words) (match_candidates text) []

  -- `HypeScore`
  unfoldable pub hype_score : (ℕ → ℕ) → Text → F
  unfolding hype_hits
  hype_score lower text =
      if is_empty (match_candidates text) then of_ℕ 0 else of_ℕ (length (hype_hits lower text))
