-- ===== src/Ingest/Parser/Failures.antt =====
-- When the parser refuses a line.
use snipr.Base.{
  ◌==◌, ℕ, ◌≡◌, ◌≢◌, ◌↔◌, ◌⊎◌, inl, inr, refl, [], ◌∷◌, ◌++◌, arith, ap, none, ok, err, Bool-cases,
}
use snipr.Base.Int.{ℤ}
use snipr.Text.{Text, codes, cut, trim_right, split}
use snipr.Text.Split.{Lacks, cut-append}
use snipr.Ingest.Parser.{
  parse_tags, ParseError, empty_line, malformed_tag_prefix, malformed_prefix, is_line_end,
  take_tags, take_prefix, parse_line, parse_irc_line,
}
use snipr.Text.Map.{Map}

Lacks-cut : (c : ℕ) (s : Text) → cut (c ∷ []) s ≡ none → Lacks c s
unfolding cut
Lacks-cut c [] h = tt
Lacks-cut c (x ∷ s) h = (ground arith, Lacks-cut c s (ground arith))

cut-Lacks : (c : ℕ) (s : Text) → Lacks c s → cut (c ∷ []) s ≡ none
unfolding cut
cut-Lacks c [] h = refl
cut-Lacks c (x ∷ s) h = ground (arith, cut-Lacks c s h.1)

Lacks-or-cut : (c : ℕ) (s : Text) → Lacks c s ⊎ ((a b : Text) × (s ≡ a ++ c ∷ b) × Lacks c a)
Lacks-or-cut c [] = inl tt
Lacks-or-cut c (x ∷ s) = elim (Bool-cases (x == c)) [
  | inl same ↦ inr ([], s, ground arith, tt)
  | inr other ↦ extend (Lacks-or-cut c s) (ground arith)
]
  where
    extend :
        Lacks c s ⊎ ((a b : Text) × (s ≡ a ++ c ∷ b) × Lacks c a)
        → x ≢ c
        → Lacks c (x ∷ s) ⊎ ((a b : Text) × (x ∷ s ≡ a ++ c ∷ b) × Lacks c a)
    extend (inl lacks) h = inl (h, lacks)
    extend (inr (a, b, e, l)) h = inr (x ∷ a, b, ap (◌∷◌ x) e, (h, l))

-- What is wrong with a line: nothing on it, tags with nothing behind them, or a prefix with nothing
-- behind it, at the start or behind the tags.
abbrev pub IsRefused : Text → ParseError → Type 0
IsRefused line empty_line = line ≡ []
IsRefused line malformed_tag_prefix = (s : Text) × (line ≡ b'@' ∷ s) × Lacks b' ' s
IsRefused line malformed_prefix =
    ((s : Text) × (line ≡ b':' ∷ s) × Lacks b' ' s)
    ⊎ ((a s : Text) × (line ≡ b'@' ∷ (a ++ b' ' ∷ b':' ∷ s)) × Lacks b' ' a × Lacks b' ' s)

take_prefix-err :
    (r : Text) {e : ParseError}
    → take_prefix r ≡ err e
    → (s : Text) × (e ≡ malformed_prefix) × (r ≡ b':' ∷ s) × Lacks b' ' s
unfolding take_prefix
take_prefix-err [] h = absurd (cc)
take_prefix-err (c ∷ s) h = elim (Lacks-or-cut b' ' (c ∷ s)) [
  | inl lacks ↦ (s, ground (arith, cut-Lacks b' ' (c ∷ s) lacks), ground arith, lacks.1)
  | inr (a, b, e, l) ↦ absurd (ground (arith, e, cut-append b' ' a b l))
]

take_tags_lacking : (s : Text) → Lacks b' ' s → take_tags (b'@' ∷ s) ≡ err malformed_tag_prefix
unfolding take_tags
take_tags_lacking s h = ground (arith, cut-Lacks b' ' (b'@' ∷ s) (omega arith, h))

take_tags_cut :
    (a rest : Text)
    → Lacks b' ' a
    → (tags : Map Text) × (take_tags (b'@' ∷ (a ++ b' ' ∷ rest)) ≡ ok (tags, rest))
unfolding take_tags
take_tags_cut a rest h = (
  parse_tags [] (split a (codes ";")),
  ground (arith, cut-append b' ' (b'@' ∷ a) rest (omega arith, h)),
)

take_prefix_lacking : (s : Text) → Lacks b' ' s → take_prefix (b':' ∷ s) ≡ err malformed_prefix
unfolding take_prefix
take_prefix_lacking s h = ground (arith, cut-Lacks b' ' (b':' ∷ s) (omega arith, h))

module _ (lower : ℕ → ℕ) (now : ℤ) where
  plain_step :
      (c : ℕ) (s : Text) (e : ParseError)
      → c ≢ b'@'
      → parse_line lower now (c ∷ s) ≡ err e
      → take_prefix (c ∷ s) ≡ err e
  unfolding parse_line
  plain_step c s e h r = ground arith

  tagged_step :
      (s rest : Text) (tags : Map Text) (e : ParseError)
      → take_tags (b'@' ∷ s) ≡ ok (tags, rest)
      → parse_line lower now (b'@' ∷ s) ≡ err e
      → take_prefix rest ≡ err e
  unfolding parse_line
  tagged_step s rest tags e h r = ground arith

  lacking_step :
      (s : Text) (e : ParseError)
      → Lacks b' ' s
      → parse_line lower now (b'@' ∷ s) ≡ err e
      → e ≡ malformed_tag_prefix
  unfolding parse_line
  lacking_step s e h r = ground (arith, take_tags_lacking s h)

  parse_line_plain :
      (c : ℕ) (s : Text) (e : ParseError)
      → c ≢ b'@'
      → parse_line lower now (c ∷ s) ≡ err e
      → IsRefused (c ∷ s) e
  parse_line_plain c s e h r =
      let (s', is_prefix, is_line, lacks) = take_prefix-err (c ∷ s) (plain_step c s e h r) in
      rw is_prefix (inl (s', is_line, lacks))

  parse_line_tagged :
      (s : Text) (e : ParseError) → parse_line lower now (b'@' ∷ s) ≡ err e → IsRefused (b'@' ∷ s) e
  parse_line_tagged s e r = elim (Lacks-or-cut b' ' s) [
    | inl lacks ↦ rw (lacking_step s e lacks r) (s, refl, lacks)
    | inr (a, rest, split_at, lacks) ↦
        let (tags, taken) = take_tags_cut a rest lacks in
        let failed = tagged_step s rest tags e (rw split_at taken) r in
        let (s', is_prefix, is_rest, lacks') = take_prefix-err rest failed in
        rw is_prefix (inr (a, s', rw (split_at, is_rest), lacks, lacks'))
  ]

  IsRefused-err :
      (line : Text) (e : ParseError) → IsRefused line e → parse_line lower now line ≡ err e
  unfolding parse_line
  IsRefused-err line empty_line h = ground arith
  IsRefused-err line malformed_tag_prefix (s, is_line, lacks) =
      ground (arith, is_line, take_tags_lacking s lacks)
  IsRefused-err line malformed_prefix (inl (s, is_line, lacks)) =
      ground (arith, is_line, take_prefix_lacking s lacks)
  IsRefused-err line malformed_prefix (inr (a, s, is_line, la, ls)) =
      let (tags, taken) = take_tags_cut a (b':' ∷ s) la in
      ground (arith, is_line, taken, take_prefix_lacking s ls)

  err-IsRefused :
      (line : Text) (e : ParseError) → parse_line lower now line ≡ err e → IsRefused line e
  err-IsRefused [] empty_line r = refl
  err-IsRefused [] _ r = absurd (unfold parse_line in cc)
  err-IsRefused (c ∷ s) e r = elim (Bool-cases (c == b'@')) [
    | inl tagged ↦
        let is_at : c ≡ b'@' = ground arith in rw is_at (parse_line_tagged s e (rw is_at at r))
    | inr plain ↦ parse_line_plain c s e (ground arith) r
  ]

-- A line is refused exactly when, behind its line end, it is empty, or has tags with no space
-- behind them, or has a sender with no space behind it (at its start or behind the tags), and the
-- error says which. Every other line is accepted.
pub parse_irc_line-err_iff :
    (lower : ℕ → ℕ) (now : ℤ) (raw : Text) (e : ParseError)
    → (parse_irc_line lower now raw ≡ err e) ↔ IsRefused (trim_right is_line_end raw) e
unfolding parse_irc_line
parse_irc_line-err_iff lower now raw e = (
  err-IsRefused lower now (trim_right is_line_end raw) e,
  IsRefused-err lower now (trim_right is_line_end raw) e,
)
