-- ===== src/Ingest/Parser/Emotes.antt =====
-- The emotes that `parseEmotes` cuts out of a message.
use snipr.Base.{
  ℕ, ◌+◌, ◌-◌, ◌<◌, ◌≤◌, ◌≡◌, refl, true, false, List, [], ◌∷◌, ◌++◌, arith, ap, All, All-append,
  ◌∙◌, sym, Option, none, some, length, take, drop, take-append-drop, length-take, length-drop, ltb,
  leb, Bool-cases, inl, inr, ◌&&◌,
}
use snipr.Base.Int.{ℤ, pos, negsuc, ◌+ℤ◌}
use snipr.Text.{Text, codes, cut, split}
use snipr.Ingest.Parser.{
  returned, slice, unless_panic, range_bounds, emotes_in_group, emote_in, emote_at, parse_range,
  parse_ranges, parse_groups, parse_emotes,
}

-- `e` stands in `s` and has at least one character.
pub record IsPart (s e : Text) : Type 0 where
  pub before : Text
  pub after : Text
  pub splits : s ≡ before ++ (e ++ after)
  pub positive : 0 < length e

slice-IsPart : (s : Text) (a n : ℕ) → 0 < n → a + n ≤ length s → IsPart s (take n (drop a s))
slice-IsPart s a n h k = record {
  before = take a s;
  after = drop n (drop a s);
  splits =
      sym (take-append-drop a s) ∙ ap (λ t. take a s ++ t) (sym (take-append-drop n (drop a s)));
  positive = omega (arith, length-take n (drop a s) (omega (arith, length-drop a s (omega arith))));
}

-- A run that does not panic, with emotes that all stand in `s`.
abbrev Cuts : Text → Option (List Text) → Type 0
Cuts s none = ⊥
Cuts s (some emotes) = All (IsPart s) emotes

emote_at-inside :
    (s : Text) (i j : ℕ) (emotes : List Text)
    → (leb i j && ltb j (length s)) ≡ true
    → emote_at s (pos i) (pos j) emotes ≡ some (emotes ++ take (j + 1 - i) (drop i s) ∷ [])
unfolding emote_at slice ◌+ℤ◌
emote_at-inside s i j emotes fits = ground (arith, fits)

emote_at-outside :
    (s : Text) (i j : ℕ) (emotes : List Text)
    → (leb i j && ltb j (length s)) ≡ false
    → emote_at s (pos i) (pos j) emotes ≡ some emotes
unfolding emote_at
emote_at-outside s i j emotes out = ground (arith, out)

emote_at-before :
    (s : Text) (i j : ℕ) (emotes : List Text) → emote_at s (pos i) (negsuc j) emotes ≡ some emotes
unfolding emote_at
emote_at-before s i j emotes = ground arith

emote_at-negative :
    (s : Text) (i : ℕ) (j : ℤ) (emotes : List Text) → emote_at s (negsuc i) j emotes ≡ some emotes
unfolding emote_at
emote_at-negative s i j emotes = ground arith

emote_at-Cuts :
    (s : Text) (i j : ℤ) (emotes : List Text)
    → All (IsPart s) emotes
    → Cuts s (emote_at s i j emotes)
emote_at-Cuts s (pos i) (pos j) emotes h = elim (Bool-cases (leb i j && ltb j (length s))) [
  | inl fits ↦ rw (emote_at-inside s i j emotes fits) (
      All-append (IsPart s) emotes (take (j + 1 - i) (drop i s) ∷ []) h
        (slice-IsPart s i (j + 1 - i) (ground (arith, fits)) (ground (arith, fits)), tt))
  | inr out ↦ rw (emote_at-outside s i j emotes out) h
]
emote_at-Cuts s (pos i) (negsuc j) emotes h = rw (emote_at-before s i j emotes) h
emote_at-Cuts s (negsuc i) j emotes h = rw (emote_at-negative s i j emotes) h

emote_in-Cuts :
    (s : Text) (o : Option (ℤ × ℤ)) (emotes : List Text)
    → All (IsPart s) emotes
    → Cuts s (emote_in s o emotes)
emote_in-Cuts s none emotes h = h
emote_in-Cuts s (some (i, j)) emotes h = emote_at-Cuts s i j emotes h

next-Cuts :
    (s : Text) (o : Option (List Text)) (next : List Text → Option (List Text))
    → Cuts s o
    → ((emotes : List Text) → All (IsPart s) emotes → Cuts s (next emotes))
    → Cuts s (unless_panic o next)
next-Cuts s none next h later = h
next-Cuts s (some emotes) next h later = later emotes h

parse_ranges-Cuts :
    (s : Text) (rs emotes : List Text) → All (IsPart s) emotes → Cuts s (parse_ranges s rs emotes)
unfolding parse_ranges
parse_ranges-Cuts s [] emotes h = h
parse_ranges-Cuts s (r ∷ rs) emotes h =
    next-Cuts s (parse_range s r emotes) (λ more. parse_ranges s rs more)
      (emote_in-Cuts s (range_bounds r) emotes h) (parse_ranges-Cuts s rs)

emotes_in_group-Cuts :
    (s : Text) (o : Option (Text × Text)) (emotes : List Text)
    → All (IsPart s) emotes
    → Cuts s (emotes_in_group s o emotes)
emotes_in_group-Cuts s none emotes h = h
emotes_in_group-Cuts s (some (_, ranges)) emotes h =
    parse_ranges-Cuts s (split ranges (codes ",")) emotes h

parse_groups-Cuts :
    (s : Text) (gs emotes : List Text) → All (IsPart s) emotes → Cuts s (parse_groups s gs emotes)
unfolding parse_groups
parse_groups-Cuts s [] emotes h = h
parse_groups-Cuts s (g ∷ gs) emotes h =
    next-Cuts s (emotes_in_group s (cut (codes ":") g) emotes) (λ more. parse_groups s gs more)
      (emotes_in_group-Cuts s (cut (codes ":") g) emotes h) (parse_groups-Cuts s gs)

parse_emotes-Cuts : (emote_tag content : Text) → Cuts content (parse_emotes emote_tag content)
unfolding parse_emotes
parse_emotes-Cuts [] content = tt
parse_emotes-Cuts (c ∷ tag) [] = tt
parse_emotes-Cuts (c ∷ tag) (d ∷ content) =
    parse_groups-Cuts (d ∷ content) (split (c ∷ tag) (codes "/")) [] tt

returned-Cuts :
    (s : Text) (o : Option (List Text))
    → Cuts s o
    → (o ≡ some (returned o)) × All (IsPart s) (returned o)
returned-Cuts s none h = absurd h
returned-Cuts s (some emotes) h = (refl, h)

-- Whatever the emote tag says, `parseEmotes` returns: none of its slices is out of range, which
-- would be a panic; and each emote is a piece of the content with at least one character.
pub parse_emotes-returns :
    (emote_tag content : Text)
    → let o = parse_emotes emote_tag content in
      (o ≡ some (returned o)) × All (IsPart content) (returned o)
parse_emotes-returns emote_tag content =
    returned-Cuts content (parse_emotes emote_tag content) (parse_emotes-Cuts emote_tag content)
