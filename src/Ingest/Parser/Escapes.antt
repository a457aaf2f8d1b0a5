-- ===== src/Ingest/Parser/Escapes.antt =====
-- `unescapeTagValue` undoes the escaping of tag values in IRCv3.
use snipr.Base.{
  ℕ, ◌≡◌, ◌≢◌, refl, Bool, true, false, [], ◌∷◌, ◌++◌, arith, ap, ◌==◌, if◌then◌else◌, ◌∙◌, ◌||◌,
  All-append,
}
use snipr.Text.{Text}
use snipr.Text.Split.{Lacks}
use snipr.Ingest.Parser.{replace_escapes, contains, unescape_tag_value}

-- The escape of a byte in the IRCv3 message tags.
abbrev pub escape_byte : ℕ → Text
escape_byte c =
    if c == b';'
    then b'\\' ∷ b':' ∷ []
    else if c == b' '
    then b'\\' ∷ b's' ∷ []
    else if c == b'\\'
    then b'\\' ∷ b'\\' ∷ []
    else if c == b'\r'
    then b'\\' ∷ b'r' ∷ []
    else if c == b'\n'
    then b'\\' ∷ b'n' ∷ []
    else c ∷ []

abbrev pub escape : Text → Text
escape [] = []
escape (c ∷ s) = escape_byte c ++ escape s

replace_escapes-plain :
    (c : ℕ) (s : Text) → c ≢ b'\\' → replace_escapes (c ∷ s) ≡ c ∷ replace_escapes s
unfolding replace_escapes
replace_escapes-plain c [] h = refl
replace_escapes-plain c (d ∷ s) h = ground arith

replace_escapes-escape_byte :
    (c : ℕ) (s : Text) → replace_escapes (escape_byte c ++ s) ≡ c ∷ replace_escapes s
unfolding replace_escapes
replace_escapes-escape_byte c s = ground (arith, replace_escapes-plain c s)

replace_escapes-escape : (v : Text) → replace_escapes (escape v) ≡ v
unfolding replace_escapes
replace_escapes-escape [] = refl
replace_escapes-escape (c ∷ v) =
    replace_escapes-escape_byte c (escape v) ∙ ap (◌∷◌ c) (replace_escapes-escape v)

-- A text with no backslash is left as it is.
replace_escapes-lacking : (v : Text) → contains b'\\' v ≡ false → replace_escapes v ≡ v
unfolding replace_escapes contains
replace_escapes-lacking [] h = refl
replace_escapes-lacking (c ∷ v) h =
    ground (arith, replace_escapes-plain c v, replace_escapes-lacking v)

-- Whatever bytes a value holds, the parser reads back what was escaped.
pub unescape_tag_value-escape : (v : Text) → unescape_tag_value (escape v) ≡ v
unfolding unescape_tag_value
unescape_tag_value-escape v =
    ground (arith, replace_escapes-escape v, replace_escapes-lacking (escape v))

-- The bytes that end a tag, a word or the line.
abbrev pub is_delimiter : ℕ → Bool
is_delimiter d = d == b';' || d == b' ' || d == b'\r' || d == b'\n'

escape_byte-Lacks : (d c : ℕ) → is_delimiter d ≡ true → Lacks d (escape_byte c)
escape_byte-Lacks d c h = ground arith

-- An escaped value holds none of them.
pub escape-Lacks : (d : ℕ) (v : Text) → is_delimiter d ≡ true → Lacks d (escape v)
escape-Lacks d [] h = tt
escape-Lacks d (c ∷ v) h =
    All-append _ (escape_byte c) (escape v) (escape_byte-Lacks d c h) (escape-Lacks d v h)
