-- ===== src/Text.antt =====
-- Go strings and the functions of the packages `strings`, `strconv` and `unicode` that the program
-- calls. A string is the list of its code points, so it stands for a string of valid UTF-8; a
-- separator or a prefix of the program is ASCII, and cuts code points where it cuts bytes.
pub mod Split
pub mod Fields
pub mod Map
use Prim.Native.Char.{code}
use snipr.Base.{
  ℕ, zero, suc, ◌+◌, ◌-◌, ◌*◌, ◌^◌, ◌≡◌, refl, ◌↔◌, Bool, true, false, ◌&&◌, ◌||◌, not, String,
  Option, none, some, List, [], ◌∷◌, ◌++◌, map, reverse, arith, leb, ltb, ◌==◌, if◌then◌else◌,
  length, drop, ap,
}
use snipr.Base.Int.{ℤ, pos, negsuc}

abbrev pub Text : Type 0
Text = List ℕ

-- A literal of the program.
abbrev pub codes : String → Text
codes String.[] = []
codes (String.◌∷◌ c s) = code c ∷ codes s

-- `a == b`
unfoldable pub eq_text : Text → Text → Bool
eq_text [] [] = true
eq_text (x ∷ xs) (y ∷ ys) = x == y && eq_text xs ys
eq_text _ _ = false

pub eq_text_iff : (a b : Text) → (eq_text a b ≡ true) ↔ (a ≡ b)
unfolding eq_text
eq_text_iff (x ∷ a) (y ∷ b) = ground (arith, eq_text_iff a b)
eq_text_iff _ _ = ground arith

pub eq_text_refl : (a : Text) → eq_text a a ≡ true
eq_text_refl a = (eq_text_iff a a).1 refl

-- `s == ""`
abbrev pub is_empty {ℓ} : {A : Type ℓ} → List A → Bool
is_empty [] = true
is_empty (_ ∷ _) = false

-- `strings.HasPrefix(s, p)`
unfoldable pub has_prefix : Text → Text → Bool
has_prefix s [] = true
has_prefix [] (_ ∷ _) = false
has_prefix (c ∷ s) (d ∷ p) = c == d && has_prefix s p

-- `strings.TrimPrefix(s, p)`
unfoldable pub trim_prefix : Text → Text → Text
unfolding has_prefix
trim_prefix s p = if has_prefix s p then drop (length p) s else s

module _ (in_cutset : ℕ → Bool) where
  -- `strings.TrimLeft(s, cutset)`
  unfoldable pub trim_left : Text → Text
  trim_left [] = []
  trim_left (c ∷ s) = let rest = trim_left s in if in_cutset c then rest else c ∷ s

  -- `strings.TrimRight(s, cutset)`
  unfoldable pub trim_right : Text → Text
  trim_right [] = []
  trim_right (c ∷ s) =
      let rest = trim_right s in if is_empty rest && in_cutset c then [] else c ∷ rest

-- `strings.Cut(s, sep)`: the two parts of `strings.SplitN(s, sep, 2)`, or `none` where it has one.
unfoldable pub cut : Text → Text → Option (Text × Text)
unfolding has_prefix
cut sep [] = if has_prefix [] sep then some ([], []) else none
cut sep (c ∷ s) =
    let rest = cut sep s in
    if has_prefix (c ∷ s) sep
    then some ([], drop (length sep) (c ∷ s))
    else elim rest [ none ↦ none | some (a, b) ↦ some (c ∷ a, b) ]

-- A byte in front of the first part.
abbrev pub push : ℕ → List Text → List Text
push c [] = (c ∷ []) ∷ []
push c (p ∷ ps) = (c ∷ p) ∷ ps

-- `strings.Split(s, sep)` with a separator of at least one byte; `skip` bytes of it are still to
-- be passed over.
unfoldable pub split_from : Text → ℕ → Text → List Text
unfolding has_prefix
split_from sep skip [] = [] ∷ []
split_from sep (suc k) (c ∷ s) = split_from sep k s
split_from sep zero (c ∷ s) =
    let next = split_from sep (length sep - 1) s in
    let rest = split_from sep zero s in if has_prefix (c ∷ s) sep then [] ∷ next else push c rest

abbrev pub split : Text → Text → List Text
split s sep = split_from sep 0 s

-- `strings.Join(parts, sep)`
unfoldable pub join : Text → List Text → Text
join sep [] = []
join sep (p ∷ []) = p
join sep (p ∷ q ∷ ps) = p ++ (sep ++ join sep (q ∷ ps))

-- `unicode.IsSpace(r)`
unfoldable pub is_space : ℕ → Bool
is_space c =
    (leb 9 c && leb c 13)
    || c == 32
    || c == 0x85
    || c == 0xA0
    || c == 0x1680
    || (leb 0x2000 c && leb c 0x200a)
    || c == 0x2028
    || c == 0x2029
    || c == 0x202f
    || c == 0x205f
    || c == 0x3000

-- `strings.TrimSpace(s)`
unfoldable pub trim_space : Text → Text
unfolding trim_left trim_right is_space
trim_space s = trim_right is_space (trim_left is_space s)

abbrev pub end_field : Text → List Text → List Text
end_field [] rest = rest
end_field (c ∷ cur) rest = (c ∷ cur) ∷ rest

-- `strings.Fields(s)`; `cur` is the field that is being read.
unfoldable pub fields_from : Text → Text → List Text
fields_from cur [] = end_field cur []
fields_from cur (c ∷ s) = elim (is_space c) [
  | true ↦ end_field cur (fields_from [] s)
  | false ↦ fields_from (cur ++ c ∷ []) s
]

unfoldable pub fields : Text → List Text
unfolding fields_from is_space
fields s = fields_from [] s

-- `len(s)`: the bytes of a code point in UTF-8, summed.
abbrev pub rune_len : ℕ → ℕ
rune_len c = if ltb c 0x80 then 1 else if ltb c 0x800 then 2 else if ltb c 0x10000 then 3 else 4

unfoldable pub byte_len : Text → ℕ
byte_len [] = 0
byte_len (c ∷ s) = rune_len c + byte_len s

digits_from : ℕ → Text → Option ℕ
digits_from n [] = some n
digits_from n (c ∷ s) =
    let rest = digits_from (n * 10 + (c - b'0')) s in
    if leb b'0' c && leb c b'9' then rest else none

-- One digit or more.
unfoldable pub digits : Text → Option ℕ
unfolding digits_from
digits [] = none
digits (c ∷ s) = digits_from 0 (c ∷ s)

abbrev pub signed : Bool → Option ℕ → Option ℤ
signed neg none = none
signed false (some n) = if ltb n (2 ^ 63) then some (pos n) else none
signed true (some zero) = some (pos 0)
signed true (some (suc n)) = if ltb n (2 ^ 63) then some (negsuc n) else none

-- `strconv.Atoi(s)` and `strconv.ParseInt(s, 10, 64)` where `int` has 64 bits.
unfoldable pub atoi : Text → Option ℤ
unfolding digits
atoi [] = none
atoi (c ∷ s) =
    if c == b'-'
    then signed true (digits s)
    else if c == b'+'
    then signed false (digits s)
    else signed false (digits (c ∷ s))
