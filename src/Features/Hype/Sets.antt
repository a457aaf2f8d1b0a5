-- ===== src/Features/Hype/Sets.antt =====
-- Sets of texts as lists.
use snipr.Base.{
  ◌+◌, ◌≤◌, ◌≡◌, ◌≢◌, ◌⊎◌, sym, ap, refl, Bool, true, false, not, ◌&&◌, ◌||◌, List, [], ◌∷◌, ◌++◌,
  arith, length, length-append, Bool-cases, inl, inr,
}
use snipr.Features.Hype.{member, add}
use snipr.Text.{Text, eq_text, eq_text_iff, eq_text_refl}

abbrev pub distinct : List Text → Bool
distinct [] = true
distinct (k ∷ s) = not (member k s) && distinct s

member-append : (j k : Text) (s : List Text) → member j (s ++ k ∷ []) ≡ member j s || eq_text k j
unfolding member
member-append j k [] = ground arith
member-append j k (i ∷ s) = ground (arith, member-append j k s)

pub member-nil : (k : Text) → member k [] ≢ true
unfolding member
member-nil k h = absurd (ground (arith, h))

pub member-here : (k : Text) (s : List Text) → member k (k ∷ s) ≡ true
unfolding member
member-here k s = rw (eq_text_refl k) refl

pub member-later : (k j : Text) (s : List Text) → member k s ≡ true → member k (j ∷ s) ≡ true
unfolding member
member-later k j s h = ground (arith, h)

pub member-cons :
    (k j : Text) (s : List Text) → member k (j ∷ s) ≡ true → (k ≡ j) ⊎ (member k s ≡ true)
unfolding member
member-cons k j s h = elim (Bool-cases (eq_text j k)) [
  | inl same ↦ inl (sym ((eq_text_iff j k).0 same))
  | inr other ↦ inr (ground (arith, h, other))
]

pub member-add : (j k : Text) (s : List Text) → member j (add k s) ≡ member j s || eq_text k j
unfolding add
member-add j k s = elim (Bool-cases (member k s)) [
  | inl there ↦ ground (arith, there, (eq_text_iff k j).0, ap (λ x. member x s))
  | inr new ↦ rw new (member-append j k s)
]

distinct-append :
    (k : Text) (s : List Text)
    → member k s ≡ false
    → distinct s ≡ true
    → distinct (s ++ k ∷ []) ≡ true
unfolding member
distinct-append k [] h d = refl
distinct-append k (i ∷ s) h d =
    ground (arith, distinct-append k s, member-append i k s, eq_text_iff k i, eq_text_iff i k)

pub distinct-add : (k : Text) (s : List Text) → distinct s ≡ true → distinct (add k s) ≡ true
unfolding add
distinct-add k s d = ground (arith, distinct-append k s)

pub length-add : (k : Text) (s : List Text) → length (add k s) ≤ length s + 1
unfolding add
length-add k s = ground (arith, length-append s (k ∷ []))
