-- ===== src/Text/Fields.antt =====
-- What `Fields`, `TrimRight` and `Join` do to texts put together.
use snipr.Base.{
  ℕ, ◌≡◌, refl, Bool, false, List, [], ◌∷◌, ◌++◌, arith, ap, All, All-append, append-nil,
  append_assoc, sym,
}
use snipr.Text.{Text, is_space, fields_from, end_field, trim_right, join, is_empty}

pub fields_from-word :
    (w cur : Text) → All (λ c. is_space c ≡ false) w → fields_from cur w ≡ end_field (cur ++ w) []
unfolding fields_from
fields_from-word [] cur h = ap (λ x. end_field x []) (sym (append-nil cur))
fields_from-word (c ∷ w) cur h =
    ground (arith, fields_from-word w (cur ++ c ∷ []), append_assoc cur (c ∷ []) w)

is_empty-append : (a : Text) (c : ℕ) (b : Text) → is_empty (a ++ c ∷ b) ≡ false
is_empty-append [] c b = refl
is_empty-append (x ∷ a) c b = refl

module _ (in_cutset : ℕ → Bool) where
  trim_right-kept :
      (a e : Text)
      → trim_right in_cutset e ≡ []
      → All (λ c. in_cutset c ≡ false) a
      → trim_right in_cutset (a ++ e) ≡ a
  unfolding trim_right
  trim_right-kept [] e h k = h
  trim_right-kept (c ∷ a) e h k = ground (arith, trim_right-kept a e h)

  -- Nothing in front of a byte that stays is cut off.
  pub trim_right-append :
      (a : Text) (c : ℕ) (b e : Text)
      → trim_right in_cutset e ≡ []
      → All (λ c. in_cutset c ≡ false) (c ∷ b)
      → trim_right in_cutset (a ++ c ∷ (b ++ e)) ≡ a ++ c ∷ b
  unfolding trim_right
  trim_right-append [] c b e h k = trim_right-kept (c ∷ b) e h k
  trim_right-append (x ∷ a) c b e h k =
      ground (arith, trim_right-append a c b e h k, is_empty-append a c b)

pub All-join {κ} :
    (P : ℕ → Type κ) (sep : Text) (ps : List Text)
    → All P sep
    → All (All P) ps
    → All P (join sep ps)
unfolding join
All-join P sep [] hs h = tt
All-join P sep (p ∷ []) hs h = h.0
All-join P sep (p ∷ q ∷ ps) hs h =
    All-append P p _ h.0 (All-append P sep _ hs (All-join P sep (q ∷ ps) hs h.1))
