-- ===== src/Bus/Ids.antt =====
-- internal/bus/nats.go: the ids under which feature windows are published.
use snipr.Base.{
  subst, ◌≢◌, ℕ, zero, suc, ◌+◌, ◌*◌, ◌-◌, ◌/◌, ◌%◌, ◌^◌, ◌<◌, ◌≤◌, ◌≡◌, ◌↔◌, refl, sym, ap, ◌∙◌,
  [], ◌∷◌, ◌++◌, arith, ◌==◌, if◌then◌else◌, All, All-append,
}
use snipr.Base.Int.{◌-ℤ◌, ℤ, pos, negsuc}
use snipr.Bus.{show_digits, show_int, features_id}
use snipr.Models.{FeatureVector}
use snipr.Text.{Text}
use snipr.Time.{second, bits64, signed64, IsUnixNano, unix_nano, unix_nano-injective}

pub value_from : ℕ → Text → ℕ
value_from n [] = n
value_from n (c ∷ s) = value_from (n * 10 + (c - b'0')) s

value_from-append :
    (n : ℕ) (s : Text) (d : ℕ) → value_from n (s ++ d ∷ []) ≡ value_from n s * 10 + (d - b'0')
unfolding value_from
value_from-append n [] d = refl
value_from-append n (c ∷ s) d = value_from-append (n * 10 + (c - b'0')) s d

pub value_from-show_digits : (fuel n : ℕ) → n < 10 ^ fuel → value_from 0 (show_digits fuel n) ≡ n
unfolding show_digits value_from
value_from-show_digits zero n h = omega arith
value_from-show_digits (suc fuel) n h = ground (
  arith,
  value_from-show_digits fuel (n / 10),
  value_from-append 0 (show_digits fuel (n / 10)) (b'0' + n % 10),
)

abbrev pub IsDigit : ℕ → Type 0
IsDigit c = (b'0' ≤ c) × (c ≤ b'9')

pub show_digits-IsDigit : (fuel n : ℕ) → All IsDigit (show_digits fuel n)
unfolding show_digits
show_digits-IsDigit zero n = tt
show_digits-IsDigit (suc fuel) n = ground (
  arith,
  All-append IsDigit (show_digits fuel (n / 10)) ((b'0' + n % 10) ∷ [])
      (show_digits-IsDigit fuel (n / 10)) ((omega arith, omega arith), tt),
)

abbrev value : Text → ℤ
value [] = pos 0
value (c ∷ s) = if c == b'-' then negsuc (value_from 0 s - 1) else pos (value_from 0 (c ∷ s))

module _ (sep : ℕ) where
  abbrev pub Lacks : Text → Type 0
  Lacks s = All (λ c. sep ≢ c) s

  Lacks-append : (a b : Text) → ¬ Lacks (a ++ sep ∷ b)
  Lacks-append [] b h = h.0 refl
  Lacks-append (c ∷ a) b h = Lacks-append a b h.1

  Lacks-not : (x a b : Text) → x ≡ a ++ sep ∷ b → ¬ Lacks x
  Lacks-not x a b e h = Lacks-append a b (subst Lacks e h)

  -- A separator in front of a text without one is the last separator.
  pub last_sep :
      (a b x y : Text) → Lacks x → Lacks y → a ++ sep ∷ x ≡ b ++ sep ∷ y → (a ≡ b) × (x ≡ y)
  last_sep [] [] x y hx hy e = (refl, cc)
  last_sep [] (d ∷ b) x y hx hy e = absurd (Lacks-not x b y (cc) hx)
  last_sep (c ∷ a) [] x y hx hy e = absurd (Lacks-not y a x (cc) hy)
  last_sep (c ∷ a) (d ∷ b) x y hx hy e = let (p, q) = last_sep a b x y hx hy cc in (cc, q)

pub Digits-Lacks : (s : Text) → All IsDigit s → Lacks b'_' s
Digits-Lacks [] h = tt
Digits-Lacks (c ∷ s) h = (omega arith, Digits-Lacks s h.1)

show_int-Lacks : (z : ℤ) → Lacks b'_' (show_int z)
unfolding show_int
show_int-Lacks (pos n) = Digits-Lacks (show_digits 20 n) (show_digits-IsDigit 20 n)
show_int-Lacks (negsuc n) =
    (omega arith, Digits-Lacks (show_digits 20 (suc n)) (show_digits-IsDigit 20 (suc n)))

-- The integers of 64 bits.
abbrev IsInt64 : ℤ → Type 0
IsInt64 (pos n) = n < 2 ^ 63
IsInt64 (negsuc n) = n < 2 ^ 63

value_digits : (s : Text) → All IsDigit s → value s ≡ pos (value_from 0 s)
unfolding value_from
value_digits [] h = refl
value_digits (c ∷ s) h = ground arith

value-show_int : (z : ℤ) → IsInt64 z → value (show_int z) ≡ z
unfolding show_int
value-show_int (pos n) h =
    value_digits (show_digits 20 n) (show_digits-IsDigit 20 n)
    ∙ ap pos (value_from-show_digits 20 n (omega arith))
value-show_int (negsuc n) h = ground (arith, value_from-show_digits 20 (suc n))

signed64-IsInt64 : (z : ℤ) → IsInt64 (signed64 (bits64 z))
signed64-IsInt64 (pos n) = ground arith
signed64-IsInt64 (negsuc n) = ground arith

unix_nano-IsInt64 : (t : ℤ) → IsInt64 (unix_nano t)
unfolding unix_nano
unix_nano-IsInt64 t = signed64-IsInt64 (t -ℤ pos (62_135_596_800 * second))

show_int-injective : (a b : ℤ) → IsInt64 a → IsInt64 b → show_int a ≡ show_int b → a ≡ b
show_int-injective a b ha hb e = sym (value-show_int a ha) ∙ ap value e ∙ value-show_int b hb

-- Two windows have one id exactly when they are of one channel and end at one instant.
pub features_id_iff :
    {F G : Type 0} (v : FeatureVector F) (w : FeatureVector G)
    → IsUnixNano v.window_end
    → IsUnixNano w.window_end
    → (features_id v ≡ features_id w) ↔ ((v.channel ≡ w.channel) × (v.window_end ≡ w.window_end))
unfolding features_id
features_id_iff v w hv hw = (same, λ (c, e). rw (c, e) refl)
  where
    same : features_id v ≡ features_id w → (v.channel ≡ w.channel) × (v.window_end ≡ w.window_end)
    same e =
        let (p, q) =
          last_sep b'_' v.channel w.channel (show_int (unix_nano v.window_end))
            (show_int (unix_nano w.window_end)) (show_int-Lacks (unix_nano v.window_end))
            (show_int-Lacks (unix_nano w.window_end)) e in
        let r =
          show_int-injective (unix_nano v.window_end) (unix_nano w.window_end)
            (unix_nano-IsInt64 v.window_end) (unix_nano-IsInt64 w.window_end) q in
        (p, unix_nano-injective v.window_end w.window_end hv hw r)
