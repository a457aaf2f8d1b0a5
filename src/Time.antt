-- ===== src/Time.antt =====
-- Go's `time.Time` and `time.Duration`. An instant is its distance in nanoseconds from the zero
-- `time.Time`, the start of year 1; a duration is a signed 64-bit number of nanoseconds.
use snipr.Base.{
  ◌+◌, ℕ, suc, ◌*◌, ◌^◌, ◌%◌, ◌≡◌, Bool, true, false, arith, ltb, if◌then◌else◌, ◌<◌, ◌-◌,
}
use snipr.Base.Int.{◌<ℤ◌, ◌≤ℤ◌, ℤ, pos, negsuc, ◌+ℤ◌, ◌-ℤ◌, ltb_ℤ}

abbrev pub second : ℕ
second = 1_000_000_000

-- `t.IsZero()`
abbrev pub is_zero : ℤ → Bool
is_zero (pos n) = if ltb 0 n then false else true
is_zero (negsuc n) = false

abbrev pub max_duration : ℤ
max_duration = pos (2 ^ 63 - 1)

abbrev pub min_duration : ℤ
min_duration = negsuc (2 ^ 63 - 1)

-- `t.Sub(u)`: saturates at the least and the greatest duration.
unfoldable pub sub : ℤ → ℤ → ℤ
sub t u =
    let d = t -ℤ u in
    if ltb_ℤ d min_duration then min_duration else if ltb_ℤ max_duration d then max_duration else d

-- `d.Abs()`: the least duration has no negation, and becomes the greatest.
unfoldable pub abs : ℤ → ℤ
abs (pos n) = pos n
abs (negsuc n) = if ltb n (2 ^ 63 - 1) then pos (suc n) else max_duration

-- `t.Before(u)`, which is also `u.After(t)`
abbrev pub before : ℤ → ℤ → Bool
before = ltb_ℤ

-- `k` times an integer
abbrev pub scale : ℕ → ℤ → ℤ
scale k (pos n) = pos (k * n)
scale k (negsuc n) = pos 0 -ℤ pos (k * suc n)

-- `time.UnixMilli(ms)`: 1970 begins 62,135,596,800 seconds after year 1.
unfoldable pub unix_milli : ℤ → ℤ
unfolding ◌-ℤ◌ ◌+ℤ◌
unix_milli ms = pos (62_135_596_800 * second) +ℤ scale 1_000_000 ms

-- Comparing a difference with a duration within the 64 bits is comparing the instants.
pub sub_below : (t u : ℤ) (d : ℕ) → d < 2 ^ 63 → ltb_ℤ (sub t u) (pos d) ≡ ltb_ℤ t (u +ℤ pos d)
unfolding sub ◌-ℤ◌ ◌+ℤ◌
sub_below t u d h = ground arith

-- A 64-bit signed number, from its wrap-around.
abbrev pub signed64 : ℕ → ℤ
signed64 w = if ltb w (2 ^ 63) then pos w else negsuc (2 ^ 64 - w - 1)

abbrev pub bits64 : ℤ → ℕ
bits64 (pos n) = n % 2 ^ 64
bits64 (negsuc n) = 2 ^ 64 - n % 2 ^ 64 - 1

-- `time.Duration(n) * unit`, which wraps at 64 bits.
unfoldable pub duration : ℕ → ℤ → ℤ
unfolding ◌-ℤ◌ ◌+ℤ◌
duration unit n = signed64 (bits64 (scale unit n))

-- `t.UnixNano()`, which wraps at 64 bits.
unfoldable pub unix_nano : ℤ → ℤ
unfolding ◌-ℤ◌
unix_nano t = signed64 (bits64 (t -ℤ pos (62_135_596_800 * second)))

-- An instant between the years 1678 and 2262, whose `UnixNano` fits into 64 bits.
abbrev pub IsUnixNano : ℤ → Type 0
IsUnixNano t =
    (pos (62_135_596_800 * second) ≤ℤ t +ℤ pos (2 ^ 63))
    × (t <ℤ pos (62_135_596_800 * second + 2 ^ 63))

signed64-bits64 : (z : ℤ) → pos 0 ≤ℤ z +ℤ pos (2 ^ 63) → z <ℤ pos (2 ^ 63) → signed64 (bits64 z) ≡ z
unfolding ◌+ℤ◌
signed64-bits64 (pos n) lo hi = ground arith
signed64-bits64 (negsuc n) lo hi = ground arith

-- Within these years different instants have different numbers.
pub unix_nano-injective :
    (t u : ℤ) → IsUnixNano t → IsUnixNano u → unix_nano t ≡ unix_nano u → t ≡ u
unfolding unix_nano ◌-ℤ◌ ◌+ℤ◌
unix_nano-injective t u ht hu e =
    let et = signed64-bits64 (t -ℤ pos (62_135_596_800 * second)) in
    let eu = signed64-bits64 (u -ℤ pos (62_135_596_800 * second)) in ground (arith, et, eu)
