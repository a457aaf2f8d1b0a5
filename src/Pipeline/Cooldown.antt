-- ===== src/Pipeline/Cooldown.antt =====
-- internal/pipeline/consumers.go, the cooldown of each channel.
pub mod Spacing
use snipr.Base.{ℕ, ◌*◌, Bool, true, false, Option, none, some, List, [], ◌∷◌, if◌then◌else◌}
use snipr.Base.Int.{ℤ, pos, ltb_ℤ, ◌+ℤ◌}
use snipr.Text.{Text}
use snipr.Text.Map.{Map, lookup, insert}
use snipr.Time.{second, sub, before}

-- `ClipCooldown`
abbrev pub clip_cooldown : ℕ
clip_cooldown = 30 * second

-- `until, ok := c.cooldowns[channel]; ok && now.Before(until)`
abbrev pub active : Option ℤ → ℤ → Bool
active none now = false
active (some until) now = before now until

-- `tryCooldown`: the new map, and whether a clip may be made.
unfoldable pub try_cooldown : Text → ℤ → Map ℤ → Map ℤ × Bool
unfolding lookup insert ◌+ℤ◌
try_cooldown channel now cooldowns =
    if active (lookup channel cooldowns) now
    then (cooldowns, false)
    else (insert channel (now +ℤ pos clip_cooldown) cooldowns, true)

-- `IsInCooldown`
unfoldable pub is_in_cooldown : Text → ℤ → Map ℤ → Bool × ℤ
unfolding lookup sub
is_in_cooldown channel now cooldowns = elim (lookup channel cooldowns) [
  | none ↦ (false, pos 0)
  | some until ↦ if before now until then (true, sub until now) else (false, pos 0)
]

-- A row of attempts, each with its channel and the time.
unfoldable pub after : List (Text × ℤ) → Map ℤ → Map ℤ
unfolding try_cooldown
after [] cooldowns = cooldowns
after ((c, now) ∷ attempts) cooldowns = after attempts (try_cooldown c now cooldowns).0
