-- ===== src/Pipeline/Cooldown/Spacing.antt =====
-- How far apart the clips of a channel are.
use snipr.Base.{
  ◌≡◌, refl, true, false, ◌&&◌, not, Option, none, some, List, [], ◌∷◌, if◌then◌else◌, arith, ap,
  ◌∙◌, Bool-cases, inl, inr, ltb→le,
}
use snipr.Base.Int.{ℤ, pos, ◌+ℤ◌, ◌≤ℤ◌}
use snipr.Pipeline.Cooldown.{clip_cooldown, active, try_cooldown, is_in_cooldown, after}
use snipr.Text.{Text, eq_text, eq_text_iff}
use snipr.Text.Map.{Map, lookup, insert, lookup-insert}

-- The instants at which the attempts were let through for `channel`, in order.
abbrev pub passes : Text → List (Text × ℤ) → Map ℤ → List ℤ
passes channel [] cooldowns = []
passes channel ((c, now) ∷ attempts) cooldowns =
    let rest = passes channel attempts (try_cooldown c now cooldowns).0 in
    if (try_cooldown c now cooldowns).1 && eq_text c channel then now ∷ rest else rest

-- From an instant on, 30 seconds and more lie between one instant and the next.
abbrev pub Spaced : Option ℤ → List ℤ → Type 0
Spaced until [] = Unit
Spaced none (t ∷ ts) = Spaced (some (t +ℤ pos clip_cooldown)) ts
Spaced (some until) (t ∷ ts) = (until ≤ℤ t) × Spaced (some (t +ℤ pos clip_cooldown)) ts

-- When the last of the instants stops to count.
abbrev pub ends : Option ℤ → List ℤ → Option ℤ
ends until [] = until
ends until (t ∷ ts) = ends (some (t +ℤ pos clip_cooldown)) ts

pub try_let_through :
    (c : Text) (now : ℤ) (m : Map ℤ)
    → active (lookup c m) now ≡ false
    → try_cooldown c now m ≡ (insert c (now +ℤ pos clip_cooldown) m, true)
unfolding try_cooldown
try_let_through c now m h = rw h

pub try_refused :
    (c : Text) (now : ℤ) (m : Map ℤ)
    → active (lookup c m) now ≡ true
    → try_cooldown c now m ≡ (m, false)
unfolding try_cooldown
try_refused c now m h = rw h

pub Spaced-cons :
    (until : Option ℤ) (t : ℤ) (ts : List ℤ)
    → active until t ≡ false
    → Spaced (some (t +ℤ pos clip_cooldown)) ts
    → Spaced until (t ∷ ts)
Spaced-cons none t ts h k = k
Spaced-cons (some until) t ts h k = (ltb→le _ _ h, k)

lookup_passed :
    (c k : Text) (until : ℤ) (m : Map ℤ)
    → eq_text c k ≡ true
    → lookup k (insert c until m) ≡ some until
lookup_passed c k until m h = ground (arith, lookup-insert c k until m)

lookup_other :
    (c k : Text) (until : ℤ) (m : Map ℤ)
    → eq_text c k ≡ false
    → lookup k (insert c until m) ≡ lookup k m
lookup_other c k until m h = ground (arith, lookup-insert c k until m)

passes-Spaced_from :
    (channel : Text) (attempts : List (Text × ℤ)) (m : Map ℤ)
    → Spaced (lookup channel m) (passes channel attempts m)
passes-Spaced_from channel [] m = tt
passes-Spaced_from channel ((c, now) ∷ attempts) m =
    let until = now +ℤ pos clip_cooldown in
    let later = passes-Spaced_from channel attempts (insert c until m) in
    elim (Bool-cases (active (lookup c m) now)) [
      | inl busy ↦ rw (try_refused c now m busy) (passes-Spaced_from channel attempts m)
      | inr free ↦ rw (try_let_through c now m free) (elim (Bool-cases (eq_text c channel)) [
        | inl same ↦ rw same (
            Spaced-cons (lookup channel m) now (passes channel attempts (insert c until m))
              (rw ((eq_text_iff c channel).0 same) at free)
              (rw (lookup_passed c channel until m same) at later))
        | inr other ↦ rw other (rw (lookup_other c channel until m other) at later)
      ])
    ]

-- From no cooldowns on: of any attempts, at any times and for any channels, those let through for one channel are 30
-- seconds or more apart.
passes-Spaced :
    (channel : Text) (attempts : List (Text × ℤ)) → Spaced none (passes channel attempts [])
passes-Spaced channel attempts = unfold lookup in passes-Spaced_from channel attempts []

lookup-after :
    (channel : Text) (attempts : List (Text × ℤ)) (m : Map ℤ)
    → lookup channel (after attempts m) ≡ ends (lookup channel m) (passes channel attempts m)
unfolding after
lookup-after channel [] m = refl
lookup-after channel ((c, now) ∷ attempts) m =
    let until = now +ℤ pos clip_cooldown in
    let later = lookup-after channel attempts (insert c until m) in
    elim (Bool-cases (active (lookup c m) now)) [
      | inl busy ↦ rw (try_refused c now m busy) (lookup-after channel attempts m)
      | inr free ↦ rw (try_let_through c now m free) (elim (Bool-cases (eq_text c channel)) [
        | inl same ↦ rw same (rw (lookup_passed c channel until m same) at later)
        | inr other ↦ rw other (rw (lookup_other c channel until m other) at later)
      ])
    ]

try_cooldown-active :
    (c : Text) (now : ℤ) (m : Map ℤ) → (try_cooldown c now m).1 ≡ not (active (lookup c m) now)
unfolding try_cooldown
try_cooldown-active c now m = ground arith

is_in_cooldown-active :
    (c : Text) (now : ℤ) (m : Map ℤ) → (is_in_cooldown c now m).0 ≡ active (lookup c m) now
unfolding is_in_cooldown
is_in_cooldown-active c now m = ground arith

lookup-after_empty :
    (channel : Text) (attempts : List (Text × ℤ))
    → lookup channel (after attempts []) ≡ ends none (passes channel attempts [])
lookup-after_empty channel attempts = unfold lookup in lookup-after channel attempts []

-- From no cooldowns on, after any attempts, the next one of a channel is refused exactly when the last one let through
-- for this channel lies less than 30 seconds back, and `IsInCooldown` says the same.
pub try_cooldown_iff :
    (channel : Text) (now : ℤ) (attempts : List (Text × ℤ))
    → let m = after attempts [] in
      ((try_cooldown channel now m).1 ≡ not (active (ends none (passes channel attempts [])) now))
      × ((is_in_cooldown channel now m).0 ≡ not (try_cooldown channel now m).1)
try_cooldown_iff channel now attempts = (
  try_cooldown-active channel now (after attempts [])
      ∙ ap (λ o. not (active o now)) (lookup-after_empty channel attempts),
  ground (
    arith,
    try_cooldown-active channel now (after attempts []),
    is_in_cooldown-active channel now (after attempts []),
  ),
)
