-- ===== src/Features/Monitor/Spacing.antt =====
-- The times of the windows of a channel.
use snipr.Base.{
  subst, ℕ, ◌≡◌, ◌≢◌, refl, false, Option, none, some, List, [], ◌∷◌, ◌++◌, if◌then◌else◌, arith,
  ◌∙◌, sym, Bool-cases, inl, inr, ltb→le,
}
use snipr.Base.Int.{ℤ, pos, ltb_ℤ, ◌+ℤ◌, ◌≤ℤ◌, int_laws}
use snipr.Features.Compute.{BufferedMessage}
use snipr.Features.Monitor.{
  Monitor, new_monitor, start_unless, Window, window_of, flush_channel, flush_ready, Event, chat,
  tick, step, run, batch_interval,
}
use snipr.Text.{eq_text_refl, Text, eq_text, eq_text_iff}
use snipr.Text.Map.{Map, lookup, get_or, lookup-insert}
use snipr.Time.{sub, sub_below}

-- The windows of one channel.
abbrev pub windows_of : Text → List Window → List Window
windows_of c [] = []
windows_of c (w ∷ ws) = if eq_text w.channel c then w ∷ windows_of c ws else windows_of c ws

-- From instant `s` on, and up to `t`: the windows hold messages, last 24 seconds or more, and none
-- begins before the one in front of it ends.
abbrev pub Chain : ℤ → List Window → ℤ → Type 0
Chain s [] t = s ≤ℤ t
Chain s (w ∷ ws) t =
    (s ≤ℤ w.start) × (w.start +ℤ pos batch_interval ≤ℤ w.end) × (w.msgs ≢ []) × Chain w.end ws t

pub Chain-weaken : (s s' : ℤ) (ws : List Window) (t : ℤ) → s ≤ℤ s' → Chain s' ws t → Chain s ws t
Chain-weaken s s' [] t h k = omega arith
Chain-weaken s s' (w ∷ ws) t h k = (omega arith, k.1, k.2, k.3)

Chain-append :
    (s : ℤ) (ws : List Window) (t : ℤ) (vs : List Window) (u : ℤ)
    → Chain s ws t
    → Chain t vs u
    → Chain s (ws ++ vs) u
Chain-append s [] t vs u h k = Chain-weaken s t vs u h k
Chain-append s (w ∷ ws) t vs u h k = (h.0, h.1, h.2, Chain-append w.end ws t vs u h.3 k)

-- From one value of `batchStart[channel]` to another, while the windows are published.
abbrev Runs : Option ℤ → List Window → Option ℤ → Type 0
Runs none ws none = ws ≡ []
Runs none ws (some t) = (s : ℤ) × Chain s ws t
Runs (some s) ws none = ⊥
Runs (some s) ws (some t) = Chain s ws t

Runs-append :
    (o : Option ℤ) (ws : List Window) (p : Option ℤ) (vs : List Window) (q : Option ℤ)
    → Runs o ws p
    → Runs p vs q
    → Runs o (ws ++ vs) q
Runs-append none ws none vs none h k = rw (h, k)
Runs-append none ws none vs (some t) h k = rw h k
Runs-append none ws (some t) vs none h k = absurd k
Runs-append none ws (some t) vs (some u) h k = (h.0, Chain-append h.0 ws t vs u h.1 k)
Runs-append (some s) ws none vs q h k = absurd h
Runs-append (some s) ws (some t) vs none h k = absurd k
Runs-append (some s) ws (some t) vs (some u) h k = Chain-append s ws t vs u h k

windows_of-append :
    (c : Text) (ws vs : List Window) → windows_of c (ws ++ vs) ≡ windows_of c ws ++ windows_of c vs
windows_of-append c [] vs = refl
windows_of-append c (w ∷ ws) vs = ground (arith, windows_of-append c ws vs)

abbrev start_of : Text → Monitor → Option ℤ
start_of c m = lookup c m.batch_start

long_enough :
    (now start : ℤ)
    → ltb_ℤ (sub now start) (pos batch_interval) ≡ false
    → start +ℤ pos batch_interval ≤ℤ now
long_enough now start h =
    omega (int_laws, ltb→le _ _ (sym (sub_below now start batch_interval (omega arith)) ∙ h))

module _ (now : ℤ) (k c : Text) where
  window_of-Chain :
      (start : ℤ) (buf : List BufferedMessage)
      → start +ℤ pos batch_interval ≤ℤ now
      → Chain start (windows_of k (window_of k start now buf)) now
  window_of-Chain start [] h = omega int_laws
  window_of-Chain start (b ∷ buf) h = rw (eq_text_refl k) (omega arith, h, λ e. cc, omega arith)

  windows_of_other :
      (start : ℤ) (buf : List BufferedMessage)
      → eq_text k c ≡ false
      → windows_of c (window_of k start now buf) ≡ []
  windows_of_other start [] h = refl
  windows_of_other start (b ∷ buf) h = rw h

Runs-idle : (o : Option ℤ) → Runs o [] o
Runs-idle none = refl
Runs-idle (some s) = omega arith

flush_self-Runs :
    (now : ℤ) (k : Text) (o : Option ℤ) (m : Monitor)
    → start_of k m ≡ o
    → Runs o (windows_of k (flush_channel now k o m).1) (start_of k (flush_channel now k o m).0)
unfolding flush_channel
flush_self-Runs now k none m e = rw e refl
flush_self-Runs now k (some s) m e = elim (Bool-cases (ltb_ℤ (sub now s) (pos batch_interval))) [
  | inl early ↦ rw early (rw e (omega arith))
  | inr due ↦ rw due (
      rw (lookup-insert k k now m.batch_start, eq_text_refl k)
        (window_of-Chain now k k s (get_or k [] m.buffers) (long_enough now s due)))
]

flush_other-Runs :
    (now : ℤ) (k c : Text) (o : Option ℤ) (m : Monitor)
    → eq_text k c ≡ false
    → Runs
        (start_of c m)
        (windows_of c (flush_channel now k o m).1)
        (start_of c (flush_channel now k o m).0)
unfolding flush_channel
flush_other-Runs now k c none m h = Runs-idle (start_of c m)
flush_other-Runs now k c (some s) m h = elim (Bool-cases (ltb_ℤ (sub now s) (pos batch_interval))) [
  | inl early ↦ rw early (Runs-idle (start_of c m))
  | inr due ↦ rw due (
      rw
        (
          lookup-insert k c now m.batch_start,
          h,
          windows_of_other now k c s (get_or k [] m.buffers) h,
        )
        (Runs-idle (start_of c m)))
]

flush_channel-Runs :
    (now : ℤ) (k c : Text) (m : Monitor)
    → Runs
        (start_of c m)
        (windows_of c (flush_channel now k (lookup k m.batch_start) m).1)
        (start_of c (flush_channel now k (lookup k m.batch_start) m).0)
flush_channel-Runs now k c m = elim (Bool-cases (eq_text k c)) [
  | inl same ↦
      subst
        (λ j.
          Runs (start_of j m) (windows_of j (flush_channel now k (lookup k m.batch_start) m).1)
            (start_of j (flush_channel now k (lookup k m.batch_start) m).0))
        ((eq_text_iff k c).0 same) (flush_self-Runs now k (lookup k m.batch_start) m refl)
  | inr other ↦ flush_other-Runs now k c (lookup k m.batch_start) m other
]

flush_ready-Runs :
    (now : ℤ) (ks : List Text) (m : Monitor) (c : Text)
    → Runs
        (start_of c m)
        (windows_of c (flush_ready now ks m).1)
        (start_of c (flush_ready now ks m).0)
unfolding flush_ready
flush_ready-Runs now [] m c = Runs-idle (start_of c m)
flush_ready-Runs now (k ∷ ks) m c =
    let one = flush_channel now k (lookup k m.batch_start) m in
    let rest = flush_ready now ks one.0 in
    rw (windows_of-append c one.1 rest.1) (
      Runs-append (start_of c m) (windows_of c one.1) (start_of c one.0) (windows_of c rest.1)
        (start_of c rest.0) (flush_channel-Runs now k c m) (flush_ready-Runs now ks one.0 c))

start_unless-Runs :
    (o : Option ℤ) (k c : Text) (now : ℤ) (starts : Map ℤ)
    → lookup k starts ≡ o
    → Runs (lookup c starts) [] (lookup c (start_unless o k now starts))
start_unless-Runs (some s) k c now starts e = Runs-idle (lookup c starts)
start_unless-Runs none k c now starts e = elim (Bool-cases (eq_text k c)) [
  | inl same ↦
      rw (lookup-insert k c now starts, same)
        (rw (← (eq_text_iff k c).0 same) (rw e (now, omega arith)))
  | inr other ↦ rw (lookup-insert k c now starts, other) (Runs-idle (lookup c starts))
]

step-Runs :
    (lower : ℕ → ℕ) (e : Event) (m : Monitor) (c : Text)
    → Runs (start_of c m) (windows_of c (step lower e m).1) (start_of c (step lower e m).0)
unfolding step
step-Runs lower (tick now ks) m c = flush_ready-Runs now ks m c
step-Runs lower (chat clock msg) m c =
    start_unless-Runs (lookup msg.channel m.batch_start) msg.channel c _ m.batch_start refl

run-Runs :
    (lower : ℕ → ℕ) (es : List Event) (m : Monitor) (c : Text)
    → Runs (start_of c m) (windows_of c (run lower es m).1) (start_of c (run lower es m).0)
unfolding run
run-Runs lower [] m c = Runs-idle (start_of c m)
run-Runs lower (e ∷ es) m c =
    let one = step lower e m in
    let rest = run lower es one.0 in
    rw (windows_of-append c one.1 rest.1) (
      Runs-append (start_of c m) (windows_of c one.1) (start_of c one.0) (windows_of c rest.1)
        (start_of c rest.0) (step-Runs lower e m c) (run-Runs lower es one.0 c))

Chain-of-Runs : (ws : List Window) (o : Option ℤ) → Runs none ws o → (s t : ℤ) × Chain s ws t
Chain-of-Runs ws none h = (pos 0, pos 0, rw h (omega arith))
Chain-of-Runs ws (some t) h = (h.0, t, h.1)

-- From a new monitor, for every channel, whatever messages and ticks come: each window published
-- for it holds at least one message and lasts at least 24 seconds, and none begins before the one in front of it ends.
pub run-Chain :
    (lower : ℕ → ℕ) (es : List Event) (c : Text)
    → (s t : ℤ) × Chain s (windows_of c (run lower es new_monitor).1) t
run-Chain lower es c =
    Chain-of-Runs (windows_of c (run lower es new_monitor).1)
      (start_of c (run lower es new_monitor).0) (unfold lookup in run-Runs lower es new_monitor c)
