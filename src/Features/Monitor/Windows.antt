-- ===== src/Features/Monitor/Windows.antt =====
-- Every message lands in one window or stays in the buffer, and the windows of a channel follow one
-- another.
use snipr.Base.{
  ℕ, ◌≡◌, refl, Option, none, some, List, [], ◌∷◌, ◌++◌, if◌then◌else◌, arith, ap, ◌∙◌, sym,
  append_assoc, append-nil,
}
use snipr.Base.Int.{ℤ}
use snipr.Features.Compute.{BufferedMessage}
use snipr.Features.Monitor.{
  Monitor, new_monitor, buffered, on_chat, Window, window_of, flush_channel, flush_ready, Event,
  chat, tick, step, run,
}
use snipr.Text.{Text, eq_text, eq_text_iff}
use snipr.Text.Map.{get_or-insert, lookup, get_or, lookup-insert}

-- The buffer of a channel.
abbrev pub buffer : Text → Monitor → List BufferedMessage
buffer c m = get_or c [] m.buffers

-- The messages in the windows of a channel, in the order of publication.
abbrev pub published : Text → List Window → List BufferedMessage
published c [] = []
published c (w ∷ ws) = (if eq_text w.channel c then w.msgs else []) ++ published c ws

-- The messages of a channel among the events.
abbrev pub received : (ℕ → ℕ) → Text → List Event → List BufferedMessage
received lower c [] = []
received lower c (chat _ msg ∷ es) =
    (if eq_text msg.channel c then buffered lower msg ∷ [] else []) ++ received lower c es
received lower c (tick _ _ ∷ es) = received lower c es

published-append :
    (c : Text) (ws vs : List Window) → published c (ws ++ vs) ≡ published c ws ++ published c vs
published-append c [] vs = refl
published-append c (w ∷ ws) vs = rw (published-append c ws vs, append_assoc)

buffer-on_chat :
    (lower : ℕ → ℕ) (clock : ℤ) (msg : _) (m : Monitor) (c : Text)
    → buffer c (on_chat lower clock msg m)
      ≡ buffer c m ++ (if eq_text msg.channel c then buffered lower msg ∷ [] else [])
unfolding on_chat get_or
buffer-on_chat lower clock msg m c = ground (
  arith,
  lookup-insert msg.channel c (get_or msg.channel [] m.buffers ++ buffered lower msg ∷ [])
      m.buffers,
  eq_text_iff msg.channel c,
  append-nil (get_or c [] m.buffers),
)

published-window_of :
    (c k : Text) (start now : ℤ) (buf : List BufferedMessage)
    → published c (window_of k start now buf) ≡ (if eq_text k c then buf else [])
published-window_of c k start now [] = ground arith
published-window_of c k start now (b ∷ buf) = ground (arith, append-nil (b ∷ buf))

-- A flush of one channel publishes its buffer or keeps it.
published-flush_channel :
    (now : ℤ) (k : Text) (o : Option ℤ) (m : Monitor) (c : Text)
    → published c (flush_channel now k o m).1 ++ buffer c (flush_channel now k o m).0 ≡ buffer c m
unfolding flush_channel
published-flush_channel now k none m c = refl
published-flush_channel now k (some start) m c = ground (
  arith,
  published-window_of c k start now (buffer k m),
  get_or-insert k c [] [] m.buffers,
  eq_text_iff k c,
  append-nil (buffer k m),
)

published-flush_ready :
    (now : ℤ) (ks : List Text) (m : Monitor) (c : Text)
    → published c (flush_ready now ks m).1 ++ buffer c (flush_ready now ks m).0 ≡ buffer c m
unfolding flush_ready
published-flush_ready now [] m c = refl
published-flush_ready now (k ∷ ks) m c =
    let one = flush_channel now k (lookup k m.batch_start) m in
    let rest = flush_ready now ks one.0 in
    ap (λ p. p ++ buffer c rest.0) (published-append c one.1 rest.1)
    ∙ append_assoc (published c one.1) (published c rest.1) (buffer c rest.0)
    ∙ ap (λ b. published c one.1 ++ b) (published-flush_ready now ks one.0 c)
    ∙ published-flush_channel now k (lookup k m.batch_start) m c

published-step :
    (lower : ℕ → ℕ) (e : Event) (es : List Event) (m : Monitor) (c : Text)
    → published c (step lower e m).1 ++ (buffer c (step lower e m).0 ++ received lower c es)
      ≡ buffer c m ++ received lower c (e ∷ es)
unfolding step
published-step lower (chat clock msg) es m c = rw (buffer-on_chat lower clock msg m c, append_assoc)
published-step lower (tick now ks) es m c =
    sym (append_assoc (published c (flush_ready now ks m).1) _ _)
    ∙ ap (λ b. b ++ received lower c es) (published-flush_ready now ks m c)

run-conserves_from :
    (lower : ℕ → ℕ) (es : List Event) (m : Monitor) (c : Text)
    → published c (run lower es m).1 ++ buffer c (run lower es m).0
      ≡ buffer c m ++ received lower c es
unfolding run
run-conserves_from lower [] m c = sym (append-nil (buffer c m))
run-conserves_from lower (e ∷ es) m c =
    let one = step lower e m in
    let rest = run lower es one.0 in
    ap (λ p. p ++ buffer c rest.0) (published-append c one.1 rest.1)
    ∙ append_assoc (published c one.1) (published c rest.1) (buffer c rest.0)
    ∙ ap (λ b. published c one.1 ++ b) (run-conserves_from lower es one.0 c)
    ∙ published-step lower e es m c

-- From a new monitor, for every channel, whatever messages and ticks come in whatever order and
-- whatever order the ticks take the channels in: the messages of the windows published for it, followed by those in its
-- buffer, are the channel's messages, each once and in the order in which they came.
pub run_conserves :
    (lower : ℕ → ℕ) (es : List Event) (c : Text)
    → published c (run lower es new_monitor).1 ++ buffer c (run lower es new_monitor).0
      ≡ received lower c es
run_conserves lower es c = run-conserves_from lower es new_monitor c ∙ unfold get_or lookup in refl
