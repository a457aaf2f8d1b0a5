-- ===== src/Cli/Session.antt =====
-- cmd/chat-cli/main.go: a session of the input loop.
use snipr.Base.{
  append-nil, All-append, All, ℕ, ◌≡◌, ◌≢◌, refl, ap, ◌∙◌, Bool, true, false, not, ◌&&◌, List, [],
  ◌∷◌, ◌++◌, map, arith, if◌then◌else◌, Option, none, some, Bool-cases, inl, inr,
}
use snipr.Cli.{
  make_clip, show_status, simulate, show_elastic, show_db, list_channels, print, changed,
  clip_command, usage_clip, helix_not_configured, join_failed, joined, part_failed, left_channel,
  other, Command, Event, Line, Output, Shell, View, command_of, execute, on_parts, on_input,
  on_event, loop, panic, stop, toggle_chat, add_channel, part_channel, signal, typed,
}
use snipr.Ingest.Client.Membership.{Agrees, join-Agrees, part-Agrees}
use snipr.Ingest.Client.{Client, ClientError, join, part}
use snipr.Twitch.{is_configured}
use snipr.Text.{Text, fields, fields_from, is_space, trim_space, trim_left, trim_right}

-- The command that an event gives, `stop` for a signal, and none for a blank line.
abbrev first_command : (ℕ → ℕ) → List Text → Option Command
first_command lower [] = none
first_command lower (p ∷ args) = some (command_of (map lower p))

unfoldable pub command_in : (ℕ → ℕ) → Event → Option Command
unfolding command_of fields trim_space
command_in lower signal = some stop
command_in lower (typed raw) = first_command lower (fields (trim_space raw))

abbrev is_stop : Option Command → Bool
is_stop (some stop) = true
is_stop _ = false

abbrev is_toggle : Option Command → Bool
is_toggle (some toggle_chat) = true
is_toggle _ = false

-- The events up to the first that stops the program, that one included.
unfoldable pub heard : (ℕ → ℕ) → List Event → List Event
unfolding command_in
heard lower [] = []
heard lower (e ∷ es) =
    let rest = heard lower es in if is_stop (command_in lower e) then e ∷ [] else e ∷ rest

-- Whether an event stops the program, and whether chat is shown after the events.
unfoldable pub stopped : (ℕ → ℕ) → List Event → Bool
unfolding command_in
stopped lower [] = false
stopped lower (e ∷ es) =
    let rest = stopped lower es in if is_stop (command_in lower e) then true else rest

unfoldable pub toggled : (ℕ → ℕ) → Bool → List Event → Bool
unfolding command_in
toggled lower b [] = b
toggled lower b (e ∷ es) = toggled lower (if is_toggle (command_in lower e) then not b else b) es

fields_from-some : (c : ℕ) (cur s : Text) → fields_from (c ∷ cur) s ≢ []
unfolding fields_from
fields_from-some c cur [] h = cc
fields_from-some c cur (x ∷ s) h = elim (Bool-cases (is_space x)) [
  | inl space ↦ ground (arith, h, space)
  | inr word ↦ fields_from-some c (cur ++ x ∷ []) s (rw (fields_from, word) at h)
]

abbrev IsWord : Text → Type 0
IsWord [] = Unit
IsWord (c ∷ s) = is_space c ≡ false

trim_left-IsWord : (s : Text) → IsWord (trim_left is_space s)
unfolding trim_left
trim_left-IsWord [] = tt
trim_left-IsWord (c ∷ s) = elim (Bool-cases (is_space c)) [
  | inl space ↦ rw space (trim_left-IsWord s)
  | inr word ↦ rw word word
]

trim_right-IsWord : (s : Text) → IsWord s → IsWord (trim_right is_space s)
unfolding trim_right
trim_right-IsWord [] h = tt
trim_right-IsWord (c ∷ s) h = ground (arith, h)

fields-some : (c : ℕ) (s : Text) → is_space c ≡ false → fields (c ∷ s) ≢ []
unfolding fields fields_from
fields-some c s h e = fields_from-some c [] s (rw (fields_from, h) at e)

-- Steps: what an event may do to the state, by the command that it gives.
abbrev is_panic : {F : Type 0} → Output F → Bool
is_panic panic = true
is_panic _ = false

abbrev Steps : {F : Type 0} → Shell → Option Command → Shell × List (Output F) → Type 0
Steps s k (s', out) =
    (s'.running ≡ (s.running && not (is_stop k)))
    × (s'.show_chat ≡ (if is_toggle k then not s.show_chat else s.show_chat))
    × (Agrees s.client → Agrees s'.client)
    × All (λ o. is_panic o ≡ false) out

-- Commands that leave the loop and the display alone.
abbrev IsPlain : Command → Type 0
IsPlain k = (is_stop (some k) ≡ false) × (is_toggle (some k) ≡ false)

changed-Steps :
    {F : Type 0} (failed : ClientError → Line F) (done : Line F) (k : Command) (s : Shell)
    (r : Client × Option ClientError)
    → IsPlain k
    → (Agrees s.client → Agrees r.0)
    → Steps s (some k) (changed failed done s r)
changed-Steps failed done k s (c, none) (p, q) h =
    (ground (arith, p), ground (arith, q), h, (refl, tt))
changed-Steps failed done k s (c, some e) (p, q) h =
    (ground (arith, p), ground (arith, q), h, (refl, tt))

printed-Steps :
    {F : Type 0} (line : Line F) (k : Command) (s : Shell)
    → IsPlain k
    → Steps s (some k) (s, print line ∷ [])
printed-Steps line k s (p, q) = (ground (arith, p), ground (arith, q), λ h. h, (refl, tt))

clip_command-Steps :
    {F : Type 0} (v : View F) (args : List Text) (s : Shell)
    → Steps s (some make_clip) (s, clip_command v args)
clip_command-Steps {F = F} v [] s = printed-Steps {F = F} usage_clip make_clip s (refl, refl)
clip_command-Steps {F = F} v (ch ∷ args) s = elim (Bool-cases (is_configured v.helix)) [
  | inl there ↦ rw there (ground arith, refl, λ h. h, (refl, tt))
  | inr missing ↦ rw missing (printed-Steps {F = F} helix_not_configured make_clip s (refl, refl))
]

execute-Steps :
    {F : Type 0} (lower : ℕ → ℕ) (v : View F) (k : Command) (args : List Text) (s : Shell)
    → Steps s (some k) (execute lower v k args s)
unfolding execute
execute-Steps lower v toggle_chat args s = (ground arith, refl, λ h. h, (refl, tt))
execute-Steps lower v make_clip args s = clip_command-Steps v args s
execute-Steps lower v show_status args s = (ground arith, refl, λ h. h, (refl, tt))
execute-Steps lower v simulate args s = (ground arith, refl, λ h. h, (refl, (refl, tt)))
execute-Steps lower v show_elastic args s = (ground arith, refl, λ h. h, (refl, tt))
execute-Steps lower v show_db args s = (ground arith, refl, λ h. h, (refl, tt))
execute-Steps lower v add_channel [] s = (ground arith, refl, λ h. h, (refl, tt))
execute-Steps lower v add_channel (arg ∷ args) s =
    changed-Steps join_failed (joined arg) add_channel s (join v.write_fails lower arg s.client)
      (refl, refl) (λ h. join-Agrees s.client h v.write_fails lower arg)
execute-Steps lower v part_channel [] s = (ground arith, refl, λ h. h, (refl, tt))
execute-Steps lower v part_channel (arg ∷ args) s =
    changed-Steps part_failed (left_channel arg) part_channel s
      (part v.write_fails lower arg s.client) (refl, refl)
      (λ h. part-Agrees s.client h v.write_fails lower arg)
execute-Steps lower v list_channels args s = (ground arith, refl, λ h. h, (refl, tt))
execute-Steps lower v stop args s = (ground arith, refl, λ h. h, tt)
execute-Steps lower v (other cmd) args s = (ground arith, refl, λ h. h, (refl, tt))

on_parts-Steps :
    {F : Type 0} (lower : ℕ → ℕ) (v : View F) (parts : List Text) (s : Shell)
    → parts ≢ []
    → Steps s (first_command lower parts) (on_parts lower v parts s)
on_parts-Steps lower v [] s h = absurd (h refl)
on_parts-Steps lower v (p ∷ args) s h = execute-Steps lower v (command_of (map lower p)) args s

on_input-Steps :
    {F : Type 0} (lower : ℕ → ℕ) (v : View F) (input : Text) (s : Shell)
    → IsWord input
    → Steps s (first_command lower (fields input)) (on_input lower v input s)
unfolding fields fields_from
on_input-Steps lower v [] s h = (ground arith, refl, λ h. h, tt)
on_input-Steps lower v (c ∷ input) s h =
    on_parts-Steps lower v (fields (c ∷ input)) s (fields-some c input h)

on_event-Steps :
    {F : Type 0} (lower : ℕ → ℕ) (v : View F) (e : Event) (s : Shell)
    → Steps s (command_in lower e) (on_event lower v e s)
unfolding on_event command_in trim_space
on_event-Steps lower v signal s = (ground arith, refl, λ h. h, (refl, tt))
on_event-Steps lower v (typed raw) s =
    on_input-Steps lower v (trim_space raw) s
      (trim_right-IsWord (trim_left is_space raw) (trim_left-IsWord raw))

-- What a session leaves: it runs on unless an event stopped it, the display of chat follows the
-- toggles heard, the channels agree with the lines sent if they did, and nothing panicked.
abbrev pub Ends : {F : Type 0} → (ℕ → ℕ) → List Event → Shell → Shell × List (Output F) → Type 0
Ends lower es s (s', out) =
    (s'.running ≡ not (stopped lower es))
    × (s'.show_chat ≡ toggled lower s.show_chat (heard lower es))
    × (Agrees s.client → Agrees s'.client)
    × All (λ o. is_panic o ≡ false) out

loop_stopped :
    {F : Type 0} (lower : ℕ → ℕ) (es : List (View F × Event)) (s : Shell)
    → s.running ≡ false
    → loop lower es s ≡ (s, [])
unfolding loop
loop_stopped lower [] s h = refl
loop_stopped lower ((v, e) ∷ es) s h = rw h refl

loop_step :
    {F : Type 0} (lower : ℕ → ℕ) (v : View F) (e : Event) (es : List (View F × Event)) (s : Shell)
    → s.running ≡ true
    → loop lower ((v, e) ∷ es) s ≡ (
      (loop lower es (on_event lower v e s).0).0,
      (on_event lower v e s).1 ++ (loop lower es (on_event lower v e s).0).1,
    )
unfolding loop
loop_step lower v e es s h = ground arith

module _ {F : Type 0} (lower : ℕ → ℕ) (e : Event) (es : List Event) (s s1 s2 : Shell)
    (out rest : List (Output F)) where
  stop-Ends :
      s.running ≡ true
      → is_stop (command_in lower e) ≡ true
      → Steps s (command_in lower e) (s1, out)
      → Ends lower (e ∷ es) s (s1, out ++ [])
  unfolding heard stopped toggled
  stop-Ends h stops (p, q, r, u) =
      rw stops (p ∙ ground (arith, h, stops), q, r, rw (append-nil out) u)

  step-Ends :
      s.running ≡ true
      → is_stop (command_in lower e) ≡ false
      → Steps s (command_in lower e) (s1, out)
      → Ends lower es s1 (s2, rest)
      → Ends lower (e ∷ es) s (s2, out ++ rest)
  unfolding heard stopped toggled
  step-Ends h goes (p, q, r, u) (p', q', r', u') = rw goes (
    p',
    q' ∙ ap (λ b. toggled lower b (heard lower es)) q,
    λ k. r' (r k),
    All-append _ out rest u u',
  )

-- A session of a running program, whatever is typed, whatever the other parts show and whatever
-- the connection refuses: it runs until the first `/stop` (or one of its other names) or signal and handles nothing behind it; chat is shown
-- as the toggles in front of that say; a channel counts as joined as the lines sent say, where it did so at first; and
-- no line typed, blank ones included, makes the loop panic.
pub loop-Ends :
    {F : Type 0} (lower : ℕ → ℕ) (es : List (View F × Event)) (s : Shell)
    → s.running ≡ true
    → Ends lower (map (λ x. x.1) es) s (loop lower es s)
unfolding loop heard stopped toggled
loop-Ends lower [] s h = (h, refl, λ h. h, tt)
loop-Ends lower ((v, e) ∷ es) s h =
    let s1 = (on_event lower v e s).0 in
    let st = on_event-Steps lower v e s in
    let step = loop_step lower v e es s h in
    elim (Bool-cases (is_stop (command_in lower e))) [
      | inl stops ↦
          let over = loop_stopped lower es s1 (st.0 ∙ ground (arith, h, stops)) in
          rw (step, over) (stop-Ends lower e (map (λ x. x.1) es) s s1 s1 _ [] h stops st)
      | inr goes ↦ rw step (
          step-Ends lower e (map (λ x. x.1) es) s s1 (loop lower es s1).0 _ _ h goes st
            (loop-Ends lower es s1 (st.0 ∙ ground (arith, h, goes))))
    ]
