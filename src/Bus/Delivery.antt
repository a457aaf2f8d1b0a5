-- ===== src/Bus/Delivery.antt =====
-- internal/bus/nats.go and internal/features/monitor.go: what a monitor publishes arrives.
use snipr.Base.{
  Option-cases, Bool-cases, ℕ, ◌≡◌, ◌≢◌, refl, sym, Bool, true, false, List, [], ◌∷◌, map, arith,
  All, Option, none, some, inl, inr,
}
use snipr.Base.Int.{int_laws, ℤ, ◌<ℤ◌}
use snipr.Bus.{
  no_json, no_ack, publication, ack, call, Msg, PublishError, on_msg, chat_subject, publish_chat,
  features_subject, features_id, publish_features,
}
use snipr.Bus.Ids.{features_id_iff}
use snipr.Features.Monitor.{Window, Event, new_monitor, run, vectors}
use snipr.Features.Monitor.Spacing.{Chain-weaken, windows_of, Chain, run-Chain}
use snipr.Features.Compute.{compute_window_features}
use snipr.Float.{Float64}
use snipr.Models.{ChatMessage, FeatureVector}
use snipr.Text.{eq_text_refl, Text, eq_text, eq_text_iff}
use snipr.Time.{IsUnixNano}

-- Two windows do not both belong to one channel and end at one instant.
abbrev pub Apart : Window → Window → Type 0
Apart w v = ¬ ((w.channel ≡ v.channel) × (w.end ≡ v.end))

abbrev pub Pairwise {ℓ κ} : {A : Type ℓ} → (A → A → Type κ) → List A → Type (ℓ ⊔ κ)
Pairwise R [] = Unit
Pairwise R (x ∷ xs) = All (R x) xs × Pairwise R xs

Chain-later :
    (c : Text) (t u : ℤ) (ws : List Window)
    → Chain t (windows_of c ws) u
    → All (λ v. v.channel ≡ c → t <ℤ v.end) ws
Chain-later c t u [] h = tt
Chain-later c t u (v ∷ ws) h = elim (Bool-cases (eq_text v.channel c)) [
  | inl hit ↦
      let k = rw hit at h in
      (
        λ e. omega int_laws,
        Chain-later c t u ws (Chain-weaken t v.end (windows_of c ws) u (omega int_laws) k.3),
      )
  | inr miss ↦
      (λ e. absurd (ground (arith, eq_text_iff v.channel c)), Chain-later c t u ws (rw miss at h))
]

Chain-tail :
    (c : Text) (s u : ℤ) (w : Window) (ws : List Window)
    → Chain s (windows_of c (w ∷ ws)) u
    → (t : ℤ) × Chain t (windows_of c ws) u
Chain-tail c s u w ws h = elim (Bool-cases (eq_text w.channel c)) [
  | inl hit ↦ let k = rw hit at h in (w.end, k.3)
  | inr miss ↦ (s, rw miss at h)
]

Apart-later :
    (w : Window) (ws : List Window)
    → All (λ v. v.channel ≡ w.channel → w.end <ℤ v.end) ws
    → All (Apart w) ws
Apart-later w [] h = tt
Apart-later w (v ∷ ws) h =
    (λ (p, q). let k = h.0 (sym p) in ground (arith, k, q), Apart-later w ws h.1)

Chains-Apart :
    (ws : List Window) → ((c : Text) → (s t : ℤ) × Chain s (windows_of c ws) t) → Pairwise Apart ws
Chains-Apart [] h = tt
Chains-Apart (w ∷ ws) h =
    let (s, t, own) = h w.channel in
    let k = rw (eq_text_refl w.channel) at own in
    (
      Apart-later w ws (Chain-later w.channel w.end t ws k.3),
      Chains-Apart ws
          (λ c. let (s, t, k) = h c in let (s', k') = Chain-tail c s t w ws k in (s', t, k')),
    )

window_ids :
    (fl : Float64) (order : List ℕ → List ℕ) (lower : ℕ → ℕ) (w v : Window)
    → IsUnixNano w.end
    → IsUnixNano v.end
    → Apart w v
    → features_id (compute_window_features fl order lower w.channel w.start w.end w.msgs)
      ≢ features_id (compute_window_features fl order lower v.channel v.start v.end v.msgs)
unfolding compute_window_features
window_ids fl order lower w v hw hv k e = k (
    (features_id_iff (compute_window_features fl order lower w.channel w.start w.end w.msgs)
        (compute_window_features fl order lower v.channel v.start v.end v.msgs) hw hv).0
      e)

Apart-ids :
    (fl : Float64) (order : List ℕ → List ℕ) (lower : ℕ → ℕ) (w : Window) (ws : List Window)
    → IsUnixNano w.end
    → All (λ v. IsUnixNano v.end) ws
    → All (Apart w) ws
    → All
        (λ v.
          features_id (compute_window_features fl order lower w.channel w.start w.end w.msgs) ≢ v)
        (map features_id (vectors fl order lower ws))
unfolding vectors
Apart-ids fl order lower w [] hw h k = tt
Apart-ids fl order lower w (v ∷ ws) hw h k =
    (window_ids fl order lower w v hw h.0 k.0, Apart-ids fl order lower w ws hw h.1 k.1)

ids-Distinct :
    (fl : Float64) (order : List ℕ → List ℕ) (lower : ℕ → ℕ) (ws : List Window)
    → All (λ v. IsUnixNano v.end) ws
    → Pairwise Apart ws
    → Pairwise ◌≢◌ (map features_id (vectors fl order lower ws))
unfolding vectors
ids-Distinct fl order lower [] h k = tt
ids-Distinct fl order lower (w ∷ ws) h k =
    (Apart-ids fl order lower w ws h.0 h.1 k.0, ids-Distinct fl order lower ws h.1 k.1)

-- From a new monitor, whatever messages and ticks come, of whatever channels: where all windows end
-- between the years 1678 and 2262, no two of them are published under one id, so the bus
-- takes none for a repetition of another.
pub run-Distinct :
    (fl : Float64) (order : List ℕ → List ℕ) (lower : ℕ → ℕ) (es : List Event)
    → All (λ w. IsUnixNano w.end) (run lower es new_monitor).1
    → Pairwise ◌≢◌ (map features_id (vectors fl order lower (run lower es new_monitor).1))
run-Distinct fl order lower es h =
    ids-Distinct fl order lower (run lower es new_monitor).1 h
      (Chains-Apart (run lower es new_monitor).1 (run-Chain lower es))

-- What publishing `a` did. Either the stream took one message, under the subject and the id, and a
-- subscriber's handler calls the program with `a` and acknowledges; or nothing was published, and
-- the error tells whether JSON or the stream refused.
module _ {A : Type 0} (marshal : A → Option Text) (unmarshal : Text → Option A) where
  abbrev Delivers : Text → Text → Bool → A → Option Msg × Option PublishError → Type 0
  Delivers subject id accepts a (some m, none) =
      (on_msg unmarshal m ≡ call a ∷ ack ∷ [])
      × (m.subject ≡ subject)
      × (m.msg_id ≡ id)
      × (accepts ≡ true)
  Delivers subject id accepts a (none, some no_json) = marshal a ≡ none
  Delivers subject id accepts a (none, some no_ack) = (marshal a ≢ none) × (accepts ≡ false)
  Delivers subject id accepts a _ = ⊥

publication-Delivers :
    {A : Type 0} (marshal : A → Option Text) (unmarshal : Text → Option A)
    → ((a : A) (body : Text) → marshal a ≡ some body → unmarshal body ≡ some a)
    → (subject id : Text) (accepts : Bool) (a : A)
    → Delivers marshal unmarshal subject id accepts a (publication subject id accepts (marshal a))
unfolding on_msg
publication-Delivers marshal unmarshal h subject id accepts a = elim (Option-cases (marshal a)) [
  | inl e ↦ rw e e
  | inr (body, e) ↦ rw e (taken accepts body e)
]
  where
    taken :
        (accepts : Bool) (body : Text)
        → marshal a ≡ some body
        → Delivers marshal unmarshal subject id accepts a
            (publication subject id accepts (some body))
    taken true body e = (rw (h a body e) refl, refl, refl, refl)
    taken false body e = (λ n. absurd (cc), refl)

-- Publishing a chat message, where `unmarshal` reads what `marshal` wrote.
publish_chat-Delivers :
    (marshal : ChatMessage → Option Text) (unmarshal : Text → Option ChatMessage)
    → ((a : ChatMessage) (body : Text) → marshal a ≡ some body → unmarshal body ≡ some a)
    → (accepts : Bool) (msg : ChatMessage)
    → Delivers marshal unmarshal
        (chat_subject msg.channel)
        msg.id
        accepts
        msg
        (publish_chat marshal accepts msg)
unfolding publish_chat
publish_chat-Delivers marshal unmarshal h accepts msg =
    publication-Delivers marshal unmarshal h (chat_subject msg.channel) msg.id accepts msg

-- Publishing a feature vector, where `unmarshal` reads what `marshal` wrote.
publish_features-Delivers :
    {F : Type 0} (marshal : FeatureVector F → Option Text)
    (unmarshal : Text → Option (FeatureVector F))
    → ((a : FeatureVector F) (body : Text) → marshal a ≡ some body → unmarshal body ≡ some a)
    → (accepts : Bool) (fv : FeatureVector F)
    → Delivers marshal unmarshal
        (features_subject fv.channel)
        (features_id fv)
        accepts
        fv
        (publish_features marshal accepts fv)
unfolding publish_features
publish_features-Delivers marshal unmarshal h accepts fv =
    publication-Delivers marshal unmarshal h (features_subject fv.channel) (features_id fv) accepts
      fv
