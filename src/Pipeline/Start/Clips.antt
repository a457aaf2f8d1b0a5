-- ===== src/Pipeline/Start/Clips.antt =====
-- The clips of a channel, however the deliveries are mixed.
use snipr.Base.{
  ℕ, ◌≡◌, refl, ◌⊎◌, inl, inr, ap, ◌∙◌, true, false, ◌&&◌, Option, none, some, List, [], ◌∷◌,
  if◌then◌else◌, Result, ok, err, arith, Bool-cases, sym,
}
use snipr.Base.Int.{ℤ, pos, ◌+ℤ◌}
use snipr.Float.{Float64}
use snipr.Models.{FeatureVector, values}
use snipr.Pipeline.Clip.{Clock, Consumers, Helix, Outcome, Predictor, on_features}
use snipr.Pipeline.Clip.Decision.{
  IsScored, Settles, attempted, on_features-Settles, on_features_idle,
}
use snipr.Pipeline.Cooldown.{active, clip_cooldown}
use snipr.Pipeline.Cooldown.Spacing.{Spaced, Spaced-cons}
use snipr.Pipeline.Start.{
  Delivery, Parts, to_sqlite, to_features, to_elastic, to_predict, poll, deliver,
}
use snipr.Text.{Text, eq_text, eq_text_iff}
use snipr.Text.Map.{lookup}

module _ (fl : Float64) {S : Type 0} (api : Helix S) (unix : ℤ → Text) where
  open fl use {F}

  same_predictor :
      (clock : Clock) (fv : FeatureVector F) (c : Consumers F S) (p : Predictor F) (prob : F)
      → c.predictor ≡ some p
      → (s : IsScored fl api unix clock fv c prob) → s.predictor ≡ p
  same_predictor clock fv c p prob e s = cc (sym s.loaded ∙ e)

  probability_from :
      (clock : Clock) (fv : FeatureVector F) (c : Consumers F S) (p : Predictor F)
      (r : Result Text F)
      → c.predictor ≡ some p
      → p.ready ≡ true
      → p.predict_proba (values fv) ≡ r
      → ((prob : F) × IsScored fl api unix clock fv c prob)
        ⊎ ((prob : F) → ¬ IsScored fl api unix clock fv c prob)
  probability_from clock fv c p (ok prob) e ready h =
      inl (prob, record { predictor = p; loaded = e; ready = ready; predicted = h })
  probability_from clock fv c p (err _) e ready h = inr (λ prob s. absurd (
      cc (
        ap (λ (q : Predictor F). q.predict_proba (values fv))
            (same_predictor clock fv c p prob e s),
        s.predicted,
        h,
      )))

  probability_or_none :
      (clock : Clock) (fv : FeatureVector F) (c : Consumers F S) (o : Option (Predictor F))
      → c.predictor ≡ o
      → ((prob : F) × IsScored fl api unix clock fv c prob)
        ⊎ ((prob : F) → ¬ IsScored fl api unix clock fv c prob)
  probability_or_none clock fv c none e = inr (λ prob s. absurd (ground (arith, e, s.loaded)))
  probability_or_none clock fv c (some p) e = elim (Bool-cases p.ready) [
    | inl ready ↦ probability_from clock fv c p (p.predict_proba (values fv)) e ready refl
    | inr idle ↦ inr (λ prob s. absurd (
        cc (
          ap (λ (q : Predictor F). q.ready) (same_predictor clock fv c p prob e s),
          s.ready,
          idle,
        )))
  ]

  -- What a window does to the cooldown of a channel, with a probability or without one.
  record Cools (clock : Clock) (fv : FeatureVector F) (c : Consumers F S) (k : Text)
      (r : Consumers F S × Outcome) : Type 0 where
    was_free :
        (attempted r.1 ≡ false) ⊎ (active (lookup fv.channel c.cooldowns) clock.at_cooldown ≡ false)
    cooldown_is : lookup k r.0.cooldowns ≡ (
        if attempted r.1 && eq_text fv.channel k
        then some (clock.at_cooldown +ℤ pos clip_cooldown)
        else lookup k c.cooldowns)

  settled-Cools :
      (clock : Clock) (fv : FeatureVector F) (c : Consumers F S) (k : Text) (prob : F)
      (r : Consumers F S × Outcome)
      → Settles fl api unix clock fv c prob k r
      → Cools clock fv c k r
  settled-Cools clock fv c k prob r (tried, cooldown, _) = record {
    was_free = ground (arith, tried);
    cooldown_is = cooldown;
  }

  idle-Cools :
      (clock : Clock) (fv : FeatureVector F) (c : Consumers F S) (k : Text)
      (r : Consumers F S × Outcome)
      → (r.0 ≡ c) × (attempted r.1 ≡ false)
      → Cools clock fv c k r
  idle-Cools clock fv c k r (same, idle) = record {
    was_free = inl idle;
    cooldown_is = rw (idle, same) refl;
  }

  next-Spaced :
      (clock : Clock) (fv : FeatureVector F) (c : Consumers F S) (k : Text)
      (r : Consumers F S × Outcome) (rest : List ℤ)
      → Cools clock fv c k r
      → Spaced (lookup k r.0.cooldowns) rest
      → Spaced
          (lookup k c.cooldowns)
          (if attempted r.1 && eq_text fv.channel k then clock.at_cooldown ∷ rest else rest)
  next-Spaced clock fv c k r rest cools later =
      elim (Bool-cases (attempted r.1 && eq_text fv.channel k)) [
        | inl tried ↦
            let free : active (lookup k c.cooldowns) clock.at_cooldown ≡ false =
              ground (arith, tried, cools.was_free, eq_text_iff fv.channel k) in
            rw tried (
              Spaced-cons (lookup k c.cooldowns) clock.at_cooldown rest free
                (rw (cools.cooldown_is, tried) at later))
        | inr not_tried ↦ rw not_tried (rw (cools.cooldown_is, not_tried) at later)
      ]

  on_features-Cools :
      (clock : Clock) (fv : FeatureVector F) (c : Consumers F S) (k : Text)
      → Cools clock fv c k (on_features fl api unix clock fv c)
  on_features-Cools clock fv c k =
      let r = on_features fl api unix clock fv c in
      elim (probability_or_none clock fv c c.predictor refl) [
        | inl (prob, scored) ↦
            settled-Cools clock fv c k prob r
              (on_features-Settles fl api unix clock fv c prob k scored)
        | inr unscored ↦
            idle-Cools clock fv c k r (on_features_idle fl api unix clock fv c unscored)
      ]

  -- The instants at which clips of a channel are attempted.
  abbrev pub clip_times : (ℕ → ℕ) → Text → List (Delivery F) → Parts F S → List ℤ
  clip_times lower k [] p = []
  clip_times lower k (to_predict clock fv ∷ ds) p =
      let rest = clip_times lower k ds (deliver fl api unix lower (to_predict clock fv) p) in
      if attempted (on_features fl api unix clock fv p.consumers).1 && eq_text fv.channel k
      then clock.at_cooldown ∷ rest
      else rest
  clip_times lower k (d ∷ ds) p = clip_times lower k ds (deliver fl api unix lower d p)

  clip_times-Spaced :
      (lower : ℕ → ℕ) (k : Text) (ds : List (Delivery F)) (p : Parts F S)
      → Spaced (lookup k p.consumers.cooldowns) (clip_times lower k ds p)
  unfolding deliver
  clip_times-Spaced lower k [] p = tt
  clip_times-Spaced lower k (to_sqlite now d msg ∷ ds) p =
      clip_times-Spaced lower k ds (deliver fl api unix lower (to_sqlite now d msg) p)
  clip_times-Spaced lower k (to_features now clock msg ∷ ds) p =
      clip_times-Spaced lower k ds (deliver fl api unix lower (to_features now clock msg) p)
  clip_times-Spaced lower k (to_elastic now clock msg ∷ ds) p =
      clip_times-Spaced lower k ds (deliver fl api unix lower (to_elastic now clock msg) p)
  clip_times-Spaced lower k (poll now channels ∷ ds) p =
      clip_times-Spaced lower k ds (deliver fl api unix lower (poll now channels) p)
  clip_times-Spaced lower k (to_predict clock fv ∷ ds) p =
      next-Spaced clock fv p.consumers k (on_features fl api unix clock fv p.consumers) _
        (on_features-Cools clock fv p.consumers k)
        (clip_times-Spaced lower k ds (deliver fl api unix lower (to_predict clock fv) p))

  -- However the deliveries to the groups and the ticks are mixed, at whatever times, from no cooldown
  -- of the channel on: the clips attempted for it, simulated and failed ones included, are 30 seconds
  -- or more apart.
  pub run-Spaced :
      (lower : ℕ → ℕ) (k : Text) (ds : List (Delivery F)) (p : Parts F S)
      → lookup k p.consumers.cooldowns ≡ none
      → Spaced none (clip_times lower k ds p)
  run-Spaced lower k ds p h = rw h at (clip_times-Spaced lower k ds p)
