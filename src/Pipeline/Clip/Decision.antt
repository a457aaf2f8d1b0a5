-- ===== src/Pipeline/Clip/Decision.antt =====
-- When a window leads to a clip, and what that does to the cooldowns.
use snipr.Base.{
  not, ◌≡◌, refl, Bool, true, false, ◌&&◌, Option, none, some, if◌then◌else◌, Result, ok, err, ap,
  ◌∙◌, Bool-cases, inl, inr,
}
use snipr.Base.Int.{ℤ, pos, ◌+ℤ◌}
use snipr.Float.{Float64}
use snipr.Models.{FeatureVector, values}
use snipr.Pipeline.Clip.{
  with_predictor, predicted, with_helix, Predictor, Helix, Consumers, Outcome, no_model,
  predict_failed, no_hype, in_cooldown, simulated, user_failed, clip_failed, created, Clock,
  create_clip, clip_with, clip_created, user_found, on_features, decide, index_clip_of,
}
use snipr.Pipeline.Cooldown.{clip_cooldown, active}
use snipr.Text.{Text, eq_text}
use snipr.Text.Map.{lookup, insert, lookup-insert}
use snipr.Pipeline.Cooldown.Spacing.{try_let_through, try_refused}
use snipr.Twitch.{ClipResponse}

-- The window was hype and its channel free: a clip was asked for, or a simulated one made.
abbrev pub attempted : Outcome → Bool
attempted no_model = false
attempted predict_failed = false
attempted no_hype = false
attempted in_cooldown = false
attempted simulated = true
attempted user_failed = true
attempted clip_failed = true
attempted (created _) = true

module _ (fl : Float64) {S : Type 0} (api : Helix S) (unix : ℤ → Text) where
  open fl use {F, decimal, leb as leb_F}

  record Attempt (c : Consumers F S) (r : Consumers F S × Outcome) : Type 0 where
    tried : attempted r.1 ≡ true
    same_cooldowns : r.0.cooldowns ≡ c.cooldowns
    same_prob : r.0.last_prob ≡ c.last_prob

  clip_created-Attempt :
      (clock : Clock) (fv : FeatureVector F) (prob : F) (c : Consumers F S)
      (r : S × Result Text ClipResponse)
      → Attempt c (clip_created fl api unix clock fv prob c r)
  clip_created-Attempt clock fv prob c (h, ok r) =
      unfold index_clip_of in record { tried = refl; same_cooldowns = refl; same_prob = refl }
  clip_created-Attempt clock fv prob c (h, err _) = record {
    tried = refl;
    same_cooldowns = refl;
    same_prob = refl;
  }

  user_found-Attempt :
      (clock : Clock) (fv : FeatureVector F) (prob : F) (c : Consumers F S)
      (r : S × Result Text Text)
      → Attempt c (user_found fl api unix clock fv prob c r)
  user_found-Attempt clock fv prob c (h, ok user) =
      let a =
        clip_created-Attempt clock fv prob (with_helix fl api unix h c) (api.create_clip user h) in
      record { tried = a.tried; same_cooldowns = a.same_cooldowns; same_prob = a.same_prob }
  user_found-Attempt clock fv prob c (h, err _) = record {
    tried = refl;
    same_cooldowns = refl;
    same_prob = refl;
  }

  clip_with-Attempt :
      (clock : Clock) (fv : FeatureVector F) (prob : F) (c : Consumers F S) (o : Option S)
      → Attempt c (clip_with fl api unix clock fv prob c o)
  clip_with-Attempt clock fv prob c none =
      unfold index_clip_of in record { tried = refl; same_cooldowns = refl; same_prob = refl }
  clip_with-Attempt clock fv prob c (some h) = elim (Bool-cases (api.is_configured h)) [
    | inl set_up ↦ rw set_up (user_found-Attempt clock fv prob c (api.get_user_id fv.channel h))
    | inr bare ↦
        rw bare
          (unfold index_clip_of in record { tried = refl; same_cooldowns = refl; same_prob = refl })
  ]

  create_clip-Attempt :
      (clock : Clock) (fv : FeatureVector F) (prob : F) (c : Consumers F S)
      → Attempt c (create_clip fl api unix clock fv prob c)
  unfolding create_clip
  create_clip-Attempt clock fv prob c = clip_with-Attempt clock fv prob c c.helix

  -- A ready predictor gave the window this probability.
  pub record IsScored (clock : Clock) (fv : FeatureVector F) (c : Consumers F S) (prob : F)
      : Type 0 where
    pub predictor : Predictor F
    pub loaded : c.predictor ≡ some predictor
    pub ready : predictor.ready ≡ true
    pub predicted : predictor.predict_proba (values fv) ≡ ok prob

  on_features-with_predictor :
      (clock : Clock) (fv : FeatureVector F) (c : Consumers F S)
      → on_features fl api unix clock fv c ≡ with_predictor fl api unix clock fv c c.predictor
  unfolding on_features
  on_features-with_predictor clock fv c = refl

  pub on_features-predicted :
      (clock : Clock) (fv : FeatureVector F) (c : Consumers F S) (prob : F)
      → IsScored clock fv c prob
      → on_features fl api unix clock fv c ≡ predicted fl api unix clock fv c (ok prob)
  on_features-predicted clock fv c prob s =
      on_features-with_predictor clock fv c
      ∙ ap (with_predictor fl api unix clock fv c) s.loaded
      ∙ rw (s.ready, s.predicted) refl

  pub decide-hype : (prob : F) → leb_F (decimal 7 1) prob ≡ true → decide fl api unix prob ≡ 1
  unfolding decide
  decide-hype prob h = rw h

  pub decide-calm : (prob : F) → leb_F (decimal 7 1) prob ≡ false → decide fl api unix prob ≡ 0
  unfolding decide
  decide-calm prob h = rw h

  -- What a window with this probability makes of the state: a clip is attempted exactly when the
  -- probability is 0.7 or more and the channel is not in its cooldown, the cooldown of the channel
  -- is then set anew, and the last probability of the channel is this one.
  abbrev pub Settles :
      Clock → FeatureVector F → Consumers F S → F → Text → Consumers F S × Outcome → Type 0
  Settles clock fv c prob k r =
      (attempted r.1 ≡ (
        leb_F (decimal 7 1) prob && not (active (lookup fv.channel c.cooldowns) clock.at_cooldown)))
      × (lookup k r.0.cooldowns ≡ (
          if attempted r.1 && eq_text fv.channel k
          then some (clock.at_cooldown +ℤ pos clip_cooldown)
          else lookup k c.cooldowns))
      × (lookup k r.0.last_prob
          ≡ (if eq_text fv.channel k then some prob else lookup k c.last_prob))

  module _ (clock : Clock) (fv : FeatureVector F) (c : Consumers F S) (prob : F) (k : Text) where
    noted : Consumers F S
    noted = record c { last_prob = insert fv.channel prob c.last_prob }

    free-Settles :
        leb_F (decimal 7 1) prob ≡ true
        → active (lookup fv.channel c.cooldowns) clock.at_cooldown ≡ false
        → (r : Consumers F S × Outcome)
        → Attempt
            (record noted {
              cooldowns = insert fv.channel (clock.at_cooldown +ℤ pos clip_cooldown) c.cooldowns;
            })
            r
        → Settles clock fv c prob k r
    unfolding noted
    free-Settles hype free r a = (
      rw (a.tried, hype, free) refl,
      rw (a.tried, a.same_cooldowns)
          (lookup-insert fv.channel k (clock.at_cooldown +ℤ pos clip_cooldown) c.cooldowns),
      rw a.same_prob (lookup-insert fv.channel k prob c.last_prob),
    )

    -- Of a window with a probability: a clip is attempted exactly when the probability is 0.7 or more
    -- and the channel is not in its cooldown; an attempt, failed or not, starts the cooldown of this
    -- channel and touches no other one; and the channel's last probability is the new one.
    pub on_features-Settles :
        IsScored clock fv c prob → Settles clock fv c prob k (on_features fl api unix clock fv c)
    on_features-Settles scored =
        rw (on_features-predicted clock fv c prob scored)
          (elim (Bool-cases (leb_F (decimal 7 1) prob)) [
            | inl hype ↦
                elim (Bool-cases (active (lookup fv.channel c.cooldowns) clock.at_cooldown)) [
                  | inl busy ↦ rw (decide-hype prob hype) (
                      rw (try_refused fv.channel clock.at_cooldown c.cooldowns busy)
                        (rw (hype, busy) refl, refl, lookup-insert fv.channel k prob c.last_prob))
                  | inr free ↦ rw (decide-hype prob hype) (
                      rw (try_let_through fv.channel clock.at_cooldown c.cooldowns free) (
                        unfold noted in
                        free-Settles hype free _ (create_clip-Attempt clock fv prob _)))
                ]
            | inr calm ↦
                rw (decide-calm prob calm)
                  (rw calm refl, refl, lookup-insert fv.channel k prob c.last_prob)
          ])

  abbrev Unchanged : Consumers F S → Consumers F S × Outcome → Type 0
  Unchanged c r = (r.0 ≡ c) × (attempted r.1 ≡ false)

  predicted-Unchanged :
      (clock : Clock) (fv : FeatureVector F) (c : Consumers F S) (p : Predictor F)
      (r : Result Text F)
      → c.predictor ≡ some p
      → p.ready ≡ true
      → p.predict_proba (values fv) ≡ r
      → ((prob : F) → ¬ IsScored clock fv c prob)
      → Unchanged c (predicted fl api unix clock fv c r)
  predicted-Unchanged clock fv c p (err _) loaded ready e unscored = (refl, refl)
  predicted-Unchanged clock fv c p (ok prob) loaded ready e unscored =
      absurd
        (unscored prob (record { predictor = p; loaded = loaded; ready = ready; predicted = e }))

  with_predictor-Unchanged :
      (clock : Clock) (fv : FeatureVector F) (c : Consumers F S) (o : Option (Predictor F))
      → c.predictor ≡ o
      → ((prob : F) → ¬ IsScored clock fv c prob)
      → Unchanged c (with_predictor fl api unix clock fv c o)
  with_predictor-Unchanged clock fv c none e unscored = (refl, refl)
  with_predictor-Unchanged clock fv c (some p) e unscored = elim (Bool-cases p.ready) [
    | inl ready ↦
        rw ready
          (predicted-Unchanged clock fv c p (p.predict_proba (values fv)) e ready refl unscored)
    | inr idle ↦ rw idle (refl, refl)
  ]

  -- With no predictor, one that is not ready, or one that fails, a window changes nothing: no clip
  -- is attempted, and no cooldown and no last probability is touched.
  pub on_features_idle :
      (clock : Clock) (fv : FeatureVector F) (c : Consumers F S)
      → ((prob : F) → ¬ IsScored clock fv c prob)
      → ((on_features fl api unix clock fv c).0 ≡ c)
        × (attempted (on_features fl api unix clock fv c).1 ≡ false)
  on_features_idle clock fv c unscored =
      rw (on_features-with_predictor clock fv c)
        (with_predictor-Unchanged clock fv c c.predictor refl unscored)
